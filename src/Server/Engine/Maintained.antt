-- ===== src/Server/Engine/Maintained.antt =====
-- crates/nova-server/src/engine.rs: an index on a collection, over the statements that the engine runs.
use nova_db.Base.{
  ℕ, ◌≡◌, refl, sym, ap, ◌∙◌, subst, Bool-cases, inl, inr, List, [], ◌∷◌, Option, none, some,
}
use nova_db.Base.Bytes.{Bytes}
use nova_db.Base.Map
use nova_db.Base.Map.{Map, IsDistinct, text_eq as text_key, pair_eq, pair_beq, pair_beq_eq}
use nova_db.Base.Text.{Text}
use nova_db.Core.Document.{Document}
use nova_db.Core.Event.{DataEvent, EventType}
use nova_db.Core.Outcome.{Outcome, done, fail, panic, Outcome-cases}
use nova_db.Core.Value.{Value, Float}
use nova_db.Index.Covering.{IsKeyClass}
use nova_db.Index.Held.{HasIndex, IsKept-IsDistinct, on_insert-HasIndex}
use nova_db.Index.Kept.{HasKey}
use nova_db.Index.Manager.{IndexManager}
use nova_db.Protocol.Payload.{ResponsePayload}
use nova_db.Query.Ast.{Expr, Assignment}
use nova_db.Server.Engine.{DatabaseEngine, DocumentStore, Environment, Json, emit_event, emit_all}
use nova_db.Server.Engine.Inserts.{execute_insert, log_insert, finish_insert}
use nova_db.Server.Engine.Removes.{execute_remove, remove_all}
use nova_db.Server.Engine.Tracked.{remove_all-HasIndex}
use nova_db.Server.Engine.Tracking.{AssignsKeys, update_all-HasIndex}
use nova_db.Server.Engine.Writes.{
  Progress, begin, change_events, log, contains_key, execute_update, finish, store_back, targets,
  update_all,
}
use nova_db.Storage.Format.{RecordType}
use nova_db.Storage.Recovery.{CollectionKey, or_default}
use nova_db.Wire.{Wire}

-- Events change neither the documents nor the indexes.
emit_all-stores :
    {F : Type 0} (es : List (DataEvent F)) (s : DatabaseEngine F)
    → ((emit_all es s).collections ≡ s.collections) × ((emit_all es s).indexes ≡ s.indexes)
unfolding emit_all emit_event
emit_all-stores [] s = (refl, refl)
emit_all-stores (e ∷ es) s = emit_all-stores es (emit_event e s)

module _ {F : Type 0} (fl : Float F) (IsKey : Value F → Type 0) (f : Text)
    (key : CollectionKey) where
  -- The engine has an index on the field of the collection, which it keeps with the documents.
  abbrev pub IsIndexed : DatabaseEngine F → Type 0
  IsIndexed s =
      HasIndex fl IsKey f (or_default (Map.get key s.collections))
        (or_default (Map.get key s.indexes))

  -- one collection and its indexes replaced
  put-IsIndexed :
      (key' : CollectionKey) (store : DocumentStore F) (m : IndexManager F)
      (s s' : DatabaseEngine F)
      → s'.collections ≡ Map.insert key' store s.collections
      → s'.indexes ≡ Map.insert key' m s.indexes
      → IsIndexed s
      → (key' ≡ key → HasIndex fl IsKey f store m)
      → IsIndexed s'
  put-IsIndexed key' store m s s' docs idxs h new = rw (docs ∙ refl) (
      rw idxs (
        rw (Map.get-insert key' key store s.collections, Map.get-insert key' key m s.indexes)
          (elim (Bool-cases (pair_beq key' key)) [
            | inl same ↦ rw same (new (pair_beq_eq key' key same))
            | inr other ↦ rw other h
          ])))

module _ {F H : Type 0} (fl : Float F) (x : Wire H) (json : Json F) (env : Environment)
    (IsKey : Value F → Type 0) (f : Text) (key : CollectionKey) where
  finish_insert-IsIndexed :
      (key' : CollectionKey) (doc : Document F) (o : Outcome ℕ) (s : DatabaseEngine F)
      → IsIndexed fl IsKey f key s
      → (key' ≡ key → HasKey fl IsKey f doc)
      → IsIndexed fl IsKey f key (finish_insert fl x json env key' doc o s).1
  unfolding emit_event
  finish_insert-IsIndexed key' doc (done n) s h is_key =
      put-IsIndexed fl IsKey f key key' _ _ s (finish_insert fl x json env key' doc (done n) s).1
        refl refl h
        (λ same.
          on_insert-HasIndex fl IsKey f (or_default (Map.get key' s.collections))
            (or_default (Map.get key' s.indexes))
            (subst
              (λ k.
                HasIndex fl IsKey f (or_default (Map.get k s.collections))
                  (or_default (Map.get k s.indexes)))
              (sym same) h)
            doc (is_key same))
  finish_insert-IsIndexed key' doc (fail e) s h is_key = h
  finish_insert-IsIndexed key' doc panic s h is_key = h

  log_insert-IsIndexed :
      (key' : CollectionKey) (doc : Document F) (o : Option Bytes) (s : DatabaseEngine F)
      → IsIndexed fl IsKey f key s
      → (key' ≡ key → HasKey fl IsKey f doc)
      → IsIndexed fl IsKey f key (log_insert fl x json env key' doc o s).1
  log_insert-IsIndexed key' doc none s h is_key = h
  log_insert-IsIndexed key' doc (some payload) s h is_key =
      let (o, w) = log x env RecordType.insert key' doc.id payload s.wal in
      finish_insert-IsIndexed key' doc o (record s { wal = w }) h is_key

  -- INSERT, whatever comes of it
  pub execute_insert-IsIndexed :
      (key' : CollectionKey) (doc : Document F) (s : DatabaseEngine F)
      → IsIndexed fl IsKey f key s
      → (key' ≡ key → HasKey fl IsKey f doc)
      → IsIndexed fl IsKey f key (execute_insert fl x json env key' doc s).1
  unfolding execute_insert
  execute_insert-IsIndexed key' doc s h is_key =
      elim (Bool-cases (contains_key doc.id (or_default (Map.get key' s.collections)))) [
        | inl old ↦ rw old h
        | inr new ↦ rw new (log_insert-IsIndexed key' doc (json.to_vec doc) s h is_key)
      ]

  store_back-IsIndexed :
      (key' : CollectionKey) (store : DocumentStore F) (p : Progress F) (s : DatabaseEngine F)
      → IsIndexed fl IsKey f key s
      → (key' ≡ key → HasIndex fl IsKey f store p.manager)
      → IsIndexed fl IsKey f key (store_back fl x json env key' store p s)
  store_back-IsIndexed key' store p s h new =
      put-IsIndexed fl IsKey f key key' store p.manager s (store_back fl x json env key' store p s)
        refl refl h new

  finish-IsIndexed :
      (t : EventType) (key' : CollectionKey) (o : Outcome (Unit {0})) (store : DocumentStore F)
      (p : Progress F) (s : DatabaseEngine F)
      → IsIndexed fl IsKey f key s
      → (key' ≡ key → HasIndex fl IsKey f store p.manager)
      → IsIndexed fl IsKey f key (finish fl x json env t key' o store p s).1
  finish-IsIndexed t key' (done u) store p s h new =
      let keeps =
        emit_all-stores (change_events fl x json env t key' p.changes)
          (store_back fl x json env key' store p s) in
      rw (keeps.0, keeps.1) (store_back-IsIndexed key' store p s h new)
  finish-IsIndexed t key' (fail e) store p s h new = store_back-IsIndexed key' store p s h new
  finish-IsIndexed t key' panic store p s h new = store_back-IsIndexed key' store p s h new

  at_key :
      (key' : CollectionKey) (s : DatabaseEngine F)
      → IsIndexed fl IsKey f key s
      → key' ≡ key
      → IsIndexed fl IsKey f key' s
  at_key key' s h same = subst (λ k. IsIndexed fl IsKey f k s) (sym same) h

  finish-ended :
      (t : EventType) (key' : CollectionKey) (o : Outcome (Unit {0})) (store : DocumentStore F)
      (p : Progress F) (s : DatabaseEngine F) (r : ResponsePayload F)
      → (finish fl x json env t key' o store p s).0 ≡ done r
      → o ≡ done tt
  finish-ended t key' (done u) store p s r e = refl
  finish-ended t key' (fail e') store p s r e = cc e
  finish-ended t key' panic store p s r e = cc e

  -- UPDATE, if it ends without an error
  pub execute_update-IsIndexed :
      (class : IsKeyClass fl IsKey) (key' : CollectionKey) (todo : List (Assignment F))
      (filter : Option (Expr F)) (s : DatabaseEngine F) (r : ResponsePayload F)
      → IsIndexed fl IsKey f key s
      → (key' ≡ key → AssignsKeys fl env IsKey f todo (or_default (Map.get key' s.collections)))
      → (execute_update fl x json env key' todo filter s).0 ≡ done r
      → IsIndexed fl IsKey f key (execute_update fl x json env key' todo filter s).1
  unfolding execute_update
  execute_update-IsIndexed class key' todo filter s r h is_key e =
      let docs = or_default (Map.get key' s.collections) in
      let o = update_all fl x json env key' filter todo docs (begin fl x json env key' s) in
      let ended = finish-ended EventType.update key' o.0 o.1.0 o.1.1 s r e in
      finish-IsIndexed EventType.update key' o.0 o.1.0 o.1.1 s h (λ same.
        let here = at_key key' s h same in
        update_all-HasIndex fl x json env IsKey f class key' filter todo [] docs o.1.0
          (begin fl x json env key' s) o.1.1 here
          (IsKept-IsDistinct fl IsKey f docs here.index here.kept) (is_key same)
          (ap (λ t. (t, o.1)) ended))

  -- REMOVE, whatever comes of it
  pub execute_remove-IsIndexed :
      (class : IsKeyClass fl IsKey) (key' : CollectionKey) (filter : Option (Expr F))
      (s : DatabaseEngine F)
      → IsIndexed fl IsKey f key s
      → IsIndexed fl IsKey f key (execute_remove fl x json env key' filter s).1
  unfolding execute_remove
  execute_remove-IsIndexed class key' filter s h =
      let docs = or_default (Map.get key' s.collections) in
      let p = begin fl x json env key' s in
      elim (Outcome-cases (targets fl filter docs)) [
        | inl (ids, e) ↦
            let o = remove_all fl x json env key' ids docs p in
            rw (e, execute_remove)
              (finish-IsIndexed EventType.delete key' o.0 o.1.0 o.1.1 s h (λ same.
                remove_all-HasIndex fl x json env IsKey f class key' ids docs p
                  (at_key key' s h same)))
        | inr (inl (e', e)) ↦ rw (e, execute_remove) h
        | inr (inr e) ↦
            rw (e, execute_remove)
              (finish-IsIndexed EventType.delete key' panic docs p s h
                (λ same. at_key key' s h same))
      ]
