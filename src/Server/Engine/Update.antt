-- ===== src/Server/Engine/Update.antt =====
-- crates/nova-server/src/engine.rs: what UPDATE does to the documents and the log.
use nova_db.Server.Engine.Round.{IsUpdated, apart, update_one-IsRound}
use nova_db.Base.{
  ℕ, ◌+◌, ◌^◌, ◌<◌, ◌≡◌, refl, sym, ◌∙◌, ap, false, List, [], ◌∷◌, Option, none, some, arith,
  Bool-cases, Option-cases, inl, inr, length,
}
use nova_db.Base.Bytes.{bytes_eq, bytes_eq_refl, bytes_eq→eq}
use nova_db.Base.Map
use nova_db.Base.Map.{IsDistinct, Map, text_eq, pair_eq, pair_beq, pair_beq_refl, pair_beq_eq}
use nova_db.Core.Document.{Document}
use nova_db.Core.DocumentId.{DocumentId}
use nova_db.Core.Event.{EventType}
use nova_db.Core.Outcome.{Outcome, done}
use nova_db.Core.Value.{Float}
use nova_db.Protocol.Payload.{ResponsePayload, success}
use nova_db.Query.Ast.{Expr, Assignment}
use nova_db.Server.Engine.{DatabaseEngine, DocumentStore, Environment, Json}
use nova_db.Server.Engine.Documents.{find_doc}
use nova_db.Server.Engine.Durable.{IsDurable}
use nova_db.Server.Engine.Loops.{IsLoopEnd, finish-done, finish-IsDurable, finish-docs}
use nova_db.Server.Engine.Synced.{IsSynced}
use nova_db.Server.Engine.Writes.{Progress, execute_update, update_all, update_one, begin}
use nova_db.Storage.Recovery.{RecoveredState, CollectionKey, or_default}
use nova_db.Storage.Wal.{no_fault}
use nova_db.Wire.{Wire, IsWire}

module _ {F H : Type 0} (fl : Float F) (x : Wire H) (json : Json F) (env : Environment)
    (laws : IsWire x) (calm : env.fault ≡ no_fault) (key : CollectionKey) (filter : Option (Expr F))
    (todo : List (Assignment F)) where
  update_all-step :
      (id : DocumentId) (doc after : Document F) (store : DocumentStore F) (p p' : Progress F)
      → update_one fl x json env key filter todo id doc p ≡ (done tt, (after, p'))
      → let o = update_all fl x json env key filter todo store p' in
        update_all fl x json env key filter todo ((id, doc) ∷ store) p
        ≡ (o.0, ((id, after) ∷ o.1.0, o.1.1))
  unfolding update_all
  update_all-step id doc after store p p' e = rw (e, update_all) (rw e)

  -- Where the loop over `store` ends.
  pub record IsUpdateEnd (store : DocumentStore F) (st : RecoveredState (Document F))
      (o : Outcome (Unit {0}) × (DocumentStore F × Progress F)) : Type 0 where
    pub ended : o.0 ≡ done tt
    pub state : RecoveredState (Document F)
    pub synced : IsSynced x json o.1.1.wal state
    pub changed :
        (id : DocumentId) (doc : Document F)
        → Map.get id store ≡ some doc
        → (after : Document F) × IsUpdated fl json env key filter todo id doc after
          × (Map.get id o.1.0 ≡ some after)
          × (find_doc key id state.collections ≡ some after)
    pub kept :
        (id : DocumentId)
        → Map.get id store ≡ none
        → (Map.get id o.1.0 ≡ none)
          × (find_doc key id state.collections ≡ find_doc key id st.collections)
    pub others :
        (key' : CollectionKey) (id : DocumentId)
        → pair_beq key key' ≡ false
        → find_doc key' id state.collections ≡ find_doc key' id st.collections

  update_all-IsUpdateEnd :
      (store : DocumentStore F) (p : Progress F) (st : RecoveredState (Document F))
      → IsDistinct store
      → ((id : DocumentId) (doc : Document F)
          → Map.get id store ≡ some doc
          → (after : Document F) × IsUpdated fl json env key filter todo id doc after)
      → IsSynced x json p.wal st
      → ((id : DocumentId) (doc : Document F)
          → Map.get id store ≡ some doc
          → find_doc key id st.collections ≡ some doc)
      → p.wal.current_sequence + length store < 2 ^ 64
      → IsUpdateEnd store st (update_all fl x json env key filter todo store p)
  unfolding update_all Map.get
  update_all-IsUpdateEnd [] p st distinct fine s there room = record {
    ended = refl;
    state = st;
    synced = s;
    changed = λ id doc h. absurd (cc h);
    kept = λ id h. (refl, refl);
    others = λ key' id h. refl;
  }
  update_all-IsUpdateEnd ((id, doc) ∷ store) p st (new, distinct) fine s there room =
      let first : Map.get id ((id, doc) ∷ store) ≡ some doc = rw (bytes_eq_refl id) refl in
      let (after, u) = fine id doc first in
      let round =
        update_one-IsRound fl x json env laws calm key filter todo id doc after p st u s
          (there id doc first) (omega arith) in
      let elsewhere : (id' : DocumentId)
          → bytes_eq id id' ≡ false
          → find_doc key id' round.state.collections ≡ find_doc key id' st.collections =
        λ id' ne. round.written key id' ∙ rw (pair_beq_refl key) (rw ne refl) in
      let here : find_doc key id round.state.collections ≡ some after =
        round.written key id ∙ rw (pair_beq_refl key) (rw (bytes_eq_refl id) refl) in
      let rest =
        update_all-IsUpdateEnd store round.progress round.state distinct
          (λ id' doc' h. fine id' doc' (rw (apart id id' store new h) h)) round.synced
          (λ id' doc' h.
            elsewhere id' (apart id id' store new h)
            ∙ there id' doc' (rw (apart id id' store new h) h))
          (omega (arith, round.counted)) in
      rw (update_all-step id doc after store p round.progress round.result) (record {
        ended = rest.ended;
        state = rest.state;
        synced = rest.synced;
        changed = λ id' doc' h. elim (Bool-cases (bytes_eq id id')) [
          | inl same ↦
              let e : doc ≡ doc' = cc (rw same at h) in
              let i : id ≡ id' = bytes_eq→eq id id' same in
              rw (← i)
                (rw (← e) (after, u, rw (bytes_eq_refl id) refl, (rest.kept id new).1 ∙ here))
          | inr other ↦
              let (after', u', g, f) = rest.changed id' doc' (rw other at h) in
              (after', u', rw other g, f)
        ];
        kept = λ id' h. elim (Bool-cases (bytes_eq id id')) [
          | inl same ↦ absurd (cc (rw same at h))
          | inr other ↦
              let (g, f) = rest.kept id' (rw other at h) in (rw other g, f ∙ elsewhere id' other)
        ];
        others = λ key' id' h. rest.others key' id' h ∙ round.written key' id' ∙ rw h refl;
      })

-- What UPDATE promises: every document of the collection is as the update makes it, no document is
-- added or taken away, the other collections are untouched, and the log is in step.
pub record IsUpdateDone {F H : Type 0} (fl : Float F) (x : Wire H) (json : Json F)
    (env : Environment) (key : CollectionKey) (filter : Option (Expr F))
    (todo : List (Assignment F)) (s : DatabaseEngine F)
    (o : Outcome (ResponsePayload F) × DatabaseEngine F) : Type 0 where
  pub affected : ℕ
  pub answer : o.0 ≡ done (success affected)
  pub durable : IsDurable x json o.1
  pub changed :
      (id : DocumentId) (doc : Document F)
      → find_doc key id s.collections ≡ some doc
      → (after : Document F) × IsUpdated fl json env key filter todo id doc after
        × (find_doc key id o.1.collections ≡ some after)
  pub kept :
      (id : DocumentId)
      → find_doc key id s.collections ≡ none
      → find_doc key id o.1.collections ≡ none
  pub others :
      (key' : CollectionKey) (id : DocumentId)
      → pair_beq key key' ≡ false
      → find_doc key' id o.1.collections ≡ find_doc key' id s.collections

-- Let the log of an engine be in step with its memory, no fault be injected, and each document of
-- the collection either fail the filter, or pass it and be assigned to without an error, to a
-- document that can be written, read back and logged. UPDATE then answers with a success, while
-- sequence numbers are left; every document of the collection is as the update makes it, none is
-- added or taken away, the other collections are as they were, and the log is in step again.
pub execute_update-IsUpdateDone :
    {F H : Type 0} (fl : Float F) (x : Wire H) (json : Json F) (env : Environment)
    (key : CollectionKey) (filter : Option (Expr F)) (todo : List (Assignment F))
    (s : DatabaseEngine F)
    → IsWire x
    → env.fault ≡ no_fault
    → IsDurable x json s
    → IsDistinct (or_default (Map.get key s.collections))
    → ((id : DocumentId) (doc : Document F)
        → find_doc key id s.collections ≡ some doc
        → (after : Document F) × IsUpdated fl json env key filter todo id doc after)
    → s.wal.current_sequence + length (or_default (Map.get key s.collections)) < 2 ^ 64
    → IsUpdateDone fl x json env key filter todo s (execute_update fl x json env key todo filter s)
unfolding execute_update
execute_update-IsUpdateDone {F} fl x json env key filter todo s laws calm d distinct fine room =
    let store = or_default (Map.get key s.collections) in
    let o = update_all fl x json env key filter todo store (begin fl x json env key s) in
    let r =
      update_all-IsUpdateEnd fl x json env laws calm key filter todo store
        (begin fl x json env key s) d.recovered distinct fine d.synced
        (λ id doc h. sym (d.same_docs key id) ∙ h) room in
    let docs = finish-docs fl x json env EventType.update key o.0 o.1.0 o.1.1 s r.ended in
    let at_key : (id : DocumentId)
        → find_doc key id (execute_update fl x json env key todo filter s).1.collections
          ≡ Map.get id o.1.0 =
      λ id. docs key id ∙ rw (pair_beq_refl key) refl in
    let end : IsLoopEnd x json key d.recovered o = record {
      ended = r.ended;
      state = r.state;
      synced = r.synced;
      here = λ id. elim (Option-cases (Map.get id store)) [
        | inl absent ↦
            (r.kept id absent).0 ∙ sym ((r.kept id absent).1 ∙ (sym (d.same_docs key id) ∙ absent))
        | inr (doc, there) ↦ let (after, u, g, f) = r.changed id doc there in g ∙ sym f
      ];
      others = r.others;
    } in
    record {
      affected = length o.1.1.changes;
      answer =
          ap (λ a. a.0) (finish-done fl x json env EventType.update key o.0 o.1.0 o.1.1 s r.ended);
      durable = finish-IsDurable fl x json env EventType.update key o.0 o.1.0 o.1.1 s r.ended d end;
      changed = λ id doc h. let (after, u, g, f) = r.changed id doc h in (after, u, at_key id ∙ g);
      kept = λ id h. at_key id ∙ (r.kept id h).0;
      others = λ key' id ne. docs key' id ∙ rw ne refl;
    }
