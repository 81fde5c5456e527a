-- ===== src/Server/Engine/Tracked.antt =====
-- crates/nova-server/src/engine.rs: the loops of REMOVE and CREATE INDEX, and an index on the
-- collection that they walk.
use nova_db.Base.{
  ℕ, ◌≡◌, sym, ap, ◌∙◌, subst, inl, inr, Option-cases, List, [], ◌∷◌, ◌++◌, append-nil,
  append_assoc, some,
}
use nova_db.Base.Map
use nova_db.Base.Map.{Map, IsDistinct, text_eq, pair_eq}
use nova_db.Base.Map.Splits.{middle-get, insert-end}
use nova_db.Base.Text.{Text}
use nova_db.Core.Document.{Document}
use nova_db.Core.DocumentId.{DocumentId}
use nova_db.Core.Outcome.{Outcome, done, fail, panic, Outcome-cases}
use nova_db.Core.Value.{Value, Float}
use nova_db.Index.Covering.{IsKeyClass}
use nova_db.Index.Held.{HasIndex, on_remove-HasIndex, untold-HasIndex}
use nova_db.Index.Kept.{HasKey, IsKept, inserted}
use nova_db.Index.Manager.{Index, index_insert, on_remove}
use nova_db.Server.Engine.{DocumentStore, Environment, Json}
use nova_db.Server.Engine.Indexes.{populate}
use nova_db.Server.Engine.Removes.{note_remove, remove_one, remove_all}
use nova_db.Server.Engine.Tracking.{HasIndex-id}
use nova_db.Server.Engine.Writes.{Progress}
use nova_db.Storage.Recovery.{CollectionKey}
use nova_db.Storage.Wal.{WriteAheadLog}
use nova_db.Wire.{Wire}

module _ {F H : Type 0} (fl : Float F) (x : Wire H) (json : Json F) (env : Environment)
    (IsKey : Value F → Type 0) (f : Text) (class : IsKeyClass fl IsKey) (key : CollectionKey) where
  note_remove-HasIndex :
      (id : DocumentId) (doc : Document F) (r : Outcome ℕ × WriteAheadLog) (store : DocumentStore F)
      (p : Progress F)
      → HasIndex fl IsKey f store p.manager
      → doc.id ≡ id
      → Map.get id store ≡ some doc
      → let o = note_remove fl x json env id doc r (Map.remove id store) p in
        HasIndex fl IsKey f o.1.0 o.1.1.manager
  note_remove-HasIndex id doc (done n, w) store p h its_id there =
      subst (λ i. HasIndex fl IsKey f (Map.remove i store) (on_remove fl doc p.manager)) its_id
        (on_remove-HasIndex fl IsKey f store p.manager h doc
          (subst (λ i. Map.get i store ≡ some doc) (sym its_id) there))
  note_remove-HasIndex id doc (fail e, w) store p h its_id there =
      untold-HasIndex fl IsKey f store p.manager h id
  note_remove-HasIndex id doc (panic, w) store p h its_id there =
      untold-HasIndex fl IsKey f store p.manager h id

  remove_one-HasIndex :
      (id : DocumentId) (store : DocumentStore F) (p : Progress F)
      → HasIndex fl IsKey f store p.manager
      → let o = remove_one fl x json env key id store p in HasIndex fl IsKey f o.1.0 o.1.1.manager
  unfolding remove_one
  remove_one-HasIndex id store p h = elim (Option-cases (Map.get id store)) [
    | inl gone ↦ rw (gone, remove_one) h
    | inr (doc, there) ↦
        rw (there, remove_one)
          (note_remove-HasIndex id doc _ store p h
            (HasIndex-id fl x json env IsKey f class key store id doc h there) there)
  ]

  -- The loop of REMOVE, wherever it ends.
  pub remove_all-HasIndex :
      (ids : List DocumentId) (store : DocumentStore F) (p : Progress F)
      → HasIndex fl IsKey f store p.manager
      → let o = remove_all fl x json env key ids store p in HasIndex fl IsKey f o.1.0 o.1.1.manager
  unfolding remove_all
  remove_all-HasIndex [] store p h = h
  remove_all-HasIndex (id ∷ ids) store p h =
      let one = remove_one-HasIndex id store p h in
      let o = remove_one fl x json env key id store p in
      elim (Outcome-cases o.0) [
        | inl (u, e) ↦ rw (e, remove_all) (remove_all-HasIndex ids o.1.0 o.1.1 one)
        | inr (inl (e', e)) ↦ rw (e, remove_all) one
        | inr (inr e) ↦ rw (e, remove_all) one
      ]

module _ {F : Type 0} (fl : Float F) (IsKey : Value F → Type 0) (f : Text) where
  -- The documents stand under their ids, and their values of the field are in the class.
  abbrev pub IsListed : DocumentStore F → Type 0
  IsListed store =
      (id : DocumentId) (doc : Document F)
      → Map.get id store ≡ some doc
      → (doc.id ≡ id) × HasKey fl IsKey f doc

  -- The new index, put together from the documents that there are.
  pub populate-IsKept :
      (front store : DocumentStore F) (i : Index F)
      → IsKept fl IsKey f front i
      → IsDistinct (front ++ store)
      → IsListed (front ++ store)
      → IsKept fl IsKey f (front ++ store) (populate fl store i)
  unfolding populate
  populate-IsKept front [] i k d listed = rw (append-nil front) k
  populate-IsKept front ((id, doc) ∷ store) i k d listed =
      let (absent, there) = middle-get id doc front store d in
      let (its_id, has_key) = listed id doc there in
      let grown : Map.insert doc.id doc front ≡ front ++ (id, doc) ∷ [] =
        ap (λ j. Map.insert j doc front) its_id ∙ insert-end id doc front absent in
      let same = append_assoc front ((id, doc) ∷ []) store in
      rw (← same) (
        populate-IsKept (front ++ (id, doc) ∷ []) store _
          (subst (λ st. IsKept fl IsKey f st (index_insert fl doc i)) grown
            (inserted front i doc k has_key))
          (rw same d) (rw same listed))
