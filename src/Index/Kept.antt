-- ===== src/Index/Kept.antt =====
-- crates/nova-index/src/manager.rs: a hash index and the documents of its collection, over the writes
-- of which the index is told.
use nova_db.Base.{
  none≢some, some-injective, ◌≡◌, ◌⊎◌, sym, ◌∙◌, true, false, Bool-cases, inl, inr, [], ◌∷◌, some,
}
use nova_db.Base.Bytes.{bytes_eq, bytes_eq→eq}
use nova_db.Base.Map
use nova_db.Base.Map.{Map, text_eq as text_key}
use nova_db.Base.Text.{Text, text_eq}
use nova_db.Core.Document
use nova_db.Core.Document.{Document}
use nova_db.Core.DocumentId.{DocumentId}
use nova_db.Core.Value.{Value, Float}
use nova_db.Index.{hash}
use nova_db.Index.Entries
use nova_db.Index.Entries.{Ids, Entries, has, same, lookup, hash_insert, put_back, set_remove}
use nova_db.Index.Covering.{IsKeyClass, AllKeys}
use nova_db.Index.Manager.{Index, new_index, index_insert, index_remove, index_update}

module _ {F : Type 0} (fl : Float F) (IsKey : Value F → Type 0) (f : Text) where
  -- The document's value of the indexed field, if it has one, is in the class.
  abbrev pub HasKey : Document F → Type 0
  HasKey doc = (v : Value F) → Document.lookup f doc ≡ some v → IsKey v

  -- A collection and a hash index on it, over any insertions, updates and removals, and removals of
  -- which the index is not told.
  pub data IsKept : Map DocumentId (Document F) → Index F → Type 0 where
    created : (name : Text) → IsKept [] (new_index hash name f)
    inserted :
        (store : Map DocumentId (Document F)) (i : Index F) (doc : Document F)
        → IsKept store i
        → HasKey doc
        → IsKept (Map.insert doc.id doc store) (index_insert fl doc i)
    updated :
        (store : Map DocumentId (Document F)) (i : Index F) (before after : Document F)
        → IsKept store i
        → Map.get before.id store ≡ some before
        → after.id ≡ before.id
        → HasKey after
        → IsKept (Map.insert before.id after store) (index_update fl before after i)
    removed :
        (store : Map DocumentId (Document F)) (i : Index F) (doc : Document F)
        → IsKept store i
        → Map.get doc.id store ≡ some doc
        → IsKept (Map.remove doc.id store) (index_remove fl doc i)
    untold :
        (store : Map DocumentId (Document F)) (i : Index F) (id : DocumentId)
        → IsKept store i
        → IsKept (Map.remove id store) i

  abbrev pub hash_index : Text → Entries F → Index F
  hash_index name es = record (new_index hash name f) { entries = es }

  -- Every document is found in the index under its value.
  pub record Covers (store : Map DocumentId (Document F)) (es : Entries F) : Type 0 where
    pub keys : AllKeys fl IsKey es
    pub same_id : (id : DocumentId) (doc : Document F) → Map.get id store ≡ some doc → doc.id ≡ id
    pub has_key : (id : DocumentId) (doc : Document F) → Map.get id store ≡ some doc → HasKey doc
    pub covered :
        (id : DocumentId) (doc : Document F) (v : Value F)
        → Map.get id store ≡ some doc
        → Document.lookup f doc ≡ some v
        → has id (lookup fl hash v es) ≡ true

  pub hash_insert-AllKeys :
      (k : Value F) (id : DocumentId) (es : Entries F)
      → IsKey k
      → AllKeys fl IsKey es
      → AllKeys fl IsKey (hash_insert fl k id es)
  unfolding hash_insert
  hash_insert-AllKeys k id [] h hs = (h, tt)
  hash_insert-AllKeys k id ((i, ids) ∷ rest) h (hi, hs) = elim (Bool-cases (same fl hash i k)) [
    | inl hit ↦ rw hit (hi, hs)
    | inr miss ↦ rw miss (hi, hash_insert-AllKeys k id rest h hs)
  ]

  put_back-AllKeys :
      (i : Value F) (ids : Ids) (rest : Entries F)
      → IsKey i
      → AllKeys fl IsKey rest
      → AllKeys fl IsKey (put_back i ids rest)
  put_back-AllKeys i [] rest h hs = hs
  put_back-AllKeys i (id ∷ ids) rest h hs = (h, hs)

  pub remove-AllKeys :
      (k : Value F) (id : DocumentId) (es : Entries F)
      → AllKeys fl IsKey es
      → AllKeys fl IsKey (Entries.remove fl hash k id es)
  unfolding Entries.remove
  remove-AllKeys k id [] hs = tt
  remove-AllKeys k id ((i, ids) ∷ rest) (hi, hs) = elim (Bool-cases (same fl hash i k)) [
    | inl hit ↦ rw hit (put_back-AllKeys i (set_remove id ids) rest hi hs)
    | inr miss ↦ rw miss (hi, remove-AllKeys k id rest hs)
  ]

module _ {F : Type 0} (fl : Float F) (IsKey : Value F → Type 0) (f : Text)
    (class : IsKeyClass fl IsKey) where
  put_cases :
      (id id' : DocumentId) (doc d : Document F) (store : Map DocumentId (Document F))
      → Map.get id' (Map.insert id doc store) ≡ some d
      → ((id ≡ id') × (doc ≡ d)) ⊎ ((text_eq id id' ≡ false) × (Map.get id' store ≡ some d))
  unfolding text_eq
  put_cases id id' doc d store h = elim (Bool-cases (bytes_eq id id')) [
    | inl same ↦ inl (
      bytes_eq→eq id id' same,
      some-injective (rw same at (sym (Map.get-insert id id' doc store) ∙ h)),
    )
    | inr other ↦ inr (other, rw other at (sym (Map.get-insert id id' doc store) ∙ h))
  ]

  drop_cases :
      (id id' : DocumentId) (d : Document F) (store : Map DocumentId (Document F))
      → Map.get id' (Map.remove id store) ≡ some d
      → (text_eq id id' ≡ false) × (Map.get id' store ≡ some d)
  unfolding text_eq
  drop_cases id id' d store h = elim (Bool-cases (bytes_eq id id')) [
    | inl same ↦ absurd (none≢some (rw same at (sym (Map.get-remove id id' store) ∙ h)))
    | inr other ↦ (other, rw other at (sym (Map.get-remove id id' store) ∙ h))
  ]

  -- a document put into the store, with an index that has it and keeps the others
  pub put-Covers :
      (id : DocumentId) (doc : Document F) (store : Map DocumentId (Document F))
      (es es' : Entries F)
      → Covers fl IsKey f store es
      → doc.id ≡ id
      → HasKey fl IsKey f doc
      → AllKeys fl IsKey es'
      → ((v : Value F) → Document.lookup f doc ≡ some v → has id (lookup fl hash v es') ≡ true)
      → ((id' : DocumentId) (v : Value F)
          → text_eq id id' ≡ false
          → has id' (lookup fl hash v es) ≡ true
          → has id' (lookup fl hash v es') ≡ true)
      → Covers fl IsKey f (Map.insert id doc store) es'
  put-Covers id doc store es es' c its_id key keys own others = record {
    keys = keys;
    same_id = λ id' d h. elim (put_cases id id' doc d store h) [
      | inl (same, it) ↦ rw (← it) (rw (← same) its_id)
      | inr (other, held) ↦ c.same_id id' d held
    ];
    has_key = λ id' d h. elim (put_cases id id' doc d store h) [
      | inl (same, it) ↦ rw (← it) key
      | inr (other, held) ↦ c.has_key id' d held
    ];
    covered = λ id' d v h at_v. elim (put_cases id id' doc d store h) [
      | inl (same, it) ↦ rw (← same) (own v (rw (← it) at at_v))
      | inr (other, held) ↦ others id' v other (c.covered id' d v held at_v)
    ];
  }

  pub drop-Covers :
      (id : DocumentId) (store : Map DocumentId (Document F)) (es es' : Entries F)
      → Covers fl IsKey f store es
      → AllKeys fl IsKey es'
      → ((id' : DocumentId) (v : Value F)
          → text_eq id id' ≡ false
          → has id' (lookup fl hash v es) ≡ true
          → has id' (lookup fl hash v es') ≡ true)
      → Covers fl IsKey f (Map.remove id store) es'
  drop-Covers id store es es' c keys others = record {
    keys = keys;
    same_id = λ id' d h. c.same_id id' d (drop_cases id id' d store h).1;
    has_key = λ id' d h. c.has_key id' d (drop_cases id id' d store h).1;
    covered = λ id' d v h at_v.
        let (other, held) = drop_cases id id' d store h in
        others id' v other (c.covered id' d v held at_v);
  }
