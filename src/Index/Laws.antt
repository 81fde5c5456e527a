-- ===== src/Index/Laws.antt =====
-- What the entries of an index hold after an insertion.
use nova_db.Base.{◌+◌, ◌≡◌, refl, true, [], ◌∷◌, ◌++◌, arith, if◌then◌else◌}
use nova_db.Base.{length, length-append, Bool-cases, inl, inr}
use nova_db.Base.Bytes.{bytes_eq_refl}
use nova_db.Base.Text.{text_eq}
use nova_db.Core.DocumentId.{DocumentId}
use nova_db.Core.Value.{Value, Float}
use nova_db.Index.{hash}
use nova_db.Index.Entries.{Ids, Entries, has, same, set_insert, lookup, hash_insert, len}

pub text_eq_refl : (id : DocumentId) → text_eq id id ≡ true
unfolding text_eq
text_eq_refl id = bytes_eq_refl id

pub has-snoc : (id : DocumentId) (l : Ids) → has id (l ++ id ∷ []) ≡ true
unfolding has
has-snoc id [] = rw (text_eq_refl id)
has-snoc id (j ∷ l) = ground (arith, has-snoc id l)

-- The set after an insertion: the id is there, and counts once.
set_insert_lem :
    (id : DocumentId) (ids : Ids)
    → (has id (set_insert id ids) ≡ true)
      × (length (set_insert id ids) ≡ length ids + (if has id ids then 0 else 1))
set_insert_lem id ids = elim (Bool-cases (has id ids)) [
  | inl old ↦ rw old (old, omega arith)
  | inr new ↦ rw new (has-snoc id ids, length-append ids (id ∷ []))
]

module _ {F : Type 0} (fl : Float F) where
  pub hash_insert-has :
      (key : Value F) (id : DocumentId) (es : Entries F)
      → same fl hash key key ≡ true
      → has id (lookup fl hash key (hash_insert fl key id es)) ≡ true
  unfolding hash_insert lookup
  hash_insert-has key id [] h = rw h (unfold has in rw (text_eq_refl id))
  hash_insert-has key id ((k, ids) ∷ rest) h = elim (Bool-cases (same fl hash k key)) [
    | inl hit ↦ rw hit (rw hit (set_insert_lem id ids).0)
    | inr miss ↦ rw miss (rw miss (hash_insert-has key id rest h))
  ]

  len-hash_insert :
      (key : Value F) (id : DocumentId) (es : Entries F)
      → len fl (hash_insert fl key id es)
        ≡ len fl es + (if has id (lookup fl hash key es) then 0 else 1)
  unfolding hash_insert lookup len
  len-hash_insert key id [] = unfold has in refl
  len-hash_insert key id ((k, ids) ∷ rest) = elim (Bool-cases (same fl hash k key)) [
    | inl hit ↦ rw hit (omega (arith, (set_insert_lem id ids).1))
    | inr miss ↦ rw miss (omega (arith, len-hash_insert key id rest))
  ]

-- In a hash index, an id that is inserted under a key found by itself is found under it, and the
-- number of entries grows by one unless the id was found there before.
pub hash_insert_lem :
    {F : Type 0} (fl : Float F) (key : Value F) (id : DocumentId) (es : Entries F)
    → same fl hash key key ≡ true
    → (has id (lookup fl hash key (hash_insert fl key id es)) ≡ true)
      × (len fl (hash_insert fl key id es)
          ≡ len fl es + (if has id (lookup fl hash key es) then 0 else 1))
hash_insert_lem fl key id es h = (hash_insert-has fl key id es h, len-hash_insert fl key id es)
