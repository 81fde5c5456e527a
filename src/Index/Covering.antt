-- ===== src/Index/Covering.antt =====
-- crates/nova-index/src/hash.rs and manager.rs: a hash index that follows the documents of a collection.
use nova_db.Base.{
  false≢true, ◌≡◌, refl, sym, ◌∙◌, true, false, Bool-cases, inl, inr, [], ◌∷◌, ◌++◌, All, arith,
}
use nova_db.Base.Bytes.{bytes_eq→eq}
use nova_db.Base.Map.{text_eq as text_key}
use nova_db.Base.Text.{text_eq}
use nova_db.Core.DocumentId.{DocumentId}
use nova_db.Core.Value.{Value, Float, value_eq}
use nova_db.Core.Value.Hash.{hash_eq}
use nova_db.Index.{hash}
use nova_db.Index.Entries
use nova_db.Index.Entries.{
  Ids, Entries, has, same, set_insert, set_remove, put_back, lookup, hash_insert,
}

-- Values among which `==` is an equivalence, and equal ones hash alike. Among integers and floats
-- together it is none, and great integers do not hash as the floats that equal them.
pub record IsKeyClass {F : Type 0} (fl : Float F) (IsKey : Value F → Type 0) : Type 0 where
  pub key_refl : (a : Value F) → IsKey a → value_eq fl a a ≡ true
  pub key_sym :
      (a b : Value F) → IsKey a → IsKey b → value_eq fl a b ≡ true → value_eq fl b a ≡ true
  pub key_trans :
      (a b c : Value F)
      → IsKey a
      → IsKey b
      → IsKey c
      → value_eq fl a b ≡ true
      → value_eq fl b c ≡ true
      → value_eq fl a c ≡ true
  pub key_hash :
      (a b : Value F) → IsKey a → IsKey b → value_eq fl a b ≡ true → hash_eq fl a b ≡ true

has-append : (id : DocumentId) (ids more : Ids) → has id ids ≡ true → has id (ids ++ more) ≡ true
unfolding has
has-append id [] more h = absurd (false≢true h)
has-append id (j ∷ ids) more h = ground (arith, has-append id ids more)

has-set_insert :
    (id id' : DocumentId) (ids : Ids) → has id ids ≡ true → has id (set_insert id' ids) ≡ true
has-set_insert id id' ids h = elim (Bool-cases (has id' ids)) [
  | inl old ↦ rw old h
  | inr new ↦ rw new (has-append id ids (id' ∷ []) h)
]

has-set_remove :
    (id id' : DocumentId) (ids : Ids)
    → text_eq id' id ≡ false
    → has id ids ≡ true
    → has id (set_remove id' ids) ≡ true
unfolding has set_remove text_eq
has-set_remove id id' [] other h = absurd (false≢true h)
has-set_remove id id' (j ∷ ids) other h =
    ground (arith, has-set_remove id id' ids other, bytes_eq→eq j id')

module _ {F : Type 0} (fl : Float F) where
  abbrev pub AllKeys : (Value F → Type 0) → Entries F → Type 0
  AllKeys IsKey es = All (λ (e : Value F × Ids). IsKey e.0) es

  -- what an insertion and a removal leave under a key
  pub hash_insert_keeps :
      (k j : Value F) (id id' : DocumentId) (es : Entries F)
      → has id (lookup fl hash j es) ≡ true
      → has id (lookup fl hash j (hash_insert fl k id' es)) ≡ true
  unfolding lookup hash_insert has
  hash_insert_keeps k j id id' [] h = absurd (false≢true h)
  hash_insert_keeps k j id id' ((i, ids) ∷ rest) h = elim (Bool-cases (same fl hash i k)) [
    | inl hit ↦ elim (Bool-cases (same fl hash i j)) [
      | inl here ↦ rw hit (rw here (has-set_insert id id' ids (rw here at h)))
      | inr there ↦ rw hit (rw there (rw there at h))
    ]
    | inr miss ↦ elim (Bool-cases (same fl hash i j)) [
      | inl here ↦ rw miss (rw here (rw here at h))
      | inr there ↦ rw miss (rw there (hash_insert_keeps k j id id' rest (rw there at h)))
    ]
  ]

  lookup-put_back :
      (i j : Value F) (ids : Ids) (rest : Entries F)
      → same fl hash i j ≡ false
      → lookup fl hash j (put_back i ids rest) ≡ lookup fl hash j rest
  unfolding lookup
  lookup-put_back i j [] rest h = refl
  lookup-put_back i j (id ∷ ids) rest h = rw h refl

  has-put_back :
      (i j : Value F) (id : DocumentId) (ids : Ids) (rest : Entries F)
      → same fl hash i j ≡ true
      → has id ids ≡ true
      → has id (lookup fl hash j (put_back i ids rest)) ≡ true
  unfolding lookup has
  has-put_back i j id [] rest here h = absurd (false≢true h)
  has-put_back i j id (id' ∷ ids) rest here h = rw here h

  pub remove_keeps :
      (k j : Value F) (id id' : DocumentId) (es : Entries F)
      → text_eq id' id ≡ false
      → has id (lookup fl hash j es) ≡ true
      → has id (lookup fl hash j (Entries.remove fl hash k id' es)) ≡ true
  unfolding lookup Entries.remove has
  remove_keeps k j id id' [] other h = absurd (false≢true h)
  remove_keeps k j id id' ((i, ids) ∷ rest) other h = elim (Bool-cases (same fl hash i k)) [
    | inl hit ↦ elim (Bool-cases (same fl hash i j)) [
      | inl here ↦ rw hit (
          has-put_back i j id (set_remove id' ids) rest here
            (has-set_remove id id' ids other (rw here at h)))
      | inr there ↦
          rw hit (rw (lookup-put_back i j (set_remove id' ids) rest there) (rw there at h))
    ]
    | inr miss ↦ elim (Bool-cases (same fl hash i j)) [
      | inl here ↦ rw miss (rw here (rw here at h))
      | inr there ↦ rw miss (rw there (remove_keeps k j id id' rest other (rw there at h)))
    ]
  ]

  module _ (IsKey : Value F → Type 0) (class : IsKeyClass fl IsKey) where
    pub same_key :
        (a b : Value F) → IsKey a → IsKey b → value_eq fl a b ≡ true → same fl hash a b ≡ true
    same_key a b ka kb h = rw (class.key_hash a b ka kb h) h

    equal_key : (a b : Value F) → same fl hash a b ≡ true → value_eq fl a b ≡ true
    equal_key a b h = ground (arith, h)

    pub lookup_same :
        (a b : Value F) (es : Entries F)
        → AllKeys IsKey es
        → IsKey a
        → IsKey b
        → value_eq fl a b ≡ true
        → lookup fl hash a es ≡ lookup fl hash b es
    unfolding lookup
    lookup_same a b [] ks ka kb same_ab = refl
    lookup_same a b ((i, ids) ∷ rest) (ki, ks) ka kb same_ab =
        elim (Bool-cases (same fl hash i a)) [
          | inl here ↦
              let there = class.key_trans i a b ki ka kb (equal_key i a here) same_ab in
              rw here (rw (same_key i b ki kb there) refl)
          | inr there ↦ elim (Bool-cases (same fl hash i b)) [
            | inl at_b ↦
                let back = class.key_sym a b ka kb same_ab in
                absurd (
                  false≢true (
                    sym there
                    ∙ same_key i a ki ka
                        (class.key_trans i b a ki kb ka (equal_key i b at_b) back)))
            | inr not_b ↦ rw there (rw not_b (lookup_same a b rest ks ka kb same_ab))
          ]
        ]
