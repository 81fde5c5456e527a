-- ===== src/Storage/Snapshot/Names.antt =====
-- crates/nova-storage/src/snapshot.rs: the names that a snapshot gives to collections.
use nova_db.Base.{
  some-injective, true≢false, ℕ, ◌≡◌, refl, sym, subst, ap, ◌∙◌, true, false, ◌&&◌, ◌==◌, ==_iff,
  Bool-cases, inl, inr, List, [], ◌∷◌, ◌++◌, Option, none, some, All, arith,
}
use nova_db.Base.Text.{Text}
use nova_db.Storage.Recovery.{CollectionKey}

abbrev pub colon : ℕ
colon = b':'

-- `format!("{ns}::{coll}")`
abbrev pub collection_name : CollectionKey → Text
collection_name (ns, coll) = ns ++ (colon ∷ colon ∷ coll)

-- one character more in front of the first part
abbrev with_char : ℕ → List Text → List Text
with_char c [] = (c ∷ []) ∷ []
with_char c (part ∷ parts) = (c ∷ part) ∷ parts

-- `split("::")`: at the leftmost pairs of colons
unfoldable pub split_colons : Text → List Text
split_colons [] = [] ∷ []
split_colons (c ∷ []) = (c ∷ []) ∷ []
split_colons (c ∷ d ∷ s) = elim (c == colon && d == colon) [
  | true ↦ [] ∷ split_colons s
  | false ↦ with_char c (split_colons (d ∷ s))
]

-- the two parts, if there are two
abbrev pub two_parts : List Text → Option CollectionKey
two_parts (ns ∷ coll ∷ []) = some (ns, coll)
two_parts _ = none

unfoldable pub parse_name : Text → Option CollectionKey
unfolding split_colons
parse_name name = two_parts (split_colons name)

-- Neither the namespace nor the collection holds a colon.
abbrev pub Plain : Text → Type 0
Plain s = All (λ c. (c == colon) ≡ false) s

-- the parts with the colons between them
joined : List Text → Text
joined [] = []
joined (part ∷ []) = part
joined (part ∷ next ∷ parts) = part ++ (colon ∷ colon ∷ joined (next ∷ parts))

split_alone : (s : Text) → Plain s → split_colons s ≡ s ∷ []
unfolding split_colons
split_alone [] h = refl
split_alone (c ∷ []) h = refl
split_alone (c ∷ d ∷ s) (h, hs) = rw (h, split_colons) (rw (split_alone (d ∷ s) hs, with_char) refl)

split_front :
    (ns coll : Text)
    → Plain ns
    → Plain coll
    → split_colons (collection_name (ns, coll)) ≡ ns ∷ coll ∷ []
unfolding split_colons
split_front [] coll h k = rw (split_alone coll k) refl
split_front (c ∷ []) coll (h, hs) k = rw (h, split_colons) (rw (split_alone coll k) refl)
split_front (c ∷ d ∷ ns) coll (h, hs) k =
    rw (h, split_colons) (rw (split_front (d ∷ ns) coll hs k, with_char) refl)

pub parse_name-collection_name :
    (key : CollectionKey) → Plain key.0 → Plain key.1 → parse_name (collection_name key) ≡ some key
unfolding parse_name
parse_name-collection_name key h k = rw (split_front key.0 key.1 h k, two_parts) refl

joined-with_char : (c : ℕ) (parts : List Text) → joined (with_char c parts) ≡ c ∷ joined parts
unfolding joined
joined-with_char c [] = refl
joined-with_char c (part ∷ []) = refl
joined-with_char c (part ∷ next ∷ parts) = refl

two_colons :
    (c d : ℕ) (s : Text) → (c == colon && d == colon) ≡ true → colon ∷ colon ∷ s ≡ c ∷ d ∷ s
two_colons c d s h = ground (arith, ==_iff c colon, ==_iff d colon)

joined_behind :
    (c : ℕ) (part : Text) (parts : List Text)
    → joined (part ∷ with_char c parts) ≡ part ++ (colon ∷ colon ∷ joined (with_char c parts))
unfolding joined
joined_behind c part [] = refl
joined_behind c part (next ∷ parts) = refl

joined_next :
    (part s : Text)
    → joined (part ∷ split_colons s) ≡ part ++ (colon ∷ colon ∷ joined (split_colons s))
unfolding joined split_colons
joined_next part [] = refl
joined_next part (c ∷ []) = refl
joined_next part (c ∷ d ∷ s) = elim (Bool-cases (c == colon && d == colon)) [
  | inl both ↦ rw (both, split_colons) refl
  | inr other ↦ rw (other, split_colons) (joined_behind c part (split_colons (d ∷ s)))
]

joined-split_colons : (s : Text) → joined (split_colons s) ≡ s
unfolding joined split_colons
joined-split_colons [] = refl
joined-split_colons (c ∷ []) = refl
joined-split_colons (c ∷ d ∷ s) = elim (Bool-cases (c == colon && d == colon)) [
  | inl both ↦
      rw (both, split_colons)
        (joined_next [] s ∙ rw (joined-split_colons s) (two_colons c d s both))
  | inr other ↦
      rw (other, split_colons)
        (joined-with_char c (split_colons (d ∷ s)) ∙ ap (λ t. c ∷ t) (joined-split_colons (d ∷ s)))
]

two_parts-joined :
    (parts : List Text) (key : CollectionKey)
    → two_parts parts ≡ some key
    → joined parts ≡ collection_name key
unfolding joined
two_parts-joined [] key h = cc
two_parts-joined (ns ∷ []) key h = cc
two_parts-joined (ns ∷ coll ∷ []) key h = ap collection_name (some-injective h)
two_parts-joined (ns ∷ coll ∷ part ∷ parts) key h = cc

pub parse_name_only :
    (name : Text) (key : CollectionKey) → parse_name name ≡ some key → name ≡ collection_name key
unfolding parse_name
parse_name_only name key h =
    sym (joined-split_colons name) ∙ two_parts-joined (split_colons name) key h

head_eq : {a b : ℕ} {s t : Text} → a ∷ s ≡ b ∷ t → a ≡ b
head_eq h = cc

tail_eq : {a b : ℕ} {s t : Text} → a ∷ s ≡ b ∷ t → s ≡ t
tail_eq h = cc

has_colon : (front back : Text) → Plain (front ++ (colon ∷ back)) → ⊥
has_colon [] back (h, hs) = elim (true≢false h) [ ]
has_colon (c ∷ front) back (h, hs) = has_colon front back hs

colon_first :
    (front back coll : Text) → Plain coll → front ++ (colon ∷ colon ∷ back) ≡ colon ∷ coll → ⊥
colon_first [] back coll h same = has_colon [] back (subst Plain (sym (tail_eq same)) h)
colon_first (c ∷ front) back coll h same =
    has_colon front (colon ∷ back) (subst Plain (sym (tail_eq same)) h)

-- no other pair of texts gives the name of a plain collection
names_only :
    (ns' ns coll' coll : Text)
    → Plain ns
    → Plain coll
    → collection_name (ns', coll') ≡ collection_name (ns, coll)
    → (ns' ≡ ns) × (coll' ≡ coll)
names_only [] [] coll' coll h k same = (refl, tail_eq (tail_eq same))
names_only [] (c ∷ ns) coll' coll (h, hs) k same = absurd (true≢false (rw (← head_eq same) at h))
names_only (c ∷ ns') [] coll' coll h k same = absurd (colon_first ns' coll' coll k (tail_eq same))
names_only (c ∷ ns') (d ∷ ns) coll' coll (h, hs) k same =
    let (ns_eq, coll_eq) = names_only ns' ns coll' coll hs k (tail_eq same) in
    (cc (ns_eq, head_eq same), coll_eq)

pub collection_name_only :
    (key' key : CollectionKey)
    → Plain key.0
    → Plain key.1
    → collection_name key' ≡ collection_name key
    → key' ≡ key
collection_name_only key' key h k same =
    let (a, b) = names_only key'.0 key.0 key'.1 key.1 h k same in cc (a, b)
