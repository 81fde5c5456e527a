-- ===== src/Base/Map.antt =====
-- Maps as association lists over keys with a Boolean equality: `HashMap`, in the order in which it is
-- walked.
pub mod Loops
pub mod Splits
pub mod Filled
use mathlib.Core.Path.{◌≡◌, refl}
use mathlib.Core.Bool.{Bool, true, ◌&&◌}
use mathlib.Core.Option.{Option, none, some}
use mathlib.Core.List.{List, [], ◌∷◌}
use native.Mathlib.Omega.{arith}
use nova_db.Base.Tests.{if◌then◌else◌}
use nova_db.Base.Bytes.{bytes_eq, bytes_eq_refl, bytes_eq→eq}
use nova_db.Base.Text.{Text}

pub record Eq (K : Type 0) : Type 0 where
  pub beq : K → K → Bool
  pub beq_refl : (a : K) → beq a a ≡ true
  pub beq_eq : (a b : K) → beq a b ≡ true → a ≡ b

instance abbrev pub text_eq : Eq Text
text_eq = record { beq = bytes_eq; beq_refl = bytes_eq_refl; beq_eq = bytes_eq→eq }

abbrev pub pair_beq : Text × Text → Text × Text → Bool
pair_beq (a, b) (c, d) = bytes_eq a c && bytes_eq b d

pub pair_beq_refl : (p : Text × Text) → pair_beq p p ≡ true
pair_beq_refl (a, b) = rw (bytes_eq_refl a) (bytes_eq_refl b)

pub pair_beq_eq : (p q : Text × Text) → pair_beq p q ≡ true → p ≡ q
pair_beq_eq (a, b) (c, d) h = ground (arith, bytes_eq→eq a c, bytes_eq→eq b d)

-- A collection's key is a pair of texts.
instance abbrev pub pair_eq : Eq (Text × Text)
pair_eq = record { beq = pair_beq; beq_refl = pair_beq_refl; beq_eq = pair_beq_eq }

abbrev pub Map : Type 0 → Type 0 → Type 0
Map K V = List (K × V)

module _ {K V : Type 0} ⦃e : Eq K⦄ where
  unfoldable pub get : K → Map K V → Option V
  get k [] = none
  get k ((j, v) ∷ m) = if e.beq j k then some v else get k m

  -- The value of a key that is there is replaced.
  unfoldable pub insert : K → V → Map K V → Map K V
  insert k v [] = (k, v) ∷ []
  insert k v ((j, w) ∷ m) = if e.beq j k then (j, v) ∷ m else (j, w) ∷ insert k v m

  unfoldable pub remove : K → Map K V → Map K V
  remove k [] = []
  remove k ((j, w) ∷ m) = let rest = remove k m in if e.beq j k then rest else (j, w) ∷ rest

  pub get-insert :
      (k j : K) (v : V) (m : Map K V)
      → get j (insert k v m) ≡ (if e.beq k j then some v else get j m)
  unfolding get insert
  get-insert k j v [] = refl
  get-insert k j v ((i, w) ∷ m) = ground (
    arith,
    get-insert k j v m,
    e.beq_eq i k,
    e.beq_eq i j,
    e.beq_eq k j,
    e.beq_refl j,
    e.beq_refl k,
  )

  pub get-remove :
      (k j : K) (m : Map K V) → get j (remove k m) ≡ (if e.beq k j then none else get j m)
  unfolding get remove
  get-remove k j [] = ground arith
  get-remove k j ((i, w) ∷ m) = ground (
    arith,
    get-remove k j m,
    e.beq_eq i k,
    e.beq_eq i j,
    e.beq_eq k j,
    e.beq_refl j,
    e.beq_refl k,
  )

  -- No key is listed twice: the lists stand for maps.
  abbrev pub IsDistinct : Map K V → Type 0
  IsDistinct [] = Unit {0}
  IsDistinct ((k, v) ∷ m) = (get k m ≡ none) × IsDistinct m
