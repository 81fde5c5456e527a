-- ===== src/Tests/Values.antt =====
-- A value as JSON and back. Of the floats of these runs, 0 stands for infinity.
use nova_db.Base.{
  none≢some, some-injective, ℕ, ◌≡◌, refl, false, ◌==◌, ==_refl, if◌then◌else◌, Bool-cases, inl,
  inr, ◌⊎◌, Option, none, some, length,
}
use nova_db.Base.Int.{ℤ, pos}
use nova_db.Base.Text.{codes, text_cmp}
use nova_db.Core.Value.{Value, Values, Fields, value_eq}
use nova_db.Core.Value.Json.{JsonCrates, to_json, from_json}
use nova_db.Core.Value.Json.Survives.{IsJsonCrates, IsWellFormed, survives, value_eq-from_json}
use nova_db.Tests.Queries.{even}

abbrev int_of : ℤ ⊎ ℕ → Option ℤ
int_of (inl i) = some i
int_of (inr f) = none

abbrev float_of : ℤ ⊎ ℕ → Option ℕ
float_of (inl i) = none
float_of (inr f) = some f

-- a text of 16 characters is taken for a UUID
abbrev pub crates : JsonCrates ℕ (ℤ ⊎ ℕ)
crates = record {
  of_i64 = λ i. inl i;
  from_f64 = λ f. if f == 0 then none else some (inr f);
  as_i64 = int_of;
  as_f64 = float_of;
  parse_str = λ s. if length s == 16 then some s else none;
  uuid_text = λ u. u;
}

written_float : (f : ℕ) (n : ℤ ⊎ ℕ) → (if f == 0 then none else some (inr f)) ≡ some n → inr f ≡ n
written_float f n h = elim (Bool-cases (f == 0)) [
  | inl lost ↦ absurd (none≢some (rw lost at h))
  | inr kept ↦ some-injective (rw kept at h)
]

pub crates-IsJsonCrates : IsJsonCrates even crates
crates-IsJsonCrates = record {
  int_back = λ i. refl;
  no_int = λ f n h. rw (← written_float f n h) refl;
  float_back = λ f n h. rw (← written_float f n h) refl;
  uuid_back = λ u h. rw h refl;
  feq_refl = λ f h. ==_refl f;
}

-- { "a": ["x", 0.0], "at": a timestamp }
abbrev mixed : Value ℕ
mixed = Value.object (
    Fields.field (codes "a")
      (Value.array
        (Values.cons (Value.string (codes "x")) (Values.cons (Value.float 0) Values.nil)))
      (Fields.field (codes "at") (Value.timestamp (pos 5)) Fields.end))

mixed-IsWellFormed : IsWellFormed mixed
unfolding IsWellFormed text_cmp
mixed-IsWellFormed = ((tt, ((refl, tt), tt)), ((tt, (tt, tt)), (tt, tt)))

value_eq-from_json_example : value_eq even (from_json crates (to_json crates mixed)) mixed ≡ false
unfolding survives
value_eq-from_json_example =
    value_eq-from_json even crates crates-IsJsonCrates mixed mixed-IsWellFormed
