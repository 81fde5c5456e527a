-- ===== src/Core/Value/Json/Survives.antt =====
-- crates/nova-core/src/value.rs: which values come back from their JSON form.
use nova_db.Base.{
  suc, ◌+◌, ◌≡◌, refl, Bool, true, false, ◌&&◌, Bool-cases, Option-cases, inl, inr, [], ◌++◌,
  Option, none, some, length, ==_refl,
}
use nova_db.Base.Bytes.{Bytes, bytes_eq_refl}
use nova_db.Base.Int.{ℤ, int_eq, pos, negsuc}
use nova_db.Base.Text
use nova_db.Base.Text.{Text, text_cmp, codes}
use nova_db.Core.Value.{Value, Values, Fields, Float, value_eq, values_eq, fields_eq}
use nova_db.Core.Value.Json.{
  JsonCrates, JsonFields, to_json, to_items, to_fields, from_json, from_items, from_fields,
  number_or_null, number_value, string_value, hex_encode,
}
use nova_db.Core.Value.Json.Entries.{IsAscending, back_each, to_fields_lem, from_fields_lem}

-- What the crates document: an integer is read back as one, a finite float as the float and not as an
-- integer, the text of a UUID as the UUID; a float that is a number equals itself.
pub record IsJsonCrates {F N : Type 0} (fl : Float F) (crates : JsonCrates F N) : Type 0 where
  pub int_back : (i : ℤ) → crates.as_i64 (crates.of_i64 i) ≡ some i
  pub no_int : (f : F) (n : N) → crates.from_f64 f ≡ some n → crates.as_i64 n ≡ none
  pub float_back : (f : F) (n : N) → crates.from_f64 f ≡ some n → crates.as_f64 n ≡ some f
  pub uuid_back : (u : Bytes) → length u ≡ 16 → crates.parse_str (crates.uuid_text u) ≡ some u
  pub feq_refl : (f : F) → fl.is_nan f ≡ false → fl.feq f f ≡ true

module _ {F : Type 0} where
  -- A UUID has 16 bytes, and the keys of an object ascend, as those of a `BTreeMap` do.
  unfoldable mutual
    pub IsWellFormed : Value F → Type 0
    IsWellFormed (Value.uuid u) = length u ≡ 16
    IsWellFormed (Value.array xs) = AllWellFormed xs
    IsWellFormed (Value.object m) = IsAscending [] m × FieldsWellFormed m
    IsWellFormed Value.null = Unit
    IsWellFormed (Value.bool b) = Unit
    IsWellFormed (Value.int i) = Unit
    IsWellFormed (Value.float f) = Unit
    IsWellFormed (Value.string s) = Unit
    IsWellFormed (Value.bytes b) = Unit
    IsWellFormed (Value.timestamp t) = Unit

    pub AllWellFormed : Values F → Type 0
    AllWellFormed Values.nil = Unit
    AllWellFormed (Values.cons v vs) = IsWellFormed v × AllWellFormed vs

    pub FieldsWellFormed : Fields F → Type 0
    FieldsWellFormed Fields.end = Unit
    FieldsWellFormed (Fields.field k v m) = IsWellFormed v × FieldsWellFormed m

abbrev is_some : {A : Type 0} → Option A → Bool
is_some (some a) = true
is_some none = false

abbrev is_none : {A : Type 0} → Option A → Bool
is_none (some a) = false
is_none none = true

module _ {F N : Type 0} (crates : JsonCrates F N) where
  -- Bytes and timestamps do not come back, nor do infinities and texts that look like a UUID.
  unfoldable mutual
    pub survives : Value F → Bool
    survives Value.null = true
    survives (Value.bool b) = true
    survives (Value.int i) = true
    survives (Value.float f) = is_some (crates.from_f64 f)
    survives (Value.string s) = is_none (crates.parse_str s)
    survives (Value.bytes b) = false
    survives (Value.array xs) = all_survive xs
    survives (Value.object m) = fields_survive m
    survives (Value.timestamp t) = false
    survives (Value.uuid u) = true

    pub all_survive : Values F → Bool
    all_survive Values.nil = true
    all_survive (Values.cons v vs) = survives v && all_survive vs

    pub fields_survive : Fields F → Bool
    fields_survive Fields.end = true
    fields_survive (Fields.field k v m) = survives v && fields_survive m

int_eq_refl : (i : ℤ) → int_eq i i ≡ true
int_eq_refl (pos n) = ==_refl (n + 0)
int_eq_refl (negsuc n) = ==_refl (0 + suc n)

module _ {F N : Type 0} (fl : Float F) (crates : JsonCrates F N)
    (laws : IsJsonCrates fl crates) where
  float_survives :
      (f : F)
      → value_eq fl (from_json crates (to_json crates (Value.float f))) (Value.float f)
        ≡ is_some (crates.from_f64 f)
  unfolding value_eq from_json to_json
  float_survives f = elim (Option-cases (crates.from_f64 f)) [
    | inl lost ↦ rw (lost, number_or_null) refl
    | inr (n, kept) ↦
        rw (kept, number_or_null)
          (rw (laws.no_int f n kept, number_value)
            (rw (laws.float_back f n kept) (elim (Bool-cases (fl.is_nan f)) [
              | inl nan ↦ rw nan refl
              | inr number ↦ rw number (laws.feq_refl f number)
            ])))
  ]

  string_survives :
      (s : Text)
      → value_eq fl (from_json crates (to_json crates (Value.string s))) (Value.string s)
        ≡ is_none (crates.parse_str s)
  unfolding value_eq from_json to_json Text.text_eq
  string_survives s = elim (Option-cases (crates.parse_str s)) [
    | inl text ↦ rw (text, string_value) (bytes_eq_refl s)
    | inr (u, looks_like) ↦ rw (looks_like, string_value) refl
  ]

  bytes_change :
      (b : Bytes)
      → value_eq fl (from_json crates (to_json crates (Value.bytes b))) (Value.bytes b) ≡ false
  unfolding value_eq from_json to_json
  bytes_change b = elim (Option-cases (crates.parse_str (codes "0x" ++ hex_encode b))) [
    | inl text ↦ rw (text, string_value) refl
    | inr (u, looks_like) ↦ rw (looks_like, string_value) refl
  ]

  mutual
    unfolding IsWellFormed value_eq values_eq fields_eq from_json from_items from_fields to_json
        to_items to_fields survives all_survive fields_survive back_each Text.text_eq

    value_eq_back :
        (v : Value F)
        → IsWellFormed v
        → value_eq fl (from_json crates (to_json crates v)) v ≡ survives crates v
    value_eq_back Value.null h = refl
    value_eq_back (Value.bool true) h = refl
    value_eq_back (Value.bool false) h = refl
    value_eq_back (Value.int i) h = rw (laws.int_back i, number_value) (int_eq_refl i)
    value_eq_back (Value.float f) h = float_survives f
    value_eq_back (Value.string s) h = string_survives s
    value_eq_back (Value.bytes b) h = bytes_change b
    value_eq_back (Value.timestamp t) h = rw (laws.int_back t, number_value) refl
    value_eq_back (Value.uuid u) h = rw (laws.uuid_back u h, string_value) (bytes_eq_refl u)
    value_eq_back (Value.array xs) h = values_eq-from_items xs h
    value_eq_back (Value.object m) (ascending, h) =
        rw (to_fields_lem crates m JsonFields.end ascending)
          (rw (from_fields_lem crates m Fields.end ascending) (fields_eq-back_each m h))

    values_eq-from_items :
        (vs : Values F)
        → AllWellFormed vs
        → values_eq fl (from_items crates (to_items crates vs)) vs ≡ all_survive crates vs
    values_eq-from_items Values.nil h = refl
    values_eq-from_items (Values.cons v vs) (h, hs) =
        rw (value_eq_back v h) (rw (values_eq-from_items vs hs) refl)

    fields_eq-back_each :
        (m : Fields F)
        → FieldsWellFormed m
        → fields_eq fl (back_each crates m) m ≡ fields_survive crates m
    fields_eq-back_each Fields.end h = refl
    fields_eq-back_each (Fields.field k v m) (h, hs) =
        rw (bytes_eq_refl k) (rw (value_eq_back v h) (rw (fields_eq-back_each m hs) refl))

  -- Let serde_json and uuid be as documented (IsJsonCrates), let every UUID in a value have 16
  -- bytes and the keys of every object ascend. Written as JSON and read back, the value equals
  -- itself exactly if it holds, at any depth, no bytes, no timestamp, no float that JSON has no
  -- number for and no text that parses as a UUID.
  pub value_eq-from_json :
      (v : Value F)
      → IsWellFormed v
      → value_eq fl (from_json crates (to_json crates v)) v ≡ survives crates v
  value_eq-from_json v h = value_eq_back v h
