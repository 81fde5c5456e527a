-- ===== src/Core/Value/Hash.antt =====
-- crates/nova-core/src/value.rs: `Hash for Value`, as the bytes that a value feeds to a hasher.
-- A number feeds its bytes in the order of the machine, here the big end first; a text feeds its
-- bytes and 0xFF, a `Vec` its length first. What a UUID feeds is up to its crate: its bytes, here.
use nova_db.Base.{ℕ, suc, [], ◌∷◌, ◌++◌, Option, none, some, if◌then◌else◌, length, Bool}
use nova_db.Base.Bytes.{Bytes, to_be_bytes, bytes_eq}
use nova_db.Base.Int.{ℤ, as_u64}
use nova_db.Base.Text.{Text, as_bytes}
use nova_db.Core.Value.{
  Value, Values, Fields, Float, null, bool, int, float, string, bytes, array, object, timestamp,
  uuid, nil, cons, end, field,
}

abbrev i64_bytes : ℤ → Bytes
i64_bytes i = to_be_bytes 8 (as_u64 i)

abbrev str_bytes : Text → Bytes
str_bytes s = as_bytes s ++ 255 ∷ []

unfoldable pub values_len : {F : Type 0} → Values F → ℕ
values_len nil = 0
values_len (cons x xs) = suc (values_len xs)

module _ {F : Type 0} (fl : Float F) where
  -- A float without a fraction, in range, feeds the integer that it is.
  abbrev float_bytes : F → Option ℤ → Bytes
  float_bytes f (some i) = i64_bytes i
  float_bytes f none = to_be_bytes 8 (fl.to_bits f)

  unfoldable mutual
    unfolding values_len to_be_bytes as_bytes

    pub hash_value : Value F → Bytes
    hash_value null = 0 ∷ []
    hash_value (bool b) = 1 ∷ (if b then 1 else 0) ∷ []
    hash_value (int i) = 2 ∷ i64_bytes i
    hash_value (float f) = 2 ∷ float_bytes f (fl.to_int f)
    hash_value (string s) = 3 ∷ str_bytes s
    hash_value (bytes b) = 4 ∷ to_be_bytes 8 (length b) ++ b
    hash_value (timestamp ts) = 5 ∷ i64_bytes ts
    hash_value (uuid u) = 6 ∷ u
    hash_value (array arr) = 7 ∷ to_be_bytes 8 (values_len arr) ++ hash_values arr
    hash_value (object map) = 8 ∷ hash_fields map

    hash_values : Values F → Bytes
    hash_values nil = []
    hash_values (cons v vs) = hash_value v ++ hash_values vs

    hash_fields : Fields F → Bytes
    hash_fields end = []
    hash_fields (field k v m) = str_bytes k ++ (hash_value v ++ hash_fields m)

  -- Two values hash alike if they feed the same.
  abbrev pub hash_eq : Value F → Value F → Bool
  hash_eq a b = bytes_eq (hash_value a) (hash_value b)
