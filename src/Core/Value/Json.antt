-- ===== src/Core/Value/Json.antt =====
-- crates/nova-core/src/value.rs: values as serde_json's values and back, which is how documents are
-- written to the log, to snapshots and to clients.
pub mod Entries
pub mod Survives
use Prim.Native.Nat.{Ordering}
use nova_db.Base.{
  ℕ, ◌+◌, ◌-◌, ◌/◌, ◌%◌, ltb, if◌then◌else◌, Bool, [], ◌∷◌, ◌++◌, Option, none, some,
}
use nova_db.Base.Bytes.{Bytes}
use nova_db.Base.Int.{ℤ}
use nova_db.Base.Text.{Text, text_cmp, codes}
use nova_db.Core.Value
use nova_db.Core.Value.{Value, Values, Fields}

-- What the code calls of serde_json's `Number`, `N`, and of the crate uuid.
pub record JsonCrates (F N : Type 0) : Type 0 where
  -- `i64.into()`, `Number::from_f64`, `as_i64` and `as_f64`
  pub of_i64 : ℤ → N
  pub from_f64 : F → Option N
  pub as_i64 : N → Option ℤ
  pub as_f64 : N → Option F
  -- `Uuid::parse_str`, and `Uuid::from_bytes(u).to_string()`
  pub parse_str : Text → Option Bytes
  pub uuid_text : Bytes → Text

-- `serde_json::Value`, whose map is a `BTreeMap`
mutual
  pub data JsonValue (N : Type 0) : Type 0 where
    null : JsonValue N
    bool : Bool → JsonValue N
    number : N → JsonValue N
    string : Text → JsonValue N
    array : JsonValues N → JsonValue N
    object : JsonFields N → JsonValue N

  pub data JsonValues (N : Type 0) : Type 0 where
    nil : JsonValues N
    cons : JsonValue N → JsonValues N → JsonValues N

  pub data JsonFields (N : Type 0) : Type 0 where
    end : JsonFields N
    field : Text → JsonValue N → JsonFields N → JsonFields N

-- `Map::insert`
unfoldable pub insert : {N : Type 0} → Text → JsonValue N → JsonFields N → JsonFields N
unfolding text_cmp
insert k v JsonFields.end = JsonFields.field k v JsonFields.end
insert k v (JsonFields.field j w m) =
    let rest = insert k v m in
    elim (text_cmp k j) [
      | Ordering.lt ↦ JsonFields.field k v (JsonFields.field j w m)
      | Ordering.eq ↦ JsonFields.field j v m
      | Ordering.gt ↦ JsonFields.field j w rest
    ]

-- a digit of `{:02x}`
abbrev hex_digit : ℕ → ℕ
hex_digit d = if ltb d 10 then b'0' + d else b'a' + (d - 10)

unfoldable pub hex_encode : Bytes → Text
hex_encode [] = []
hex_encode (b ∷ bytes) = hex_digit (b / 16) ∷ hex_digit (b % 16) ∷ hex_encode bytes

module _ {F N : Type 0} (crates : JsonCrates F N) where
  -- `Number::from_f64(f).map(Number).unwrap_or(Null)`
  abbrev pub number_or_null : Option N → JsonValue N
  number_or_null none = JsonValue.null
  number_or_null (some n) = JsonValue.number n

  -- an `i64`, else an `f64`, else Null
  abbrev pub number_value : Option ℤ → Option F → Value F
  number_value (some i) f = Value.int i
  number_value none (some f) = Value.float f
  number_value none none = Value.null

  -- a text that parses as a UUID is one
  abbrev pub string_value : Text → Option Bytes → Value F
  string_value s none = Value.string s
  string_value s (some u) = Value.uuid u

  -- `From<Value> for serde_json::Value`; the last argument of `to_fields` is the map so far
  unfoldable mutual
    unfolding insert hex_encode

    pub to_json : Value F → JsonValue N
    to_json Value.null = JsonValue.null
    to_json (Value.bool b) = JsonValue.bool b
    to_json (Value.int i) = JsonValue.number (crates.of_i64 i)
    to_json (Value.float f) = number_or_null (crates.from_f64 f)
    to_json (Value.string s) = JsonValue.string s
    to_json (Value.bytes b) = JsonValue.string (codes "0x" ++ hex_encode b)
    to_json (Value.array xs) = JsonValue.array (to_items xs)
    to_json (Value.object m) = JsonValue.object (to_fields m JsonFields.end)
    to_json (Value.timestamp t) = JsonValue.number (crates.of_i64 t)
    to_json (Value.uuid u) = JsonValue.string (crates.uuid_text u)

    pub to_items : Values F → JsonValues N
    to_items Values.nil = JsonValues.nil
    to_items (Values.cons v vs) = JsonValues.cons (to_json v) (to_items vs)

    pub to_fields : Fields F → JsonFields N → JsonFields N
    to_fields Fields.end obj = obj
    to_fields (Fields.field k v m) obj = to_fields m (insert k (to_json v) obj)

  -- `From<serde_json::Value> for Value`
  unfoldable mutual
    unfolding Value.insert

    pub from_json : JsonValue N → Value F
    from_json JsonValue.null = Value.null
    from_json (JsonValue.bool b) = Value.bool b
    from_json (JsonValue.number n) = number_value (crates.as_i64 n) (crates.as_f64 n)
    from_json (JsonValue.string s) = string_value s (crates.parse_str s)
    from_json (JsonValue.array xs) = Value.array (from_items xs)
    from_json (JsonValue.object m) = Value.object (from_fields m Fields.end)

    pub from_items : JsonValues N → Values F
    from_items JsonValues.nil = Values.nil
    from_items (JsonValues.cons v vs) = Values.cons (from_json v) (from_items vs)

    pub from_fields : JsonFields N → Fields F → Fields F
    from_fields JsonFields.end m = m
    from_fields (JsonFields.field k v obj) m = from_fields obj (Value.insert k (from_json v) m)
