-- ===== src/Core/Value/Json/Entries.antt =====
-- crates/nova-core/src/value.rs: the entries of an object on their way to JSON and back.
use Prim.Native.Nat.{Ordering}
use nova_db.Base.{◌≡◌, refl, sym, ap, ◌∙◌, List, [], ◌∷◌, ◌++◌, All}
use nova_db.Base.Text.{Text, text_cmp}
use nova_db.Core.Value
use nova_db.Core.Value.{Value, Values, Fields, Float, value_eq, values_eq, fields_eq, bool_eq}
use nova_db.Core.Value.Json
use nova_db.Core.Value.Json.{
  JsonCrates, JsonValue, JsonValues, JsonFields, to_json, to_items, to_fields, from_json,
  from_items, from_fields, number_or_null, number_value, string_value, hex_encode,
}

module _ {F : Type 0} where
  abbrev pub keys : Fields F → List Text
  keys Fields.end = []
  keys (Fields.field k v m) = k ∷ keys m

  -- The keys ascend, from behind those given.
  abbrev pub IsAscending : List Text → Fields F → Type 0
  IsAscending seen Fields.end = Unit
  IsAscending seen (Fields.field k v m) =
      All (λ j. text_cmp k j ≡ Ordering.gt) seen × IsAscending (seen ++ (k ∷ [])) m

module _ {F N : Type 0} (crates : JsonCrates F N) where
  unfoldable pub to_each : Fields F → JsonFields N
  unfolding to_json
  to_each Fields.end = JsonFields.end
  to_each (Fields.field k v m) = JsonFields.field k (to_json crates v) (to_each m)

  unfoldable pub back_each : Fields F → Fields F
  unfolding to_json from_json
  back_each Fields.end = Fields.end
  back_each (Fields.field k v m) =
      Fields.field k (from_json crates (to_json crates v)) (back_each m)

abbrev append : {F : Type 0} → Fields F → Fields F → Fields F
append Fields.end n = n
append (Fields.field k v m) n = Fields.field k v (append m n)

abbrev append_json : {N : Type 0} → JsonFields N → JsonFields N → JsonFields N
append_json JsonFields.end n = n
append_json (JsonFields.field k v m) n = JsonFields.field k v (append_json m n)

abbrev json_keys : {N : Type 0} → JsonFields N → List Text
json_keys JsonFields.end = []
json_keys (JsonFields.field k v m) = k ∷ json_keys m

append-end : {F : Type 0} (m : Fields F) → append m Fields.end ≡ m
append-end Fields.end = refl
append-end (Fields.field k v m) = ap (Fields.field k v) (append-end m)

append_json-end : {N : Type 0} (m : JsonFields N) → append_json m JsonFields.end ≡ m
append_json-end JsonFields.end = refl
append_json-end (JsonFields.field k v m) = ap (JsonFields.field k v) (append_json-end m)

append_assoc_lem : {F : Type 0} (m n o : Fields F) → append (append m n) o ≡ append m (append n o)
append_assoc_lem Fields.end n o = refl
append_assoc_lem (Fields.field k v m) n o = ap (Fields.field k v) (append_assoc_lem m n o)

append_json_assoc :
    {N : Type 0} (m n o : JsonFields N)
    → append_json (append_json m n) o ≡ append_json m (append_json n o)
append_json_assoc JsonFields.end n o = refl
append_json_assoc (JsonFields.field k v m) n o = ap (JsonFields.field k v) (append_json_assoc m n o)

keys-append : {F : Type 0} (m n : Fields F) → keys (append m n) ≡ keys m ++ keys n
keys-append Fields.end n = refl
keys-append (Fields.field k v m) n = ap (λ ks. k ∷ ks) (keys-append m n)

json_keys-append :
    {N : Type 0} (m n : JsonFields N) → json_keys (append_json m n) ≡ json_keys m ++ json_keys n
json_keys-append JsonFields.end n = refl
json_keys-append (JsonFields.field k v m) n = ap (λ ks. k ∷ ks) (json_keys-append m n)

-- a key behind all others
insert_last :
    {F : Type 0} (k : Text) (v : Value F) (m : Fields F)
    → All (λ j. text_cmp k j ≡ Ordering.gt) (keys m)
    → Value.insert k v m ≡ append m (Fields.field k v Fields.end)
unfolding Value.insert
insert_last k v Fields.end h = refl
insert_last k v (Fields.field j w m) (h, hs) =
    rw (h, Value.insert) (ap (Fields.field j w) (insert_last k v m hs))

insert_json_last :
    {N : Type 0} (k : Text) (v : JsonValue N) (m : JsonFields N)
    → All (λ j. text_cmp k j ≡ Ordering.gt) (json_keys m)
    → Json.insert k v m ≡ append_json m (JsonFields.field k v JsonFields.end)
unfolding Json.insert
insert_json_last k v JsonFields.end h = refl
insert_json_last k v (JsonFields.field j w m) (h, hs) =
    rw (h, Json.insert) (ap (JsonFields.field j w) (insert_json_last k v m hs))

module _ {F N : Type 0} (crates : JsonCrates F N) where
  pub to_fields_lem :
      (m : Fields F) (obj : JsonFields N)
      → IsAscending (json_keys obj) m
      → to_fields crates m obj ≡ append_json obj (to_each crates m)
  unfolding to_fields to_each
  to_fields_lem Fields.end obj h = sym (append_json-end obj)
  to_fields_lem (Fields.field k v m) obj (h, hs) =
      let last = JsonFields.field k (to_json crates v) JsonFields.end in
      rw (insert_json_last k (to_json crates v) obj h) (
        to_fields_lem m (append_json obj last) (rw (json_keys-append obj last) hs)
        ∙ append_json_assoc obj last (to_each crates m))

  pub from_fields_lem :
      (m acc : Fields F)
      → IsAscending (keys acc) m
      → from_fields crates (to_each crates m) acc ≡ append acc (back_each crates m)
  unfolding from_fields to_each back_each
  from_fields_lem Fields.end acc h = sym (append-end acc)
  from_fields_lem (Fields.field k v m) acc (h, hs) =
      let last = Fields.field k (from_json crates (to_json crates v)) Fields.end in
      rw (insert_last k (from_json crates (to_json crates v)) acc h) (
        from_fields_lem m (append acc last) (rw (keys-append acc last) hs)
        ∙ append_assoc_lem acc last (back_each crates m))
