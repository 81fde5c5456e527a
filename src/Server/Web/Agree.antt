-- ===== src/Server/Web/Agree.antt =====
-- crates/nova-server/src/web.rs and crates/nova-core/src/value.rs: the two JSON forms of a value.
use nova_db.Base.{◌≡◌, refl, ap, ◌∙◌, Bool, true, false, ◌&&◌, false≢true}
use nova_db.Core.Value.{Value, Values, Fields, Float, value_eq}
use nova_db.Core.Value.Json.{
  JsonCrates, JsonValue, JsonValues, JsonFields, to_json, to_items, to_fields, from_json,
}
use nova_db.Core.Value.Json.Survives.{
  IsJsonCrates, IsWellFormed, survives, all_survive, fields_survive, value_eq-from_json,
}
use nova_db.Server.Web.{value_to_json, items_to_json, fields_to_json}

both : (a b : Bool) → a && b ≡ true → (a ≡ true) × (b ≡ true)
both true b h = (refl, h)
both false b h = absurd (false≢true h)

module _ {F N : Type 0} (crates : JsonCrates F N) where
  mutual
    unfolding value_to_json items_to_json fields_to_json to_json to_items to_fields survives
        all_survive fields_survive

    value_to_json-to_json :
        (v : Value F) → survives crates v ≡ true → value_to_json crates v ≡ to_json crates v
    value_to_json-to_json Value.null h = refl
    value_to_json-to_json (Value.bool b) h = refl
    value_to_json-to_json (Value.int i) h = refl
    value_to_json-to_json (Value.float f) h = refl
    value_to_json-to_json (Value.string s) h = refl
    value_to_json-to_json (Value.bytes b) h = absurd (false≢true h)
    value_to_json-to_json (Value.timestamp t) h = refl
    value_to_json-to_json (Value.uuid u) h = refl
    value_to_json-to_json (Value.array xs) h = ap JsonValue.array (items_to_json-to_items xs h)
    value_to_json-to_json (Value.object m) h =
        ap JsonValue.object (fields_to_json-to_fields m JsonFields.end h)

    items_to_json-to_items :
        (vs : Values F)
        → all_survive crates vs ≡ true
        → items_to_json crates vs ≡ to_items crates vs
    items_to_json-to_items Values.nil h = refl
    items_to_json-to_items (Values.cons v vs) h =
        let (one, rest) = both (survives crates v) (all_survive crates vs) h in
        rw (value_to_json-to_json v one)
          (ap (λ t. JsonValues.cons (to_json crates v) t) (items_to_json-to_items vs rest))

    fields_to_json-to_fields :
        (m : Fields F) (obj : JsonFields N)
        → fields_survive crates m ≡ true
        → fields_to_json crates m obj ≡ to_fields crates m obj
    fields_to_json-to_fields Fields.end obj h = refl
    fields_to_json-to_fields (Fields.field k v m) obj h =
        let (one, rest) = both (survives crates v) (fields_survive crates m) h in
        rw (value_to_json-to_json v one) (fields_to_json-to_fields m _ rest)

-- Let serde_json and uuid be as documented (IsJsonCrates), let every UUID in a value have 16 bytes
-- and the keys of every object ascend, and let the value hold, at any depth, no bytes, no
-- timestamp, no float that JSON has no number for and no text that parses as a UUID. The JSON in
-- which the web interface shows the value is then read back as a value that equals it.
pub value_eq-value_to_json :
    {F N : Type 0} (fl : Float F) (crates : JsonCrates F N) (v : Value F)
    → IsJsonCrates fl crates
    → IsWellFormed v
    → survives crates v ≡ true
    → value_eq fl (from_json crates (value_to_json crates v)) v ≡ true
value_eq-value_to_json fl crates v laws fine kept =
    ap (λ j. value_eq fl (from_json crates j) v) (value_to_json-to_json crates v kept)
    ∙ value_eq-from_json fl crates laws v fine
    ∙ kept
