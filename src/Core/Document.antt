-- ===== src/Core/Document.antt =====
-- crates/nova-core/src/document.rs: documents. The clock, `Utc::now().timestamp_micros()`, is an
-- argument `now`.
use nova_db.Base.{ℕ, ◌+◌, ◌%◌, ◌^◌, List, [], ◌∷◌, Option, none, some, Bool, ◌||◌, if◌then◌else◌}
use nova_db.Base.Int.{ℤ}
use nova_db.Base.Text.{Text, text_eq}
use nova_db.Core.DocumentId.{DocumentId}
use nova_db.Core.Value.{Value, Fields, end, split_dots, walk}
use nova_db.Core.Value

pub record Document (F : Type 0) : Type 0 where
  pub id : DocumentId
  pub version : ℕ
  pub created_at : ℤ
  pub updated_at : ℤ
  pub fields : Fields F

abbrev pub id_key : Text
id_key = b'i' ∷ b'd' ∷ []

abbrev pub underscore_id_key : Text
underscore_id_key = b'_' ∷ b'i' ∷ b'd' ∷ []

-- `path == "_id" || path == "id"`
abbrev pub is_id : Text → Bool
is_id path = text_eq path underscore_id_key || text_eq path id_key

module _ {F : Type 0} where
  -- `Document::with_id`
  abbrev pub with_id : DocumentId → ℤ → Document F
  with_id id now = record { id = id; version = 1; created_at = now; updated_at = now; fields = end }

  -- `Document::get`
  unfoldable pub get : Text → Document F → Option (Value F)
  get key d = if is_id key then none else Value.get key d.fields

  abbrev walk_from : List Text → Option (Value F) → Option (Value F)
  walk_from parts none = none
  walk_from parts (some v) = walk parts v

  -- `Document::get_path`
  unfoldable pub get_path : Text → Document F → Option (Value F)
  get_path path d =
      let (first, others) = split_dots path in
      if is_id path then none else walk_from others (Value.get first d.fields)

  abbrev or_else : Option (Value F) → Option (Value F) → Option (Value F)
  or_else none o = o
  or_else (some v) o = some v

  -- `doc.get_path(field).or_else(|| doc.fields.get(field))`
  unfoldable pub lookup : Text → Document F → Option (Value F)
  lookup path d = or_else (get_path path d) (Value.get path d.fields)

  -- `Document::insert`, without the previous value that it returns
  unfoldable pub insert : Text → Value F → Document F → Document F
  insert key v d = record d { fields = Value.insert key v d.fields }

  -- `Document::advance_version`: the version is a u64 and wraps, as in a
  -- release build; a debug build panics there.
  unfoldable pub advance_version : ℤ → Document F → Document F
  advance_version now d = record d { version = (d.version + 1) % 2 ^ 64; updated_at = now }
