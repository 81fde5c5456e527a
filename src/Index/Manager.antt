-- ===== src/Index/Manager.antt =====
-- crates/nova-index/src/manager.rs: the indexes of a collection, by name, and how they follow its
-- documents. `insert` and `remove` of an index never fail, so the notifications do not either.
use nova_db.Base.{Bool, true, false, List, [], ◌∷◌, Option, none, some, if◌then◌else◌}
use nova_db.Base.Text.{Text, text_eq}
use nova_db.Base.Map
use nova_db.Base.Map.{Map, text_eq as text_key}
use nova_db.Core.DocumentId.{DocumentId}
use nova_db.Core.Value.{Value, Float, value_eq}
use nova_db.Core.Document
use nova_db.Core.Document.{Document}
use nova_db.Index.{IndexType, hash}
use nova_db.Index.Entries
use nova_db.Index.Entries.{Entries, hash_insert, ordered_insert}

-- A `HashIndex` or an `OrderedIndex`, told apart by its type.
pub record Index (F : Type 0) : Type 0 where
  pub name : Text
  pub field : Text
  pub index_type : IndexType
  pub entries : Entries F

abbrev pub IndexManager : Type 0 → Type 0
IndexManager F = Map Text (Index F)

module _ {F : Type 0} where
  -- `HashIndex::new` and `OrderedIndex::new`
  abbrev pub new_index : IndexType → Text → Text → Index F
  new_index t name field = record { name = name; field = field; index_type = t; entries = [] }

  unfoldable pub add_index : Index F → IndexManager F → IndexManager F
  add_index index m = Map.insert index.name index m

  unfoldable pub drop_index : Text → IndexManager F → IndexManager F
  drop_index name m = Map.remove name m

  unfoldable pub find_index_for_field : Text → IndexManager F → Option (Index F)
  find_index_for_field field [] = none
  find_index_for_field field ((name, index) ∷ rest) =
      if text_eq index.field field then some index else find_index_for_field field rest

  abbrev pub same_value : Float F → Option (Value F) → Option (Value F) → Bool
  same_value fl none none = true
  same_value fl (some a) (some b) = value_eq fl a b
  same_value fl _ _ = false

module _ {F : Type 0} (fl : Float F) where
  abbrev insert_key : IndexType → Value F → DocumentId → Entries F → Entries F
  insert_key hash key id entries = hash_insert fl key id entries
  insert_key _ key id entries = ordered_insert fl key id entries

  -- `insert` and `remove` at the document's value of the indexed field, if it has one
  abbrev pub insert_value : Option (Value F) → DocumentId → Index F → Index F
  insert_value none id index = index
  insert_value (some v) id index = record index {
    entries = insert_key index.index_type v id index.entries;
  }

  abbrev pub remove_value : Option (Value F) → DocumentId → Index F → Index F
  remove_value none id index = index
  remove_value (some v) id index = record index {
    entries = Entries.remove fl index.index_type v id index.entries;
  }

  abbrev pub index_insert : Document F → Index F → Index F
  index_insert doc index = insert_value (Document.lookup index.field doc) doc.id index

  abbrev pub index_remove : Document F → Index F → Index F
  index_remove doc index = remove_value (Document.lookup index.field doc) doc.id index

  abbrev pub index_update : Document F → Document F → Index F → Index F
  index_update before after index =
      if same_value fl (Document.lookup index.field before) (Document.lookup index.field after)
      then index
      else index_insert after (index_remove before index)

  abbrev pub each : (Index F → Index F) → IndexManager F → IndexManager F
  each f [] = []
  each f ((name, index) ∷ rest) = (name, f index) ∷ each f rest

  unfoldable pub on_insert : Document F → IndexManager F → IndexManager F
  on_insert doc m = each (index_insert doc) m

  unfoldable pub on_update : Document F → Document F → IndexManager F → IndexManager F
  on_update before after m = each (index_update before after) m

  unfoldable pub on_remove : Document F → IndexManager F → IndexManager F
  on_remove doc m = each (index_remove doc) m

  abbrev insert_all : List (Document F) → IndexManager F → IndexManager F
  insert_all [] m = m
  insert_all (doc ∷ docs) m = insert_all docs (on_insert doc m)

  unfoldable pub rebuild : List (Document F) → IndexManager F → IndexManager F
  unfolding on_insert
  rebuild docs m = insert_all docs (each (λ index. record index { entries = [] }) m)
