-- ===== src/Server/Engine/Indexes.antt =====
-- crates/nova-server/src/engine.rs: `execute_create_index` and `execute_drop_index`.
use nova_db.Base.{Bool, true, false, [], ◌∷◌, ◌++◌, Option, none, some, if◌then◌else◌}
use nova_db.Base.Map
use nova_db.Base.Map.{Map, text_eq, pair_eq}
use nova_db.Base.Text.{Text}
use nova_db.Core.Error.{index_not_found}
use nova_db.Core.Outcome.{Outcome, done, raise}
use nova_db.Core.Value.{Float}
use nova_db.Index.{IndexType, hash, ordered}
use nova_db.Index.Manager.{Index, IndexManager, new_index, add_index, drop_index, index_insert}
use nova_db.Protocol.Payload.{ResponsePayload, success}
use nova_db.Server.Engine.{DatabaseEngine, DocumentStore}
use nova_db.Storage.Recovery.{CollectionKey, or_default}

-- "idx_{coll}_{field}"
abbrev pub index_name : Text → Text → Text
index_name coll f = (b'i' ∷ b'd' ∷ b'x' ∷ b'_' ∷ []) ++ (coll ++ (b'_' ∷ []) ++ f)

-- Only `hash` makes a hash index.
abbrev pub built_type : IndexType → IndexType
built_type hash = hash
built_type _ = ordered

module _ {F : Type 0} (fl : Float F) where
  -- the existing documents, put into the new index
  unfoldable pub populate : DocumentStore F → Index F → Index F
  populate [] index = index
  populate ((id, doc) ∷ store) index = populate store (index_insert fl doc index)

  -- `execute_create_index`: an index of the same name is replaced.
  unfoldable pub execute_create_index :
      CollectionKey
      → Text
      → IndexType
      → DatabaseEngine F
      → Outcome (ResponsePayload F) × DatabaseEngine F
  unfolding populate add_index
  execute_create_index key f t s =
      let index =
        populate (or_default (Map.get key s.collections))
          (new_index (built_type t) (index_name key.1 f) f) in
      (
        done (success 1),
        record s {
          indexes = Map.insert key (add_index index (or_default (Map.get key s.indexes))) s.indexes;
        },
      )

  abbrev is_there : Option (Index F) → Bool
  is_there none = false
  is_there (some _) = true

  abbrev drop_from :
      CollectionKey
      → Text
      → Option (IndexManager F)
      → DatabaseEngine F
      → Outcome (ResponsePayload F) × DatabaseEngine F
  drop_from key name none s = (raise index_not_found, s)
  drop_from key name (some m) s =
      if is_there (Map.get name m)
      then (done (success 1), record s { indexes = Map.insert key (drop_index name m) s.indexes })
      else (raise index_not_found, s)

  -- `execute_drop_index`: an error if there is no index of that name
  unfoldable pub execute_drop_index :
      CollectionKey → Text → DatabaseEngine F → Outcome (ResponsePayload F) × DatabaseEngine F
  unfolding drop_index
  execute_drop_index key f s = drop_from key (index_name key.1 f) (Map.get key s.indexes) s
