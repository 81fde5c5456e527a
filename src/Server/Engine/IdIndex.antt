-- ===== src/Server/Engine/IdIndex.antt =====
-- crates/nova-server/src/engine.rs: an index on the id, which holds no document.
use nova_db.Base.{◌≡◌, refl, ◌∙◌, [], ◌∷◌, none, some}
use nova_db.Base.Bytes.{bytes_eq, bytes_eq_refl}
use nova_db.Base.Map
use nova_db.Base.Map.{Map, text_eq as text_key, pair_eq, pair_beq_refl}
use nova_db.Base.Map.Splits.{insert-end}
use nova_db.Base.Text.{Text, text_eq}
use nova_db.Core.Document
use nova_db.Core.Document.{Document, id_key}
use nova_db.Core.Outcome.{done}
use nova_db.Core.Value
use nova_db.Core.Value.{Value, Float, split_dots}
use nova_db.Index.{IndexType}
use nova_db.Index.Entries
use nova_db.Index.Manager.{IndexManager, find_index_for_field, new_index, add_index}
use nova_db.Protocol.Payload.{records}
use nova_db.Query.Planner.{plan, access_for, exact_match}
use nova_db.Server.Engine.{DatabaseEngine, DocumentStore}
use nova_db.Server.Engine.Indexed.{equals}
use nova_db.Server.Engine.IndexRuns.{find_index_for_field-end}
use nova_db.Server.Engine.Indexes.{populate, index_name, built_type, execute_create_index}
use nova_db.Server.Engine.Reads.{
  candidate_ids, filter_candidates, page, find_in_store, execute_find,
}
use nova_db.Storage.Recovery.{CollectionKey, or_default}

-- All documents, without a field of the name id.
abbrev IsBare : {F : Type 0} → DocumentStore F → Type 0
IsBare [] = Unit {0}
IsBare ((id, doc) ∷ store) = (Value.get id_key doc.fields ≡ none) × IsBare store

module _ {F : Type 0} (fl : Float F) where
  lookup-id :
      (doc : Document F) → Value.get id_key doc.fields ≡ none → Document.lookup id_key doc ≡ none
  unfolding Document.lookup Document.get_path text_eq bytes_eq split_dots
  lookup-id doc h = rw h refl

  populate-id :
      (t : IndexType) (name : Text) (store : DocumentStore F)
      → IsBare store
      → populate fl store (new_index t name id_key) ≡ new_index t name id_key
  unfolding populate
  populate-id t name [] bare = refl
  populate-id t name ((id, doc) ∷ store) (h, bare) =
      rw (lookup-id doc h) (populate-id t name store bare)

  -- FIND by an index without entries
  find_in_store-empty :
      (t : IndexType) (name : Text) (lit : Value F) (m : IndexManager F) (store : DocumentStore F)
      → find_index_for_field id_key m ≡ some (new_index t name id_key)
      → Map.get name m ≡ some (new_index t name id_key)
      → find_in_store fl (some (equals id_key lit)) none none none m store ≡ done (records [] 0)
  unfolding find_in_store candidate_ids plan access_for exact_match Entries.lookup filter_candidates
      page
  find_in_store-empty t name lit m store found named = rw (found, access_for) (rw named refl)

  create_index-id :
      (key : CollectionKey) (t : IndexType) (store : DocumentStore F) (s : DatabaseEngine F)
      → Map.get key s.collections ≡ some store
      → IsBare store
      → let m = or_default (Map.get key s.indexes) in
        let i = new_index (built_type t) (index_name key.1 id_key) id_key in
        (execute_create_index fl key id_key t s).1.indexes
        ≡ Map.insert key (Map.insert i.name i m) s.indexes
  unfolding execute_create_index add_index
  create_index-id key t store s held bare =
      rw (held, or_default)
        (rw (populate-id (built_type t) (index_name key.1 id_key) store bare) refl)

-- On a collection whose documents have no field of the name id and which has no index on it, CREATE
-- INDEX on the field id makes FIND with id == literal answer with no documents, whatever the
-- literal.
pub execute_find_id_index :
    {F : Type 0} (fl : Float F) (key : CollectionKey) (t : IndexType) (lit : Value F)
    (store : DocumentStore F) (s : DatabaseEngine F)
    → Map.get key s.collections ≡ some store
    → IsBare store
    → find_index_for_field id_key (or_default (Map.get key s.indexes)) ≡ none
    → Map.get (index_name key.1 id_key) (or_default (Map.get key s.indexes)) ≡ none
    → execute_find fl key
        (some (equals id_key lit))
        none
        none
        none
        (execute_create_index fl key id_key t s).1
      ≡ done (records [] 0)
unfolding execute_find execute_create_index
execute_find_id_index fl key t lit store s held bare unindexed unnamed =
    let m = or_default (Map.get key s.indexes) in
    let name = index_name key.1 id_key in
    let i = new_index (built_type t) name id_key in
    let there : Map.get name (Map.insert name i m) ≡ some i =
      Map.get-insert name name i m ∙ rw (bytes_eq_refl name) refl in
    let found : find_index_for_field id_key (Map.insert name i m) ≡ some i =
      rw (insert-end name i m unnamed)
        (find_index_for_field-end fl id_key name i m refl unindexed) in
    rw (held, execute_find)
      (rw (create_index-id fl key t store s held bare) (
        rw (Map.get-insert key key (Map.insert name i m) s.indexes) (
          rw (pair_beq_refl key) (
            find_in_store-empty fl (built_type t) name lit (Map.insert name i m) store found
              there))))
