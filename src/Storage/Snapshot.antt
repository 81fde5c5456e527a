-- ===== src/Storage/Snapshot.antt =====
-- crates/nova-storage/src/snapshot.rs: `create`, `list` and `restore` on the directory of the snapshots,
-- a map from the names of its files to their bytes. Ids of snapshots hold no path separators. `D`
-- stands for documents.
pub mod Names
pub mod RoundTrip
pub mod Distinct
use Prim.Native.Nat.{Ordering}
use nova_db.Base.{
  ℕ, ◌+◌, ◌==◌, not, Bool, true, false, if◌then◌else◌, List, [], ◌∷◌, ◌++◌, Option, none, some,
  length, ◌-◌, drop,
}
use nova_db.Base.Bytes.{Bytes}
use nova_db.Base.Int.{ℤ, int_cmp}
use nova_db.Base.Map
use nova_db.Base.Map.{Map, text_eq, pair_eq}
use nova_db.Base.Map.Loops.{insert_each}
use nova_db.Base.Text
use nova_db.Base.Text.{Text, codes}
use nova_db.Core.DocumentId
use nova_db.Core.DocumentId.{DocumentId}
use nova_db.Core.Error.{Result, ok, err, ◌>>=◌, ok_or, new_error, snapshot_failed, checksum_failure}
use nova_db.Storage.Format.{storage, nbf_version}
use nova_db.Storage.Recovery.{Collections, CollectionKey}
use nova_db.Storage.Snapshot.Names.{collection_name, parse_name}
use nova_db.Wire.{Wire, checksum}

pub record SnapshotMetadata : Type 0 where
  pub id : Text
  pub timestamp : ℤ
  pub database_version : Text
  pub storage_version : ℕ
  pub document_count : ℕ
  pub size_bytes : ℕ
  pub checksum : ℕ

-- `SnapshotData`'s map
abbrev pub FlatCollections : Type 0 → Type 0
FlatCollections D = Map Text (Map Text D)

-- serde_json's writers and readers
pub record SnapshotJson (D : Type 0) : Type 0 where
  pub data_to_vec : FlatCollections D → Option Bytes
  pub data_from_slice : Bytes → Option (FlatCollections D)
  pub meta_to_vec : SnapshotMetadata → Option Bytes
  pub meta_from_slice : Bytes → Option SnapshotMetadata

abbrev pub Directory : Type 0
Directory = Map Text Bytes

abbrev pub data_name : Text → Text
data_name id = id ++ codes ".snap"

abbrev pub meta_name : Text → Text
meta_name id = id ++ codes ".meta.json"

abbrev pub valid_id : Result DocumentId → Option DocumentId
valid_id (ok id) = some id
valid_id (err e) = none

module _ {D : Type 0} where
  -- the loop over one collection
  abbrev pub string_map : Map DocumentId D → Map Text D
  string_map store = insert_each some (λ doc. doc) store []

  -- the loop over the collections
  abbrev pub flatten : Collections D → FlatCollections D
  flatten colls = insert_each (λ key. some (collection_name key)) string_map colls []

  -- `doc_count`
  unfoldable pub count_docs : Collections D → ℕ
  count_docs [] = 0
  count_docs ((key, store) ∷ colls) = length store + count_docs colls

  -- the loops of `restore`
  abbrev pub restore_store : Map Text D → Map DocumentId D
  restore_store docs = insert_each (λ id. valid_id (DocumentId.new id)) (λ doc. doc) docs []

  abbrev pub unflatten : FlatCollections D → Collections D
  unflatten flat = insert_each parse_name restore_store flat []

  abbrev pub metadata :
      {H : Type 0} → Wire H → Text → ℤ → Text → Collections D → Bytes → SnapshotMetadata
  metadata x id now version colls raw = record {
    id = id;
    timestamp = now;
    database_version = version;
    storage_version = nbf_version;
    document_count = count_docs colls;
    size_bytes = length raw;
    checksum = checksum x raw;
  }

  module _ {H : Type 0} (x : Wire H) (json : SnapshotJson D) where
    -- the metadata's file, once the data's file is there
    abbrev write_meta :
        SnapshotMetadata → Option Bytes → Directory → Result SnapshotMetadata × Directory
    write_meta meta none dir = (err storage, dir)
    write_meta meta (some bytes) dir = (ok meta, Map.insert (meta_name meta.id) bytes dir)

    abbrev write_data :
        Text
        → ℤ
        → Text
        → Collections D
        → Option Bytes
        → Directory
        → Result SnapshotMetadata × Directory
    write_data id now version colls none dir = (err storage, dir)
    write_data id now version colls (some raw) dir =
        let meta = metadata x id now version colls raw in
        write_meta meta (json.meta_to_vec meta) (Map.insert (data_name id) raw dir)

    -- `create`, at the time `now` and in the version of the package
    unfoldable pub create :
        Text → ℤ → Text → Collections D → Directory → Result SnapshotMetadata × Directory
    unfolding count_docs
    create id now version colls dir =
        write_data id now version colls (json.data_to_vec (flatten colls)) dir

    -- what `restore` does with the two files
    abbrev pub read_files : Option Bytes → Option Bytes → Result (SnapshotMetadata × Collections D)
    read_files none raw = err (new_error snapshot_failed)
    read_files (some meta_bytes) none = err (new_error snapshot_failed)
    read_files (some meta_bytes) (some raw) = do
      meta ← ok_or storage (json.meta_from_slice meta_bytes)
      let calculated = checksum x raw
      if not (calculated == meta.checksum)
          then err (checksum_failure meta.checksum calculated)
          else do flat ← ok_or storage (json.data_from_slice raw); ok (meta, unflatten flat)

    unfoldable pub restore : Directory → Text → Result (SnapshotMetadata × Collections D)
    restore dir id = read_files (Map.get (meta_name id) dir) (Map.get (data_name id) dir)

-- `ends_with`
abbrev ends_with : Text → Text → Bool
ends_with suffix s = Text.text_eq (drop (length s - length suffix) s) suffix

abbrev is_less : Ordering → Bool
is_less Ordering.lt = true
is_less _ = false

-- `sort_by_key` with `Reverse` is stable: of two snapshots of one time the first stays first.
unfoldable pub insert_newest : SnapshotMetadata → List SnapshotMetadata → List SnapshotMetadata
insert_newest m [] = m ∷ []
insert_newest m (n ∷ ms) =
    let later = insert_newest m ms in
    if is_less (int_cmp m.timestamp n.timestamp) then n ∷ later else m ∷ n ∷ ms

unfoldable pub sort_newest : List SnapshotMetadata → List SnapshotMetadata
unfolding insert_newest
sort_newest [] = []
sort_newest (m ∷ ms) = insert_newest m (sort_newest ms)

module _ {D : Type 0} (json : SnapshotJson D) where
  abbrev push_meta : Bool → Option SnapshotMetadata → List SnapshotMetadata → List SnapshotMetadata
  push_meta true (some meta) ms = meta ∷ ms
  push_meta _ _ ms = ms

  -- the loop over the directory: files that cannot be read as metadata are passed over
  unfoldable pub read_dir : Directory → List SnapshotMetadata
  read_dir [] = []
  read_dir ((name, bytes) ∷ dir) =
      push_meta (ends_with (codes ".meta.json") name) (json.meta_from_slice bytes) (read_dir dir)

  unfoldable pub list : Directory → List SnapshotMetadata
  unfolding read_dir sort_newest
  list dir = sort_newest (read_dir dir)
