-- ===== src/Tests/Backups.antt =====
-- A backup of the directory of Tests/Engine, restored. The reader of snapshots knows the one that was
-- written.
use nova_db.Base.{ℕ, ◌≡◌, refl, Bool-cases, inl, inr, none≢some, [], ◌∷◌, some}
use nova_db.Base.Bytes.{bytes_eq, bytes_eq→eq}
use nova_db.Base.Int.{pos}
use nova_db.Base.Map
use nova_db.Base.Map.{Map, Eq, IsDistinct, text_eq, pair_eq}
use nova_db.Base.Text.{codes, as_bytes, utf8_char, trim, trim_start, is_whitespace}
use nova_db.Cli.{DataDir, backup_create}
use nova_db.Cli.Backup.{restore-backup_create}
use nova_db.Core.Document.{Document}
use nova_db.Core.DocumentId
use nova_db.Core.DocumentId.{DocumentId}
use nova_db.Core.Error.{ok}
use nova_db.Server.Engine.Documents.{find_doc}
use nova_db.Storage.Recovery.{Collections}
use nova_db.Storage.Snapshot.{
  SnapshotJson, SnapshotMetadata, FlatCollections, flatten, metadata, restore,
}
use nova_db.Storage.Snapshot.Distinct.{flatten-IsDistinctAll}
use nova_db.Storage.Snapshot.RoundTrip.{IsReadBack}
use nova_db.Storage.Wal.{on_disk}
use nova_db.Tests.Engine
use nova_db.Tests.Engine.{key, one, one-IsDurable}
use nova_db.Tests.Plain.{plain, plain-IsWire}
use nova_db.Tests.Queries.{doc}

abbrev written : FlatCollections (Document ℕ)
written = flatten one-IsDurable.recovered.collections

abbrev meta : SnapshotMetadata
meta =
    metadata plain (codes "s") (pos 3) (codes "0.1.0") one-IsDurable.recovered.collections (5 ∷ [])

abbrev json : SnapshotJson (Document ℕ)
json = record {
  data_to_vec = λ flat. some (5 ∷ []);
  data_from_slice = λ bytes. some written;
  meta_to_vec = λ m. some (7 ∷ []);
  meta_from_slice = λ bytes. some meta;
}

written-IsReadBack : IsReadBack json written (5 ∷ [])
written-IsReadBack = record {
  read = written;
  reads = refl;
  distinct = flatten-IsDistinctAll one-IsDurable.recovered.collections;
  same = λ name id. refl;
}

one_id :
    (i : DocumentId) (d : Document ℕ)
    → find_doc key i one.collections ≡ some d
    → DocumentId.new i ≡ ok i
unfolding Map.get bytes_eq DocumentId.new as_bytes utf8_char trim trim_start is_whitespace
one_id i d h = elim (Bool-cases (bytes_eq doc.id i)) [
  | inl same ↦ rw (← bytes_eq→eq doc.id i same) refl
  | inr other ↦ absurd (none≢some (rw other at h))
]

abbrev left_behind : DataDir
left_behind = record { segments = on_disk one.wal; snapshots = [] }

restore-backup_create_example :
    (after : DataDir) × (restored : Collections (Document ℕ)) × (backup_create plain
        Engine.json.from_slice json
        (codes "s")
        (pos 3)
        (codes "0.1.0")
        left_behind
      ≡ some (ok meta, after))
    × (after.segments ≡ left_behind.segments)
    × (restore plain json after.snapshots (codes "s") ≡ ok (meta, restored))
    × (find_doc key doc.id restored ≡ find_doc key doc.id one.collections)
unfolding DocumentId.new as_bytes utf8_char trim trim_start is_whitespace
restore-backup_create_example =
    restore-backup_create plain Engine.json json one one-IsDurable (codes "s") (codes "0.1.0")
      (pos 3) left_behind (5 ∷ []) (7 ∷ []) key doc.id plain-IsWire refl refl written-IsReadBack
      refl refl (refl, tt) (refl, tt) one_id refl
