-- ===== src/Cli.antt =====
-- crates/nova-cli/src/main.rs: the commands that work on a data directory, without what they print. The
-- segments and the directory of the snapshots are what they read and change.
pub mod Backup
use nova_db.Base.{
  ℕ, zero, suc, ◌+◌, ◌==◌, Bool, true, false, List, [], ◌∷◌, ◌++◌, Option, none, some, length,
  if◌then◌else◌, leb,
}
use nova_db.Base.Bytes.{Bytes}
use nova_db.Base.Int.{ℤ}
use nova_db.Base.Text.{Text}
use nova_db.Core.Error.{Result, ok, err, NovaError}
use nova_db.Storage.Format.{NbfRecord, decode}
use nova_db.Storage.Recovery.{RecoveredState, Collections, recover}
use nova_db.Storage.Snapshot
use nova_db.Storage.Snapshot.{SnapshotJson, SnapshotMetadata, Directory}
use nova_db.Wire.{Wire}

-- A data directory: the files of the log's segments, and the snapshots.
pub record DataDir : Type 0 where
  pub segments : List Bytes
  pub snapshots : Directory

-- what `cmd_doctor` finds: the number of issues
abbrev pub issues_of : {A : Type 0} → Result A → ℕ
issues_of (ok a) = 0
issues_of (err e) = 1

module _ {D H : Type 0} (x : Wire H) (from_slice : Bytes → Option D) where
  module _ (json : SnapshotJson D) where
    abbrev snapshot_into :
        Text → ℤ → Text → RecoveredState D → DataDir → Result SnapshotMetadata × DataDir
    snapshot_into id now version state dir =
        let (r, snapshots) =
          Snapshot.create x json id now version state.collections dir.snapshots in
        (r, record dir { snapshots = snapshots })

    abbrev pub backup_recovered :
        Text
        → ℤ
        → Text
        → DataDir
        → Option (Result (RecoveredState D × List Bytes))
        → Option (Result SnapshotMetadata × DataDir)
    backup_recovered id now version dir none = none
    backup_recovered id now version dir (some (err e)) = some (err e, dir)
    backup_recovered id now version dir (some (ok (state, files))) =
        some (snapshot_into id now version state (record dir { segments = files }))

    -- `cmd_backup`, Create: the log is recovered, torn tails cut, and the collections are written;
    -- `none` means that recovery ran out of fuel. On an error the cuts that came before it are left
    -- out.
    unfoldable pub backup_create :
        Text → ℤ → Text → DataDir → Option (Result SnapshotMetadata × DataDir)
    unfolding recover Snapshot.create
    backup_create id now version dir =
        backup_recovered id now version dir (recover from_slice x dir.segments)

    -- `cmd_backup`, List
    unfoldable pub backup_list : DataDir → List SnapshotMetadata
    unfolding Snapshot.list
    backup_list dir = Snapshot.list json dir.snapshots

    -- `cmd_backup`, Restore: the collections are counted and dropped
    abbrev counted_back : Result (SnapshotMetadata × Collections D) → Result (SnapshotMetadata × ℕ)
    counted_back (err e) = err e
    counted_back (ok (meta, colls)) = ok (meta, length colls)

    unfoldable pub backup_restore : Text → DataDir → Result (SnapshotMetadata × ℕ) × DataDir
    unfolding Snapshot.restore
    backup_restore id dir = (counted_back (Snapshot.restore x json dir.snapshots id), dir)

  abbrev replayed_count :
      DataDir → Option (Result (RecoveredState D × List Bytes)) → Option (Result ℕ × DataDir)
  replayed_count dir none = none
  replayed_count dir (some (err e)) = some (err e, dir)
  replayed_count dir (some (ok (state, files))) =
      some (ok state.records_replayed, record dir { segments = files })

  -- `cmd_compact`: the log is recovered, and the records are counted
  unfoldable pub compact : DataDir → Option (Result ℕ × DataDir)
  unfolding recover
  compact dir = replayed_count dir (recover from_slice x dir.segments)

  abbrev noted_issues : DataDir → Option (Result ℕ × DataDir) → Option (ℕ × DataDir)
  noted_issues dir none = none
  noted_issues dir (some (r, dir')) = some (issues_of r, dir')

  -- `cmd_doctor`, if there is a log; the snapshots, which it only lists, are left out
  unfoldable pub doctor : DataDir → Option (ℕ × DataDir)
  unfolding compact
  doctor dir = noted_issues dir (compact dir)

  -- the loop of `cmd_inspect`, as many records as there is room for, or the first error
  unfoldable pub inspect_loop : ℕ → Bytes → Result (List NbfRecord)
  unfolding decode
  inspect_loop zero file = ok []
  inspect_loop (suc room) file = elim (decode x file) [
    | err e ↦ err e
    | ok none ↦ ok []
    | ok (some (r, rest)) ↦ elim (inspect_loop room rest) [ err e ↦ err e | ok rs ↦ ok (r ∷ rs) ]
  ]

  unfoldable pub inspect : Bytes → Result (List NbfRecord)
  unfolding inspect_loop
  inspect file = inspect_loop 50 file
