-- ===== src/Server/Engine.antt =====
-- crates/nova-server/src/engine.rs: the engine's state, its start and what its operations share.
pub mod Writes
pub mod Inserts
pub mod Removes
pub mod Reads
pub mod Indexes
pub mod Execute
pub mod Documents
pub mod Synced
pub mod Durable
pub mod Loops
pub mod Removal
pub mod TakenOut
pub mod Round
pub mod Update
pub mod Found
pub mod Counted
pub mod Diverged
pub mod History
pub mod Emitted
pub mod Indexed
pub mod Tracking
pub mod Tracked
pub mod Maintained
pub mod IndexRuns
pub mod IdIndex
pub mod Unhashed
use nova_db.Base.{ℕ, ◌+◌, ◌-◌, ◌*◌, ◌%◌, ◌^◌, List, [], ◌∷◌, ◌++◌, Option, none, some, map}
use nova_db.Base.Bytes.{Bytes}
use nova_db.Base.Int.{ℤ, pos, negsuc}
use nova_db.Base.Map
use nova_db.Base.Map.{Map, text_eq, pair_eq}
use nova_db.Base.Text.{Text}
use nova_db.Core.Document.{Document}
use nova_db.Core.DocumentId.{DocumentId}
use nova_db.Core.Error.{Result, ok, err}
use nova_db.Core.Event.{DataEvent}
use nova_db.Core.Value.{Float}
use nova_db.Index.Manager.{IndexManager, rebuild}
use nova_db.Server.Metrics.{ServerMetrics, inc_events}
use nova_db.Storage.Recovery.{Collections, CollectionKey, recover}
use nova_db.Storage.Wal.{WriteAheadLog, SyncMode, Fault, open_wal, set_sequence}
use nova_db.Wire.{Wire}

abbrev pub DocumentStore : Type 0 → Type 0
DocumentStore F = Map DocumentId (Document F)

-- serde_json's writer and reader of documents
pub record Json (F : Type 0) : Type 0 where
  pub to_vec : Document F → Option Bytes
  pub from_slice : Bytes → Option (Document F)

-- where a statement reads the clock
pub data Reading : Type 0 where
  assigning appending emitting : Reading

-- What the engine runs in: the writer of the log, the fault that NOVA_FAULT asks for, and the times
-- that a statement reads while it works on a document.
pub record Environment : Type 0 where
  pub spill : Bytes → ℕ
  pub fault : Fault
  pub clock : Reading → DocumentId → ℤ

-- `events` is what was sent on the broadcast channel, the last one first.
pub record DatabaseEngine (F : Type 0) : Type 0 where
  pub collections : Collections (Document F)
  pub indexes : Map CollectionKey (IndexManager F)
  pub wal : WriteAheadLog
  pub events : List (DataEvent F)
  pub metrics : ServerMetrics

-- the segments' files, and the segments with the files as recovery leaves them
abbrev pub files_of : List (ℕ × Bytes) → List Bytes
files_of [] = []
files_of ((i, file) ∷ dir) = file ∷ files_of dir

abbrev pub with_files : List (ℕ × Bytes) → List Bytes → List (ℕ × Bytes)
with_files [] files = []
with_files dir [] = dir
with_files ((i, old) ∷ dir) (file ∷ files) = (i, file) ∷ with_files dir files

abbrev pub segment_size_limit : ℕ
segment_size_limit = 16 * 1024 * 1024

module _ {F : Type 0} where
  -- `emit_event`
  unfoldable pub emit_event : DataEvent F → DatabaseEngine F → DatabaseEngine F
  emit_event e s = record s { events = e ∷ s.events; metrics = inc_events s.metrics }

  unfoldable pub emit_all : List (DataEvent F) → DatabaseEngine F → DatabaseEngine F
  unfolding emit_event
  emit_all [] s = s
  emit_all (e ∷ es) s = emit_all es (emit_event e s)

  values : DocumentStore F → List (Document F)
  values [] = []
  values ((id, doc) ∷ store) = doc ∷ values store

  module _ (fl : Float F) where
    -- the loop of `open`: every recovered collection gets a new manager
    unfoldable pub rebuild_all : Collections (Document F) → Map CollectionKey (IndexManager F)
    unfolding values rebuild
    rebuild_all [] = []
    rebuild_all ((key, store) ∷ colls) = (key, rebuild fl (values store) []) ∷ rebuild_all colls

    -- `DatabaseEngine::open` on the segments in the directory, by index; `none` means that recovery ran out of
    -- fuel.
    unfoldable pub open_engine :
        {H : Type 0}
        → Wire H
        → Json F
        → List (ℕ × Bytes)
        → SyncMode
        → ServerMetrics
        → Option (Result (DatabaseEngine F))
    unfolding recover rebuild_all
    open_engine x json dir mode metrics = elim (recover json.from_slice x (files_of dir)) [
      | none ↦ none
      | some (err e) ↦ some (err e)
      | some (ok (recovered, files')) ↦ some (
          ok (record {
            collections = recovered.collections;
            indexes = rebuild_all recovered.collections;
            wal =
                set_sequence recovered.max_sequence
                  (open_wal (with_files dir files') mode segment_size_limit);
            events = [];
            metrics = metrics;
          }))
    ]
