-- ===== src/Storage/Wal.antt =====
-- crates/nova-storage/src/wal.rs: opening, appending to, flushing and rotating the write-ahead log.
-- Failures of the file system are left out. The clock is an argument, and so is the environment's
-- NOVA_FAULT. A `BufWriter` may hand bytes on to its file at any write: how many, is the argument
-- `spill`.
pub mod Journal
pub mod Durable
use nova_db.Base.{ℕ, ◌+◌, ◌-◌, ◌%◌, ◌^◌, ltb, if◌then◌else◌, List, [], ◌∷◌, ◌++◌, Option}
use nova_db.Base.{length, take, drop}
use nova_db.Base.Bytes.{Bytes}
use nova_db.Base.Text.{Text}
use nova_db.Core.Error.{Result, ok, err}
use nova_db.Core.Outcome.{Outcome, done, fail, panic}
use nova_db.Core.DocumentId.{DocumentId}
use nova_db.Wire.{Wire}
use nova_db.Storage.Format.{RecordType, NbfRecord, encode, storage}

pub data SyncMode : Type 0 where
  always never : SyncMode

-- the values of NOVA_FAULT that the code knows
pub data Fault : Type 0 where
  no_fault partial_write crash_after_wal : Fault

-- `BufWriter<File>`, the file open for appending
pub record Writer : Type 0 where
  pub file : Bytes
  pub buffer : Bytes

abbrev pub write_all : (Bytes → ℕ) → Bytes → Writer → Writer
write_all spill bytes w =
    let pending = w.buffer ++ bytes in
    record { file = w.file ++ take (spill pending) pending; buffer = drop (spill pending) pending }

abbrev pub flush_writer : Writer → Writer
flush_writer w = record { file = w.file ++ w.buffer; buffer = [] }

-- `sealed` holds the files of the segments below the active one, in the order of their indices.
pub record WriteAheadLog : Type 0 where
  pub sealed : List Bytes
  pub current_segment_index : ℕ
  pub current_sequence : ℕ
  pub segment_size_limit : ℕ
  pub sync_mode : SyncMode
  pub active_file : Writer
  pub current_segment_size : ℕ

-- the files in the directory
abbrev pub on_disk : WriteAheadLog → List Bytes
on_disk w = w.sealed ++ w.active_file.file ∷ []

-- the last of a first and further segments, behind the others
abbrev split_last : ℕ × Bytes → List (ℕ × Bytes) → List Bytes × (ℕ × Bytes)
split_last s [] = ([], s)
split_last (i, f) (s ∷ ss) = let (front, last) = split_last s ss in (f ∷ front, last)

abbrev open_at : List Bytes → ℕ → Bytes → SyncMode → ℕ → WriteAheadLog
open_at sealed index file mode limit = record {
  sealed = sealed;
  current_segment_index = index;
  current_sequence = 0;
  segment_size_limit = limit;
  sync_mode = mode;
  active_file = record { file = file; buffer = [] };
  current_segment_size = length file;
}

-- `WriteAheadLog::open` on the segments of the directory, ascending: the last one goes on, and an
-- empty directory starts with segment 0.
unfoldable pub open_wal : List (ℕ × Bytes) → SyncMode → ℕ → WriteAheadLog
open_wal [] mode limit = open_at [] 0 [] mode limit
open_wal (s ∷ ss) mode limit =
    let (sealed, last) = split_last s ss in open_at sealed last.0 last.1 mode limit

abbrev pub set_sequence : ℕ → WriteAheadLog → WriteAheadLog
set_sequence n w = record w { current_sequence = n }

-- `fetch_add(1)` wraps
abbrev pub next_sequence : WriteAheadLog → ℕ
next_sequence w = (w.current_sequence + 1) % 2 ^ 64

unfoldable pub flush : WriteAheadLog → WriteAheadLog
flush w = record w { active_file = flush_writer w.active_file }

-- The file of the next index is new: `open` took the highest one.
unfoldable pub rotate_segment : WriteAheadLog → WriteAheadLog
rotate_segment w = record w {
  sealed = w.sealed ++ (flush_writer w.active_file).file ∷ [];
  current_segment_index = w.current_segment_index + 1;
  active_file = record { file = []; buffer = [] };
  current_segment_size = 0;
}

-- the arguments of `append`
pub record Mutation : Type 0 where
  pub record_type : RecordType
  pub namespace : Text
  pub collection : Text
  pub document_id : DocumentId
  pub payload : Bytes
  pub tx_id : Option ℕ

abbrev pub record_for : Mutation → ℕ → ℕ → NbfRecord
record_for a sequence now = record {
  sequence = sequence;
  record_type = a.record_type;
  flags = 0;
  tx_id = a.tx_id;
  timestamp = now;
  namespace = a.namespace;
  collection = a.collection;
  document_id = a.document_id;
  payload = a.payload;
}

abbrev pub sync : SyncMode → Writer → Writer
sync always w = flush_writer w
sync never w = w

abbrev pub rotate_for : ℕ → WriteAheadLog → WriteAheadLog
rotate_for len w =
    if ltb w.segment_size_limit (w.current_segment_size + len) then rotate_segment w else w

module _ (spill : Bytes → ℕ) where
  -- the write, the sync and the new size
  abbrev pub write_record : Bytes → WriteAheadLog → WriteAheadLog
  write_record encoded w = record w {
    active_file = sync w.sync_mode (write_all spill encoded w.active_file);
    current_segment_size = w.current_segment_size + length encoded;
  }

  -- the partial write of the fault injection: all but 16 bytes, and no new size
  abbrev pub write_partly : Bytes → WriteAheadLog → WriteAheadLog
  write_partly encoded w = record w {
    active_file = flush_writer (write_all spill (take (length encoded - 16) encoded) w.active_file);
  }

  abbrev pub append_encoded : Fault → ℕ → Bytes → WriteAheadLog → Outcome ℕ × WriteAheadLog
  append_encoded no_fault sequence encoded w = (done sequence, write_record encoded w)
  append_encoded partial_write sequence encoded w = (fail storage, write_partly encoded w)
  append_encoded crash_after_wal sequence encoded w = (panic, write_record encoded w)

  -- `append`: the sequence number is taken before anything can fail.
  unfoldable pub append :
      {H : Type 0} → Wire H → Fault → ℕ → Mutation → WriteAheadLog → Outcome ℕ × WriteAheadLog
  unfolding rotate_segment
  append x fault now a w =
      let sequence = next_sequence w in
      let w = set_sequence sequence w in
      elim (encode x (record_for a sequence now)) [
        | err e ↦ (fail e, w)
        | ok encoded ↦ append_encoded fault sequence encoded (rotate_for (length encoded) w)
      ]

  -- Appends in their order, each with its time.
  unfoldable pub append_all :
      {H : Type 0} → Wire H → List (ℕ × Mutation) → WriteAheadLog → WriteAheadLog
  unfolding append
  append_all x [] w = w
  append_all x ((now, a) ∷ todo) w = append_all x todo (append x no_fault now a w).1

-- The records that such appends write, behind the sequence number `n`.
unfoldable pub records_from : ℕ → List (ℕ × Mutation) → List NbfRecord
records_from n [] = []
records_from n ((now, a) ∷ todo) =
    let m = (n + 1) % 2 ^ 64 in record_for a m now ∷ records_from m todo
