-- ===== src/Storage/Recovery.antt =====
-- crates/nova-storage/src/recovery.rs: replay of the write-ahead log's segments.
-- A segment file is its index and its bytes; a run of recovery returns the files as it leaves them.
-- `D` stands for documents: serde_json's reader, `document_from_payload`, is a parameter.
pub mod Replay
pub mod Startup
pub mod Fuel
use nova_db.Base.{
  ℕ, zero, suc, ◌+◌, ◌-◌, ◌==◌, ltb, if◌then◌else◌, List, [], ◌∷◌, Option, none, some,
}
use nova_db.Base.{length, take, Bool, true, false}
use nova_db.Base.Bytes.{Bytes}
use nova_db.Base.Text.{Text}
use nova_db.Base.Map
use nova_db.Base.Map.{Map, text_eq, pair_eq}
use nova_db.Core.Error.{Result, ok, err, ◌>>=◌, NovaError, ErrorCode, ok_or, torn_write_detected}
use nova_db.Core.DocumentId.{DocumentId}
use nova_db.Wire.{Wire}
use nova_db.Storage.Format.{
  RecordType, insert, update, delete, NbfRecord, decode, storage, corrupted,
}

-- (namespace, collection)
abbrev pub CollectionKey : Type 0
CollectionKey = Text × Text

abbrev pub Collections : Type 0 → Type 0
Collections D = Map CollectionKey (Map DocumentId D)

pub record RecoveredState (D : Type 0) : Type 0 where
  pub collections : Collections D
  pub max_sequence : ℕ
  pub records_replayed : ℕ
  pub torn_tails_truncated : ℕ

-- `RecoveredState::new`
abbrev pub new : {D : Type 0} → RecoveredState D
new = record { collections = []; max_sequence = 0; records_replayed = 0; torn_tails_truncated = 0 }

abbrev pub is_torn : ErrorCode → Bool
is_torn torn_write_detected = true
is_torn _ = false

-- `or_default` on an entry of a map of lists or maps
abbrev pub or_default : {A : Type 0} → Option (List A) → List A
or_default none = []
or_default (some m) = m

-- `File::set_len`, if the loop asks for a truncation
abbrev pub set_len : Option ℕ → Bytes → Bytes
set_len none file = file
set_len (some n) file = take n file

module _ {D : Type 0} (from_slice : Bytes → Option D) where
  -- what one record does to its collection
  unfoldable pub apply_to_map :
      NbfRecord → RecordType → Map DocumentId D → Result (Map DocumentId D)
  apply_to_map r insert m = do
    doc ← ok_or storage (from_slice r.payload)
    ok (Map.insert r.document_id doc m)
  apply_to_map r update m = do
    doc ← ok_or storage (from_slice r.payload)
    ok (Map.insert r.document_id doc m)
  apply_to_map r delete m = ok (Map.remove r.document_id m)
  apply_to_map r _ m = ok m

  -- `apply_record_to_state`: `entry(key).or_default()` creates the collection for any record.
  unfoldable pub apply_record_to_state : NbfRecord → RecoveredState D → Result (RecoveredState D)
  unfolding apply_to_map
  apply_record_to_state r s = do
    let key : CollectionKey = (r.namespace, r.collection)
    m ← apply_to_map r r.record_type (or_default (Map.get key s.collections))
    ok (record s { collections = Map.insert key m s.collections })

  -- one valid record: the highest sequence, the replay, the count
  unfoldable pub replay_record : NbfRecord → RecoveredState D → Result (RecoveredState D)
  unfolding apply_record_to_state
  replay_record r s = do
    let s = if ltb s.max_sequence r.sequence then record s { max_sequence = r.sequence } else s
    s ← apply_record_to_state r s
    ok (record s { records_replayed = s.records_replayed + 1 })

  module _ {H : Type 0} (x : Wire H) where
    -- The loop of `recover_segment` over what the reader has left; `none` is no result of the code but
    -- means that the fuel ran out. With the state comes the offset to truncate at, on a torn write.
    unfoldable pub recover_loop :
        ℕ → Bytes → Bytes → ℕ → RecoveredState D → Option (Result (RecoveredState D × Option ℕ))
    recover_loop zero file rest last_valid s = none
    recover_loop (suc fuel) file rest last_valid s = elim (decode x rest) [
      | ok none ↦ some (ok (s, none))
      | ok (some (r, rest')) ↦ elim (replay_record r s) [
        | ok s' ↦ recover_loop fuel file rest' (length file - length rest') s'
        | err e ↦ some (err e)
      ]
      | err e ↦ some (
          if is_torn e.code
          then ok (record s { torn_tails_truncated = s.torn_tails_truncated + 1 }, some last_valid)
          else err corrupted)
    ]

    -- `recover_segment`: the state, and the file after a truncation.
    unfoldable pub recover_segment :
        Bytes → RecoveredState D → Option (Result (RecoveredState D × Bytes))
    recover_segment file s =
        if length file == 0
        then some (ok (s, file))
        else elim (recover_loop (suc (length file)) file file 0 s) [
          | none ↦ none
          | some (ok (s', cut)) ↦ some (ok (s', set_len cut file))
          | some (err e) ↦ some (err e)
        ]

    -- the loop of `recover` over the segments, in ascending order of their indices
    unfoldable pub recover_segments :
        List Bytes → RecoveredState D → Option (Result (RecoveredState D × List Bytes))
    recover_segments [] s = some (ok (s, []))
    recover_segments (file ∷ files) s = elim (recover_segment file s) [
      | none ↦ none
      | some (err e) ↦ some (err e)
      | some (ok (s', file')) ↦ elim (recover_segments files s') [
        | none ↦ none
        | some (err e) ↦ some (err e)
        | some (ok (s'', files')) ↦ some (ok (s'', file' ∷ files'))
      ]
    ]

    -- `RecoveryManager::recover`
    unfoldable pub recover : List Bytes → Option (Result (RecoveredState D × List Bytes))
    recover files = recover_segments files new
