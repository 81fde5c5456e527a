-- ===== src/Tests/Log.antt =====
-- Records, torn writes and recovery.
use nova_db.Base.{List, ℕ, ◌≡◌, refl, [], ◌∷◌, ◌++◌, Option, none, some, arith}
use nova_db.Base.Bytes.{Bytes, to_be_bytes, from_be_bytes, bytes_eq}
use nova_db.Base.Text.{as_bytes, utf8_char, trim, trim_start, is_whitespace}
use nova_db.Base.Map
use nova_db.Core.Error.{Result, ok, err}
use nova_db.Core.DocumentId
use nova_db.Wire.{checksum}
use nova_db.Storage.Format
use nova_db.Storage.Format.{NbfRecord, IsRecord, insert, delete, decode, torn, corrupted}
use nova_db.Storage.Format.RoundTrip.{decode-encode}
use nova_db.Storage.Format.Torn.{decode-torn}
use nova_db.Storage.Recovery.{RecoveredState, recover_segment, recover, new, replay_record}
use nova_db.Storage.Recovery.Replay.{
  encode_log, replay_all, recover_segment-encode_log, recover_segment_torn,
}
use nova_db.Storage.Recovery.Fuel.{recover_returns}
use nova_db.Storage.Recovery.Startup.{
  encode_segments, replay_segments, recover-encode_segments, recover_segment_glued,
}
use nova_db.Core.Outcome.{done}
use nova_db.Storage.Wal.{
  Mutation, always, no_fault, open_wal, append, append_all, records_from, on_disk,
}
use nova_db.Storage.Wal.Durable.{new-Holds, append_durable, append_all-recover}
use nova_db.Tests.Plain.{plain, plain-IsWire}

-- a document is its payload
abbrev json : Bytes → Option Bytes
json b = some b

abbrev added : NbfRecord
added = record {
  sequence = 1;
  record_type = insert;
  flags = 0;
  tx_id = none;
  timestamp = 0;
  namespace = b'd' ∷ [];
  collection = b'u' ∷ [];
  document_id = b'a' ∷ [];
  payload = 7 ∷ [];
}

abbrev removed : NbfRecord
removed = record added { sequence = 2; record_type = delete; payload = [] }

added-IsRecord : IsRecord added
unfolding DocumentId.new as_bytes utf8_char trim trim_start is_whitespace
added-IsRecord = record {
  flags_lt = omega arith;
  sequence_lt = omega arith;
  timestamp_lt = omega arith;
  raw_tx_lt = omega arith;
  tx_nonzero = refl;
  namespace_chars = omega arith;
  collection_chars = omega arith;
  id_chars = omega arith;
  namespace_le = omega arith;
  collection_le = omega arith;
  id_le = omega arith;
  id_new = refl;
  payload_le = omega arith;
}

removed-IsRecord : IsRecord removed
unfolding DocumentId.new as_bytes utf8_char trim trim_start is_whitespace
removed-IsRecord = record {
  flags_lt = omega arith;
  sequence_lt = omega arith;
  timestamp_lt = omega arith;
  raw_tx_lt = omega arith;
  tx_nonzero = refl;
  namespace_chars = omega arith;
  collection_chars = omega arith;
  id_chars = omega arith;
  namespace_le = omega arith;
  collection_le = omega arith;
  id_le = omega arith;
  id_new = refl;
  payload_le = omega arith;
}

decode-encode_example :
    (bytes : Bytes) × (Format.encode plain added ≡ ok bytes)
    × ((rest : Bytes) → decode plain (bytes ++ rest) ≡ ok (some (added, rest)))
decode-encode_example = decode-encode plain-IsWire added-IsRecord

abbrev added_bytes : Bytes
added_bytes =
    78 ∷ 79 ∷ 86 ∷ 66 ∷ 0 ∷ 1 ∷ 1 ∷ 0 ∷ 0 ∷ 0 ∷ 0 ∷ 0 ∷ 0 ∷ 0 ∷ 0 ∷ 1 ∷ 0 ∷ 0 ∷ 0 ∷ 0 ∷ 0 ∷ 0 ∷ 0
    ∷ 0 ∷ 0 ∷ 0 ∷ 0 ∷ 0 ∷ 0 ∷ 0 ∷ 0 ∷ 0 ∷ 0 ∷ 1 ∷ 100 ∷ 0 ∷ 1 ∷ 117 ∷ 0 ∷ 1 ∷ 97 ∷ 0 ∷ 0 ∷ 0 ∷ 1 ∷ 7
    ∷ 0 ∷ 0 ∷ 1 ∷ 7 ∷ []

abbrev removed_front : Bytes
removed_front =
    78 ∷ 79 ∷ 86 ∷ 66 ∷ 0 ∷ 1 ∷ 3 ∷ 0 ∷ 0 ∷ 0 ∷ 0 ∷ 0 ∷ 0 ∷ 0 ∷ 0 ∷ 2 ∷ 0 ∷ 0 ∷ 0 ∷ 0 ∷ 0 ∷ 0 ∷ 0
    ∷ 0 ∷ 0 ∷ 0 ∷ 0 ∷ 0 ∷ 0 ∷ 0 ∷ 0 ∷ 0 ∷ 0 ∷ 1 ∷ 100 ∷ 0 ∷ 1 ∷ 117 ∷ 0 ∷ 1 ∷ []

abbrev removed_back : Bytes
removed_back = 97 ∷ 0 ∷ 0 ∷ 0 ∷ 0 ∷ 0 ∷ 0 ∷ 0 ∷ 0 ∷ []

-- only a part of the magic bytes
abbrev stub : Bytes
stub = 78 ∷ 79 ∷ []

abbrev stub_back : Bytes
stub_back =
    86 ∷ 66 ∷ 0 ∷ 1 ∷ 3 ∷ 0 ∷ 0 ∷ 0 ∷ 0 ∷ 0 ∷ 0 ∷ 0 ∷ 0 ∷ 2 ∷ 0 ∷ 0 ∷ 0 ∷ 0 ∷ 0 ∷ 0 ∷ 0 ∷ 0 ∷ 0 ∷ 0
    ∷ 0 ∷ 0 ∷ 0 ∷ 0 ∷ 0 ∷ 0 ∷ 0 ∷ 1 ∷ 100 ∷ 0 ∷ 1 ∷ 117 ∷ 0 ∷ 1 ∷ 97 ∷ 0 ∷ 0 ∷ 0 ∷ 0 ∷ 0 ∷ 0 ∷ 0 ∷ 0
    ∷ []

encode-added : Format.encode plain added ≡ ok added_bytes
unfolding Format.encode Format.record_body Format.record_tail Format.header_fields Format.text_field
    checksum to_be_bytes from_be_bytes as_bytes utf8_char
encode-added = refl

encode-removed : Format.encode plain removed ≡ ok (removed_front ++ removed_back)
unfolding Format.encode Format.record_body Format.record_tail Format.header_fields Format.text_field
    checksum to_be_bytes from_be_bytes as_bytes utf8_char
encode-removed = refl

decode-torn_example : decode plain removed_front ≡ err torn
decode-torn_example =
    decode-torn removed_front removed_back plain-IsWire removed-IsRecord encode-removed
      (omega arith)

abbrev after_added : RecoveredState Bytes
after_added = record {
  collections = ((b'd' ∷ [], b'u' ∷ []), (b'a' ∷ [], 7 ∷ []) ∷ []) ∷ [];
  max_sequence = 1;
  records_replayed = 1;
  torn_tails_truncated = 0;
}

replay-added : replay_all json (added ∷ []) new ≡ ok after_added
unfolding replay_all replay_record Map.insert Map.get
replay-added = refl

log-added : encode_log plain (added ∷ []) ≡ ok added_bytes
unfolding encode_log Format.encode Format.record_body Format.record_tail Format.header_fields
    Format.text_field checksum to_be_bytes from_be_bytes as_bytes utf8_char
log-added = refl

recover_segment-encode_log_example :
    recover_segment json plain added_bytes new ≡ some (ok (after_added, added_bytes))
recover_segment-encode_log_example =
    recover_segment-encode_log json plain (added ∷ []) added_bytes new after_added plain-IsWire
      (added-IsRecord, tt) log-added replay-added

recover_segment_torn_example :
    recover_segment json plain (added_bytes ++ removed_front) new
    ≡ some (ok (record after_added { torn_tails_truncated = 1 }, added_bytes))
recover_segment_torn_example =
    recover_segment_torn json plain removed (added ∷ []) added_bytes removed_front removed_back new
      after_added plain-IsWire (added-IsRecord, tt) removed-IsRecord log-added encode-removed
      (omega arith) replay-added

recover-encode_segments_example :
    recover json plain (added_bytes ∷ [] ∷ []) ≡ some (ok (after_added, added_bytes ∷ [] ∷ []))
recover-encode_segments_example =
    recover-encode_segments json plain ((added ∷ []) ∷ [] ∷ []) (added_bytes ∷ [] ∷ []) after_added
      plain-IsWire ((added-IsRecord, tt), (tt, tt))
      (unfold encode_segments in rw log-added (unfold encode_log in refl))
      (unfold replay_segments in rw replay-added (unfold replay_all in refl))

recover_segment_glued_example :
    recover_segment json plain (added_bytes ++ (stub ++ added_bytes)) new ≡ some (err corrupted)
recover_segment_glued_example =
    recover_segment_glued json plain removed added (added ∷ []) added_bytes stub stub_back
      added_bytes new after_added plain-IsWire (added-IsRecord, tt) removed-IsRecord added-IsRecord
      log-added encode-removed encode-added (omega arith) (omega arith) replay-added

-- the two records as arguments of `append`
abbrev add : Mutation
add = record {
  record_type = insert;
  namespace = b'd' ∷ [];
  collection = b'u' ∷ [];
  document_id = b'a' ∷ [];
  payload = 7 ∷ [];
  tx_id = none;
}

abbrev remove : Mutation
remove = record add { record_type = delete; payload = [] }

-- a writer that hands on one byte at a time
abbrev one_byte : Bytes → ℕ
one_byte pending = 1

append_durable_example :
    ((append one_byte plain no_fault 0 add (open_wal [] always 60)).0 ≡ done 1)
    × (recover json plain (on_disk (append one_byte plain no_fault 0 add (open_wal [] always 60)).1)
        ≡ some (
            ok (
              after_added,
              on_disk (append one_byte plain no_fault 0 add (open_wal [] always 60)).1,
            )))
unfolding open_wal
append_durable_example =
    append_durable json plain one_byte 0 add [] (open_wal [] always 60) new after_added plain-IsWire
      (new-Holds plain 60) refl tt added-IsRecord (unfold replay_all in refl)
      (unfold replay_record in unfold Map.insert in unfold Map.get in refl)

-- what is left once the document is removed
abbrev after_removed : RecoveredState Bytes
after_removed = record {
  collections = ((b'd' ∷ [], b'u' ∷ []), []) ∷ [];
  max_sequence = 2;
  records_replayed = 2;
  torn_tails_truncated = 0;
}

replay-both : replay_all json (records_from 0 ((0, add) ∷ (0, remove) ∷ [])) new ≡ ok after_removed
unfolding records_from replay_all replay_record Map.insert Map.get Map.remove bytes_eq
replay-both = refl

append_all-recover_example :
    recover json plain
      (on_disk (append_all one_byte plain ((0, add) ∷ (0, remove) ∷ []) (open_wal [] always 60)))
    ≡ some (
        ok (
          after_removed,
          on_disk (append_all one_byte plain ((0, add) ∷ (0, remove) ∷ []) (open_wal [] always 60)),
        ))
append_all-recover_example =
    append_all-recover json plain one_byte 60 ((0, add) ∷ (0, remove) ∷ []) after_removed
      plain-IsWire (unfold records_from in (added-IsRecord, (removed-IsRecord, tt))) replay-both

recover_returns_example :
    (o : Result (RecoveredState Bytes × List Bytes)) × (recover json plain
        (removed_front ∷ (stub ++ added_bytes) ∷ [])
      ≡ some o)
recover_returns_example =
    recover_returns json plain (removed_front ∷ (stub ++ added_bytes) ∷ []) plain-IsWire
