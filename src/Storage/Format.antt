-- ===== src/Storage/Format.antt =====
-- crates/nova-storage/src/format.rs: record types, `NbfRecord::encode` and `NbfRecord::decode`.
-- A reader is the list of bytes that it has still to hand out; it ends, and fails in no other way.
pub mod RoundTrip
pub mod Torn
use nova_db.Base.{
  ℕ, zero, suc, ◌*◌, ◌^◌, ◌≤◌, ◌<◌, ◌≡◌, not, List, [], ◌∷◌, ◌++◌, Option, none, some,
}
use nova_db.Base.{ltb, ◌==◌, if◌then◌else◌, length, All}
use nova_db.Base.Bytes.{Bytes, bytes_eq, read_exact, to_be_bytes}
use nova_db.Base.Text.{Text, IsScalar, as_bytes, from_utf8}
use nova_db.Core.Error.{
  Result, ok, err, ◌>>=◌, ◌>>◌, guard, ok_or, NovaError, new_error, checksum_failure,
}
use nova_db.Core.Error.{storage_error, wal_corrupted, torn_write_detected}
use nova_db.Core.DocumentId
use nova_db.Core.DocumentId.{DocumentId}
use nova_db.Wire.{Wire, checksum}

-- "NOVB"
abbrev pub nbf_magic : Bytes
nbf_magic = 0x4E ∷ 0x4F ∷ 0x56 ∷ 0x42 ∷ []

abbrev pub nbf_version : ℕ
nbf_version = 1

pub data RecordType : Type 0 where
  insert update delete checkpoint tx_begin tx_commit tx_rollback : RecordType

-- `record_type as u8`
abbrev pub to_u8 : RecordType → ℕ
to_u8 insert = 0x01
to_u8 update = 0x02
to_u8 delete = 0x03
to_u8 checkpoint = 0x04
to_u8 tx_begin = 0x05
to_u8 tx_commit = 0x06
to_u8 tx_rollback = 0x07

unfoldable pub from_u8 : ℕ → Result RecordType
from_u8 b =
    if b == 0x01
    then ok insert
    else if b == 0x02
    then ok update
    else if b == 0x03
    then ok delete
    else if b == 0x04
    then ok checkpoint
    else if b == 0x05
    then ok tx_begin
    else if b == 0x06
    then ok tx_commit
    else if b == 0x07
    then ok tx_rollback
    else err (new_error storage_error)

pub record NbfRecord : Type 0 where
  pub sequence : ℕ
  pub record_type : RecordType
  pub flags : ℕ
  pub tx_id : Option ℕ
  pub timestamp : ℕ
  pub namespace : Text
  pub collection : Text
  pub document_id : DocumentId
  pub payload : Bytes

abbrev pub max_u16 : ℕ
max_u16 = 65535

abbrev pub max_payload : ℕ
max_payload = 64 * 1024 * 1024

-- `tx_id.unwrap_or(0)`, and the reading of the raw number in `decode`
abbrev pub raw_tx : Option ℕ → ℕ
raw_tx none = 0
raw_tx (some t) = t

abbrev pub tx_of_raw : ℕ → Option ℕ
tx_of_raw zero = none
tx_of_raw (suc t) = some (suc t)

abbrev pub storage : NovaError
storage = new_error storage_error

abbrev pub torn : NovaError
torn = new_error torn_write_detected

abbrev pub corrupted : NovaError
corrupted = new_error wal_corrupted

-- The fixed header behind the magic.
pub record Header : Type 0 where
  pub record_type : RecordType
  pub flags : ℕ
  pub sequence : ℕ
  pub tx_id : Option ℕ
  pub timestamp : ℕ

module _ {H : Type 0} (x : Wire H) where
  -- the header fields behind the magic, in the order they are written
  unfoldable pub header_fields : NbfRecord → Bytes
  header_fields r =
      x.write 2 nbf_version
      ++ (x.write 1 (to_u8 r.record_type)
          ++ (x.write 1 r.flags
              ++ (x.write 8 r.sequence ++ (x.write 8 (raw_tx r.tx_id) ++ x.write 8 r.timestamp))))

  -- a text behind its length
  unfoldable pub text_field : Text → Bytes
  text_field t = x.write 2 (length (as_bytes t)) ++ as_bytes t

  -- what follows the header fields, up to the checksum
  unfoldable pub record_tail : NbfRecord → Bytes
  record_tail r =
      text_field r.namespace
      ++ (text_field r.collection
          ++ (text_field r.document_id ++ (x.write 4 (length r.payload) ++ r.payload)))

  -- the buffer before the checksum
  unfoldable pub record_body : NbfRecord → Bytes
  record_body r = nbf_magic ++ (header_fields r ++ record_tail r)

  unfoldable pub encode : NbfRecord → Result Bytes
  encode r = do
    guard (not (ltb max_u16 (length (as_bytes r.namespace)))) storage
    guard (not (ltb max_u16 (length (as_bytes r.collection)))) storage
    guard (not (ltb max_u16 (length (as_bytes r.document_id)))) storage
    guard (not (ltb max_payload (length r.payload))) storage
    ok (record_body r ++ x.write 4 (checksum x (record_body r)))

  -- the cursor over the header buffer
  unfoldable pub read_header : Bytes → Result Header
  unfolding from_u8
  read_header s = do
    (version, s) ← ok_or storage (x.read 2 s)
    if not (version == nbf_version) then err storage else do
      (type_byte, s) ← ok_or storage (x.read 1 s)
      record_type ← from_u8 type_byte
      (flags, s) ← ok_or storage (x.read 1 s)
      (sequence, s) ← ok_or storage (x.read 8 s)
      (raw, s) ← ok_or storage (x.read 8 s)
      (timestamp, s) ← ok_or storage (x.read 8 s)
      ok (record {
        record_type = record_type;
        flags = flags;
        sequence = sequence;
        tx_id = tx_of_raw raw;
        timestamp = timestamp;
      })

  -- a length, that many bytes, and the text that they encode: the declared length, the text, the rest
  unfoldable pub read_text : Bytes → Result (ℕ × Text × Bytes)
  read_text s = do
    (len, s) ← ok_or torn (x.read 2 s)
    (bytes, s) ← ok_or torn (read_exact len s)
    text ← ok_or corrupted (from_utf8 bytes)
    ok (len, text, s)

  unfoldable pub read_payload : Bytes → Result (Bytes × Bytes)
  read_payload s = do
    (len, s) ← ok_or torn (x.read 4 s)
    if ltb max_payload len then err corrupted else ok_or torn (read_exact len s)

  -- the checksum that `decode` recomputes from the parts it read
  unfoldable pub parts_checksum : Bytes → ℕ × Text → ℕ × Text → ℕ × DocumentId → Bytes → ℕ
  parts_checksum header_buf (ns_len, ns) (coll_len, coll) (id_len, id) payload =
      let h = x.update (x.update x.hasher nbf_magic) header_buf in
      let h = x.update (x.update h (to_be_bytes 2 ns_len)) (as_bytes ns) in
      let h = x.update (x.update h (to_be_bytes 2 coll_len)) (as_bytes coll) in
      let h = x.update (x.update h (to_be_bytes 2 id_len)) (as_bytes id) in
      let h = x.update (x.update h (to_be_bytes 4 (length payload))) payload in x.finalize h

  -- everything behind the fixed header
  unfoldable pub read_record : Bytes → Header → Bytes → Result (Option (NbfRecord × Bytes))
  read_record header_buf h s = do
    (ns_len, ns, s) ← read_text s
    (coll_len, coll, s) ← read_text s
    (id_len, id_text, s) ← read_text s
    id ← DocumentId.new id_text
    (payload, s) ← read_payload s
    (expected, s) ← ok_or torn (x.read 4 s)
    let calculated = parts_checksum header_buf (ns_len, ns) (coll_len, coll) (id_len, id) payload
    if not (expected == calculated)
        then err (checksum_failure expected calculated)
        else ok (
            some (
              record {
                sequence = h.sequence;
                record_type = h.record_type;
                flags = h.flags;
                tx_id = h.tx_id;
                timestamp = h.timestamp;
                namespace = ns;
                collection = coll;
                document_id = id;
                payload = payload;
              },
              s,
            ))

  -- `NbfRecord::decode`: the record with what the reader has left, or nothing at a clean end.
  unfoldable pub decode : Bytes → Result (Option (NbfRecord × Bytes))
  decode s = elim (read_exact 4 s) [
    | none ↦ ok none
    | some (magic, s) ↦ if not (bytes_eq magic nbf_magic) then err corrupted else do
      (header_buf, s) ← ok_or torn (read_exact 28 s)
      h ← read_header header_buf
      read_record header_buf h s
  ]

-- The ranges of the struct's machine integers, and what `encode` and `DocumentId::new` ask for. A
-- transaction id of 0 stands for none.
pub record IsRecord (r : NbfRecord) : Type 0 where
  pub flags_lt : r.flags < 256 ^ 1
  pub sequence_lt : r.sequence < 256 ^ 8
  pub timestamp_lt : r.timestamp < 256 ^ 8
  pub raw_tx_lt : raw_tx r.tx_id < 256 ^ 8
  pub tx_nonzero : tx_of_raw (raw_tx r.tx_id) ≡ r.tx_id
  pub namespace_chars : All IsScalar r.namespace
  pub collection_chars : All IsScalar r.collection
  pub id_chars : All IsScalar r.document_id
  pub namespace_le : length (as_bytes r.namespace) ≤ max_u16
  pub collection_le : length (as_bytes r.collection) ≤ max_u16
  pub id_le : length (as_bytes r.document_id) ≤ max_u16
  pub id_new : DocumentId.new r.document_id ≡ ok r.document_id
  pub payload_le : length r.payload ≤ max_payload
