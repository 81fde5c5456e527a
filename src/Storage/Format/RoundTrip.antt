-- ===== src/Storage/Format/RoundTrip.antt =====
-- Decoding what `NbfRecord::encode` wrote.
use nova_db.Base.{ℕ, ◌+◌, ◌^◌, ◌≤◌, ◌<◌, ◌≡◌, refl, ap, ◌∙◌, ◌++◌}
use nova_db.Base.{some, arith, ==_refl, le→ltb, length, length-append, All}
use nova_db.Base.{append_assoc}
use nova_db.Base.Bytes.{Bytes, bytes_eq_refl, read_exact, read_exact-append}
use nova_db.Base.Text.{Text, IsScalar, as_bytes}
use nova_db.Base.Text.Utf8.{from_utf8-as_bytes}
use nova_db.Core.Error.{ok}
use nova_db.Wire.{Wire, IsWire, checksum}
use nova_db.Wire.Laws.{read-write, read-write_end, length-write, checksum_lt}
use nova_db.Storage.Format.{
  RecordType, insert, update, delete, checkpoint, tx_begin, tx_commit, tx_rollback,
}
use nova_db.Storage.Format.{
  NbfRecord, Header, IsRecord, to_u8, from_u8, raw_tx, max_u16, max_payload, nbf_magic,
}
use nova_db.Storage.Format.{
  header_fields, text_field, record_tail, record_body, encode, read_header, read_text, read_payload,
}
use nova_db.Storage.Format.{parts_checksum, read_record, decode}

from_u8-to_u8 : (t : RecordType) → from_u8 (to_u8 t) ≡ ok t
unfolding from_u8
from_u8-to_u8 insert = refl
from_u8-to_u8 update = refl
from_u8-to_u8 delete = refl
from_u8-to_u8 checkpoint = refl
from_u8-to_u8 tx_begin = refl
from_u8-to_u8 tx_commit = refl
from_u8-to_u8 tx_rollback = refl

to_u8_lt : (t : RecordType) → to_u8 t < 256 ^ 1
to_u8_lt t = ground arith

pub read_exact_eq : {n : ℕ} (a b : Bytes) → length a ≡ n → read_exact n (a ++ b) ≡ some (a, b)
read_exact_eq a b e = rw (← e) (read_exact-append a b)

-- The header that stands for a record.
abbrev pub header_of : NbfRecord → Header
header_of r = record {
  record_type = r.record_type;
  flags = r.flags;
  sequence = r.sequence;
  tx_id = r.tx_id;
  timestamp = r.timestamp;
}

module _ {H : Type 0} {x : Wire H} (laws : IsWire x) where
  pub length-text_field :
      (t : Text) → length (as_bytes t) ≤ max_u16 → length (text_field x t) ≡ 2 + length (as_bytes t)
  unfolding text_field
  length-text_field t h =
      rw (length-append, length-write laws 2 (length (as_bytes t)) (omega arith))

  pub read_text-text_field :
      (t : Text) (rest : Bytes)
      → All IsScalar t
      → length (as_bytes t) ≤ max_u16
      → read_text x (text_field x t ++ rest) ≡ ok (length (as_bytes t), t, rest)
  unfolding read_text text_field
  read_text-text_field t rest chars h = rw append_assoc (
      rw (read-write laws 2 (length (as_bytes t)) (as_bytes t ++ rest) (omega arith))
        (rw (read_exact-append (as_bytes t) rest) (rw (from_utf8-as_bytes t chars))))

  module _ {r : NbfRecord} (v : IsRecord r) where
    pub length-header_fields : length (header_fields x r) ≡ 28
    unfolding header_fields
    length-header_fields = simp (
      length-append,
      length-write laws 2 1 (omega arith),
      length-write laws 1 (to_u8 r.record_type) (to_u8_lt r.record_type),
      length-write laws 1 r.flags v.flags_lt,
      length-write laws 8 r.sequence v.sequence_lt,
      length-write laws 8 (raw_tx r.tx_id) v.raw_tx_lt,
      length-write laws 8 r.timestamp v.timestamp_lt,
    )

    pub read_header-header_fields : read_header x (header_fields x r) ≡ ok (header_of r)
    unfolding header_fields read_header
    read_header-header_fields = rw (read-write laws 2 1 _ (omega arith)) (
        rw (read-write laws 1 (to_u8 r.record_type) _ (to_u8_lt r.record_type)) (
          rw (from_u8-to_u8 r.record_type) (
            rw (read-write laws 1 r.flags _ v.flags_lt) (
              rw (read-write laws 8 r.sequence _ v.sequence_lt) (
                rw (read-write laws 8 (raw_tx r.tx_id) _ v.raw_tx_lt)
                  (rw (read-write_end laws 8 r.timestamp v.timestamp_lt) (rw v.tx_nonzero)))))))

    payload_len_lt : length r.payload < 256 ^ 4
    payload_len_lt = omega arith

    pub read_payload-payload :
        (rest : Bytes)
        → read_payload x ((x.write 4 (length r.payload) ++ r.payload) ++ rest)
          ≡ ok (r.payload, rest)
    unfolding read_payload
    read_payload-payload rest = rw append_assoc (
        rw (read-write laws 4 (length r.payload) (r.payload ++ rest) payload_len_lt) (
          rw (le→ltb max_payload (length r.payload) v.payload_le)
            (rw (read_exact-append r.payload rest))))

    -- The checksum over the parts is the one over the whole buffer.
    pub parts_checksum-record_body :
        parts_checksum x
          (header_fields x r)
          (length (as_bytes r.namespace), r.namespace)
          (length (as_bytes r.collection), r.collection)
          (length (as_bytes r.document_id), r.document_id)
          r.payload
        ≡ checksum x (record_body x r)
    unfolding parts_checksum checksum record_body record_tail text_field
    parts_checksum-record_body = simp (
      parts_checksum,
      checksum,
      laws.update-append,
      append_assoc,
      laws.write_be 2 (length (as_bytes r.namespace)) (omega arith),
      laws.write_be 2 (length (as_bytes r.collection)) (omega arith),
      laws.write_be 2 (length (as_bytes r.document_id)) (omega arith),
      laws.write_be 4 (length r.payload) payload_len_lt,
    )

    record_tail-append :
        (t : Bytes)
        → record_tail x r ++ t
          ≡ text_field x r.namespace
            ++ (text_field x r.collection
                ++ (text_field x r.document_id
                    ++ ((x.write 4 (length r.payload) ++ r.payload) ++ t)))
    unfolding record_tail
    record_tail-append t = rw (append_assoc, append_assoc, append_assoc)

    -- What `decode` does behind a well-formed header.
    pub decode-header :
        (t : Bytes)
        → decode x (nbf_magic ++ (header_fields x r ++ t))
          ≡ read_record x (header_fields x r) (header_of r) t
    unfolding decode read_exact
    decode-header t = rw (bytes_eq_refl nbf_magic) (
        rw (read_exact_eq (header_fields x r) t length-header_fields)
          (rw read_header-header_fields))

    pub decode-record_body :
        (t : Bytes)
        → decode x (record_body x r ++ t)
          ≡ read_record x (header_fields x r) (header_of r) (record_tail x r ++ t)
    unfolding record_body
    decode-record_body t =
        ap (λ s. decode x (nbf_magic ++ s)) (append_assoc (header_fields x r) (record_tail x r) t)
        ∙ decode-header (record_tail x r ++ t)

    read_record-record_tail :
        (rest : Bytes)
        → read_record x
            (header_fields x r)
            (header_of r)
            (record_tail x r ++ (x.write 4 (checksum x (record_body x r)) ++ rest))
          ≡ ok (some (r, rest))
    unfolding read_record
    read_record-record_tail rest = rw record_tail-append (
        rw (read_text-text_field r.namespace _ v.namespace_chars v.namespace_le) (
          rw (read_text-text_field r.collection _ v.collection_chars v.collection_le) (
            rw (read_text-text_field r.document_id _ v.id_chars v.id_le) (
              rw v.id_new (
                rw read_payload-payload (
                  rw (read-write laws 4 _ rest (checksum_lt laws (record_body x r))) (
                    rw parts_checksum-record_body
                      (rw (==_refl (checksum x (record_body x r)))))))))))

pub encode-IsRecord :
    {H : Type 0} (x : Wire H) {r : NbfRecord}
    → IsRecord r
    → encode x r ≡ ok (record_body x r ++ x.write 4 (checksum x (record_body x r)))
unfolding encode
encode-IsRecord x v = rw (
  le→ltb _ _ v.namespace_le,
  le→ltb _ _ v.collection_le,
  le→ltb _ _ v.id_le,
  le→ltb _ _ v.payload_le,
)

-- Every record in range is encoded, and decoding the bytes, whatever follows them, returns the
-- record and leaves the reader behind it.
pub decode-encode :
    {H : Type 0} {x : Wire H} {r : NbfRecord}
    → IsWire x
    → IsRecord r
    → (bytes : Bytes) × (encode x r ≡ ok bytes)
      × ((rest : Bytes) → decode x (bytes ++ rest) ≡ ok (some (r, rest)))
decode-encode {H} {x} {r} laws v = (
  record_body x r ++ x.write 4 (checksum x (record_body x r)),
  encode-IsRecord x v,
  λ rest. rw append_assoc (decode-record_body laws v _ ∙ read_record-record_tail laws v rest),
)
