-- ===== src/Protocol/Frame.antt =====
-- crates/nova-protocol/src/frame.rs: frame types, `NvpFrame::encode` and
-- `NvpFrame::decode_from_slice`. A buffer is a list of bytes.
pub mod RoundTrip
pub mod Partial
use nova_db.Base.{ℕ, ◌+◌, ◌*◌, ◌^◌, ◌≤◌, ◌<◌, Bool, not, List, [], ◌∷◌, ◌++◌, Option, none, some}
use nova_db.Base.{ltb, ◌==◌, if◌then◌else◌, length, take, drop, slice}
use nova_db.Base.Bytes.{Bytes, bytes_eq}
use nova_db.Core.Error.{Result, ok, err, ◌>>=◌, new_error, checksum_failure, ok_or}
use nova_db.Core.Error.{protocol_violation, frame_too_large}
use nova_db.Wire.{Wire, checksum}

-- "NVP1"
abbrev pub nvp_magic : Bytes
nvp_magic = 0x4E ∷ 0x56 ∷ 0x50 ∷ 0x31 ∷ []

abbrev pub nvp_version : ℕ
nvp_version = 1

abbrev pub nvp_header_size : ℕ
nvp_header_size = 20

abbrev pub nvp_checksum_size : ℕ
nvp_checksum_size = 4

abbrev pub max_frame_payload_size : ℕ
max_frame_payload_size = 16 * 1024 * 1024

pub data FrameType : Type 0 where
  request response event error ping pong : FrameType

-- `frame_type as u8`
abbrev pub to_u8 : FrameType → ℕ
to_u8 request = 0x01
to_u8 response = 0x02
to_u8 event = 0x03
to_u8 error = 0x04
to_u8 ping = 0x05
to_u8 pong = 0x06

unfoldable pub from_u8 : ℕ → Result FrameType
from_u8 b =
    if b == 0x01
    then ok request
    else if b == 0x02
    then ok response
    else if b == 0x03
    then ok event
    else if b == 0x04
    then ok error
    else if b == 0x05
    then ok ping
    else if b == 0x06
    then ok pong
    else err (new_error protocol_violation)

pub record NvpFrame : Type 0 where
  pub frame_type : FrameType
  pub flags : ℕ
  pub request_id : ℕ
  pub payload : Bytes

abbrev pub new : FrameType → ℕ → Bytes → NvpFrame
new t id payload = record { frame_type = t; flags = 0; request_id = id; payload = payload }

abbrev pub new_ping : ℕ → NvpFrame
new_ping id = new ping id []

abbrev pub new_pong : ℕ → NvpFrame
new_pong id = new pong id []

-- The ranges of the struct's machine integers, and the payload bound that `encode` checks.
pub record IsFrame (f : NvpFrame) : Type 0 where
  pub flags_lt : f.flags < 256 ^ 1
  pub request_id_lt : f.request_id < 256 ^ 8
  pub payload_le : length f.payload ≤ max_frame_payload_size

-- What the cursor over the header reads.
pub record Header : Type 0 where
  pub frame_type : FrameType
  pub flags : ℕ
  pub request_id : ℕ
  pub payload_len : ℕ

module _ {H : Type 0} (x : Wire H) where
  -- the header fields behind the magic, in the order they are written
  unfoldable pub header_fields : NvpFrame → Bytes
  header_fields f =
      x.write 2 nvp_version
      ++ (x.write 1 (to_u8 f.frame_type)
          ++ (x.write 1 f.flags ++ (x.write 8 f.request_id ++ x.write 4 (length f.payload))))

  -- the buffer before the checksum
  unfoldable pub frame_body : NvpFrame → Bytes
  unfolding header_fields
  frame_body f = (nvp_magic ++ header_fields f) ++ f.payload

  unfoldable pub encode : NvpFrame → Result Bytes
  unfolding frame_body
  encode f =
      if ltb max_frame_payload_size (length f.payload)
      then err (new_error frame_too_large)
      else ok (frame_body f ++ x.write 4 (checksum x (frame_body f)))

  unfoldable pub read_header : Bytes → Result Header
  unfolding from_u8
  read_header s = do
    (version, s) ← ok_or (new_error protocol_violation) (x.read 2 s)
    if not (version == nvp_version) then err (new_error protocol_violation) else do
      (type_byte, s) ← ok_or (new_error protocol_violation) (x.read 1 s)
      frame_type ← from_u8 type_byte
      (flags, s) ← ok_or (new_error protocol_violation) (x.read 1 s)
      (request_id, s) ← ok_or (new_error protocol_violation) (x.read 8 s)
      (payload_len, s) ← ok_or (new_error protocol_violation) (x.read 4 s)
      ok (record {
        frame_type = frame_type;
        flags = flags;
        request_id = request_id;
        payload_len = payload_len;
      })

  -- from the test of the buffered length to the end
  unfoldable pub read_payload : Bytes → Header → Result (Option (NvpFrame × ℕ))
  read_payload src h =
      let payload_end = nvp_header_size + h.payload_len in
      let total_frame_len = payload_end + nvp_checksum_size in
      if ltb (length src) total_frame_len then ok none else do
        (expected, _) ←
            ok_or (new_error protocol_violation) (x.read 4 (slice payload_end total_frame_len src))
        let calculated = checksum x (take payload_end src)
        if expected == calculated
            then ok (
                some (
                  record {
                    frame_type = h.frame_type;
                    flags = h.flags;
                    request_id = h.request_id;
                    payload = slice nvp_header_size payload_end src;
                  },
                  total_frame_len,
                ))
            else err (checksum_failure expected calculated)

  unfoldable pub decode_from_slice : Bytes → Result (Option (NvpFrame × ℕ))
  unfolding read_header read_payload
  decode_from_slice src =
      if ltb (length src) nvp_header_size
      then ok none
      else if not (bytes_eq (take 4 src) nvp_magic)
      then err (new_error protocol_violation)
      else do
        h ← read_header (slice 4 nvp_header_size src)
        if ltb max_frame_payload_size h.payload_len
            then err (new_error frame_too_large)
            else read_payload src h
