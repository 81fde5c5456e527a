-- ===== src/Protocol/Frame/RoundTrip.antt =====
-- Decoding what `encode` wrote.
use nova_db.Base.{◌+◌, ◌^◌, ◌<◌, ◌≡◌, refl, sym, ◌∙◌, ◌++◌}
use nova_db.Base.{some, arith, ==_refl, le→ltb}
use nova_db.Base.{
  length, take, slice, length-append, take-append_eq, drop-append_eq, append_assoc, subst,
}
use nova_db.Base.Bytes.{Bytes, bytes_eq_refl}
use nova_db.Core.Error.{ok}
use nova_db.Wire.{Wire, IsWire, checksum}
use nova_db.Wire.Laws.{read-write, read-write_end, length-write, checksum_lt}
use nova_db.Protocol.Frame.{
  FrameType, request, response, event, error, ping, pong, NvpFrame, Header, IsFrame,
}
use nova_db.Protocol.Frame.{
  to_u8, from_u8, header_fields, frame_body, encode, read_header, read_payload,
}
use nova_db.Protocol.Frame.{decode_from_slice, nvp_magic, max_frame_payload_size}

from_u8-to_u8 : (t : FrameType) → from_u8 (to_u8 t) ≡ ok t
unfolding from_u8
from_u8-to_u8 request = refl
from_u8-to_u8 response = refl
from_u8-to_u8 event = refl
from_u8-to_u8 error = refl
from_u8-to_u8 ping = refl
from_u8-to_u8 pong = refl

to_u8_lt : (t : FrameType) → to_u8 t < 256 ^ 1
to_u8_lt t = ground arith

-- The header that stands for a frame.
abbrev pub header_of : NvpFrame → Header
header_of f = record {
  frame_type = f.frame_type;
  flags = f.flags;
  request_id = f.request_id;
  payload_len = length f.payload;
}

module _ {H : Type 0} {x : Wire H} (laws : IsWire x) {f : NvpFrame} (v : IsFrame f) where
  payload_len_lt : length f.payload < 256 ^ 4
  payload_len_lt = omega arith

  pub length-header_fields : length (header_fields x f) ≡ 16
  unfolding header_fields
  length-header_fields = simp (
    length-append,
    length-write laws 2 1 (omega arith),
    length-write laws 1 (to_u8 f.frame_type) (to_u8_lt f.frame_type),
    length-write laws 1 f.flags v.flags_lt,
    length-write laws 8 f.request_id v.request_id_lt,
    length-write laws 4 (length f.payload) payload_len_lt,
  )

  pub read_header-header_fields : read_header x (header_fields x f) ≡ ok (header_of f)
  unfolding header_fields read_header
  read_header-header_fields = rw (read-write laws 2 1 _ (omega arith)) (
      rw (read-write laws 1 (to_u8 f.frame_type) _ (to_u8_lt f.frame_type)) (
        rw (from_u8-to_u8 f.frame_type) (
          rw (read-write laws 1 f.flags _ v.flags_lt) (
            rw (read-write laws 8 f.request_id _ v.request_id_lt)
              (rw (read-write_end laws 4 (length f.payload) payload_len_lt))))))

  -- What `decode_from_slice` does behind a well-formed header.
  pub decode-header :
      (t : Bytes)
      → decode_from_slice x ((nvp_magic ++ header_fields x f) ++ t)
        ≡ read_payload x ((nvp_magic ++ header_fields x f) ++ t) (header_of f)
  unfolding decode_from_slice
  decode-header t =
      rw
        (le→ltb (length ((nvp_magic ++ header_fields x f) ++ t)) 20
          (rw length-append (omega (arith, length-header_fields))))
        (rw (bytes_eq_refl nvp_magic) (
          rw (take-append_eq (header_fields x f) t length-header_fields) (
            rw read_header-header_fields
              (rw (le→ltb max_frame_payload_size (length f.payload) v.payload_le)))))

  pub length-frame_body : length (frame_body x f) ≡ 20 + length f.payload
  unfolding frame_body
  length-frame_body = rw length-append (omega (arith, length-header_fields))

  module _ (c rest : Bytes) (four : length c ≡ 4) where
    body_part : take (20 + length f.payload) (frame_body x f ++ (c ++ rest)) ≡ frame_body x f
    body_part = take-append_eq (frame_body x f) (c ++ rest) length-frame_body

    checksum_part :
        slice (20 + length f.payload) (20 + length f.payload + 4) (frame_body x f ++ (c ++ rest))
        ≡ c
    checksum_part =
        rw (drop-append_eq (frame_body x f) (c ++ rest) length-frame_body)
          (take-append_eq c rest (omega arith))

    payload_part : slice 20 (20 + length f.payload) (frame_body x f ++ (c ++ rest)) ≡ f.payload
    unfolding frame_body
    payload_part = rw append_assoc (
        rw
          (drop-append_eq {n = 20} (nvp_magic ++ header_fields x f) (f.payload ++ (c ++ rest))
            (omega (arith, length-header_fields)))
          (take-append_eq f.payload (c ++ rest) (omega arith)))

  read_payload-frame_body :
      (rest : Bytes)
      → read_payload x
          (frame_body x f ++ (x.write 4 (checksum x (frame_body x f)) ++ rest))
          (header_of f)
        ≡ ok (some (f, 20 + length f.payload + 4))
  unfolding read_payload
  read_payload-frame_body rest =
      let c = x.write 4 (checksum x (frame_body x f)) in
      let four : length c ≡ 4 = length-write laws 4 _ (checksum_lt laws (frame_body x f)) in
      rw
        (le→ltb (length (frame_body x f ++ (c ++ rest))) (20 + length f.payload + 4)
          (rw (length-append, length-append) (omega (arith, length-frame_body))))
        (rw (checksum_part c rest four) (
          rw (read-write_end laws 4 _ (checksum_lt laws (frame_body x f))) (
            rw (body_part c rest four)
              (rw (==_refl (checksum x (frame_body x f))) (rw (payload_part c rest four))))))

  decode-frame_body :
      (t : Bytes)
      → decode_from_slice x (frame_body x f ++ t)
        ≡ read_payload x (frame_body x f ++ t) (header_of f)
  unfolding frame_body
  decode-frame_body t =
      subst (λ s. decode_from_slice x s ≡ read_payload x s (header_of f))
        (sym (append_assoc (nvp_magic ++ header_fields x f) f.payload t))
        (decode-header (f.payload ++ t))

-- Every frame in range is encoded, and decoding the bytes, whatever follows them, returns the frame
-- and the number of bytes of its encoding.
pub decode_from_slice-encode :
    {H : Type 0} {x : Wire H} {f : NvpFrame}
    → IsWire x
    → IsFrame f
    → (bytes : Bytes) × (encode x f ≡ ok bytes)
      × ((rest : Bytes) → decode_from_slice x (bytes ++ rest) ≡ ok (some (f, length bytes)))
unfolding encode
decode_from_slice-encode {H} {x} {f} laws v =
    let crc : Bytes = x.write 4 (checksum x (frame_body x f)) in
    let four : length crc ≡ 4 = length-write laws 4 _ (checksum_lt laws (frame_body x f)) in
    let size : length (frame_body x f ++ crc) ≡ 20 + length f.payload + 4 =
      rw length-append (omega (arith, length-frame_body laws v)) in
    (
      frame_body x f ++ crc,
      rw (le→ltb max_frame_payload_size (length f.payload) v.payload_le),
      λ rest.
          rw (size, append_assoc)
            (decode-frame_body laws v (crc ++ rest) ∙ read_payload-frame_body laws v rest),
    )
