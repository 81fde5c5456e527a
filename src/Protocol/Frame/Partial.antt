-- ===== src/Protocol/Frame/Partial.antt =====
-- Decoding a buffer that holds only the front of an encoded frame.
use nova_db.Base.{◌+◌, ◌≤◌, ◌<◌, ◌≡◌, sym, ap, ◌∙◌, subst, ◌++◌, inl, inr, none, arith}
use nova_db.Base.{ltb, le→ltb, lt→ltb, ltb→lt, ltb→le, Bool-cases, length, take, drop}
use nova_db.Base.{
  length-append, length-drop, take-append_eq, take-append_le, take-append-drop, append_assoc,
}
use nova_db.Base.Bytes.{Bytes}
use nova_db.Core.Error.{ok}
use nova_db.Wire.{Wire, IsWire, checksum}
use nova_db.Wire.Laws.{length-write, checksum_lt}
use nova_db.Protocol.Frame.{NvpFrame, IsFrame, header_fields, frame_body, encode, read_payload}
use nova_db.Protocol.Frame.{decode_from_slice, nvp_magic, max_frame_payload_size}
use nova_db.Protocol.Frame.RoundTrip.{decode-header, length-header_fields, length-frame_body}

decode_short :
    {H : Type 0} (x : Wire H) (s : Bytes) → length s < 20 → decode_from_slice x s ≡ ok none
unfolding decode_from_slice
decode_short x s h = rw (lt→ltb (length s) 20 h)

module _ {H : Type 0} {x : Wire H} (laws : IsWire x) {f : NvpFrame} (v : IsFrame f) where
  -- Behind a whole header, fewer bytes than the payload and the checksum.
  decode-short_tail :
      (t : Bytes)
      → length t < length f.payload + 4
      → decode_from_slice x ((nvp_magic ++ header_fields x f) ++ t) ≡ ok none
  decode-short_tail t h =
      decode-header laws v t
      ∙ (unfold read_payload in
          rw (
            lt→ltb (length ((nvp_magic ++ header_fields x f) ++ t)) (20 + length f.payload + 4)
              (rw length-append (omega (arith, length-header_fields laws v)))))

  module _ (front back : Bytes) (more : 0 < length back)
      (whole : (frame_body x f ++ x.write 4 (checksum x (frame_body x f))) ≡ front ++ back) where
    size : length front + length back ≡ 20 + length f.payload + 4
    size = omega (
      arith,
      ap (λ (s : Bytes). length s) whole,
      length-append front back,
      length-append (frame_body x f) (x.write 4 (checksum x (frame_body x f))),
      length-frame_body laws v,
      length-write laws 4 _ (checksum_lt laws (frame_body x f)),
    )

    front_header : 20 ≤ length front → take 20 front ≡ nvp_magic ++ header_fields x f
    unfolding frame_body
    front_header h =
        sym (take-append_le 20 front back h)
        ∙ ap (λ (s : Bytes). take 20 s) (sym whole)
        ∙ ap (λ (s : Bytes). take 20 s) (append_assoc (nvp_magic ++ header_fields x f) f.payload _)
        ∙ take-append_eq {n = 20} (nvp_magic ++ header_fields x f) _
            (omega (arith, length-header_fields laws v))

    decode-front : decode_from_slice x front ≡ ok none
    decode-front = elim (Bool-cases (ltb (length front) 20)) [
      | inl short ↦ decode_short x front (ltb→lt _ _ short)
      | inr long ↦
          subst (λ s. decode_from_slice x s ≡ ok none)
            (ap (λ (s : Bytes). s ++ drop 20 front) (sym (front_header (ltb→le _ _ long)))
              ∙ take-append-drop 20 front)
            (decode-short_tail (drop 20 front)
              (omega (arith, size, length-drop 20 front, ltb→le _ _ long)))
    ]

-- As long as a byte of an encoded frame in range is missing, decoding asks for more data: it
-- neither fails nor hands out a frame.
pub decode_from_slice_partial :
    {H : Type 0} {x : Wire H} {f : NvpFrame} (front back : Bytes)
    → IsWire x
    → IsFrame f
    → encode x f ≡ ok (front ++ back)
    → 0 < length back
    → decode_from_slice x front ≡ ok none
unfolding encode
decode_from_slice_partial {H} {x} {f} front back laws v e more =
    decode-front laws v front back more
      (let r = rw (le→ltb max_frame_payload_size (length f.payload) v.payload_le) at e in cc r)
