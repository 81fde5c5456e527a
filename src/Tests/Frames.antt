-- ===== src/Tests/Frames.antt =====
-- Frames and the codec.
use nova_db.Base.{◌≡◌, refl, [], ◌∷◌, ◌++◌, none, some, arith, length}
use nova_db.Base.Bytes.{Bytes, to_be_bytes, from_be_bytes, read_exact, bytes_eq}
use nova_db.Core.Error.{ok, err, checksum_failure}
use nova_db.Wire.{read_be, checksum}
use nova_db.Protocol.Frame
use nova_db.Protocol.Frame.{NvpFrame, IsFrame, request, new, new_ping, decode_from_slice}
use nova_db.Protocol.Frame.RoundTrip.{decode_from_slice-encode}
use nova_db.Protocol.Frame.Partial.{decode_from_slice_partial}
use nova_db.Protocol.Codec.Stream.{encode_all, drain, drain-encode_all}
use nova_db.Tests.Plain.{plain, plain-IsWire}

abbrev hello : NvpFrame
hello = new request 7 (104 ∷ 105 ∷ [])

hello-IsFrame : IsFrame hello
hello-IsFrame = omega arith

decode_from_slice-encode_example :
    (bytes : Bytes) × (Frame.encode plain hello ≡ ok bytes)
    × ((rest : Bytes) → decode_from_slice plain (bytes ++ rest) ≡ ok (some (hello, length bytes)))
decode_from_slice-encode_example = decode_from_slice-encode plain-IsWire hello-IsFrame

-- the encoded frame in two reads, the first of which ends inside the payload
abbrev first_read : Bytes
first_read =
    78 ∷ 86 ∷ 80 ∷ 49 ∷ 0 ∷ 1 ∷ 1 ∷ 0 ∷ 0 ∷ 0 ∷ 0 ∷ 0 ∷ 0 ∷ 0 ∷ 0 ∷ 7 ∷ 0 ∷ 0 ∷ 0 ∷ 2 ∷ 104 ∷ []

abbrev second_read : Bytes
second_read = 105 ∷ 0 ∷ 2 ∷ 104 ∷ 105 ∷ []

encode-hello : Frame.encode plain hello ≡ ok (first_read ++ second_read)
unfolding Frame.encode Frame.frame_body Frame.header_fields checksum to_be_bytes from_be_bytes
encode-hello = refl

decode_from_slice_partial_example : decode_from_slice plain first_read ≡ ok none
decode_from_slice_partial_example =
    decode_from_slice_partial first_read second_read plain-IsWire hello-IsFrame encode-hello
      (omega arith)

drain-encode_all_example :
    (bytes : Bytes) × (encode_all plain (new_ping 1 ∷ hello ∷ []) [] ≡ ok ([] ++ bytes))
    × (drain plain 3 (bytes ++ first_read) ≡ (ok (new_ping 1 ∷ hello ∷ []), first_read))
drain-encode_all_example =
    drain-encode_all plain-IsWire (new_ping 1 ∷ hello ∷ []) [] first_read second_read (omega arith)
      hello-IsFrame encode-hello (omega arith)

-- One flipped payload byte changes the checksum.
flipped :
    decode_from_slice plain (
      78 ∷ 86 ∷ 80 ∷ 49 ∷ 0 ∷ 1 ∷ 1 ∷ 0 ∷ 0 ∷ 0 ∷ 0 ∷ 0 ∷ 0 ∷ 0 ∷ 0 ∷ 7 ∷ 0 ∷ 0 ∷ 0 ∷ 2 ∷ 200 ∷ 105
      ∷ 0 ∷ 2 ∷ 104 ∷ 105 ∷ [])
    ≡ err (checksum_failure 0x2_6869 0x2_c869)
unfolding decode_from_slice checksum bytes_eq read_be read_exact from_be_bytes
flipped = refl
