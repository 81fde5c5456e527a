-- ===== src/Protocol/Codec/Stream.antt =====
-- Frames sent over one stream, and what a receiver gets from it.
use nova_db.Base.{ℕ, zero, suc, ◌<◌, ◌≡◌, List, [], ◌∷◌, ◌++◌, Option, none, some, arith}
use nova_db.Base.{length, length-append, drop-append, append_assoc, append-nil, All}
use nova_db.Base.Bytes.{Bytes}
use nova_db.Core.Error.{Result, ok, err, ◌>>=◌}
use nova_db.Wire.{Wire, IsWire}
use nova_db.Protocol.Frame
use nova_db.Protocol.Frame.{NvpFrame, IsFrame, decode_from_slice}
use nova_db.Protocol.Frame.RoundTrip.{decode_from_slice-encode}
use nova_db.Protocol.Frame.Partial.{decode_from_slice_partial}
use nova_db.Protocol.Codec.{decode, encode}

module _ {H : Type 0} (x : Wire H) where
  -- One `encode` after the other into the same buffer.
  unfoldable pub encode_all : List NvpFrame → Bytes → Result Bytes
  unfolding encode
  encode_all [] dst = ok dst
  encode_all (f ∷ fs) dst = do dst ← encode x f dst; encode_all fs dst

-- One more frame in front of what later calls return.
abbrev with_frame : NvpFrame → Result (List NvpFrame) × Bytes → Result (List NvpFrame) × Bytes
with_frame f p = (p.0 >>= (λ fs. ok (f ∷ fs)), p.1)

abbrev drain_next :
    (Bytes → Result (List NvpFrame) × Bytes)
    → Result (Option NvpFrame) × Bytes
    → Result (List NvpFrame) × Bytes
drain_next next (ok (some f), rest) = with_frame f (next rest)
drain_next next (ok none, rest) = (ok [], rest)
drain_next next (err e, rest) = (err e, rest)

-- Calls of `decode` for as long as they return frames, `n` calls at most.
unfoldable pub drain : {H : Type 0} → Wire H → ℕ → Bytes → Result (List NvpFrame) × Bytes
drain x zero src = (ok [], src)
drain x (suc n) src = drain_next (drain x n) (decode x src)

module _ {H : Type 0} {x : Wire H} (laws : IsWire x) where
  -- `encode` appends the frame's bytes, and `decode` takes them off the front again.
  pub encode-decode :
      {f : NvpFrame} (v : IsFrame f) (dst : Bytes)
      → (bytes : Bytes) × (encode x f dst ≡ ok (dst ++ bytes))
        × ((rest : Bytes) → decode x (bytes ++ rest) ≡ (ok (some f), rest))
  unfolding encode decode
  encode-decode v dst =
      let (bytes, written, back) = decode_from_slice-encode laws v in
      (
        bytes,
        rw (written, laws.extend_back dst bytes),
        λ rest.
            rw (back rest, decode)
              (rw
                (laws.split_to_front (length bytes) (bytes ++ rest)
                  (omega (arith, length-append bytes rest)))
                (rw drop-append)),
      )

  decode-partial :
      {g : NvpFrame} (front back : Bytes)
      → IsFrame g
      → Frame.encode x g ≡ ok (front ++ back)
      → 0 < length back
      → decode x front ≡ (ok none, front)
  unfolding decode
  decode-partial front back v e more =
      rw (decode_from_slice_partial front back laws v e more, decode)

  drain-partial :
      {g : NvpFrame} (n : ℕ) (front back : Bytes)
      → IsFrame g
      → Frame.encode x g ≡ ok (front ++ back)
      → 0 < length back
      → drain x (suc n) front ≡ (ok [], front)
  unfolding drain
  drain-partial n front back v e more = rw (decode-partial front back v e more)

  -- Frames in range encoded into one buffer, followed by the front of one more, come out of the
  -- decoder in their order, and the unfinished frame stays in the buffer.
  pub drain-encode_all :
      {g : NvpFrame} (fs : List NvpFrame) (dst front back : Bytes)
      → All IsFrame fs
      → IsFrame g
      → Frame.encode x g ≡ ok (front ++ back)
      → 0 < length back
      → (bytes : Bytes) × (encode_all x fs dst ≡ ok (dst ++ bytes))
        × (drain x (suc (length fs)) (bytes ++ front) ≡ (ok fs, front))
  unfolding encode_all drain
  drain-encode_all [] dst front back vs v e more =
      ([], rw append-nil, drain-partial 0 front back v e more)
  drain-encode_all (f ∷ fs) dst front back vs v e more =
      let (a, written, back_f) = encode-decode vs.0 dst in
      let (b, written', back_fs) = drain-encode_all fs (dst ++ a) front back vs.1 v e more in
      (
        a ++ b,
        rw (written, written') (rw append_assoc),
        rw append_assoc (rw (back_f (b ++ front)) (rw back_fs)),
      )
