-- ===== src/Protocol/Codec.antt =====
-- crates/nova-protocol/src/codec.rs: the buffered decoder and encoder over a `BytesMut`.
-- The error is what `io::Error::new(InvalidData, e.to_string())` wraps.
pub mod Stream
use nova_db.Base.{List, [], ◌∷◌, Option, none, some}
use nova_db.Base.Bytes.{Bytes}
use nova_db.Core.Error.{Result, ok, err, ◌>>=◌}
use nova_db.Wire.{Wire}
use nova_db.Protocol.Frame
use nova_db.Protocol.Frame.{NvpFrame, decode_from_slice}

module _ {H : Type 0} (x : Wire H) where
  -- `Decoder::decode`: the result, and the buffer that the call leaves.
  unfoldable pub decode : Bytes → Result (Option NvpFrame) × Bytes
  decode src = elim (decode_from_slice x src) [
    | ok (some (frame, consumed)) ↦ (ok (some frame), (x.split_to consumed src).1)
    | ok none ↦ (ok none, src)
    | err e ↦ (err e, src)
  ]

  -- `Encoder::encode`: the buffer with the frame's bytes appended.
  unfoldable pub encode : NvpFrame → Bytes → Result Bytes
  encode item dst = do bytes ← Frame.encode x item; ok (x.extend_from_slice dst bytes)
