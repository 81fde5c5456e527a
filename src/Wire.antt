-- ===== src/Wire.antt =====
-- The third-party crates that the binary formats call: byteorder's big-endian reads and writes,
-- crc32fast's incremental hasher, and the buffer of the bytes crate. The formats take them as one parameter; `IsWire` names what the
-- crates document and the formats rely on.
pub mod Laws
use nova_db.Base.{ℕ, ◌+◌, ◌^◌, ◌<◌, ◌≡◌, List, [], ◌++◌, Option, none, some}
use nova_db.Base.{if◌then◌else◌}
use nova_db.Base.{◌≤◌, length, take, drop}
use nova_db.Base.Bytes.{Bytes, to_be_bytes, from_be_bytes, read_exact}
use mathlib.Core.Option

pub record Wire (H : Type 0) : Type 0 where
  -- `write_uN::<BigEndian>(n)` for a number of `w` bytes: what it appends to the buffer
  pub write : ℕ → ℕ → Bytes
  -- `read_uN::<BigEndian>()`: the number and the input left, or `none` at the end of the input
  pub read : ℕ → Bytes → Option (ℕ × Bytes)
  -- crc32fast's `Hasher::new`, `update` and `finalize`
  pub hasher : H
  pub update : H → Bytes → H
  pub finalize : H → ℕ
  -- `BytesMut::split_to(n)`: the bytes taken off the front, and the buffer left
  pub split_to : ℕ → Bytes → Bytes × Bytes
  -- `BytesMut::extend_from_slice`
  pub extend_from_slice : Bytes → Bytes → Bytes

-- `read_exact` of `w` bytes, read as a big-endian number.
unfoldable pub read_be : ℕ → Bytes → Option (ℕ × Bytes)
read_be w s = Option.map (λ p. (from_be_bytes 0 p.0, p.1)) (read_exact w s)

pub record IsWire {H : Type 0} (x : Wire H) : Type 0 where
  pub write_be : (w n : ℕ) → n < 256 ^ w → x.write w n ≡ to_be_bytes w n
  pub read-read_be : (w : ℕ) (s : Bytes) → x.read w s ≡ read_be w s
  -- the checksum does not depend on how the input is cut into updates
  pub update-append : (h : H) (a b : Bytes) → x.update (x.update h a) b ≡ x.update h (a ++ b)
  -- a checksum has 32 bits
  pub finalize_lt : (h : H) → x.finalize h < 256 ^ 4
  pub split_to_front : (n : ℕ) (b : Bytes) → n ≤ length b → x.split_to n b ≡ (take n b, drop n b)
  pub extend_back : (b s : Bytes) → x.extend_from_slice b s ≡ b ++ s

-- `Hasher::new(); update(bytes); finalize()`
unfoldable pub checksum : {H : Type 0} → Wire H → Bytes → ℕ
checksum x s = x.finalize (x.update x.hasher s)
