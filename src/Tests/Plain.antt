-- ===== src/Tests/Plain.antt =====
-- Wire crates that compute: byteorder and the buffer as documented, and a checksum that has the laws
-- (the input read as one big-endian number, modulo 2 ^ 32).
use nova_db.Base.{◌%◌, ◌^◌, refl, [], ◌++◌, take, drop, arith, append_assoc}
use nova_db.Base.Bytes.{Bytes, to_be_bytes, from_be_bytes}
use nova_db.Wire.{Wire, IsWire, read_be}

abbrev pub plain : Wire Bytes
plain = record {
  write = to_be_bytes;
  read = read_be;
  hasher = [];
  update = λ h b. h ++ b;
  finalize = λ h. from_be_bytes 0 h % 256 ^ 4;
  split_to = λ n b. (take n b, drop n b);
  extend_from_slice = λ b s. b ++ s;
}

pub plain-IsWire : IsWire plain
plain-IsWire = record {
  write_be = λ w n h. refl;
  read-read_be = λ w s. refl;
  update-append = λ h a b. append_assoc h a b;
  finalize_lt = λ h. omega arith;
  split_to_front = λ n b h. refl;
  extend_back = λ b s. refl;
}
