-- ===== src/Wire/Laws.antt =====
-- What the formats use of the wire crates.
use nova_db.Base.{ℕ, ◌^◌, ◌<◌, ◌≡◌, ◌∙◌, ◌++◌, none, some, length, subst}
use nova_db.Base.{[], append-nil}
use nova_db.Base.Bytes
use nova_db.Base.Bytes.{Bytes, to_be_bytes, from_be_bytes, read_exact}
use nova_db.Wire.{Wire, IsWire, read_be, checksum}

read_be-to_be_bytes :
    (w n : ℕ) (rest : Bytes) → n < 256 ^ w → read_be w (to_be_bytes w n ++ rest) ≡ some (n, rest)
unfolding read_be
read_be-to_be_bytes w n rest h =
    let e : read_exact w (to_be_bytes w n ++ rest) ≡ some (to_be_bytes w n, rest) =
      subst (λ k. read_exact k (to_be_bytes w n ++ rest) ≡ some (to_be_bytes w n, rest))
        (Bytes.length-to_be_bytes w n) (Bytes.read_exact-append (to_be_bytes w n) rest) in
    rw e (rw (Bytes.from_be_bytes-to_be_bytes w n h))

module _ {H : Type 0} {x : Wire H} (laws : IsWire x) where
  -- A number is read back from its bytes, and what follows is left.
  pub read-write :
      (w n : ℕ) (rest : Bytes) → n < 256 ^ w → x.read w (x.write w n ++ rest) ≡ some (n, rest)
  read-write w n rest h =
      rw (laws.write_be w n h) (laws.read-read_be w _ ∙ read_be-to_be_bytes w n rest h)

  -- The same at the end of the input.
  pub read-write_end : (w n : ℕ) → n < 256 ^ w → x.read w (x.write w n) ≡ some (n, [])
  read-write_end w n h = rw append-nil at (read-write w n [] h)

  pub length-write : (w n : ℕ) → n < 256 ^ w → length (x.write w n) ≡ w
  length-write w n h = rw (laws.write_be w n h) (Bytes.length-to_be_bytes w n)

  -- A read that meets the end of the input.
  pub read_short : (w : ℕ) (s : Bytes) → length s < w → x.read w s ≡ none
  read_short w s h = laws.read-read_be w s ∙ unfold read_be in rw (Bytes.read_exact-short w s h)

  pub checksum_lt : (s : Bytes) → checksum x s < 256 ^ 4
  unfolding checksum
  checksum_lt s = laws.finalize_lt _
