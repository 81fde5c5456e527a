-- ===== src/Base/Text/Utf8.antt =====
-- Reading a text back from its UTF-8 bytes.
use Prim.Native.Nat.{ℕ, zero, suc, ◌≤◌, ◌<◌}
use mathlib.Core.Path.{◌≡◌, refl}
use mathlib.Core.Option.{Option, none, some}
use mathlib.Core.Option
use mathlib.Core.List.{[], ◌∷◌, ◌++◌}
use native.Mathlib.Omega.{arith}
use nova_db.Base.Lists.{length, length-append, All}
use nova_db.Base.Bytes.{Bytes}
use nova_db.Base.Text.{Text, IsScalar, utf8_char, as_bytes, next_char, from_utf8_loop, from_utf8}

next_char-utf8_char : (c : ℕ) (s : Bytes) → IsScalar c → next_char (utf8_char c ++ s) ≡ some (c, s)
unfolding next_char utf8_char
next_char-utf8_char c s h = ground arith

utf8_char_pos : (c : ℕ) → 0 < length (utf8_char c)
unfolding utf8_char
utf8_char_pos c = ground arith

loop_step :
    (fuel : ℕ) (l : Bytes) (c : ℕ) (rest : Bytes)
    → next_char l ≡ some (c, rest)
    → from_utf8_loop (suc fuel) l ≡ Option.map (λ t. c ∷ t) (from_utf8_loop fuel rest)
unfolding from_utf8_loop
loop_step fuel [] c rest e = unfold next_char in cc
loop_step fuel (b ∷ l) c rest e = rw (e, from_utf8_loop)

from_utf8_loop-as_bytes :
    (s : Text) (fuel : ℕ)
    → All IsScalar s
    → length (as_bytes s) ≤ fuel
    → from_utf8_loop fuel (as_bytes s) ≡ some s
unfolding as_bytes
from_utf8_loop-as_bytes [] fuel h le = unfold from_utf8_loop in refl
from_utf8_loop-as_bytes (c ∷ s) zero h le =
    absurd (omega (arith, utf8_char_pos c, length-append (utf8_char c) (as_bytes s)))
from_utf8_loop-as_bytes (c ∷ s) (suc fuel) h le =
    let small : length (as_bytes s) ≤ fuel =
      omega (arith, utf8_char_pos c, length-append (utf8_char c) (as_bytes s)) in
    rw (loop_step fuel _ c (as_bytes s) (next_char-utf8_char c (as_bytes s) h.0))
      (rw (from_utf8_loop-as_bytes s fuel h.1 small))

-- The bytes of a text decode to the text.
pub from_utf8-as_bytes : (s : Text) → All IsScalar s → from_utf8 (as_bytes s) ≡ some s
unfolding from_utf8
from_utf8-as_bytes s h = from_utf8_loop-as_bytes s (length (as_bytes s)) h (omega arith)
