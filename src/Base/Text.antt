-- ===== src/Base/Text.antt =====
-- Rust's `str` and `String` as lists of code points: their UTF-8 bytes, `String::from_utf8`, `==`,
-- `cmp` and `trim`.
pub mod Utf8
use Prim.Native.Char.{code}
use Prim.Native.String.{String}
use Prim.Native.Nat.{ℕ, zero, suc, ◌+◌, ◌-◌, ◌*◌, ◌/◌, ◌%◌, ◌≤◌, ◌<◌, compare, Ordering}
use mathlib.Core.Bool.{Bool, true, false, ◌&&◌, ◌||◌, not}
use mathlib.Core.Option.{Option, none, some}
use mathlib.Core.Option
use mathlib.Core.Logic.{◌⊎◌}
use mathlib.Core.List.{List, [], ◌∷◌, ◌++◌, reverse}
use nova_db.Base.Tests.{ltb, leb, ◌==◌, if◌then◌else◌}
use nova_db.Base.Lists.{length}
use nova_db.Base.Bytes.{Bytes, bytes_eq}

abbrev pub Text : Type 0
Text = List ℕ

-- A Unicode scalar value: what a Rust `char` can be.
abbrev pub IsScalar : ℕ → Type 0
IsScalar c = (c < 0xD800) ⊎ ((0xE000 ≤ c) × (c < 0x110000))

-- The UTF-8 bytes of one character.
unfoldable pub utf8_char : ℕ → Bytes
utf8_char c =
    if ltb c 0x80
    then c ∷ []
    else if ltb c 0x800
    then (0xC0 + c / 64) ∷ (0x80 + c % 64) ∷ []
    else if ltb c 0x10000
    then (0xE0 + c / 4096) ∷ (0x80 + c / 64 % 64) ∷ (0x80 + c % 64) ∷ []
    else (0xF0 + c / 262144) ∷ (0x80 + c / 4096 % 64) ∷ (0x80 + c / 64 % 64) ∷ (0x80 + c % 64) ∷ []

-- `as_bytes`
unfoldable pub as_bytes : Text → Bytes
as_bytes [] = []
as_bytes (c ∷ s) = utf8_char c ++ as_bytes s

abbrev is_continuation : ℕ → Bool
is_continuation b = leb 0x80 b && ltb b 0xC0

-- The character at the front of a byte string, if it is well-formed UTF-8: no stray continuation
-- byte, no overlong form, no surrogate, nothing above U+10FFFF.
abbrev two_bytes : ℕ → Bytes → Option (ℕ × Bytes)
two_bytes a [] = none
two_bytes a (b ∷ s) = if is_continuation b then some ((a - 0xC0) * 64 + (b - 0x80), s) else none

abbrev three_bytes : ℕ → Bytes → Option (ℕ × Bytes)
three_bytes a (b ∷ c ∷ s) =
    let n = (a - 0xE0) * 4096 + (b - 0x80) * 64 + (c - 0x80) in
    if is_continuation b && is_continuation c && leb 0x800 n && (ltb n 0xD800 || leb 0xE000 n)
    then some (n, s)
    else none
three_bytes a _ = none

abbrev four_bytes : ℕ → Bytes → Option (ℕ × Bytes)
four_bytes a (b ∷ c ∷ d ∷ s) =
    let n = (a - 0xF0) * 262144 + (b - 0x80) * 4096 + (c - 0x80) * 64 + (d - 0x80) in
    if is_continuation b
      && is_continuation c
      && is_continuation d
      && leb 0x10000 n
      && ltb n 0x110000
    then some (n, s)
    else none
four_bytes a _ = none

unfoldable pub next_char : Bytes → Option (ℕ × Bytes)
next_char [] = none
next_char (a ∷ s) =
    if ltb a 0x80
    then some (a, s)
    else if ltb a 0xC2
    then none
    else if ltb a 0xE0
    then two_bytes a s
    else if ltb a 0xF0
    then three_bytes a s
    else if ltb a 0xF5
    then four_bytes a s
    else none

-- `String::from_utf8`, with as many rounds as there are bytes.
unfoldable pub from_utf8_loop : ℕ → Bytes → Option Text
from_utf8_loop fuel [] = some []
from_utf8_loop zero (b ∷ s) = none
from_utf8_loop (suc fuel) (b ∷ s) = elim (next_char (b ∷ s)) [
  | none ↦ none
  | some p ↦ Option.map (λ t. p.0 ∷ t) (from_utf8_loop fuel p.1)
]

unfoldable pub from_utf8 : Bytes → Option Text
unfolding from_utf8_loop next_char
from_utf8 s = from_utf8_loop (length s) s

-- `==`
unfoldable pub text_eq : Text → Text → Bool
unfolding bytes_eq
text_eq = bytes_eq

-- `str::cmp` is by bytes, which for UTF-8 is the order of the code points.
unfoldable pub text_cmp : Text → Text → Ordering
text_cmp [] [] = Ordering.eq
text_cmp [] (y ∷ ys) = Ordering.lt
text_cmp (x ∷ xs) [] = Ordering.gt
text_cmp (x ∷ xs) (y ∷ ys) =
    let rest = text_cmp xs ys in
    elim (compare x y) [
      | Ordering.lt ↦ Ordering.lt
      | Ordering.eq ↦ rest
      | Ordering.gt ↦ Ordering.gt
    ]

-- `char::is_whitespace`: Unicode's White_Space.
unfoldable pub is_whitespace : ℕ → Bool
is_whitespace c =
    (leb 9 c && leb c 13)
    || c == 0x20
    || c == 0x85
    || c == 0xA0
    || c == 0x1680
    || (leb 0x2000 c && leb c 0x200A)
    || c == 0x2028
    || c == 0x2029
    || c == 0x202F
    || c == 0x205F
    || c == 0x3000

unfoldable pub trim_start : Text → Text
unfolding is_whitespace
trim_start [] = []
trim_start (c ∷ s) = if is_whitespace c then trim_start s else c ∷ s

-- `str::trim`
unfoldable pub trim : Text → Text
unfolding trim_start
trim s = reverse (trim_start (reverse (trim_start s)))

-- A text literal as its characters.
abbrev pub codes : String → Text
codes String.[] = []
codes (String.◌∷◌ c s) = code c ∷ codes s
