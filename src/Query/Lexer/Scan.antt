-- ===== src/Query/Lexer/Scan.antt =====
-- crates/nova-query/src/lexer.rs: the characters that the lexer reads, and its loops over them.
use nova_db.Base.{
  ℕ, ◌+◌, ◌-◌, ◌*◌, ◌^◌, Bool, true, false, not, ◌&&◌, ◌||◌, List, [], ◌∷◌, Option, none, some,
  if◌then◌else◌, ◌==◌, leb, ltb,
}
use nova_db.Base.Int.{ℤ, negate_if}
use nova_db.Base.Text.{Text}
use nova_db.Query.Token.{Span}

-- `char::is_alphabetic`, `char::is_alphanumeric` and `str::parse::<f64>`
pub record Chars (F : Type 0) : Type 0 where
  pub is_alphabetic : ℕ → Bool
  pub is_alphanumeric : ℕ → Bool
  pub parse_float : Text → Option F

-- a character with its line and its column
pub record Located : Type 0 where
  pub line : ℕ
  pub column : ℕ
  pub char : ℕ

abbrev pub newline : ℕ
newline = 10

abbrev pub backslash : ℕ
backslash = 92

-- `Lexer::new`
unfoldable pub locate : ℕ → ℕ → Text → List Located
locate line column [] = []
locate line column (c ∷ s) =
    let at : Located = record { line = line; column = column; char = c } in
    at ∷ locate (if c == newline then line + 1 else line) (if c == newline then 1 else column + 1) s

-- `current_span` behind the last character
unfoldable pub end_span : List Located → Span
end_span [] = record { line = 1; column = 1 }
end_span (c ∷ []) = record { line = c.line; column = c.column + 1 }
end_span (c ∷ d ∷ s) = end_span (d ∷ s)

-- `self.peek() == Some(c)`
abbrev pub starts : (ℕ → Bool) → List Located → Bool
starts test [] = false
starts test (c ∷ s) = test c.char

-- `is_ascii_digit` and `to_ascii_uppercase`
abbrev pub is_digit : ℕ → Bool
is_digit c = leb b'0' c && leb c b'9'

abbrev pub to_upper : ℕ → ℕ
to_upper c = if leb b'a' c && leb c b'z' then c - 32 else c

abbrev pub upper : Text → Text
upper [] = []
upper (c ∷ s) = to_upper c ∷ upper s

-- A comment ends behind its line.
unfoldable pub skip_line : List Located → List Located
skip_line [] = []
skip_line (c ∷ s) = if c.char == newline then s else skip_line s

-- the character that an escape stands for
abbrev pub unescape : ℕ → ℕ
unescape c = if c == b'n' then newline else if c == b't' then 9 else if c == b'r' then 13 else c

abbrev pub put : {A : Type 0} → ℕ → Option (Text × A) → Option (Text × A)
put c none = none
put c (some (t, a)) = some (c ∷ t, a)

-- A string literal up to its closing quote: its content and the rest, or nothing if it is not closed. A
-- backslash at the very end stands for itself.
unfoldable pub read_string : ℕ → List Located → Option (Text × List Located)
read_string quote [] = none
read_string quote (c ∷ []) = if c.char == quote then some ([], []) else none
read_string quote (c ∷ d ∷ s) =
    let escaped = put (unescape d.char) (read_string quote s) in
    let plain = put c.char (read_string quote (d ∷ s)) in
    if c.char == quote then some ([], d ∷ s) else if c.char == backslash then escaped else plain

abbrev pub prepend : {A : Type 0} → ℕ → Text × A → Text × A
prepend c (t, a) = (c ∷ t, a)

-- The digits of a number, with one dot between digits at most: whether there is one comes with the rest.
unfoldable pub read_number : Bool → List Located → Text × (Bool × List Located)
read_number has_dot [] = ([], (has_dot, []))
read_number has_dot (c ∷ s) =
    let more = prepend c.char (read_number has_dot s) in
    let fraction = prepend c.char (read_number true s) in
    if is_digit c.char
    then more
    else if c.char == b'.' && (not has_dot && starts is_digit s)
    then fraction
    else ([], (has_dot, c ∷ s))

unfoldable pub read_ident : (ℕ → Bool) → List Located → Text × List Located
read_ident goes_on [] = ([], [])
read_ident goes_on (c ∷ s) =
    let more = prepend c.char (read_ident goes_on s) in
    if goes_on c.char || c.char == b'_' then more else ([], c ∷ s)

-- `str::parse::<i64>` on digits behind a sign or none: `none` out of range
unfoldable pub digits_value : ℕ → Text → ℕ
digits_value acc [] = acc
digits_value acc (c ∷ s) = digits_value (acc * 10 + (c - b'0')) s

abbrev pub parse_int : Bool → Text → Option ℤ
parse_int negative digits =
    let n = digits_value 0 digits in
    if (if negative then leb n (2 ^ 63) else ltb n (2 ^ 63))
    then some (negate_if negative n)
    else none
