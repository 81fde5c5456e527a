-- ===== src/Query/Lexer.antt =====
-- crates/nova-query/src/lexer.rs: `Lexer::new` and `Lexer::tokenize`.
-- The lexer's cursor is the list of the characters that it has still to read, each with its line and
-- column. Unicode's classes of letters and the reading of an f64 are a parameter.
pub mod Scan
pub mod Total
pub mod Strings
pub mod Words
use nova_db.Query.Lexer.Scan.{
  Chars, Located, locate, end_span, starts, is_digit, upper, skip_line, read_string, read_number,
  read_ident, digits_value, parse_int,
}
use nova_db.Base.{
  ℕ, zero, suc, ◌+◌, ◌-◌, ◌*◌, ◌^◌, Bool, true, false, not, ◌&&◌, ◌||◌, List, [], ◌∷◌, Option, none,
  some, if◌then◌else◌, ◌==◌, leb, ltb, length,
}
use nova_db.Base.Int.{ℤ, negate_if}
use nova_db.Base.Text.{Text, text_eq, codes, is_whitespace}
use nova_db.Core.Error.{Result, ok, err, parse_failure}
use nova_db.Query.Token.{TokenKind, Token, Span}

-- What one round of the loop does: it passes over characters, pushes a token, or fails.
pub data Step (F : Type 0) : Type 0 where
  skip : List Located → Step F
  emit : TokenKind F → List Located → Step F
  reject : Step F

abbrev pub rest_of : List Located → List Located
rest_of [] = []
rest_of (c ∷ s) = s

abbrev pub signed : Bool → Text → Text
signed negative digits = if negative then b'-' ∷ digits else digits

module _ {F : Type 0} where
  abbrev keywords : List (Text × TokenKind F)
  keywords =
      (codes "FIND", TokenKind.find)
      ∷ (codes "INSERT", TokenKind.insert)
      ∷ (codes "INTO", TokenKind.into)
      ∷ (codes "VALUES", TokenKind.values)
      ∷ (codes "UPDATE", TokenKind.update)
      ∷ (codes "SET", TokenKind.set)
      ∷ (codes "REMOVE", TokenKind.remove)
      ∷ (codes "WATCH", TokenKind.watch)
      ∷ (codes "COUNT", TokenKind.count)
      ∷ (codes "EXISTS", TokenKind.exists)
      ∷ (codes "CREATE", TokenKind.create)
      ∷ (codes "DROP", TokenKind.drop)
      ∷ (codes "INDEX", TokenKind.index)
      ∷ (codes "TYPE", TokenKind.type)
      ∷ (codes "WHERE", TokenKind.where_keyword)
      ∷ (codes "SORT", TokenKind.sort)
      ∷ (codes "LIMIT", TokenKind.limit)
      ∷ (codes "OFFSET", TokenKind.offset)
      ∷ (codes "ASC", TokenKind.asc)
      ∷ (codes "DESC", TokenKind.desc)
      ∷ (codes "AND", TokenKind.and)
      ∷ (codes "OR", TokenKind.or)
      ∷ (codes "NOT", TokenKind.not)
      ∷ (codes "IN", TokenKind.in_keyword)
      ∷ (codes "BETWEEN", TokenKind.between)
      ∷ (codes "BEGIN", TokenKind.begin)
      ∷ (codes "COMMIT", TokenKind.commit)
      ∷ (codes "ROLLBACK", TokenKind.rollback)
      ∷ (codes "HASH", TokenKind.hash)
      ∷ (codes "ORDERED", TokenKind.ordered)
      ∷ (codes "TRUE", TokenKind.true)
      ∷ (codes "FALSE", TokenKind.false)
      ∷ (codes "NULL", TokenKind.null)
      ∷ []

  abbrev keyword_in : List (Text × TokenKind F) → Text → Text → TokenKind F
  keyword_in [] word ident = TokenKind.identifier ident
  keyword_in ((k, kind) ∷ table) word ident =
      if text_eq k word then kind else keyword_in table word ident

  -- A keyword in any case of its letters, or the identifier as it is written.
  unfoldable pub word_kind : Text → TokenKind F
  unfolding text_eq
  word_kind ident = keyword_in keywords (upper ident) ident

  -- The symbols of one character that no other symbol begins with.
  unfoldable pub symbol : ℕ → Option (TokenKind F)
  symbol c =
      if c == b'+'
      then some TokenKind.plus
      else if c == b'-'
      then some TokenKind.minus
      else if c == b'*'
      then some TokenKind.star
      else if c == b'/'
      then some TokenKind.slash
      else if c == b'%'
      then some TokenKind.percent
      else if c == b'('
      then some TokenKind.l_paren
      else if c == b')'
      then some TokenKind.r_paren
      else if c == b'{'
      then some TokenKind.l_brace
      else if c == b'}'
      then some TokenKind.r_brace
      else if c == b'['
      then some TokenKind.l_bracket
      else if c == b']'
      then some TokenKind.r_bracket
      else if c == b','
      then some TokenKind.comma
      else if c == b':'
      then some TokenKind.colon
      else if c == b'.'
      then some TokenKind.dot
      else none

  abbrev pub emit_if : Option (TokenKind F) → List Located → Step F
  emit_if none s = reject
  emit_if (some k) s = emit k s

  -- `kind` if the next character is `c`, `other` if it is not
  abbrev pub two : ℕ → TokenKind F → Option (TokenKind F) → List Located → Step F
  two c kind other s = if starts (λ d. d == c) s then emit kind (rest_of s) else emit_if other s

  unfoldable pub lex_symbol : ℕ → List Located → Step F
  unfolding symbol
  lex_symbol c s =
      if c == b'='
      then two b'=' TokenKind.eq_eq (some TokenKind.eq) s
      else if c == b'!'
      then two b'=' TokenKind.bang_eq (some TokenKind.bang) s
      else if c == b'>'
      then two b'=' TokenKind.gt_eq (some TokenKind.gt) s
      else if c == b'<'
      then two b'=' TokenKind.lt_eq (some TokenKind.lt) s
      else if c == b'&'
      then two b'&' TokenKind.amp_amp none s
      else if c == b'|'
      then two b'|' TokenKind.pipe_pipe none s
      else emit_if (symbol c) s

  abbrev pub string_step : Option (Text × List Located) → Step F
  string_step none = reject
  string_step (some (content, s)) = emit (TokenKind.string_lit content) s

  abbrev pub float_step : Option F → List Located → Step F
  float_step none s = reject
  float_step (some f) s = emit (TokenKind.float f) s

  abbrev pub int_step : Option ℤ → List Located → Step F
  int_step none s = reject
  int_step (some i) s = emit (TokenKind.int i) s

  abbrev pub number_step : Chars F → Bool → Text × (Bool × List Located) → Step F
  number_step chars negative (digits, (true, s)) =
      float_step (chars.parse_float (signed negative digits)) s
  number_step chars negative (digits, (false, s)) = int_step (parse_int negative digits) s

  abbrev pub word_step : Text × List Located → Step F
  word_step (ident, s) = emit (word_kind ident) s

  -- One round of the loop of `tokenize`, at the character `c` with `s` behind it.
  unfoldable pub lex_step : Chars F → Located → List Located → Step F
  unfolding is_whitespace skip_line read_string read_number read_ident word_kind lex_symbol
      digits_value
  lex_step chars c s =
      if is_whitespace c.char
      then skip s
      else if (c.char == b'-' && starts (λ d. d == b'-') s)
          || (c.char == b'/' && starts (λ d. d == b'/') s)
      then skip (skip_line s)
      else if c.char == b'"' || c.char == 39
      then string_step (read_string c.char s)
      else if is_digit c.char
      then number_step chars false (read_number false (c ∷ s))
      else if c.char == b'-' && starts is_digit s
      then number_step chars true (read_number false s)
      else if chars.is_alphabetic c.char || c.char == b'_'
      then word_step (read_ident chars.is_alphanumeric (c ∷ s))
      else lex_symbol c.char s

  abbrev pub push : Token F → Option (Result (List (Token F))) → Option (Result (List (Token F)))
  push t none = none
  push t (some (err e)) = some (err e)
  push t (some (ok ts)) = some (ok (t ∷ ts))

  -- The loop; `none` is no result of the code but means that the fuel ran out.
  unfoldable pub lex_loop : Chars F → ℕ → Span → List Located → Option (Result (List (Token F)))
  unfolding lex_step
  lex_loop chars zero at_end s = none
  lex_loop chars (suc fuel) at_end [] =
      some (ok (record { kind = TokenKind.eof; span = at_end } ∷ []))
  lex_loop chars (suc fuel) at_end (c ∷ s) = elim (lex_step chars c s) [
    | skip s' ↦ lex_loop chars fuel at_end s'
    | emit k s' ↦
        push (record { kind = k; span = record { line = c.line; column = c.column } })
          (lex_loop chars fuel at_end s')
    | reject ↦ some (err (parse_failure c.line c.column))
  ]

  -- `Lexer::new(source).tokenize()`
  unfoldable pub tokenize : Chars F → Text → Option (Result (List (Token F)))
  unfolding locate end_span lex_loop
  tokenize chars source =
      let s = locate 1 1 source in lex_loop chars (suc (length s)) (end_span s) s
