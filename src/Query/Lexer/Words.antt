-- ===== src/Query/Lexer/Words.antt =====
-- crates/nova-query/src/lexer.rs: texts that are lexed word by word.
use nova_db.Base.{
  ℕ, zero, suc, ◌+◌, ◌<◌, ◌≤◌, false≢true, ap, ◌≡◌, refl, ◌∙◌, Bool, true, false, ◌||◌, ◌&&◌, leb,
  ltb, ◌==◌, List, [], ◌∷◌, ◌++◌, some, arith, length, length-append, inl, if◌then◌else◌,
}
use nova_db.Base.Text.{Text, is_whitespace}
use nova_db.Core.Error.{ok}
use nova_db.Query.Lexer.{emit, lex_step, lex_loop, lex_symbol, word_kind, word_step}
use nova_db.Query.Lexer.Scan.{Chars, Located, locate, newline, read_ident, is_digit, prepend}
use nova_db.Query.Lexer.Strings.{escape, read_string-escape, lex_step-quote}
use nova_db.Query.Token.{TokenKind, Token, Span}

-- the letters of ASCII, and what names are made of
abbrev pub letter : ℕ → Bool
letter c = (leb b'a' c && leb c b'z') || (leb b'A' c && leb c b'Z')

abbrev pub name_char : ℕ → Bool
name_char c = letter c || (is_digit c || c == b'_')

abbrev pub name_chars : Text → Bool
name_chars [] = true
name_chars (c ∷ s) = name_char c && name_chars s

-- letters, digits and underscores, and no digit first
abbrev pub is_name : Text → Bool
is_name [] = false
is_name (c ∷ s) = (letter c || c == b'_') && name_chars s

-- Unicode's classes on ASCII: the letters, and the letters and digits.
pub record IsAscii {F : Type 0} (chars : Chars F) : Type 0 where
  pub alphabetic : (c : ℕ) → ltb c 128 ≡ true → chars.is_alphabetic c ≡ letter c
  pub alphanumeric : (c : ℕ) → ltb c 128 ≡ true → chars.is_alphanumeric c ≡ letter c || is_digit c

-- What begins a name begins nothing else.
letter_alone :
    (c : ℕ)
    → letter c || c == b'_' ≡ true
    → (is_whitespace c ≡ false)
      × (c == b'-' ≡ false)
      × (c == b'/' ≡ false)
      × (c == b'"' || c == 39 ≡ false)
      × (is_digit c ≡ false)
      × (ltb c 128 ≡ true)
unfolding is_whitespace
letter_alone c h = (
  ground (arith, h),
  ground (arith, h),
  ground (arith, h),
  ground (arith, h),
  ground (arith, h),
  ground (arith, h),
)

-- tokens of these kinds, wherever they stand
pub data IsTokens {F : Type 0} : List (TokenKind F) → List (Token F) → Type 0 where
  nothing : IsTokens [] []
  token :
      (kind : TokenKind F) (span : Span) (ks : List (TokenKind F)) (ts : List (Token F))
      → IsTokens ks ts
      → IsTokens (kind ∷ ks) (record { kind = kind; span = span } ∷ ts)

module _ {F : Type 0} (chars : Chars F) where
  -- The text is lexed to tokens of these kinds, wherever it stands.
  abbrev pub IsLexedTo : Text → List (TokenKind F) → Type 0
  IsLexedTo t ks =
      (line column fuel : ℕ) (at_end : Span)
      → length t < fuel
      → (ts : List (Token F)) × (lex_loop chars fuel at_end (locate line column t) ≡ some (ok ts))
        × IsTokens ks ts

  pub nil-IsLexedTo : IsLexedTo [] (TokenKind.eof ∷ [])
  unfolding lex_loop locate
  nil-IsLexedTo line column zero at_end h = absurd (omega arith)
  nil-IsLexedTo line column (suc fuel) at_end h = (_, refl, token _ _ [] [] nothing)

  pub space-IsLexedTo :
      (t : Text) (ks : List (TokenKind F)) → IsLexedTo t ks → IsLexedTo (32 ∷ t) ks
  unfolding lex_loop locate lex_step is_whitespace
  space-IsLexedTo t ks k line column zero at_end h = absurd (omega arith)
  space-IsLexedTo t ks k line column (suc fuel) at_end h =
      k line (column + 1) fuel at_end (omega arith)

  -- where the characters behind `c` stand
  abbrev after : ℕ → ℕ → ℕ → Text → List Located
  after line column c s =
      locate (if c == newline then line + 1 else line) (if c == newline then 1 else column + 1) s

  -- one round that takes a token off the text
  abbrev Takes : ℕ → Text → TokenKind F → Text → Type 0
  Takes c s kind t =
      (line column : ℕ)
      → (l : ℕ) × (k : ℕ) × (lex_step chars (record { line = line; column = column; char = c })
            (after line column c s)
          ≡ emit kind (locate l k t))

  take-IsLexedTo :
      (c : ℕ) (s t : Text) (tok : TokenKind F) (ks : List (TokenKind F))
      → Takes c s tok t
      → length t ≤ length s
      → IsLexedTo t ks
      → IsLexedTo (c ∷ s) (tok ∷ ks)
  unfolding lex_loop locate
  take-IsLexedTo c s t tok ks takes le k line column zero at_end h = absurd (omega arith)
  take-IsLexedTo c s t tok ks takes le k line column (suc fuel) at_end h =
      let (l, j, e) = takes line column in
      let (ts, more, is) = k l j fuel at_end (omega arith) in
      let here : Span = record { line = line; column = column } in
      (
        record { kind = tok; span = here } ∷ ts,
        rw (e, lex_loop) (rw more refl),
        token tok here ks ts is,
      )

  module _ (ascii : IsAscii chars) where
    pub equals-IsLexedTo :
        (t : Text) (ks : List (TokenKind F))
        → IsLexedTo t ks
        → IsLexedTo (b'=' ∷ b'=' ∷ t) (TokenKind.eq_eq ∷ ks)
    unfolding lex_step is_whitespace locate lex_symbol
    equals-IsLexedTo t ks k =
        take-IsLexedTo b'=' (b'=' ∷ t) t TokenKind.eq_eq ks
          (λ line column. (line, column + 1 + 1, rw (ascii.alphabetic b'=' refl) refl))
          (omega arith) k

    -- a string literal in double quotes
    pub string-IsLexedTo :
        (content t : Text) (ks : List (TokenKind F))
        → IsLexedTo t ks
        → IsLexedTo (b'"' ∷ escape b'"' content ++ b'"' ∷ t) (TokenKind.string_lit content ∷ ks)
    string-IsLexedTo content t ks k =
        take-IsLexedTo b'"' (escape b'"' content ++ b'"' ∷ t) t (TokenKind.string_lit content) ks
          (λ line column.
            let (l, j, e) = read_string-escape b'"' content t line (column + 1) (inl refl) in
            (l, j, lex_step-quote chars _ _ (inl refl) ∙ rw e refl))
          (omega (arith, length-append (escape b'"' content) (b'"' ∷ t))) k

    goes_on : ℕ → Bool
    goes_on c = chars.is_alphanumeric c || c == b'_'

    -- A name ends in front of the text.
    abbrev pub IsBehind : Text → Type 0
    IsBehind [] = Unit {0}
    IsBehind (c ∷ s) = chars.is_alphanumeric c || c == b'_' ≡ false

    name_goes_on : (c : ℕ) → name_char c ≡ true → chars.is_alphanumeric c || c == b'_' ≡ true
    name_goes_on c h = rw (ascii.alphanumeric c (ground (arith, h))) (ground (arith, h))

    read_ident-name :
        (w t : Text) (line column : ℕ)
        → name_chars w ≡ true
        → IsBehind t
        → (l : ℕ) × (k : ℕ) × (read_ident chars.is_alphanumeric (locate line column (w ++ t))
            ≡ (w, locate l k t))
    unfolding read_ident locate
    read_ident-name [] [] line column h b = (line, column, refl)
    read_ident-name [] (c ∷ t) line column h b = (line, column, rw b refl)
    read_ident-name (c ∷ w) t line column h b =
        let (l, k, e) =
          read_ident-name w t (if c == newline then line + 1 else line)
            (if c == newline then 1 else column + 1) (ground (arith, h)) b in
        (l, k, rw (name_goes_on c (ground (arith, h))) (ap (prepend c) e))

    lex_step-letter :
        (c : Located) (s : List Located)
        → letter c.char || c.char == b'_' ≡ true
        → lex_step chars c s ≡ word_step (read_ident chars.is_alphanumeric (c ∷ s))
    unfolding lex_step
    lex_step-letter c s h =
        let (space, dash, slash, quotes, digit, small) = letter_alone c.char h in
        rw space (
          rw dash
            (rw slash (rw quotes (rw digit (rw (ascii.alphabetic c.char small) (rw h refl))))))

    -- a keyword or an identifier
    pub word-IsLexedTo :
        (w t : Text) (ks : List (TokenKind F))
        → is_name w ≡ true
        → IsBehind t
        → IsLexedTo t ks
        → IsLexedTo (w ++ t) (word_kind w ∷ ks)
    unfolding locate
    word-IsLexedTo [] t ks h b k = absurd (false≢true h)
    word-IsLexedTo (c ∷ w) t ks h b k =
        take-IsLexedTo c (w ++ t) t (word_kind (c ∷ w)) ks
          (λ line column.
            let (l, j, e) = read_ident-name (c ∷ w) t line column (ground (arith, h)) b in
            (l, j, lex_step-letter _ _ (ground (arith, h)) ∙ ap word_step e))
          (omega (arith, length-append w t)) k
