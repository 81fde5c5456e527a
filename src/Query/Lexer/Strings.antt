-- ===== src/Query/Lexer/Strings.antt =====
-- crates/nova-query/src/lexer.rs: text written as a string literal, in either kind of quotes.
use nova_db.Base.{
  ℕ, ◌+◌, ◌≡◌, ◌⊎◌, refl, ◌∙◌, true, false, ◌||◌, List, [], ◌∷◌, ◌++◌, some, arith, if◌then◌else◌,
  ◌==◌, Bool-cases, inl, inr,
}
use nova_db.Base.Text.{Text, is_whitespace}
use nova_db.Core.Error.{ok}
use nova_db.Query.Lexer.{lex_step, lex_loop, tokenize, string_step}
use nova_db.Query.Lexer.Scan.{
  Chars, Located, locate, end_span, newline, backslash, put, unescape, read_string,
}
use nova_db.Query.Token.{TokenKind, Span}

-- A backslash before each quote and each backslash.
unfoldable pub escape : ℕ → Text → Text
escape quote [] = []
escape quote (c ∷ t) =
    let rest = escape quote t in
    if c == quote || c == backslash then backslash ∷ c ∷ rest else c ∷ rest

abbrev pub IsQuote : ℕ → Type 0
IsQuote quote = (quote ≡ b'"') ⊎ (quote ≡ 39)

read_string-end :
    (quote : ℕ) (c : Located) (s : List Located)
    → (c.char == quote) ≡ true
    → read_string quote (c ∷ s) ≡ some ([], s)
unfolding read_string
read_string-end quote c [] h = rw h refl
read_string-end quote c (d ∷ s) h = rw h refl

read_string-plain :
    (quote : ℕ) (c : Located) (s : List Located)
    → (c.char == quote) ≡ false
    → (c.char == backslash) ≡ false
    → read_string quote (c ∷ s) ≡ put c.char (read_string quote s)
unfolding read_string
read_string-plain quote c [] h k = rw h refl
read_string-plain quote c (d ∷ s) h k = rw h (rw k refl)

read_string-escaped :
    (quote : ℕ) (c d : Located) (s : List Located)
    → (c.char == quote) ≡ false
    → (c.char == backslash) ≡ true
    → read_string quote (c ∷ d ∷ s) ≡ put (unescape d.char) (read_string quote s)
unfolding read_string
read_string-escaped quote c d s h k = rw h (rw k refl)

unescape_same :
    (quote c : ℕ) → IsQuote quote → (c == quote || c == backslash) ≡ true → unescape c ≡ c
unescape_same quote c (inl q) h = ground (arith, rw q at h)
unescape_same quote c (inr q) h = ground (arith, rw q at h)

backslash_no_quote : (quote : ℕ) → IsQuote quote → (backslash == quote) ≡ false
backslash_no_quote quote (inl q) = rw q refl
backslash_no_quote quote (inr q) = rw q refl

-- The literal is read up to its closing quote.
pub read_string-escape :
    (quote : ℕ) (t rest : Text) (line column : ℕ)
    → IsQuote quote
    → (l : ℕ) × (c : ℕ) × (read_string quote (locate line column (escape quote t ++ quote ∷ rest))
        ≡ some (t, locate l c rest))
unfolding locate escape
read_string-escape quote [] rest line column q = (_, _, read_string-end quote _ _ (ground arith))
read_string-escape quote (c ∷ t) rest line column q =
    elim (Bool-cases (c == quote || c == backslash)) [
      | inl h ↦
          let (l, k, e) =
            read_string-escape quote t rest (if c == newline then line + 1 else line)
              (if c == newline then 1 else (column + 1) + 1) q in
          (
            l,
            k,
            rw h (
                read_string-escaped quote _ _ _ (backslash_no_quote quote q) refl
                ∙ rw e (rw (unescape_same quote c q h) refl)),
          )
      | inr h ↦
          let (l, k, e) =
            read_string-escape quote t rest (if c == newline then line + 1 else line)
              (if c == newline then 1 else column + 1) q in
          (
            l,
            k,
            rw h (read_string-plain quote _ _ (ground (arith, h)) (ground (arith, h)) ∙ rw e refl),
          )
    ]

module _ {F : Type 0} (chars : Chars F) where
  -- a quote begins a string
  pub lex_step-quote :
      (c : Located) (s : List Located)
      → IsQuote c.char
      → lex_step chars c s ≡ string_step (read_string c.char s)
  unfolding lex_step is_whitespace
  lex_step-quote c s (inl q) = rw q refl
  lex_step-quote c s (inr q) = rw q refl

  -- A text between two quotes of one kind, single or double, with a backslash before each quote of
  -- that kind and each backslash in it, is lexed to the string literal of that text and Eof.
  pub tokenize-escape :
      (quote : ℕ) (t : Text)
      → IsQuote quote
      → (end : Span) × (tokenize chars (quote ∷ escape quote t ++ quote ∷ [])
          ≡ some (
              ok (
                record { kind = TokenKind.string_lit t; span = record { line = 1; column = 1 } }
                ∷ record { kind = TokenKind.eof; span = end }
                ∷ [])))
  unfolding tokenize locate lex_loop
  tokenize-escape quote t q =
      let s = locate 1 1 (quote ∷ escape quote t ++ quote ∷ []) in
      let (l, k, e) =
        read_string-escape quote t [] (if quote == newline then 1 + 1 else 1)
          (if quote == newline then 1 else 1 + 1) q in
      let step =
        lex_step-quote (record { line = 1; column = 1; char = quote })
          (locate (if quote == newline then 1 + 1 else 1) (if quote == newline then 1 else 1 + 1)
            (escape quote t ++ quote ∷ []))
          q in
      (end_span s, rw (step, lex_loop) (rw e refl))
