-- ===== src/Query/Lexer/Total.antt =====
-- crates/nova-query/src/lexer.rs: the loop of `tokenize` and its fuel.
use nova_db.Base.{
  ℕ, zero, suc, ◌≤◌, ◌<◌, ◌≡◌, ◌⊎◌, refl, Bool, true, false, ◌&&◌, ◌||◌, List, [], ◌∷◌, Option,
  none, some, arith, ◌==◌, length, Bool-cases, Option-cases, inl, inr,
}
use nova_db.Base.Text.{Text, is_whitespace}
use nova_db.Core.Error.{Result, ok, err}
use nova_db.Query.Token.{TokenKind, Token, Span}
use nova_db.Query.Lexer.{
  Step, skip, emit, reject, symbol, lex_symbol, lex_step, lex_loop, tokenize, emit_if, two,
  string_step, number_step, signed, push,
}
use nova_db.Query.Lexer.Scan.{
  Chars, Located, locate, end_span, starts, is_digit, skip_line, read_string, read_number,
  read_ident, put, prepend, backslash, parse_int,
}

-- Every letter is a letter or a digit, as Unicode's classes are documented.
pub record IsChars {F : Type 0} (chars : Chars F) : Type 0 where
  pub alphabetic : (c : ℕ) → chars.is_alphabetic c ≡ true → chars.is_alphanumeric c ≡ true

≤-trans : {a b c : ℕ} → a ≤ b → b ≤ c → a ≤ c
≤-trans h k = omega arith

-- the characters that a round leaves
abbrev left : {F : Type 0} → Step F → ℕ
left (skip s) = length s
left (emit k s) = length s
left reject = 0

length-skip_line : (s : List Located) → length (skip_line s) ≤ length s
unfolding skip_line
length-skip_line [] = omega arith
length-skip_line (c ∷ s) = ground (arith, length-skip_line s)

abbrev RestLe : {A : Type 0} → ℕ → Option (A × List Located) → Type 0
RestLe n none = Unit {0}
RestLe n (some (a, s)) = length s ≤ n

RestLe-put : (n c : ℕ) (o : Option (Text × List Located)) → RestLe n o → RestLe (suc n) (put c o)
RestLe-put n c none h = tt
RestLe-put n c (some (t, s)) h = omega arith

RestLe-suc : (n : ℕ) (o : Option (Text × List Located)) → RestLe n o → RestLe (suc n) o
RestLe-suc n none h = tt
RestLe-suc n (some (t, s)) h = omega arith

read_string-le : (quote : ℕ) (s : List Located) → RestLe (length s) (read_string quote s)
unfolding read_string
read_string-le quote [] = tt
read_string-le quote (c ∷ []) = elim (Bool-cases (c.char == quote)) [
  | inl closes ↦ rw closes (omega arith)
  | inr open_still ↦ rw open_still tt
]
read_string-le quote (c ∷ d ∷ s) = elim (Bool-cases (c.char == quote)) [
  | inl closes ↦ rw closes (omega arith)
  | inr goes_on ↦ elim (Bool-cases (c.char == backslash)) [
    | inl escapes ↦
        rw goes_on (rw escapes (RestLe-suc _ _ (RestLe-put _ _ _ (read_string-le quote s))))
    | inr plain ↦ rw goes_on (rw plain (RestLe-put _ _ _ (read_string-le quote (d ∷ s))))
  ]
]

read_number-le : (dot : Bool) (s : List Located) → length (read_number dot s).1.1 ≤ length s
unfolding read_number
read_number-le dot [] = omega arith
read_number-le dot (c ∷ s) = ground (arith, read_number-le dot s, read_number-le true s)

read_ident-le : (goes_on : ℕ → Bool) (s : List Located) → length (read_ident goes_on s).1 ≤ length s
unfolding read_ident
read_ident-le goes_on [] = omega arith
read_ident-le goes_on (c ∷ s) = ground (arith, read_ident-le goes_on s)

read_ident-first :
    (goes_on : ℕ → Bool) (c : Located) (s : List Located)
    → (goes_on c.char || c.char == b'_') ≡ true
    → length (read_ident goes_on (c ∷ s)).1 ≤ length s
unfolding read_ident
read_ident-first goes_on c s h = rw h (read_ident-le goes_on s)

module _ (F : Type 0) where
  left-emit_if : (o : Option (TokenKind F)) (s : List Located) → left (emit_if o s) ≤ length s
  left-emit_if none s = omega arith
  left-emit_if (some k) s = omega arith

  left-two :
      (c : ℕ) (k : TokenKind F) (o : Option (TokenKind F)) (s : List Located)
      → left (two c k o s) ≤ length s
  left-two c k o [] = left-emit_if o []
  left-two c k o (d ∷ s) = elim (Bool-cases (d.char == c)) [
    | inl both ↦ rw both (omega arith)
    | inr one ↦ rw one (left-emit_if o (d ∷ s))
  ]

  left-lex_symbol : (c : ℕ) (s : List Located) → left (lex_symbol {F = F} c s) ≤ length s
  unfolding lex_symbol
  left-lex_symbol c s = ground (
    arith,
    left-two b'=' TokenKind.eq_eq (some TokenKind.eq) s,
    left-two b'=' TokenKind.bang_eq (some TokenKind.bang) s,
    left-two b'=' TokenKind.gt_eq (some TokenKind.gt) s,
    left-two b'=' TokenKind.lt_eq (some TokenKind.lt) s,
    left-two b'&' TokenKind.amp_amp none s,
    left-two b'|' TokenKind.pipe_pipe none s,
    left-emit_if (symbol c) s,
  )

module _ {F : Type 0} (chars : Chars F) (laws : IsChars chars) where
  left-string_step :
      (n : ℕ) (o : Option (Text × List Located)) → RestLe n o → left (string_step {F = F} o) ≤ n
  left-string_step n none h = omega arith
  left-string_step n (some (t, s)) h = h

  left-number_step :
      (negative : Bool) (r : Text × (Bool × List Located))
      → left (number_step chars negative r) ≤ length r.1.1
  left-number_step negative (digits, (true, s)) =
      elim (Option-cases (chars.parse_float (signed negative digits))) [
        | inl bad ↦ rw bad (omega arith)
        | inr (f, good) ↦ rw good (omega arith)
      ]
  left-number_step negative (digits, (false, s)) = elim (Option-cases (parse_int negative digits)) [
    | inl bad ↦ rw bad (omega arith)
    | inr (i, good) ↦ rw good (omega arith)
  ]

  -- The rounds that read a word, a negative number or a symbol, once the tests before have failed.
  left-word :
      (c : Located) (s : List Located)
      → (chars.is_alphabetic c.char || c.char == b'_') ≡ true
      → (chars.is_alphanumeric c.char || c.char == b'_') ≡ true
  left-word c s h = elim (Bool-cases (chars.is_alphabetic c.char)) [
    | inl letter ↦ rw (laws.alphabetic c.char letter) refl
    | inr other ↦ ground (arith, rw other at h)
  ]

  left-lex_step : (c : Located) (s : List Located) → left (lex_step chars c s) ≤ length s
  unfolding lex_step
  left-lex_step c s = elim (Bool-cases (is_whitespace c.char)) [
    | inl white ↦ rw white (omega arith)
    | inr n₁ ↦
        rw n₁
          (elim (Bool-cases (
            (c.char == b'-' && starts (λ d. d == b'-') s)
            || (c.char == b'/' && starts (λ d. d == b'/') s))) [
              | inl comment ↦ rw comment (length-skip_line s)
              | inr n₂ ↦ rw n₂ (elim (Bool-cases (c.char == b'"' || c.char == 39)) [
                | inl quote ↦ rw quote (left-string_step (length s) _ (read_string-le c.char s))
                | inr n₃ ↦ rw n₃ (elim (Bool-cases (is_digit c.char)) [
                  | inl digit ↦ rw digit (
                      ≤-trans (left-number_step false (prepend c.char (read_number false s)))
                        (read_number-le false s))
                  | inr n₄ ↦ rw n₄ (elim (Bool-cases (c.char == b'-' && starts is_digit s)) [
                    | inl sign ↦ rw sign (
                        ≤-trans (left-number_step true (read_number false s))
                          (read_number-le false s))
                    | inr n₅ ↦
                        rw n₅ (elim (Bool-cases (chars.is_alphabetic c.char || c.char == b'_')) [
                          | inl letter ↦
                              rw letter
                                (read_ident-first chars.is_alphanumeric c s (left-word c s letter))
                          | inr n₆ ↦ rw n₆ (left-lex_symbol F c.char s)
                        ])
                  ])
                ])
              ])
            ])
  ]

-- `Eof` stands at the end.
abbrev pub IsTerminated : {F : Type 0} → List (Token F) → Type 0
IsTerminated [] = ⊥
IsTerminated (t ∷ []) = t.kind ≡ TokenKind.eof
IsTerminated (t ∷ u ∷ ts) = IsTerminated (u ∷ ts)

-- what the lexer returns: an error, or tokens up to `Eof`
abbrev pub IsLexed : {F : Type 0} → Result (List (Token F)) → Type 0
IsLexed (err e) = Unit {0}
IsLexed (ok ts) = IsTerminated ts

IsTerminated-cons :
    {F : Type 0} (t : Token F) (ts : List (Token F)) → IsTerminated ts → IsTerminated (t ∷ ts)
IsTerminated-cons t [] h = absurd h
IsTerminated-cons t (u ∷ ts) h = h

Step-cases :
    {F : Type 0} (o : Step F)
    → ((s : List Located) × (o ≡ skip s))
      ⊎ (((k : TokenKind F) × (s : List Located) × (o ≡ emit k s)) ⊎ (o ≡ reject))
Step-cases (skip s) = inl (s, refl)
Step-cases (emit k s) = inr (inl (k, s, refl))
Step-cases reject = inr (inr refl)

push-IsLexed :
    {F : Type 0} (t : Token F) (r : Result (List (Token F)))
    → IsLexed r
    → (o : Result (List (Token F))) × (push t (some r) ≡ some o) × IsLexed o
push-IsLexed t (ok ts) h = (ok (t ∷ ts), refl, IsTerminated-cons t ts h)
push-IsLexed t (err e) h = (err e, refl, tt)

module _ {F : Type 0} (chars : Chars F) (laws : IsChars chars) where
  lex_loop_returns :
      (fuel : ℕ) (at_end : Span) (s : List Located)
      → length s < fuel
      → (o : Result (List (Token F))) × (lex_loop chars fuel at_end s ≡ some o) × IsLexed o
  unfolding lex_loop
  lex_loop_returns zero at_end s h = absurd (omega arith)
  lex_loop_returns (suc fuel) at_end [] h = (_, refl, refl)
  lex_loop_returns (suc fuel) at_end (c ∷ s) h = elim (Step-cases (lex_step chars c s)) [
    | inl (s', e) ↦
        rw (e, lex_loop)
          (lex_loop_returns fuel at_end s' (omega (arith, rw e at (left-lex_step chars laws c s))))
    | inr (inr e) ↦ rw (e, lex_loop) (_, refl, tt)
    | inr (inl (k, s', e)) ↦
        let (o, p, q) =
          lex_loop_returns fuel at_end s' (omega (arith, rw e at (left-lex_step chars laws c s))) in
        rw (e, lex_loop) (rw p (push-IsLexed _ o q))
  ]

-- If every letter counts as a letter or digit (IsChars), the lexer ends on every text: with an
-- error, or with tokens of which the last one is Eof.
pub tokenize_returns :
    {F : Type 0} (chars : Chars F) (source : Text)
    → IsChars chars
    → (o : Result (List (Token F))) × (tokenize chars source ≡ some o) × IsLexed o
unfolding tokenize
tokenize_returns chars source laws =
    let s = locate 1 1 source in
    lex_loop_returns chars laws (suc (length s)) (end_span s) s (omega arith)
