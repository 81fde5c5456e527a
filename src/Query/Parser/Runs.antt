-- ===== src/Query/Parser/Runs.antt =====
-- What a method of the parser does to the cursor: it ends, it does not go back, and it leaves `Eof` at the
-- end of the tokens.
use nova_db.Base.{
  ℕ, zero, suc, ◌≤◌, ◌<◌, ◌≡◌, Bool, true, false, List, [], ◌∷◌, Option, arith, Bool-cases,
  Option-cases, inl, inr, length,
}
use nova_db.Core.Error.{NovaError}
use nova_db.Query.Kinds.{is_kind}
use nova_db.Query.Lexer.Total.{IsTerminated}
use nova_db.Query.Parser.{
  Parser, Parsed, parsed, refused, Parse, ◌>>=◌, follow, returns, refuse, advance, look, on_token,
  accept_or, expect, step,
}
use nova_db.Query.Token.{TokenKind, Token}

module _ {F : Type 0} where
  abbrev pub IsReady : Parser F → Type 0
  IsReady p = IsTerminated (p.current ∷ p.ahead)

  -- an end within `k` tokens of the last one
  pub data Ends {A : Type 0} (k : ℕ) : Parsed F A → Type 0 where
    ends : (a : A) (p : Parser F) → IsReady p → length p.ahead ≤ k → Ends k (parsed a p)
    fails : (e : NovaError) → Ends k (refused e)

  Ends-le : {A : Type 0} (k l : ℕ) (o : Parsed F A) → k ≤ l → Ends k o → Ends l o
  Ends-le k l _ h (ends a p t le) = ends a p t (omega arith)
  Ends-le k l _ h (fails e) = fails e

  Ends-follow :
      {A B : Type 0} (k : ℕ) (o : Parsed F A) (f : A → Parse F B)
      → Ends k o
      → ((a : A) (p : Parser F) → IsReady p → length p.ahead ≤ k → Ends k (f a p))
      → Ends k (follow o f)
  Ends-follow k _ f (ends a p t le) h = h a p t le
  Ends-follow k _ f (fails e) h = fails e

  -- A method that ends with less than `n` tokens ahead.
  abbrev pub Runs : {A : Type 0} → Parse F A → ℕ → Type 0
  Runs m n = (p : Parser F) → IsReady p → length p.ahead < n → Ends (length p.ahead) (m p)

  pub Runs-le : {A : Type 0} (m : Parse F A) (k n : ℕ) → k ≤ n → Runs m n → Runs m k
  Runs-le m k n h r p t lt = r p t (omega arith)

  pub Runs-zero : {A : Type 0} (m : Parse F A) → Runs m 0
  Runs-zero m p t lt = absurd (omega arith)

  pub Runs-returns : {A : Type 0} (a : A) (n : ℕ) → Runs (returns a) n
  Runs-returns a n p t lt = ends a p t (omega arith)

  pub Runs-refuse : {A : Type 0} (n : ℕ) → Runs {A = A} refuse n
  Runs-refuse n p t lt = fails _

  pub Runs-bind :
      {A B : Type 0} (m : Parse F A) (f : A → Parse F B) (n : ℕ)
      → Runs m n
      → ((a : A) → Runs (f a) n)
      → Runs (m >>= f) n
  Runs-bind m f n r s p t lt =
      Ends-follow (length p.ahead) (m p) f (r p t lt)
        (λ a q u le. Ends-le (length q.ahead) (length p.ahead) (f a q) le (s a q u (omega arith)))

  pub Runs-look :
      {A : Type 0} (test : TokenKind F → Bool) (m k : Parse F A) (n : ℕ)
      → Runs m n
      → Runs k n
      → Runs (look test m k) n
  unfolding look
  Runs-look test m k n r s p t lt = elim (Bool-cases (test p.current.kind)) [
    | inl h ↦ rw h (r p t lt)
    | inr h ↦ rw h (s p t lt)
  ]

  step-IsReady : (t : Token F) (ts : List (Token F)) → IsTerminated (t ∷ ts) → IsReady (step t ts)
  step-IsReady t [] h = h
  step-IsReady t (u ∷ ts) h = h

  length-step : (t : Token F) (ts : List (Token F)) → length (step t ts).ahead ≤ length ts
  length-step t [] = omega arith
  length-step t (u ∷ ts) = omega arith

  -- Only `Eof` has nothing behind it.
  step-shrinks :
      (sought : TokenKind F) (t : Token F) (ts : List (Token F))
      → is_kind sought TokenKind.eof ≡ false
      → is_kind sought t.kind ≡ true
      → IsTerminated (t ∷ ts)
      → length (step t ts).ahead < length ts
  step-shrinks sought t [] h k e = ground (arith, rw e at k)
  step-shrinks sought t (u ∷ ts) h k e = omega arith

  -- A token that is taken is one less ahead.
  pub Runs-on_token :
      {A : Type 0} (sought : TokenKind F) (m k : Parse F A) (n : ℕ)
      → is_kind sought TokenKind.eof ≡ false
      → Runs m n
      → Runs k (suc n)
      → Runs (on_token sought m k) (suc n)
  unfolding on_token advance
  Runs-on_token sought m k n h r s p t lt = elim (Bool-cases (is_kind sought p.current.kind)) [
    | inl e ↦
        let less = step-shrinks sought p.current p.ahead h e t in
        rw e (
          Ends-le _ _ _ (omega arith)
            (r (advance p) (step-IsReady p.current p.ahead t) (omega arith)))
    | inr e ↦ rw e (s p t lt)
  ]

  pub Runs-choice :
      {A : Type 0} (sought : TokenKind F) (m k : Parse F A) (n : ℕ)
      → is_kind sought TokenKind.eof ≡ false
      → Runs m n
      → Runs k n
      → Runs (on_token sought m k) n
  Runs-choice sought m k zero h r s = Runs-zero (on_token sought m k)
  Runs-choice sought m k (suc n) h r s =
      Runs-on_token sought m k n h (Runs-le m n (suc n) (omega arith) r) s

  pub Runs-expect :
      (sought : TokenKind F) (n : ℕ) → is_kind sought TokenKind.eof ≡ false → Runs (expect sought) n
  unfolding expect
  Runs-expect sought n h =
      Runs-choice sought (returns tt) refuse n h (Runs-returns tt n) (Runs-refuse n)

  pub Runs-accept_or :
      {A : Type 0} (classify : TokenKind F → Option A) (m : Parse F A) (n : ℕ)
      → Runs m n
      → Runs (accept_or classify m) n
  unfolding accept_or advance
  Runs-accept_or classify m n r p t lt = elim (Option-cases (classify p.current.kind)) [
    | inl h ↦ rw h (r p t lt)
    | inr (a, h) ↦ rw h (
        ends a (step p.current p.ahead) (step-IsReady p.current p.ahead t)
          (length-step p.current p.ahead))
  ]
