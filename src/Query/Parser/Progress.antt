-- ===== src/Query/Parser/Progress.antt =====
-- crates/nova-query/src/parser.rs: the recursive methods and their fuel.
use nova_db.Base.{ℕ, zero, suc, ◌≤◌, ◌≡◌, refl, false, List, [], ◌∷◌, arith}
use nova_db.Base.Text.{Text}
use nova_db.Core.Value.{Value, Fields}
use nova_db.Query.Ast.{Expr, BinaryOp, UnaryOp, literal, field, binary, unary}
use nova_db.Query.Kinds.{is_kind}
use nova_db.Query.Parser.{
  Parse, ◌>>=◌, ◌>>◌, returns, refuse, expect, expect_identifier, identifier_of, path_loop,
  parse_field_path,
}
use nova_db.Query.Parser.Expressions.{
  on_operator, chain_loop, chain, or_operators, and_operators, comparisons, additive_operators,
  multiplicative_operators, parse_primary, parse_unary, parse_multiplicative, parse_additive,
  list_loop, parse_between, parse_in, parse_comparison, parse_and, parse_or, parse_expr, literal_of,
  is_some,
}
use nova_db.Query.Parser.Literals.{
  key_of, scalar_of, items_loop, fields_loop, parse_array, parse_object, parse_value_literal,
}
use nova_db.Query.Parser.Runs.{
  Runs, Runs-le, Runs-zero, Runs-returns, Runs-refuse, Runs-bind, Runs-look, Runs-on_token,
  Runs-expect, Runs-accept_or,
}
use nova_db.Query.Token.{TokenKind}

module _ {F : Type 0} where
  pub Runs-expect_identifier : (n : ℕ) → Runs {F = F} expect_identifier n
  unfolding expect_identifier
  Runs-expect_identifier n = Runs-accept_or identifier_of refuse n (Runs-refuse n)

  Runs-path_loop : (n : ℕ) (path : Text) → Runs {F = F} (path_loop n path) n
  unfolding path_loop
  Runs-path_loop zero path = Runs-zero _
  Runs-path_loop (suc n) path =
      Runs-on_token TokenKind.dot _ _ n refl
        (Runs-bind _ _ n (Runs-expect_identifier n) (λ sub. Runs-path_loop n _))
        (Runs-returns path (suc n))

  pub Runs-parse_field_path : (n : ℕ) → Runs {F = F} (parse_field_path n) n
  unfolding parse_field_path
  Runs-parse_field_path n =
      Runs-bind _ _ n (Runs-expect_identifier n) (λ first. Runs-path_loop n first)

  -- a method and then a token
  pub Runs-closed :
      {A B : Type 0} (kind : TokenKind F) (m : Parse F A) (f : A → B) (n : ℕ)
      → is_kind kind TokenKind.eof ≡ false
      → Runs m n
      → Runs (m >>= (λ a. expect kind >> returns (f a))) n
  Runs-closed kind m f n h r =
      Runs-bind m _ n r
        (λ a. Runs-bind (expect kind) _ n (Runs-expect kind n h) (λ u. Runs-returns (f a) n))

  module _ (value : Parse F (Value F)) where
    Runs-items_loop : (n : ℕ) → Runs value n → Runs (items_loop value n) n
    unfolding items_loop
    Runs-items_loop zero r = Runs-zero _
    Runs-items_loop (suc n) r = Runs-bind value _ (suc n) r (λ v.
        Runs-on_token TokenKind.comma _ _ n refl
          (Runs-bind _ _ n (Runs-items_loop n (Runs-le value n (suc n) (omega arith) r))
            (λ vs. Runs-returns _ n))
          (Runs-returns _ (suc n)))

    Runs-fields_loop : (n : ℕ) (map : Fields F) → Runs value n → Runs (fields_loop value n map) n
    unfolding fields_loop
    Runs-fields_loop zero map r = Runs-zero _
    Runs-fields_loop (suc n) map r =
        Runs-bind _ _ (suc n) (Runs-accept_or key_of refuse (suc n) (Runs-refuse (suc n))) (λ key.
          Runs-bind _ _ (suc n) (Runs-expect TokenKind.colon (suc n) refl) (λ u.
            Runs-bind value _ (suc n) r (λ v.
              Runs-on_token TokenKind.comma _ _ n refl
                (Runs-fields_loop n _ (Runs-le value n (suc n) (omega arith) r))
                (Runs-returns _ (suc n)))))

    Runs-parse_array : (n : ℕ) → Runs value n → Runs (parse_array value n) n
    unfolding parse_array
    Runs-parse_array n r =
        Runs-closed TokenKind.r_bracket _ _ n refl
          (Runs-look _ _ _ n (Runs-returns _ n) (Runs-items_loop n r))

    Runs-parse_object : (n : ℕ) → Runs value n → Runs (parse_object value n) n
    unfolding parse_object
    Runs-parse_object n r =
        Runs-closed TokenKind.r_brace _ _ n refl
          (Runs-look _ _ _ n (Runs-returns _ n) (Runs-fields_loop n _ r))

  pub Runs-parse_value_literal : (n : ℕ) → Runs {F = F} (parse_value_literal n) n
  unfolding parse_value_literal
  Runs-parse_value_literal zero = Runs-zero _
  Runs-parse_value_literal (suc n) = Runs-accept_or scalar_of _ (suc n) (
      Runs-on_token TokenKind.l_bracket _ _ n refl
        (Runs-parse_array _ n (Runs-parse_value_literal n))
        (Runs-on_token TokenKind.l_brace _ _ n refl
          (Runs-parse_object _ n (Runs-parse_value_literal n)) (Runs-refuse (suc n))))

  abbrev AllOperators : List (TokenKind F × BinaryOp) → Type 0
  AllOperators [] = Unit {0}
  AllOperators ((kind, op) ∷ ops) = (is_kind kind TokenKind.eof ≡ false) × AllOperators ops

  Runs-on_operator :
      {A : Type 0} (ops : List (TokenKind F × BinaryOp)) (m : BinaryOp → Parse F A) (k : Parse F A)
      (n : ℕ)
      → AllOperators ops
      → ((op : BinaryOp) → Runs (m op) n)
      → Runs k (suc n)
      → Runs (on_operator ops m k) (suc n)
  unfolding on_operator
  Runs-on_operator [] m k n h r s = s
  Runs-on_operator ((kind, op) ∷ ops) m k n (h, hs) r s =
      Runs-on_token kind (m op) _ n h (r op) (Runs-on_operator ops m k n hs r s)

  Runs-chain_loop :
      (ops : List (TokenKind F × BinaryOp)) (operand : Parse F (Expr F)) (n : ℕ) (left : Expr F)
      → AllOperators ops
      → Runs operand n
      → Runs (chain_loop ops operand n left) n
  unfolding chain_loop
  Runs-chain_loop ops operand zero left h r = Runs-zero _
  Runs-chain_loop ops operand (suc n) left h r =
      let r' : Runs operand n = Runs-le operand n (suc n) (omega arith) r in
      Runs-on_operator ops _ _ n h
        (λ op. Runs-bind operand _ n r' (λ right. Runs-chain_loop ops operand n _ h r'))
        (Runs-returns left (suc n))

  Runs-chain :
      (ops : List (TokenKind F × BinaryOp)) (operand : Parse F (Expr F)) (n : ℕ)
      → AllOperators ops
      → Runs operand n
      → Runs (chain ops operand n) n
  unfolding chain
  Runs-chain ops operand n h r =
      Runs-bind operand _ n r (λ left. Runs-chain_loop ops operand n left h r)

  Runs-literal : (n : ℕ) → Runs {F = F} (parse_value_literal n >>= (λ v. returns (literal v))) n
  Runs-literal n = Runs-bind _ _ n (Runs-parse_value_literal n) (λ v. Runs-returns _ n)

  Runs-negated :
      (op : UnaryOp) (m : Parse F (Expr F)) (n : ℕ)
      → Runs m n
      → Runs (m >>= (λ e. returns (unary op e))) n
  Runs-negated op m n r = Runs-bind m _ n r (λ e. Runs-returns _ n)

  -- Here `expr` ends with less than `n` tokens ahead, and the method behind it with one more.
  module _ (expr : Parse F (Expr F)) (n : ℕ) (r : Runs expr n) where
    Runs-parse_primary : Runs (parse_primary expr (suc n)) (suc n)
    unfolding parse_primary
    Runs-parse_primary = Runs-accept_or literal_of _ (suc n) (
        Runs-on_token TokenKind.l_paren _ _ n refl (Runs-closed TokenKind.r_paren expr _ n refl r) (
          Runs-look (is_kind TokenKind.l_brace) _ _ (suc n) (Runs-literal (suc n)) (
            Runs-look (is_kind TokenKind.l_bracket) _ _ (suc n) (Runs-literal (suc n)) (
              Runs-look (λ kind. is_some (identifier_of kind)) _ _ (suc n)
                (Runs-bind _ _ (suc n) (Runs-parse_field_path (suc n))
                  (λ path. Runs-returns (field path) (suc n)))
                (Runs-refuse (suc n))))))

    Runs-parse_unary : (m : ℕ) → m ≤ suc n → Runs (parse_unary expr m (suc n)) m
    unfolding parse_unary
    Runs-parse_unary zero h = Runs-zero _
    Runs-parse_unary (suc m) h =
        let deeper : Runs (parse_unary expr m (suc n)) m = Runs-parse_unary m (omega arith) in
        Runs-on_token TokenKind.not _ _ m refl (Runs-negated UnaryOp.not _ m deeper) (
          Runs-on_token TokenKind.bang _ _ m refl (Runs-negated UnaryOp.not _ m deeper) (
            Runs-on_token TokenKind.minus _ _ m refl (Runs-negated UnaryOp.negate _ m deeper)
              (Runs-le _ (suc m) (suc n) h Runs-parse_primary)))

    Runs-parse_additive : Runs (parse_additive expr (suc n)) (suc n)
    unfolding parse_additive parse_multiplicative
    Runs-parse_additive =
        Runs-chain additive_operators _ (suc n) (refl, (refl, tt))
          (Runs-chain multiplicative_operators _ (suc n) (refl, (refl, (refl, tt)))
            (Runs-parse_unary (suc n) (omega arith)))

    Runs-list_loop : (m k : ℕ) → k ≤ m → k ≤ n → Runs (list_loop expr m) k
    unfolding list_loop
    Runs-list_loop m zero h j = Runs-zero _
    Runs-list_loop zero (suc k) h j = absurd (omega arith)
    Runs-list_loop (suc m) (suc k) h j = Runs-bind expr _ (suc k) (Runs-le expr (suc k) n j r) (λ e.
        Runs-on_token TokenKind.comma _ _ k refl
          (Runs-bind _ _ k (Runs-list_loop m k (omega arith) (omega arith))
            (λ es. Runs-returns _ k))
          (Runs-returns _ (suc k)))

    Runs-parse_between : (left : Expr F) → Runs (parse_between expr (suc n) left) (suc n)
    unfolding parse_between
    Runs-parse_between left = Runs-bind _ _ (suc n) Runs-parse_additive (λ least.
        Runs-bind _ _ (suc n) (Runs-expect TokenKind.and (suc n) refl)
          (λ u. Runs-bind _ _ (suc n) Runs-parse_additive (λ greatest. Runs-returns _ (suc n))))

    -- behind IN
    Runs-parse_in : (left : Expr F) → Runs (parse_in expr (suc n) left) n
    unfolding parse_in
    Runs-parse_in left = Runs-bind _ _ n (Runs-expect TokenKind.l_paren n refl) (λ u.
        Runs-closed TokenKind.r_paren _ _ n refl (
          Runs-look _ _ _ n (Runs-returns _ n)
            (Runs-list_loop (suc n) n (omega arith) (omega arith))))

    Runs-parse_comparison : Runs (parse_comparison expr (suc n)) (suc n)
    unfolding parse_comparison
    Runs-parse_comparison = Runs-bind _ _ (suc n) Runs-parse_additive (λ left.
        Runs-on_operator comparisons _ _ n
          (refl, (refl, (refl, (refl, (refl, (refl, (refl, tt)))))))
          (λ op.
            Runs-bind _ _ n (Runs-le _ n (suc n) (omega arith) Runs-parse_additive)
              (λ right. Runs-returns (binary op left right) n))
          (Runs-on_token TokenKind.between _ _ n refl
            (Runs-le _ n (suc n) (omega arith) (Runs-parse_between left))
            (Runs-on_token TokenKind.in_keyword _ _ n refl (Runs-parse_in left)
              (Runs-returns left (suc n)))))

    Runs-parse_or : Runs (parse_or expr (suc n)) (suc n)
    unfolding parse_or parse_and
    Runs-parse_or =
        Runs-chain or_operators _ (suc n) (refl, (refl, tt))
          (Runs-chain and_operators _ (suc n) (refl, (refl, tt)) Runs-parse_comparison)

  pub Runs-parse_expr : (n : ℕ) → Runs {F = F} (parse_expr n) n
  unfolding parse_expr
  Runs-parse_expr zero = Runs-zero _
  Runs-parse_expr (suc n) = Runs-parse_or (parse_expr n) n (Runs-parse_expr n)
