-- ===== src/Query/Parser/Expressions.antt =====
-- crates/nova-query/src/parser.rs: `parse_expr` and the levels of precedence below it, on fuel.
use nova_db.Base.{ℕ, zero, suc, Bool, List, [], ◌∷◌, Option, none, some}
use nova_db.Query.Ast.{
  Expr, Exprs, BinaryOp, UnaryOp, literal, field, binary, unary, in_list, between, nil, cons,
}
use nova_db.Query.Kinds.{is_kind}
use nova_db.Query.Parser.{
  Parse, ◌>>=◌, ◌>>◌, returns, exhausted, refuse, look, on_token, accept_or, expect, identifier_of,
  parse_field_path,
}
use nova_db.Query.Parser.Literals.{scalar_of, parse_value_literal}
use nova_db.Query.Token.{TokenKind}

abbrev pub is_some : {A : Type 0} → Option A → Bool
is_some none = Bool.false
is_some (some a) = Bool.true

module _ {F : Type 0} where
  abbrev pub literal_of : TokenKind F → Option (Expr F)
  literal_of kind = elim (scalar_of kind) [ none ↦ none | some v ↦ some (literal v) ]

  unfoldable pub on_operator :
      {A : Type 0} → List (TokenKind F × BinaryOp) → (BinaryOp → Parse F A) → Parse F A → Parse F A
  unfolding on_token
  on_operator [] found missed = missed
  on_operator ((kind, op) ∷ ops) found missed =
      on_token kind (found op) (on_operator ops found missed)

  -- The loop of a level: operators of equal rank group to the left.
  unfoldable pub chain_loop :
      List (TokenKind F × BinaryOp) → Parse F (Expr F) → ℕ → Expr F → Parse F (Expr F)
  unfolding on_operator
  chain_loop ops operand zero left = exhausted
  chain_loop ops operand (suc n) left =
      on_operator ops (λ op. operand >>= (λ right. chain_loop ops operand n (binary op left right)))
        (returns left)

  unfoldable pub chain : List (TokenKind F × BinaryOp) → Parse F (Expr F) → ℕ → Parse F (Expr F)
  unfolding chain_loop
  chain ops operand n = do left ← operand; chain_loop ops operand n left

  abbrev pub or_operators : List (TokenKind F × BinaryOp)
  or_operators = (TokenKind.or, BinaryOp.or) ∷ (TokenKind.pipe_pipe, BinaryOp.or) ∷ []

  abbrev pub and_operators : List (TokenKind F × BinaryOp)
  and_operators = (TokenKind.and, BinaryOp.and) ∷ (TokenKind.amp_amp, BinaryOp.and) ∷ []

  abbrev pub comparisons : List (TokenKind F × BinaryOp)
  comparisons =
      (TokenKind.eq_eq, BinaryOp.eq)
      ∷ (TokenKind.eq, BinaryOp.eq)
      ∷ (TokenKind.bang_eq, BinaryOp.not_eq)
      ∷ (TokenKind.gt, BinaryOp.gt)
      ∷ (TokenKind.gt_eq, BinaryOp.gt_eq)
      ∷ (TokenKind.lt, BinaryOp.lt)
      ∷ (TokenKind.lt_eq, BinaryOp.lt_eq)
      ∷ []

  abbrev pub additive_operators : List (TokenKind F × BinaryOp)
  additive_operators = (TokenKind.plus, BinaryOp.plus) ∷ (TokenKind.minus, BinaryOp.minus) ∷ []

  abbrev pub multiplicative_operators : List (TokenKind F × BinaryOp)
  multiplicative_operators =
      (TokenKind.star, BinaryOp.multiply)
      ∷ (TokenKind.slash, BinaryOp.divide)
      ∷ (TokenKind.percent, BinaryOp.modulo)
      ∷ []

  -- The levels take `parse_expr`, with less fuel, as an argument.
  module _ (expr : Parse F (Expr F)) where
    unfoldable pub parse_primary : ℕ → Parse F (Expr F)
    unfolding accept_or on_token look expect parse_field_path parse_value_literal
    parse_primary n = accept_or literal_of (
        on_token TokenKind.l_paren (expr >>= (λ e. expect TokenKind.r_paren >> returns e)) (
          look (is_kind TokenKind.l_brace) (parse_value_literal n >>= (λ v. returns (literal v))) (
            look (is_kind TokenKind.l_bracket)
              (parse_value_literal n >>= (λ v. returns (literal v)))
              (look (λ kind. is_some (identifier_of kind))
                (parse_field_path n >>= (λ path. returns (field path))) refuse))))

    -- The first argument is what is left of the fuel `n`.
    unfoldable pub parse_unary : ℕ → ℕ → Parse F (Expr F)
    unfolding on_token parse_primary
    parse_unary zero n = exhausted
    parse_unary (suc m) n =
        on_token TokenKind.not (parse_unary m n >>= (λ e. returns (unary UnaryOp.not e))) (
          on_token TokenKind.bang (parse_unary m n >>= (λ e. returns (unary UnaryOp.not e))) (
            on_token TokenKind.minus (parse_unary m n >>= (λ e. returns (unary UnaryOp.negate e)))
              (parse_primary n)))

    unfoldable pub parse_multiplicative : ℕ → Parse F (Expr F)
    unfolding chain parse_unary
    parse_multiplicative n = chain multiplicative_operators (parse_unary n n) n

    unfoldable pub parse_additive : ℕ → Parse F (Expr F)
    unfolding chain parse_multiplicative
    parse_additive n = chain additive_operators (parse_multiplicative n) n

    -- the loop over the items of IN
    unfoldable pub list_loop : ℕ → Parse F (Exprs F)
    unfolding on_token
    list_loop zero = exhausted
    list_loop (suc n) = do
      e ← expr
      on_token TokenKind.comma (list_loop n >>= (λ es. returns (cons e es))) (returns (cons e nil))

    unfoldable pub parse_between : ℕ → Expr F → Parse F (Expr F)
    unfolding expect parse_additive
    parse_between n left = do
      least ← parse_additive n
      expect TokenKind.and
      greatest ← parse_additive n
      returns (between left least greatest)

    unfoldable pub parse_in : ℕ → Expr F → Parse F (Expr F)
    unfolding expect look list_loop
    parse_in n left = do
      expect TokenKind.l_paren
      items ← look (is_kind TokenKind.r_paren) (returns nil) (list_loop n)
      expect TokenKind.r_paren
      returns (in_list left items)

    unfoldable pub parse_comparison : ℕ → Parse F (Expr F)
    unfolding on_operator on_token parse_additive parse_between parse_in
    parse_comparison n = do
      left ← parse_additive n
      on_operator comparisons (λ op. parse_additive n >>= (λ right. returns (binary op left right)))
          (on_token TokenKind.between (parse_between n left)
            (on_token TokenKind.in_keyword (parse_in n left) (returns left)))

    unfoldable pub parse_and : ℕ → Parse F (Expr F)
    unfolding chain parse_comparison
    parse_and n = chain and_operators (parse_comparison n) n

    unfoldable pub parse_or : ℕ → Parse F (Expr F)
    unfolding chain parse_and
    parse_or n = chain or_operators (parse_and n) n

  unfoldable pub parse_expr : ℕ → Parse F (Expr F)
  unfolding parse_or
  parse_expr zero = exhausted
  parse_expr (suc n) = parse_or (parse_expr n) (suc n)
