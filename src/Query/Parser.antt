-- ===== src/Query/Parser.antt =====
-- crates/nova-query/src/parser.rs: the parser's cursor, and what its methods are made of.
pub mod Literals
pub mod Expressions
pub mod Statements
pub mod Runs
pub mod Progress
pub mod Total
pub mod Trailing
use nova_db.Base.{ℕ, zero, suc, ◌++◌, Bool, List, [], ◌∷◌, Option, none, some, if◌then◌else◌}
use nova_db.Base.Int.{ℤ, pos, negsuc}
use nova_db.Base.Text.{Text}
use nova_db.Core.Error.{NovaError, parse_failure}
use nova_db.Query.Kinds.{is_kind}
use nova_db.Query.Token.{TokenKind, Token}

-- The token at the cursor and the tokens behind it.
pub record Parser (F : Type 0) : Type 0 where
  pub current : Token F
  pub ahead : List (Token F)

-- What a method ends in. `out_of_fuel` has no counterpart in the code.
pub data Parsed (F A : Type 0) : Type 0 where
  parsed : A → Parser F → Parsed F A
  refused : NovaError → Parsed F A
  out_of_fuel : Parsed F A

abbrev pub Parse : Type 0 → Type 0 → Type 0
Parse F A = Parser F → Parsed F A

module _ {F : Type 0} where
  -- `advance`: the cursor stays on the last token.
  abbrev pub step : Token F → List (Token F) → Parser F
  step t [] = record { current = t; ahead = [] }
  step t (u ∷ ts) = record { current = u; ahead = ts }

  unfoldable pub advance : Parser F → Parser F
  advance p = step p.current p.ahead

  abbrev pub follow : {A B : Type 0} → Parsed F A → (A → Parse F B) → Parsed F B
  follow (parsed a p) f = f a p
  follow (refused e) f = refused e
  follow out_of_fuel f = out_of_fuel

  infixl 5 ◌>>=◌ ◌>>◌
  -- the operator `?`
  abbrev pub ◌>>=◌ : {A B : Type 0} → Parse F A → (A → Parse F B) → Parse F B
  (m >>= f) p = follow (m p) f

  abbrev pub ◌>>◌ : {A B : Type 0} → Parse F A → Parse F B → Parse F B
  (m >> k) p = follow (m p) (λ a. k)

  abbrev pub returns : {A : Type 0} → A → Parse F A
  returns a p = parsed a p

  abbrev pub exhausted : {A : Type 0} → Parse F A
  exhausted p = out_of_fuel

  -- an error at the current token
  abbrev pub refuse : {A : Type 0} → Parse F A
  refuse p = refused (parse_failure p.current.span.line p.current.span.column)

  -- a choice by the current token, which stays
  unfoldable pub look : {A : Type 0} → (TokenKind F → Bool) → Parse F A → Parse F A → Parse F A
  look test found missed p = if test p.current.kind then found p else missed p

  -- `if self.match_token(kind) { found } else { missed }`
  unfoldable pub on_token : {A : Type 0} → TokenKind F → Parse F A → Parse F A → Parse F A
  unfolding advance
  on_token kind found missed p = if is_kind kind p.current.kind then found (advance p) else missed p

  -- A token that stands for something is taken.
  abbrev pub take_or : {A : Type 0} → Option A → Parse F A → Parse F A
  take_or none other p = other p
  take_or (some a) other p = parsed a (advance p)

  unfoldable pub accept_or : {A : Type 0} → (TokenKind F → Option A) → Parse F A → Parse F A
  unfolding advance
  accept_or classify other p = take_or (classify p.current.kind) other p

  -- `expect`
  unfoldable pub expect : TokenKind F → Parse F (Unit {0})
  unfolding on_token
  expect kind = on_token kind (returns tt) refuse

  abbrev pub identifier_of : TokenKind F → Option Text
  identifier_of (TokenKind.identifier name) = some name
  identifier_of _ = none

  -- `expect_identifier`
  unfoldable pub expect_identifier : Parse F Text
  unfolding accept_or
  expect_identifier = accept_or identifier_of refuse

  abbrev pub size_of : TokenKind F → Option ℕ
  size_of (TokenKind.int (pos n)) = some n
  size_of _ = none

  -- `parse_usize`
  unfoldable pub parse_usize : Parse F ℕ
  unfolding accept_or
  parse_usize = accept_or size_of refuse

  -- the loop of `parse_field_path`, on fuel
  unfoldable pub path_loop : ℕ → Text → Parse F Text
  unfolding on_token expect_identifier
  path_loop zero path = exhausted
  path_loop (suc n) path =
      on_token TokenKind.dot (expect_identifier >>= (λ sub. path_loop n (path ++ b'.' ∷ sub)))
        (returns path)

  -- `parse_field_path`
  unfoldable pub parse_field_path : ℕ → Parse F Text
  unfolding expect_identifier path_loop
  parse_field_path n = do first ← expect_identifier; path_loop n first
