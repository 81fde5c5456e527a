-- ===== src/Query/Parser/Literals.antt =====
-- crates/nova-query/src/parser.rs: `parse_value_literal`, on fuel.
use nova_db.Base.{ℕ, zero, suc, true, false, Option, none, some}
use nova_db.Base.Text.{Text}
use nova_db.Core.Value
use nova_db.Core.Value.{
  Value, Values, Fields, null, bool, int, float, string, array, object, nil, cons, end,
}
use nova_db.Query.Kinds.{is_kind}
use nova_db.Query.Parser.{
  Parse, ◌>>=◌, ◌>>◌, returns, exhausted, refuse, look, on_token, accept_or, expect,
}
use nova_db.Query.Token.{TokenKind}

module _ {F : Type 0} where
  -- the tokens that are a value by themselves
  abbrev pub scalar_of : TokenKind F → Option (Value F)
  scalar_of TokenKind.null = some null
  scalar_of TokenKind.true = some (bool true)
  scalar_of TokenKind.false = some (bool false)
  scalar_of (TokenKind.int i) = some (int i)
  scalar_of (TokenKind.float f) = some (float f)
  scalar_of (TokenKind.string_lit s) = some (string s)
  scalar_of _ = none

  abbrev pub key_of : TokenKind F → Option Text
  key_of (TokenKind.string_lit s) = some s
  key_of (TokenKind.identifier s) = some s
  key_of _ = none

  -- the loop over the items of an array
  unfoldable pub items_loop : Parse F (Value F) → ℕ → Parse F (Values F)
  unfolding on_token
  items_loop value zero = exhausted
  items_loop value (suc n) = do
    v ← value
    on_token TokenKind.comma (items_loop value n >>= (λ vs. returns (cons v vs)))
        (returns (cons v nil))

  -- The loop over the fields of an object: a later field replaces one of the same key.
  unfoldable pub fields_loop : Parse F (Value F) → ℕ → Fields F → Parse F (Fields F)
  unfolding on_token accept_or expect
  fields_loop value zero map = exhausted
  fields_loop value (suc n) map = do
    key ← accept_or key_of refuse
    expect TokenKind.colon
    v ← value
    on_token TokenKind.comma (fields_loop value n (Value.insert key v map))
        (returns (Value.insert key v map))

  -- behind the opening bracket
  unfoldable pub parse_array : Parse F (Value F) → ℕ → Parse F (Value F)
  unfolding look expect items_loop
  parse_array value n = do
    items ← look (is_kind TokenKind.r_bracket) (returns nil) (items_loop value n)
    expect TokenKind.r_bracket
    returns (array items)

  -- behind the opening brace
  unfoldable pub parse_object : Parse F (Value F) → ℕ → Parse F (Value F)
  unfolding look expect fields_loop
  parse_object value n = do
    map ← look (is_kind TokenKind.r_brace) (returns end) (fields_loop value n end)
    expect TokenKind.r_brace
    returns (object map)

  unfoldable pub parse_value_literal : ℕ → Parse F (Value F)
  unfolding accept_or on_token parse_array parse_object
  parse_value_literal zero = exhausted
  parse_value_literal (suc n) = accept_or scalar_of (
      on_token TokenKind.l_bracket (parse_array (parse_value_literal n) n)
        (on_token TokenKind.l_brace (parse_object (parse_value_literal n) n) refuse))
