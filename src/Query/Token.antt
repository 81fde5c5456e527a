-- ===== src/Query/Token.antt =====
-- crates/nova-query/src/lexer.rs: tokens and where they stand.
use nova_db.Base.{ℕ}
use nova_db.Base.Int.{ℤ}
use nova_db.Base.Text.{Text}

pub record Span : Type 0 where
  pub line : ℕ
  pub column : ℕ

-- `where_keyword` and `in_keyword` are `Where` and `In`.
pub data TokenKind (F : Type 0) : Type 0 where
  find insert into values update set remove watch count exists create drop index type where_keyword
        sort limit offset asc desc and or not in_keyword between begin commit rollback hash ordered
        true false null :
      TokenKind F
  int : ℤ → TokenKind F
  float : F → TokenKind F
  string_lit : Text → TokenKind F
  identifier : Text → TokenKind F
  eq_eq eq bang_eq gt gt_eq lt lt_eq amp_amp pipe_pipe bang plus minus star slash percent l_paren
        r_paren l_brace r_brace l_bracket r_bracket comma colon dot eof :
      TokenKind F

pub record Token (F : Type 0) : Type 0 where
  pub kind : TokenKind F
  pub span : Span
