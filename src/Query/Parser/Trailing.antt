-- ===== src/Query/Parser/Trailing.antt =====
-- crates/nova-query/src/lib.rs: `parse_nql` and what stands behind a statement.
use nova_db.Base.{◌≡◌, refl, false, List, ◌∷◌, none, some}
use nova_db.Base.Text.{Text}
use nova_db.Core.Document.{Document}
use nova_db.Core.Error.{ok}
use nova_db.Query.Ast.{Statement}
use nova_db.Query.Kinds.{is_kind}
use nova_db.Query.Parser.{on_token, expect_identifier, advance, accept_or}
use nova_db.Query.Parser.Statements.{parse_statement, parse_filtered, parse_tokens}
use nova_db.Query.Token.{TokenKind, Token, Span}

abbrev pub token_at : {F : Type 0} → Span → TokenKind F → Token F
token_at span kind = record { kind = kind; span = span }

-- REMOVE and a name, followed by any token but WHERE, parse to the removal of the whole collection,
-- whatever comes behind.
pub parse_tokens_unread :
    {F : Type 0} (fresh : Document F) (collection : Text) (a b : Span) (t : Token F)
    (ts : List (Token F))
    → is_kind TokenKind.where_keyword t.kind ≡ false
    → parse_tokens fresh
        (token_at a TokenKind.remove ∷ token_at b (TokenKind.identifier collection) ∷ t ∷ ts)
      ≡ some (ok (Statement.remove collection none))
unfolding parse_tokens parse_statement parse_filtered on_token expect_identifier accept_or advance
parse_tokens_unread fresh collection a b t ts h = rw h refl
