-- ===== src/Tests/Lexing.antt =====
-- Lines of text as tokens.
use nova_db.Base.{◌++◌, inr, ℕ, ◌≡◌, refl, Bool, ◌||◌, ◌&&◌, leb, List, [], ◌∷◌, none, some}
use nova_db.Base.Text.{codes}
use nova_db.Core.Error.{Result, ok}
use nova_db.Query.Lexer.{tokenize}
use nova_db.Query.Lexer.Scan.{Chars}
use nova_db.Query.Lexer.Strings.{escape, tokenize-escape}
use nova_db.Query.Lexer.Total.{IsChars, IsLexed, tokenize_returns}
use nova_db.Query.Token.{Token, TokenKind, Span}
use nova_db.Query.Ast.{Statement, BinaryOp, UnaryOp, binary, unary, field}
use nova_db.Query.Parser.Statements.{parse_nql, parse_tokens}
use nova_db.Query.Parser.Total.{parse_nql_returns}
use nova_db.Query.Parser.Trailing.{token_at, parse_tokens_unread}
use nova_db.Core.Document.{Document, with_id}
use nova_db.Base.Int.{pos}

abbrev letter : ℕ → Bool
letter c = (leb b'a' c && leb c b'z') || (leb b'A' c && leb c b'Z')

-- the letters and digits of ASCII, and no numbers with a fraction
abbrev pub ascii : Chars ℕ
ascii = record {
  is_alphabetic = letter;
  is_alphanumeric = λ c. letter c || (leb b'0' c && leb c b'9');
  parse_float = λ t. none;
}

ascii-IsChars : IsChars ascii
ascii-IsChars = record { alphabetic = λ c h. rw h refl }

abbrev at_column : ℕ → Span
at_column n = record { line = 1; column = n }

tokenize_returns_example :
    (o : Result (List (Token ℕ))) × (tokenize ascii (codes "FIND u WHERE a >= -1") ≡ some o)
    × IsLexed o
tokenize_returns_example = tokenize_returns ascii (codes "FIND u WHERE a >= -1") ascii-IsChars

abbrev pub fresh : Document ℕ
fresh = with_id (codes "f") (pos 0)

parse_nql_returns_example :
    (r : Result (Statement ℕ)) × (parse_nql ascii fresh (codes "FIND u WHERE a >= -1 OR NOT (b")
      ≡ some r)
parse_nql_returns_example =
    parse_nql_returns ascii fresh (codes "FIND u WHERE a >= -1 OR NOT (b") ascii-IsChars

-- REMOVE u WHER a
parse_tokens_unread_example :
    parse_tokens fresh (
      token_at (at_column 1) TokenKind.remove
      ∷ token_at (at_column 8) (TokenKind.identifier (codes "u"))
      ∷ token_at (at_column 10) (TokenKind.identifier (codes "WHER"))
      ∷ token_at (at_column 15) (TokenKind.identifier (codes "a"))
      ∷ token_at (at_column 16) TokenKind.eof
      ∷ [])
    ≡ some (ok (Statement.remove (codes "u") none))
parse_tokens_unread_example =
    parse_tokens_unread fresh (codes "u") (at_column 1) (at_column 8)
      (token_at (at_column 10) (TokenKind.identifier (codes "WHER")))
      (token_at (at_column 15) (TokenKind.identifier (codes "a"))
        ∷ token_at (at_column 16) TokenKind.eof
        ∷ [])
      refl

-- AND binds tighter than OR, and NOT tighter than both.
parses_ranks :
    parse_nql ascii fresh (codes "COUNT u WHERE a OR NOT b AND c")
    ≡ some (
        ok (
          Statement.count (codes "u") (
            some (
              binary BinaryOp.or (field (codes "a")) (
                binary BinaryOp.and (unary UnaryOp.not (field (codes "b"))) (field (codes "c")))))))
unfolding parse_nql
parses_ranks = refl

-- `a -1` is the name `a` and the number -1, so the statement ends behind `a`.
parses_minus :
    parse_nql ascii fresh (codes "COUNT u WHERE a -1")
    ≡ some (ok (Statement.count (codes "u") (some (field (codes "a")))))
unfolding parse_nql
parses_minus = refl

-- it's, in single quotes
tokenize-escape_example :
    (end : Span) × (tokenize ascii (39 ∷ escape 39 (codes "it's") ++ 39 ∷ [])
      ≡ some (
          ok (
            record { kind = TokenKind.string_lit (codes "it's"); span = at_column 1 }
            ∷ record { kind = TokenKind.eof; span = end }
            ∷ [])))
tokenize-escape_example = tokenize-escape ascii 39 (codes "it's") (inr refl)
