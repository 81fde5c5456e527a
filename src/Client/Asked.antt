-- ===== src/Client/Asked.antt =====
-- crates/nova-client/src/collection.rs and crates/nova-query/src: the text of `find_by_id`, as the server
-- reads it.
use nova_db.Base.{
  ℕ, ◌≡◌, refl, true, List, [], ◌∷◌, ◌++◌, none, some, arith, length, ap, suc, ◌+◌, ◌==◌,
  if◌then◌else◌,
}
use nova_db.Base.Text.{Text, codes}
use nova_db.Client.Collection.{find_by_id_nql}
use nova_db.Core.Document.{Document, id_key}
use nova_db.Core.Error.{ok}
use nova_db.Core.Value.{string}
use nova_db.Query.Ast.{Expr, Statement, BinaryOp, literal, field, binary}
use nova_db.Query.Lexer.{tokenize, word_kind}
use nova_db.Query.Lexer.Scan.{Chars, newline, locate, end_span}
use nova_db.Query.Lexer.Strings.{escape}
use nova_db.Query.Lexer.Words.{
  is_name, IsAscii, IsTokens, nothing, token, IsLexedTo, nil-IsLexedTo, space-IsLexedTo,
  equals-IsLexedTo, string-IsLexedTo, word-IsLexedTo,
}
use nova_db.Query.Parser.Statements.{parse_tokens, parse_nql}
use nova_db.Query.Token.{TokenKind, Token}

length-locate : (t : Text) (line column : ℕ) → length (locate line column t) ≡ length t
unfolding locate
length-locate [] line column = refl
length-locate (c ∷ t) line column = ap suc (
    length-locate t (if c == newline then line + 1 else line)
      (if c == newline then 1 else column + 1))

-- id == "..."
abbrev pub id_is : {F : Type 0} → Text → Expr F
id_is id = binary BinaryOp.eq (field id_key) (literal (string id))

module _ {F : Type 0} where
  abbrev asked_kinds : Text → Text → List (TokenKind F)
  asked_kinds coll id =
      TokenKind.find
      ∷ TokenKind.identifier coll
      ∷ TokenKind.where_keyword
      ∷ TokenKind.identifier id_key
      ∷ TokenKind.eq_eq
      ∷ TokenKind.string_lit id
      ∷ TokenKind.eof
      ∷ []

  parse_tokens-asked :
      (fresh : Document F) (coll id : Text) (ts : List (Token F))
      → IsTokens (asked_kinds coll id) ts
      → parse_tokens fresh ts ≡ some (ok (Statement.find coll (some (id_is id)) none none none))
  unfolding parse_tokens
  parse_tokens-asked fresh coll id _
        (token _ _ _ _ (
          token _ _ _ _ (
            token _ _ _ _
              (token _ _ _ _ (token _ _ _ _ (token _ _ _ _ (token _ _ _ _ nothing))))))) =
      refl

module _ {F : Type 0} (chars : Chars F) (ascii : IsAscii chars) (coll id : Text)
    (named : is_name coll ≡ true) (free : word_kind {F = F} coll ≡ TokenKind.identifier coll)
    (plain : escape b'"' id ≡ id) where
  find_by_id_nql-IsLexedTo : IsLexedTo chars (find_by_id_nql coll id) (asked_kinds coll id)
  unfolding find_by_id_nql word_kind
  find_by_id_nql-IsLexedTo =
      let space = λ (t : Text) (ks : List (TokenKind F)) (k : IsLexedTo chars t ks).
        space-IsLexedTo chars t ks k in
      let stop = ascii.alphanumeric 32 refl in
      let literal_part = string-IsLexedTo chars ascii id [] _ (nil-IsLexedTo chars) in
      let value_part : IsLexedTo chars (b'"' ∷ id ++ b'"' ∷ [])
          (TokenKind.string_lit id ∷ TokenKind.eof ∷ []) =
        rw plain at literal_part in
      let comparison = equals-IsLexedTo chars ascii _ _ (space _ _ value_part) in
      let field_part =
        word-IsLexedTo chars ascii (codes "id") _ _ refl (rw stop refl) (space _ _ comparison) in
      let where_part =
        word-IsLexedTo chars ascii (codes "WHERE") _ _ refl (rw stop refl) (space _ _ field_part) in
      let coll_part =
        word-IsLexedTo chars ascii coll _ _ named (rw stop refl) (space _ _ where_part) in
      word-IsLexedTo chars ascii (codes "FIND") _ _ refl (rw stop refl)
        (space _ _ (rw free at coll_part))

  -- The server parses the text of `find_by_id` to a FIND with the condition id == "...".
  pub parse_nql-find_by_id_nql :
      (fresh : Document F)
      → parse_nql chars fresh (find_by_id_nql coll id)
        ≡ some (ok (Statement.find coll (some (id_is id)) none none none))
  unfolding parse_nql tokenize
  parse_nql-find_by_id_nql fresh =
      let nql = find_by_id_nql coll id in
      let located = locate 1 1 nql in
      let (ts, lexed, are) =
        find_by_id_nql-IsLexedTo 1 1 (suc (length located)) (end_span located)
          (omega (arith, length-locate nql 1 1)) in
      rw lexed (parse_tokens-asked fresh coll id ts are)
