-- ===== src/Query/Parser/Statements.antt =====
-- crates/nova-query/src/parser.rs: `parse_statement` and its statements; crates/nova-query/src/lib.rs: `parse_nql`.
use nova_db.Base.{ℕ, zero, suc, List, [], ◌∷◌, Option, none, some, length, if◌then◌else◌}
use nova_db.Base.Text.{Text}
use nova_db.Core.Document
use nova_db.Core.Document.{Document, is_id, with_id}
use nova_db.Core.DocumentId
use nova_db.Core.DocumentId.{DocumentId}
use nova_db.Core.Error.{Result, ok, err}
use nova_db.Core.Value.{Value, Fields, object, field, end, string}
use nova_db.Index.{IndexType, hash, ordered}
use nova_db.Query.Ast.{Expr, Assignment, SortClause, SortDirection, Statement}
use nova_db.Query.Lexer.{tokenize}
use nova_db.Query.Lexer.Scan.{Chars}
use nova_db.Query.Parser.{
  Parsed, parsed, refused, out_of_fuel, Parse, ◌>>=◌, ◌>>◌, returns, exhausted, refuse, on_token,
  expect, expect_identifier, parse_usize, parse_field_path,
}
use nova_db.Query.Parser.Expressions.{parse_expr}
use nova_db.Query.Parser.Literals.{parse_value_literal}
use nova_db.Query.Token.{TokenKind, Token}

-- `DocumentId::new` on a string field named id: an id that is not valid is dropped.
abbrev with_new_id : {F : Type 0} → Result DocumentId → Document F → Document F
with_new_id (ok id) doc = record doc { id = id }
with_new_id (err e) doc = doc

abbrev set_id : {F : Type 0} → Value F → Document F → Document F
set_id (string s) doc = with_new_id (DocumentId.new s) doc
set_id _ doc = doc

-- the loop of `parse_insert` over the object
unfoldable pub fill_document : {F : Type 0} → Fields F → Document F → Document F
unfolding DocumentId.new Document.insert
fill_document end doc = doc
fill_document (field key v map) doc =
    fill_document map (if is_id key then set_id v doc else Document.insert key v doc)

module _ {F : Type 0} where
  abbrev pub optional : {A : Type 0} → TokenKind F → Parse F A → Parse F (Option A)
  optional kind m = on_token kind (m >>= (λ a. returns (some a))) (returns none)

  abbrev pub where_clause : ℕ → Parse F (Option (Expr F))
  where_clause n = optional TokenKind.where_keyword (parse_expr n)

  abbrev pub parse_direction : Parse F SortDirection
  parse_direction =
      on_token TokenKind.desc (returns SortDirection.desc)
        (on_token TokenKind.asc (returns SortDirection.asc) (returns SortDirection.asc))

  abbrev pub sort_clause : ℕ → Parse F SortClause
  sort_clause n = do
    path ← parse_field_path n
    direction ← parse_direction
    returns (record { field = path; direction = direction })

  -- Each of these starts behind its first keyword.
  unfoldable pub parse_find : ℕ → Parse F (Statement F)
  unfolding on_token expect_identifier parse_usize parse_field_path parse_expr
  parse_find n = do
    collection ← expect_identifier
    filter ← where_clause n
    sort ← optional TokenKind.sort (sort_clause n)
    limit ← optional TokenKind.limit parse_usize
    offset ← optional TokenKind.offset parse_usize
    returns (Statement.find collection filter sort limit offset)

  -- What `parse_insert` makes of the value: `fresh` is the document of `Document::new`.
  abbrev pub inserting : Text → Document F → Value F → Parse F (Statement F)
  inserting collection fresh (object map) =
      returns (Statement.insert collection (fill_document map fresh))
  inserting collection fresh _ = refuse

  unfoldable pub parse_insert : Document F → ℕ → Parse F (Statement F)
  unfolding on_token expect expect_identifier parse_value_literal fill_document
  parse_insert fresh n = do
    on_token TokenKind.into (returns tt) (returns tt)
    collection ← expect_identifier
    expect TokenKind.values
    value ←
        on_token TokenKind.l_paren
          (parse_value_literal n >>= (λ v. expect TokenKind.r_paren >> returns v))
          (parse_value_literal n)
    inserting collection fresh value

  -- the loop over the assignments
  unfoldable pub assignments_loop :
      (expr : Parse F (Expr F)) → ℕ → ℕ → Parse F (List (Assignment F))
  unfolding on_token parse_field_path
  assignments_loop expr zero n = exhausted
  assignments_loop expr (suc m) n = do
    path ← parse_field_path n
    on_token TokenKind.eq (returns tt) (on_token TokenKind.eq_eq (returns tt) refuse)
    e ← expr
    on_token TokenKind.comma
        (assignments_loop expr m n >>= (λ todo. returns (record { field = path; expr = e } ∷ todo)))
        (returns (record { field = path; expr = e } ∷ []))

  unfoldable pub parse_update : ℕ → Parse F (Statement F)
  unfolding on_token expect expect_identifier parse_expr assignments_loop
  parse_update n = do
    collection ← expect_identifier
    expect TokenKind.set
    todo ← assignments_loop (parse_expr n) n n
    filter ← where_clause n
    returns (Statement.update collection todo filter)

  -- `parse_remove`, `parse_watch`, `parse_count` and `parse_exists`
  unfoldable pub parse_filtered : (Text → Option (Expr F) → Statement F) → ℕ → Parse F (Statement F)
  unfolding on_token expect_identifier parse_expr
  parse_filtered statement n = do
    collection ← expect_identifier
    filter ← where_clause n
    returns (statement collection filter)

  -- the field of an index, behind a dot or as a name of its own
  abbrev pub index_field : ℕ → Parse F Text
  index_field n = on_token TokenKind.dot (parse_field_path n) expect_identifier

  abbrev pub index_type : Parse F IndexType
  index_type =
      on_token TokenKind.type
        (on_token TokenKind.hash (returns hash)
          (on_token TokenKind.ordered (returns ordered) refuse))
        (returns ordered)

  unfoldable pub parse_create_index : ℕ → Parse F (Statement F)
  unfolding on_token expect expect_identifier parse_field_path
  parse_create_index n = do
    expect TokenKind.index
    collection ← expect_identifier
    path ← index_field n
    t ← index_type
    returns (Statement.create_index collection path t)

  unfoldable pub parse_drop_index : ℕ → Parse F (Statement F)
  unfolding on_token expect expect_identifier parse_field_path
  parse_drop_index n = do
    expect TokenKind.index
    collection ← expect_identifier
    path ← index_field n
    returns (Statement.drop_index collection path)

  unfoldable pub parse_statement : Document F → ℕ → Parse F (Statement F)
  unfolding on_token parse_find parse_insert parse_update parse_filtered parse_create_index
      parse_drop_index
  parse_statement fresh n = on_token TokenKind.find (parse_find n) (
      on_token TokenKind.insert (parse_insert fresh n) (
        on_token TokenKind.update (parse_update n) (
          on_token TokenKind.remove (parse_filtered Statement.remove n) (
            on_token TokenKind.watch (parse_filtered Statement.watch n) (
              on_token TokenKind.count (parse_filtered Statement.count n) (
                on_token TokenKind.exists (parse_filtered Statement.exists n) (
                  on_token TokenKind.create (parse_create_index n) (
                    on_token TokenKind.drop (parse_drop_index n) (
                      on_token TokenKind.begin (returns Statement.begin) (
                        on_token TokenKind.commit (returns Statement.commit) (
                          on_token TokenKind.rollback (returns Statement.rollback) refuse)))))))))))

  abbrev pub outcome : Parsed F (Statement F) → Option (Result (Statement F))
  outcome (parsed statement p) = some (ok statement)
  outcome (refused e) = some (err e)
  outcome out_of_fuel = none

  -- `Parser::new(tokens).parse_statement()`; the lexer hands out no empty list, on which the code panics.
  unfoldable pub parse_tokens : Document F → List (Token F) → Option (Result (Statement F))
  unfolding parse_statement
  parse_tokens fresh [] = none
  parse_tokens fresh (t ∷ ts) =
      outcome (parse_statement fresh (suc (length ts)) (record { current = t; ahead = ts }))

  abbrev parse_lexed : Document F → Option (Result (List (Token F))) → Option (Result (Statement F))
  parse_lexed fresh none = none
  parse_lexed fresh (some (err e)) = some (err e)
  parse_lexed fresh (some (ok tokens)) = parse_tokens fresh tokens

  -- `parse_nql`, where `fresh` is the document that `Document::new` makes for an INSERT. `none` is no
  -- result of the code.
  unfoldable pub parse_nql : Chars F → Document F → Text → Option (Result (Statement F))
  unfolding tokenize parse_tokens
  parse_nql chars fresh query = parse_lexed fresh (tokenize chars query)
