-- ===== src/Query/Parser/Total.antt =====
-- crates/nova-query/src/parser.rs: statements and the fuel of `parse_nql`.
use nova_db.Base.{ℕ, zero, suc, ◌≤◌, ◌≡◌, refl, false, List, [], ◌∷◌, Option, some, arith, length}
use nova_db.Base.Text.{Text}
use nova_db.Core.Document.{Document}
use nova_db.Core.Error.{Result, ok, err}
use nova_db.Core.Value.{
  Value, null, bool, int, float, string, bytes, array, object, timestamp, uuid,
}
use nova_db.Query.Ast.{Expr, Statement}
use nova_db.Query.Kinds.{is_kind}
use nova_db.Query.Lexer.{tokenize}
use nova_db.Query.Lexer.Scan.{Chars}
use nova_db.Query.Lexer.Total.{IsChars, IsLexed, IsTerminated, tokenize_returns}
use nova_db.Query.Parser.{Parsed, Parse, refuse, parse_usize, size_of}
use nova_db.Query.Parser.Expressions.{parse_expr}
use nova_db.Query.Parser.Progress.{
  Runs-expect_identifier, Runs-parse_field_path, Runs-closed, Runs-parse_value_literal,
  Runs-parse_expr,
}
use nova_db.Query.Parser.Runs.{
  Ends, ends, fails, Runs, Runs-le, Runs-zero, Runs-returns, Runs-refuse, Runs-bind, Runs-choice,
  Runs-on_token, Runs-expect, Runs-accept_or,
}
use nova_db.Query.Parser.Statements.{
  optional, where_clause, sort_clause, parse_direction, parse_find, inserting, parse_insert,
  assignments_loop, parse_update, parse_filtered, index_field, index_type, parse_create_index,
  parse_drop_index, parse_statement, parse_tokens, parse_nql, outcome,
}
use nova_db.Query.Token.{TokenKind, Token}

module _ {F : Type 0} where
  Runs-optional :
      {A : Type 0} (kind : TokenKind F) (m : Parse F A) (n : ℕ)
      → is_kind kind TokenKind.eof ≡ false
      → Runs m n
      → Runs (optional kind m) n
  Runs-optional kind m n h r =
      Runs-choice kind _ _ n h (Runs-bind m _ n r (λ a. Runs-returns _ n)) (Runs-returns _ n)

  Runs-where_clause : (n : ℕ) → Runs {F = F} (where_clause n) n
  Runs-where_clause n = Runs-optional TokenKind.where_keyword _ n refl (Runs-parse_expr n)

  Runs-sort_clause : (n : ℕ) → Runs {F = F} (sort_clause n) n
  Runs-sort_clause n = Runs-bind _ _ n (Runs-parse_field_path n) (λ path.
      Runs-bind parse_direction _ n
        (Runs-choice TokenKind.desc _ _ n refl (Runs-returns _ n)
          (Runs-choice TokenKind.asc _ _ n refl (Runs-returns _ n) (Runs-returns _ n)))
        (λ direction. Runs-returns _ n))

  Runs-parse_usize : (n : ℕ) → Runs {F = F} parse_usize n
  unfolding parse_usize
  Runs-parse_usize n = Runs-accept_or size_of refuse n (Runs-refuse n)

  Runs-parse_find : (n : ℕ) → Runs {F = F} (parse_find n) n
  unfolding parse_find
  Runs-parse_find n = Runs-bind _ _ n (Runs-expect_identifier n) (λ collection.
      Runs-bind _ _ n (Runs-where_clause n) (λ filter.
        Runs-bind _ _ n (Runs-optional TokenKind.sort _ n refl (Runs-sort_clause n)) (λ sort.
          Runs-bind _ _ n (Runs-optional TokenKind.limit _ n refl (Runs-parse_usize n)) (λ limit.
            Runs-bind _ _ n (Runs-optional TokenKind.offset _ n refl (Runs-parse_usize n))
              (λ offset. Runs-returns _ n)))))

  Runs-inserting :
      (collection : Text) (fresh : Document F) (v : Value F) (n : ℕ)
      → Runs (inserting collection fresh v) n
  Runs-inserting collection fresh (object map) n = Runs-returns _ n
  Runs-inserting collection fresh null n = Runs-refuse n
  Runs-inserting collection fresh (bool b) n = Runs-refuse n
  Runs-inserting collection fresh (int i) n = Runs-refuse n
  Runs-inserting collection fresh (float f) n = Runs-refuse n
  Runs-inserting collection fresh (string s) n = Runs-refuse n
  Runs-inserting collection fresh (bytes b) n = Runs-refuse n
  Runs-inserting collection fresh (array vs) n = Runs-refuse n
  Runs-inserting collection fresh (timestamp t) n = Runs-refuse n
  Runs-inserting collection fresh (uuid u) n = Runs-refuse n

  Runs-parse_insert : (fresh : Document F) (n : ℕ) → Runs (parse_insert fresh n) n
  unfolding parse_insert
  Runs-parse_insert fresh n =
      Runs-bind _ _ n
        (Runs-choice TokenKind.into _ _ n refl (Runs-returns tt n) (Runs-returns tt n))
        (λ u. Runs-bind _ _ n (Runs-expect_identifier n) (λ collection.
          Runs-bind _ _ n (Runs-expect TokenKind.values n refl) (λ w.
            Runs-bind _ _ n
              (Runs-choice TokenKind.l_paren _ _ n refl
                (Runs-closed TokenKind.r_paren _ _ n refl (Runs-parse_value_literal n))
                (Runs-parse_value_literal n))
              (λ value. Runs-inserting collection fresh value n))))

  Runs-assignments_loop :
      (n m k : ℕ) → k ≤ m → k ≤ n → Runs {F = F} (assignments_loop (parse_expr n) m n) k
  unfolding assignments_loop
  Runs-assignments_loop n m zero h j = Runs-zero _
  Runs-assignments_loop n zero (suc k) h j = absurd (omega arith)
  Runs-assignments_loop n (suc m) (suc k) h j =
      Runs-bind _ _ (suc k) (Runs-le _ (suc k) n j (Runs-parse_field_path n)) (λ path.
        Runs-bind _ _ (suc k)
          (Runs-choice TokenKind.eq _ _ (suc k) refl (Runs-returns tt (suc k)) (
            Runs-choice TokenKind.eq_eq _ _ (suc k) refl (Runs-returns tt (suc k))
              (Runs-refuse (suc k))))
          (λ u. Runs-bind _ _ (suc k) (Runs-le _ (suc k) n j (Runs-parse_expr n)) (λ e.
            Runs-on_token TokenKind.comma _ _ k refl
              (Runs-bind _ _ k (Runs-assignments_loop n m k (omega arith) (omega arith))
                (λ todo. Runs-returns _ k))
              (Runs-returns _ (suc k)))))

  Runs-parse_update : (n : ℕ) → Runs {F = F} (parse_update n) n
  unfolding parse_update
  Runs-parse_update n = Runs-bind _ _ n (Runs-expect_identifier n) (λ collection.
      Runs-bind _ _ n (Runs-expect TokenKind.set n refl) (λ u.
        Runs-bind _ _ n (Runs-assignments_loop n n n (omega arith) (omega arith))
          (λ todo. Runs-bind _ _ n (Runs-where_clause n) (λ filter. Runs-returns _ n))))

  Runs-parse_filtered :
      (statement : Text → Option (Expr F) → Statement F) (n : ℕ)
      → Runs (parse_filtered statement n) n
  unfolding parse_filtered
  Runs-parse_filtered statement n =
      Runs-bind _ _ n (Runs-expect_identifier n)
        (λ collection. Runs-bind _ _ n (Runs-where_clause n) (λ filter. Runs-returns _ n))

  Runs-index_field : (n : ℕ) → Runs {F = F} (index_field n) n
  Runs-index_field n =
      Runs-choice TokenKind.dot _ _ n refl (Runs-parse_field_path n) (Runs-expect_identifier n)

  Runs-index_type : (n : ℕ) → Runs {F = F} index_type n
  Runs-index_type n =
      Runs-choice TokenKind.type _ _ n refl
        (Runs-choice TokenKind.hash _ _ n refl (Runs-returns _ n)
          (Runs-choice TokenKind.ordered _ _ n refl (Runs-returns _ n) (Runs-refuse n)))
        (Runs-returns _ n)

  Runs-parse_create_index : (n : ℕ) → Runs {F = F} (parse_create_index n) n
  unfolding parse_create_index
  Runs-parse_create_index n = Runs-bind _ _ n (Runs-expect TokenKind.index n refl) (λ u.
      Runs-bind _ _ n (Runs-expect_identifier n) (λ collection.
        Runs-bind _ _ n (Runs-index_field n)
          (λ path. Runs-bind _ _ n (Runs-index_type n) (λ t. Runs-returns _ n))))

  Runs-parse_drop_index : (n : ℕ) → Runs {F = F} (parse_drop_index n) n
  unfolding parse_drop_index
  Runs-parse_drop_index n = Runs-bind _ _ n (Runs-expect TokenKind.index n refl) (λ u.
      Runs-bind _ _ n (Runs-expect_identifier n)
        (λ collection. Runs-bind _ _ n (Runs-index_field n) (λ path. Runs-returns _ n)))

  Runs-parse_statement : (fresh : Document F) (n : ℕ) → Runs (parse_statement fresh n) n
  unfolding parse_statement
  Runs-parse_statement fresh n = Runs-choice TokenKind.find _ _ n refl (Runs-parse_find n) (
      Runs-choice TokenKind.insert _ _ n refl (Runs-parse_insert fresh n) (
        Runs-choice TokenKind.update _ _ n refl (Runs-parse_update n) (
          Runs-choice TokenKind.remove _ _ n refl (Runs-parse_filtered Statement.remove n) (
            Runs-choice TokenKind.watch _ _ n refl (Runs-parse_filtered Statement.watch n) (
              Runs-choice TokenKind.count _ _ n refl (Runs-parse_filtered Statement.count n) (
                Runs-choice TokenKind.exists _ _ n refl (Runs-parse_filtered Statement.exists n) (
                  Runs-choice TokenKind.create _ _ n refl (Runs-parse_create_index n) (
                    Runs-choice TokenKind.drop _ _ n refl (Runs-parse_drop_index n) (
                      Runs-choice TokenKind.begin _ _ n refl (Runs-returns _ n) (
                        Runs-choice TokenKind.commit _ _ n refl (Runs-returns _ n) (
                          Runs-choice TokenKind.rollback _ _ n refl (Runs-returns _ n)
                            (Runs-refuse n))))))))))))

  outcome-Ends :
      (k : ℕ) (o : Parsed F (Statement F))
      → Ends k o
      → (r : Result (Statement F)) × (outcome o ≡ some r)
  outcome-Ends k _ (ends statement p t le) = (ok statement, refl)
  outcome-Ends k _ (fails e) = (err e, refl)

  parse_tokens_returns :
      (fresh : Document F) (tokens : List (Token F))
      → IsTerminated tokens
      → (r : Result (Statement F)) × (parse_tokens fresh tokens ≡ some r)
  unfolding parse_tokens
  parse_tokens_returns fresh [] h = absurd h
  parse_tokens_returns fresh (t ∷ ts) h = outcome-Ends (length ts) _ (
      Runs-parse_statement fresh (suc (length ts)) (record { current = t; ahead = ts }) h
        (omega arith))

-- If every letter counts as a letter or digit (IsChars), parsing ends on every text, with a
-- statement or an error.
pub parse_nql_returns :
    {F : Type 0} (chars : Chars F) (fresh : Document F) (query : Text)
    → IsChars chars
    → (r : Result (Statement F)) × (parse_nql chars fresh query ≡ some r)
unfolding parse_nql
parse_nql_returns {F} chars fresh query laws = by_tokens (tokenize_returns chars query laws)
  where
    by_tokens :
        (o : Result (List (Token F))) × (tokenize chars query ≡ some o) × IsLexed o
        → (r : Result (Statement F)) × (parse_nql chars fresh query ≡ some r)
    by_tokens (err e, p, q) = (err e, rw p refl)
    by_tokens (ok tokens, p, q) = rw (p, parse_nql) (parse_tokens_returns fresh tokens q)
