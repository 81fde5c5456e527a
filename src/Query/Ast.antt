-- ===== src/Query/Ast.antt =====
-- crates/nova-query/src/ast.rs: the syntax of statements and expressions.
use nova_db.Base.{ℕ, List, Option}
use nova_db.Base.Text.{Text}
use nova_db.Core.Value.{Value}
use nova_db.Core.Document.{Document}
use nova_db.Index.{IndexType}

pub data BinaryOp : Type 0 where
  eq not_eq gt gt_eq lt lt_eq and or plus minus multiply divide modulo : BinaryOp

pub data UnaryOp : Type 0 where
  not negate : UnaryOp

-- `In` holds a list of expressions.
mutual
  pub data Expr (F : Type 0) : Type 0 where
    literal : Value F → Expr F
    field : Text → Expr F
    binary : BinaryOp → Expr F → Expr F → Expr F
    unary : UnaryOp → Expr F → Expr F
    in_list : Expr F → Exprs F → Expr F
    between : Expr F → Expr F → Expr F → Expr F

  pub data Exprs (F : Type 0) : Type 0 where
    nil : Exprs F
    cons : Expr F → Exprs F → Exprs F

pub record Assignment (F : Type 0) : Type 0 where
  pub field : Text
  pub expr : Expr F

pub data SortDirection : Type 0 where
  asc desc : SortDirection

pub record SortClause : Type 0 where
  pub field : Text
  pub direction : SortDirection

pub data Statement (F : Type 0) : Type 0 where
  find : Text → Option (Expr F) → Option SortClause → Option ℕ → Option ℕ → Statement F
  insert : Text → Document F → Statement F
  update : Text → List (Assignment F) → Option (Expr F) → Statement F
  remove : Text → Option (Expr F) → Statement F
  watch : Text → Option (Expr F) → Statement F
  count : Text → Option (Expr F) → Statement F
  exists : Text → Option (Expr F) → Statement F
  create_index : Text → Text → IndexType → Statement F
  drop_index : Text → Text → Statement F
  begin commit rollback : Statement F
