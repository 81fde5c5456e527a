-- ===== src/Query/Planner.antt =====
-- crates/nova-query/src/planner.rs: the choice between a lookup, a range scan and a full scan.
pub mod Ranges
use nova_db.Base.{ℕ, Bool, true, false, Option, none, some, if◌then◌else◌}
use nova_db.Base.Text.{Text}
use nova_db.Core.Value.{Value}
use nova_db.Index
use nova_db.Index.{IndexType, ordered, Bound, included, excluded, unbounded, IndexRange}
use nova_db.Index.Manager.{Index, IndexManager, find_index_for_field}
use nova_db.Query.Ast.{BinaryOp, Expr, literal, field, binary, between, SortClause}

pub data Access (F : Type 0) : Type 0 where
  index_lookup : Text → Value F → Access F
  index_range_scan : Text → IndexRange F → Access F
  seq_scan : Option (Expr F) → Access F

-- The three variants share what they carry behind the way to the candidates. An index access carries
-- no filter.
pub record QueryPlan (F : Type 0) : Type 0 where
  pub access : Access F
  pub sort : Option SortClause
  pub limit : Option ℕ
  pub offset : Option ℕ

module _ {F : Type 0} where
  abbrev lookup_by : Value F → Option (Index F) → Option (Access F)
  lookup_by lit none = none
  lookup_by lit (some index) = some (index_lookup index.name lit)

  -- `field == literal`, or `literal == field`
  unfoldable pub exact_match : IndexManager F → Expr F → Option (Access F)
  exact_match m (binary BinaryOp.eq (field f) (literal lit)) =
      lookup_by lit (find_index_for_field f m)
  exact_match m (binary BinaryOp.eq (literal lit) (field f)) =
      lookup_by lit (find_index_for_field f m)
  exact_match m _ = none

  -- the range of `field op literal`
  abbrev pub range_of : BinaryOp → Value F → IndexRange F
  range_of BinaryOp.gt lit = record { start = excluded lit; end = unbounded }
  range_of BinaryOp.gt_eq lit = Index.from_inclusive lit
  range_of BinaryOp.lt lit = record { start = unbounded; end = excluded lit }
  range_of BinaryOp.lt_eq lit = Index.to_inclusive lit
  range_of _ lit = Index.all

  abbrev is_unbounded : Bound F → Bool
  is_unbounded unbounded = true
  is_unbounded _ = false

  -- `range == IndexRange::all()`
  abbrev is_all : IndexRange F → Bool
  is_all r = if is_unbounded r.start then is_unbounded r.end else false

  abbrev scan_if : IndexType → Text → IndexRange F → Option (Access F)
  scan_if ordered name r = if is_all r then none else some (index_range_scan name r)
  scan_if _ name r = none

  abbrev scan_by : IndexRange F → Option (Index F) → Option (Access F)
  scan_by r none = none
  scan_by r (some index) = scan_if index.index_type index.name r

  unfoldable pub range_match : IndexManager F → Expr F → Option (Access F)
  range_match m (binary op (field f) (literal lit)) =
      scan_by (range_of op lit) (find_index_for_field f m)
  range_match m _ = none

  unfoldable pub between_match : IndexManager F → Expr F → Option (Access F)
  between_match m (between (field f) (literal lo) (literal hi)) =
      scan_by (Index.between_inclusive lo hi) (find_index_for_field f m)
  between_match m _ = none

  abbrev or_try : Option (Access F) → Option (Access F) → Option (Access F)
  or_try none o = o
  or_try (some a) o = some a

  abbrev or_scan : Option (Expr F) → Option (Access F) → Access F
  or_scan filter none = seq_scan filter
  or_scan filter (some a) = a

  -- the tests in the order of the code
  unfoldable pub access_for : IndexManager F → Option (Expr F) → Access F
  unfolding exact_match range_match between_match
  access_for m none = seq_scan none
  access_for m (some e) =
      or_scan (some e) (or_try (exact_match m e) (or_try (range_match m e) (between_match m e)))

  -- `QueryPlanner::plan`
  unfoldable pub plan :
      Option (Expr F) → Option SortClause → Option ℕ → Option ℕ → IndexManager F → QueryPlan F
  unfolding access_for
  plan filter sort limit offset m = record {
    access = access_for m filter;
    sort = sort;
    limit = limit;
    offset = offset;
  }
