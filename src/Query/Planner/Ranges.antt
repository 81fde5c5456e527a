-- ===== src/Query/Planner/Ranges.antt =====
-- A range scan visits the keys that the filter asks for.
use Prim.Native.Nat.{Ordering}
use nova_db.Base.{◌<◌, ◌≡◌, refl, Bool, true, false, ◌∷◌, none, some, arith}
use nova_db.Base.Text.{Text}
use nova_db.Core.Value.{Value, Float, null, value_cmp, tag}
use nova_db.Core.Document
use nova_db.Core.Document.{Document, is_id}
use nova_db.Index.{IndexType, ordered, IndexRange}
use nova_db.Index
use nova_db.Index.Entries.{Entries, Ids, in_range, scan, range_panic}
use nova_db.Index.Manager.{Index, IndexManager, find_index_for_field, index_insert}
use nova_db.Query.Ast.{BinaryOp, Expr, literal, field, binary, between}
use nova_db.Core.Outcome.{done}
use nova_db.Query.Evaluator.{eval, matches_filter, field_value, is_between}
use nova_db.Query.Planner.{access_for, index_range_scan}

-- The filters that the planner answers by a range scan have one of two shapes.
pub data Condition (F : Type 0) : Type 0 where
  compares : BinaryOp → Text → Value F → Condition F
  lies_between : Text → Value F → Value F → Condition F

abbrev pub expr_of : {F : Type 0} → Condition F → Expr F
expr_of (compares op f lit) = binary op (field f) (literal lit)
expr_of (lies_between f lo hi) = between (field f) (literal lo) (literal hi)

abbrev pub field_of : {F : Type 0} → Condition F → Text
field_of (compares op f lit) = f
field_of (lies_between f lo hi) = f

-- If the planner answers a condition on a field other than the id by a range scan, a document that
-- has a value at the field passes the filter exactly if that value lies in the scanned range.
pub access_for-in_range :
    {F : Type 0} (fl : Float F) (m : IndexManager F) (c : Condition F) (name : Text)
    (r : IndexRange F) (doc : Document F) (v : Value F)
    → access_for m (some (expr_of c)) ≡ index_range_scan name r
    → is_id (field_of c) ≡ false
    → Document.lookup (field_of c) doc ≡ some v
    → matches_filter fl (some (expr_of c)) doc ≡ done (in_range fl r v)
unfolding access_for matches_filter eval
access_for-in_range fl m (lies_between f lo hi) name r doc v h n e = ground arith
access_for-in_range fl m (compares BinaryOp.gt f lit) name r doc v h n e = ground arith
access_for-in_range fl m (compares op f lit) name r doc v h n e = ground arith

-- BETWEEN with its bounds the wrong way round: on an ordered index that holds a key the plan is a
-- range scan, and the scan panics, where evaluating the filter gives a Boolean.
pub between_panics :
    {F : Type 0} (fl : Float F) (m : IndexManager F) (f : Text) (lo hi : Value F) (i : Index F)
    (k : Value F) (ids : Ids) (rest : Entries F) (doc : Document F)
    → find_index_for_field f m ≡ some i
    → i.index_type ≡ ordered
    → i.entries ≡ (k, ids) ∷ rest
    → value_cmp fl lo hi ≡ Ordering.gt
    → (access_for m (some (between (field f) (literal lo) (literal hi)))
        ≡ index_range_scan i.name (Index.between_inclusive lo hi))
      × (scan fl i.index_type (Index.between_inclusive lo hi) i.entries ≡ range_panic)
      × ((b : Bool) × (matches_filter fl (some (between (field f) (literal lo) (literal hi))) doc
            ≡ done b))
unfolding access_for matches_filter eval scan
between_panics fl m f lo hi i k ids rest doc found kind held h = (
  rw (found, access_for) (rw kind),
  rw (kind, held) (rw h),
  (is_between fl (field_value f doc) lo hi, refl),
)

null_less :
    {F : Type 0} (fl : Float F) (lit : Value F) → 0 < tag lit → value_cmp fl null lit ≡ Ordering.lt
unfolding value_cmp
null_less fl null h = absurd (omega arith)
null_less fl _ h = refl

-- Take a field other than the id, and a literal other than Null. A document without the field
-- passes field < literal and field <= literal when they are evaluated, and an insertion into an
-- index on the field leaves the index as it is.
pub missing_field :
    {F : Type 0} (fl : Float F) (f : Text) (lit : Value F) (doc : Document F) (i : Index F)
    → is_id f ≡ false
    → Document.lookup f doc ≡ none
    → 0 < tag lit
    → i.field ≡ f
    → (matches_filter fl (some (binary BinaryOp.lt (field f) (literal lit))) doc ≡ done true)
      × (matches_filter fl (some (binary BinaryOp.lt_eq (field f) (literal lit))) doc ≡ done true)
      × (index_insert fl doc i ≡ i)
unfolding matches_filter eval
missing_field fl f lit doc i n e pos_tag at =
    let absent : field_value f doc ≡ null = unfold field_value in rw n (rw e) in
    let less : value_cmp fl (field_value f doc) lit ≡ Ordering.lt =
      rw absent (null_less fl lit pos_tag) in
    let unknown : Document.lookup i.field doc ≡ none = rw at e in (rw less, rw less, rw unknown)
