-- ===== src/Tests/Queries.antt =====
-- Values, filters, updates, plans and indexes. The floats of these runs are even integers: an
-- odd integer rounds down, as large odd integers round in an f64.
use Prim.Native.Nat.{compare, Ordering}
use nova_db.Base.{
  ℕ, ◌+◌, ◌*◌, ◌/◌, ◌-◌, ◌≡◌, refl, Bool, true, false, ◌==◌, [], ◌∷◌, none, some, arith,
  if◌then◌else◌,
}
use nova_db.Base.Bytes.{bytes_eq, to_be_bytes}
use nova_db.Base.Int.{ℤ, pos, negsuc}
use nova_db.Base.Text.{Text, text_eq}
use nova_db.Core.Document
use nova_db.Core.Document.{Document, is_id}
use nova_db.Core.Error.{new_error, type_error}
use nova_db.Core.Value
use nova_db.Core.Value.{
  Value, Float, null, bool, int, float, string, value_eq, value_cmp, end, get, insert, split_dots,
  walk, get_path, tag,
}
use nova_db.Core.Value.Order.{IsTotal, flip, compare-flip, value_cmp-flip}
use nova_db.Core.Value.Hash.{hash_value}
use nova_db.Index.{hash, ordered}
use nova_db.Index
use nova_db.Index.Entries.{has, same, lookup, len, hash_insert, in_range, scan, range_panic}
use nova_db.Index.Laws.{hash_insert_lem}
use nova_db.Index.Manager.{Index, IndexManager, new_index, find_index_for_field, index_insert}
use nova_db.Query.Ast.{
  BinaryOp, UnaryOp, Expr, Assignment, literal, field, binary, unary, in_list, between, cons, nil,
}
use nova_db.Core.Outcome.{done, fail}
use nova_db.Query.Evaluator.{eval, field_value, matches_filter, apply_assignments}
use nova_db.Query.Evaluator.Laws.{
  eval_de_morgan, eval_between, eval_in_list, IsUpdate, apply_assignments-IsUpdate,
  apply_assignments_partial,
}
use nova_db.Query.Planner.{access_for, index_range_scan}
use nova_db.Query.Planner.Ranges.{compares, access_for-in_range, between_panics, missing_field}

abbrev half : ℤ → ℕ
half (pos n) = n / 2
half (negsuc n) = 0

abbrev pub even : Float ℕ
even = record {
  feq = λ a b. a == b;
  is_nan = λ a. false;
  total_cmp = compare;
  partial_cmp = λ a b. some (compare a b);
  of_int = half;
  to_int = λ a. some (pos (a * 2));
  to_bits = λ a. a;
  zero = 0;
  add = λ a b. a + b;
  sub = λ a b. a - b;
  mul = λ a b. a * b;
  div = λ a b. a / b;
  neg = λ a. 0;
}

even-IsTotal : IsTotal even
even-IsTotal = record { total_flip = compare-flip; total_refl = λ a. ground arith }

flips :
    value_cmp even (string (b'b' ∷ [])) (int (pos 3))
    ≡ flip (value_cmp even (int (pos 3)) (string (b'b' ∷ [])))
flips = value_cmp-flip (int (pos 3)) (string (b'b' ∷ [])) even-IsTotal

-- a document { n: 4 }
abbrev pub n_key : Text
n_key = b'n' ∷ []

abbrev pub doc : Document ℕ
doc = record {
  id = b'a' ∷ [];
  version = 1;
  created_at = pos 10;
  updated_at = pos 10;
  fields = Value.field n_key (int (pos 4)) end;
}

abbrev pub less_than_five : Expr ℕ
less_than_five = binary BinaryOp.lt (field n_key) (literal (int (pos 5)))

moves_negation :
    eval even (unary UnaryOp.not (binary BinaryOp.and less_than_five (literal null))) doc
    ≡ eval even
        (binary BinaryOp.or (unary UnaryOp.not less_than_five) (unary UnaryOp.not (literal null)))
        doc
moves_negation = eval_de_morgan even less_than_five (literal null) doc

reads_n : eval even (field n_key) doc ≡ done (int (pos 4))
unfolding eval field_value Document.lookup Document.get_path Value.get split_dots walk text_eq
    bytes_eq
reads_n = refl

reads_literal : (v : Value ℕ) → eval even (literal v) doc ≡ done v
unfolding eval
reads_literal v = refl

reads_between :
    eval even (between (field n_key) (literal (int (pos 1))) (literal (int (pos 9)))) doc
    ≡ eval even
        (binary BinaryOp.and
          (binary BinaryOp.gt_eq (field n_key) (literal (int (pos 1))))
          (binary BinaryOp.lt_eq (field n_key) (literal (int (pos 9)))))
        doc
reads_between =
    eval_between even (field n_key) (literal (int (pos 1))) (literal (int (pos 9))) doc reads_n
      (reads_literal (int (pos 1))) (reads_literal (int (pos 9)))

in_list_of_one :
    eval even (in_list (field n_key) (cons (literal (int (pos 1))) nil)) doc
    ≡ eval even
        (binary BinaryOp.or
          (binary BinaryOp.eq (field n_key) (literal (int (pos 1))))
          (in_list (field n_key) nil))
        doc
in_list_of_one = eval_in_list even (field n_key) (literal (int (pos 1))) nil doc reads_n

-- SET n = 5 works; SET n = NOT 5 does not
abbrev set_five : Assignment ℕ
set_five = record { field = n_key; expr = literal (int (pos 5)) }

abbrev set_bad : Assignment ℕ
set_bad = record { field = n_key; expr = unary UnaryOp.negate (literal null) }

apply_assignments-IsUpdate_example :
    IsUpdate
      (pos 20)
      doc
      (apply_assignments even (set_five ∷ []) (pos 20) doc).0
      (apply_assignments even (set_five ∷ []) (pos 20) doc).1
apply_assignments-IsUpdate_example = apply_assignments-IsUpdate even (set_five ∷ []) (pos 20) doc

not_id : is_id n_key ≡ false
unfolding text_eq bytes_eq
not_id = refl

keeps_the_first :
    apply_assignments even (set_five ∷ set_bad ∷ []) (pos 20) doc
    ≡ (fail (new_error type_error), Document.insert n_key (int (pos 5)) doc)
unfolding eval
keeps_the_first = apply_assignments_partial even set_five set_bad (pos 20) doc refl not_id refl

-- an ordered index on n that holds the document
abbrev by_n : Index ℕ
by_n = record (new_index ordered (b'i' ∷ []) n_key) {
  entries = (int (pos 4), (b'a' ∷ []) ∷ []) ∷ [];
}

abbrev indexes : IndexManager ℕ
indexes = (b'i' ∷ [], by_n) ∷ []

finds_n : find_index_for_field n_key indexes ≡ some by_n
unfolding find_index_for_field text_eq bytes_eq
finds_n = refl

plans_scan :
    access_for indexes (some less_than_five)
    ≡ index_range_scan
        (b'i' ∷ [])
        (record { start = Index.unbounded; end = Index.excluded (int (pos 5)) })
unfolding access_for find_index_for_field text_eq bytes_eq
plans_scan = refl

holds_n : Document.lookup n_key doc ≡ some (int (pos 4))
unfolding Document.lookup Document.get_path Value.get split_dots walk text_eq bytes_eq
holds_n = refl

access_for-in_range_example :
    matches_filter even (some less_than_five) doc
    ≡ done (
        in_range even
          (record { start = Index.unbounded; end = Index.excluded (int (pos 5)) })
          (int (pos 4)))
access_for-in_range_example =
    access_for-in_range even indexes (compares BinaryOp.lt n_key (int (pos 5))) (b'i' ∷ [])
      (record { start = Index.unbounded; end = Index.excluded (int (pos 5)) }) doc (int (pos 4))
      plans_scan not_id holds_n

nine_above_one : value_cmp even (int (pos 9)) (int (pos 1)) ≡ Ordering.gt
unfolding value_cmp
nine_above_one = refl

between_panics_example :
    (access_for indexes
        (some (between (field n_key) (literal (int (pos 9))) (literal (int (pos 1)))))
      ≡ index_range_scan (b'i' ∷ []) (Index.between_inclusive (int (pos 9)) (int (pos 1))))
    × (scan even ordered (Index.between_inclusive (int (pos 9)) (int (pos 1))) by_n.entries
        ≡ range_panic)
    × ((b : Bool) × (matches_filter even
            (some (between (field n_key) (literal (int (pos 9))) (literal (int (pos 1)))))
            doc
          ≡ done b))
between_panics_example =
    between_panics even indexes n_key (int (pos 9)) (int (pos 1)) by_n (int (pos 4))
      ((b'a' ∷ []) ∷ []) [] doc finds_n refl refl nine_above_one

abbrev bare : Document ℕ
bare = record doc { fields = end }

lacks_n : Document.lookup n_key bare ≡ none
unfolding Document.lookup Document.get_path Value.get split_dots walk text_eq bytes_eq
lacks_n = refl

missing_field_example :
    (matches_filter even (some (binary BinaryOp.lt (field n_key) (literal (int (pos 5))))) bare
      ≡ done true)
    × (matches_filter even (some (binary BinaryOp.lt_eq (field n_key) (literal (int (pos 5))))) bare
        ≡ done true)
    × (index_insert even bare by_n ≡ by_n)
missing_field_example =
    missing_field even n_key (int (pos 5)) bare by_n not_id lacks_n (omega arith) refl

equal_to_itself : same even hash (int (pos 4)) (int (pos 4)) ≡ true
unfolding value_eq hash_value to_be_bytes bytes_eq
equal_to_itself = refl

found_and_counted :
    (has
        (b'b' ∷ [])
        (lookup even hash (int (pos 4)) (hash_insert even (int (pos 4)) (b'b' ∷ []) by_n.entries))
      ≡ true)
    × (len even (hash_insert even (int (pos 4)) (b'b' ∷ []) by_n.entries)
        ≡ len even by_n.entries
          + (if has (b'b' ∷ []) (lookup even hash (int (pos 4)) by_n.entries) then 0 else 1))
found_and_counted = hash_insert_lem even (int (pos 4)) (b'b' ∷ []) by_n.entries equal_to_itself
