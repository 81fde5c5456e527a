-- ===== src/Query/Evaluator.antt =====
-- crates/nova-query/src/evaluator.rs: evaluation of expressions against a document.
-- Integer arithmetic is that of a release build, where `+`, `-`, `*` and negation wrap around; a
-- division or remainder of the least integer by -1 panics in every build.
pub mod Laws
use Prim.Native.Nat.{Ordering}
use nova_db.Base.{
  ℕ, ◌-◌, ◌^◌, Bool, true, false, not, ◌&&◌, ◌||◌, List, [], ◌∷◌, ◌++◌, Option, none, some,
}
use nova_db.Base.{if◌then◌else◌}
use nova_db.Base.Int.{
  ℤ, pos, negsuc, int_eq, wrapping_add, wrapping_sub, wrapping_mul, wrapping_neg, div, rem,
}
use nova_db.Base.Text.{Text}
use nova_db.Core.Error.{invalid_query, type_error}
use nova_db.Core.Value
use nova_db.Core.Value.{
  Value, Float, null, bool, int, float, string, bytes, array, object, timestamp, uuid,
}
use nova_db.Core.Value.{value_eq, value_cmp, is_less, is_equal, is_greater}
use nova_db.Core.Document
use nova_db.Core.Document.{Document, is_id}
use nova_db.Query.Ast.{
  BinaryOp, UnaryOp, Expr, Exprs, Assignment, literal, field, binary, unary, in_list, between, nil,
  cons,
}
use nova_db.Core.Outcome.{Outcome, done, fail, panic, raise, ◌>>=◌}

abbrev pub or_null : {F : Type 0} → Option (Value F) → Value F
or_null none = null
or_null (some v) = v

abbrev min_by_minus_one : ℤ → ℤ → Bool
min_by_minus_one a b = int_eq a (negsuc (2 ^ 63 - 1)) && int_eq b (negsuc 0)

-- the `Field` arm of `eval`
unfoldable pub field_value : {F : Type 0} → Text → Document F → Value F
field_value path doc = if is_id path then string doc.id else or_null (Document.lookup path doc)

-- the end of `apply_assignments`, which an error skips
abbrev pub bump : {F : Type 0} → ℤ → Outcome Bool × Document F → Outcome Bool × Document F
bump now (done b, doc) = (done b, Document.advance_version now doc)
bump now (o, doc) = (o, doc)

module _ {F : Type 0} (fl : Float F) where
  unfoldable pub is_truthy : Value F → Bool
  is_truthy null = false
  is_truthy (bool b) = b
  is_truthy (int i) = not (int_eq i (pos 0))
  is_truthy (float f) = not (fl.feq f fl.zero) && not (fl.is_nan f)
  is_truthy (string []) = false
  is_truthy (string (c ∷ s)) = true
  is_truthy (bytes []) = false
  is_truthy (bytes (b ∷ s)) = true
  is_truthy (array Value.nil) = false
  is_truthy (array (Value.cons v vs)) = true
  is_truthy (object Value.end) = false
  is_truthy (object (Value.field k v m)) = true
  is_truthy (timestamp t) = not (int_eq t (pos 0))
  is_truthy (uuid u) = true

  unfoldable pub negate_value : Value F → Outcome (Value F)
  negate_value (int i) = done (int (wrapping_neg i))
  negate_value (float f) = done (float (fl.neg f))
  negate_value _ = raise type_error

  unfoldable pub add_values : Value F → Value F → Outcome (Value F)
  add_values (int a) (int b) = done (int (wrapping_add a b))
  add_values (float a) (float b) = done (float (fl.add a b))
  add_values (int a) (float b) = done (float (fl.add (fl.of_int a) b))
  add_values (float a) (int b) = done (float (fl.add a (fl.of_int b)))
  add_values (string a) (string b) = done (string (a ++ b))
  add_values _ _ = raise invalid_query

  unfoldable pub sub_values : Value F → Value F → Outcome (Value F)
  sub_values (int a) (int b) = done (int (wrapping_sub a b))
  sub_values (float a) (float b) = done (float (fl.sub a b))
  sub_values (int a) (float b) = done (float (fl.sub (fl.of_int a) b))
  sub_values (float a) (int b) = done (float (fl.sub a (fl.of_int b)))
  sub_values _ _ = raise invalid_query

  unfoldable pub mul_values : Value F → Value F → Outcome (Value F)
  mul_values (int a) (int b) = done (int (wrapping_mul a b))
  mul_values (float a) (float b) = done (float (fl.mul a b))
  mul_values (int a) (float b) = done (float (fl.mul (fl.of_int a) b))
  mul_values (float a) (int b) = done (float (fl.mul a (fl.of_int b)))
  mul_values _ _ = raise invalid_query

  unfoldable pub div_values : Value F → Value F → Outcome (Value F)
  div_values (int a) (int b) =
      if int_eq b (pos 0)
      then raise invalid_query
      else if min_by_minus_one a b
      then panic
      else done (int (div a b))
  div_values (float a) (float b) = done (float (fl.div a b))
  div_values (int a) (float b) = done (float (fl.div (fl.of_int a) b))
  div_values (float a) (int b) = done (float (fl.div a (fl.of_int b)))
  div_values _ _ = raise invalid_query

  unfoldable pub rem_values : Value F → Value F → Outcome (Value F)
  rem_values (int a) (int b) =
      if int_eq b (pos 0)
      then raise invalid_query
      else if min_by_minus_one a b
      then panic
      else done (int (rem a b))
  rem_values _ _ = raise invalid_query

  -- the match on the operator behind the two short-circuit ones
  unfoldable pub apply_binary : BinaryOp → Value F → Value F → Outcome (Value F)
  unfolding add_values sub_values mul_values div_values rem_values
  apply_binary BinaryOp.eq l r = done (bool (value_eq fl l r))
  apply_binary BinaryOp.not_eq l r = done (bool (not (value_eq fl l r)))
  apply_binary BinaryOp.gt l r = done (bool (is_greater (value_cmp fl l r)))
  apply_binary BinaryOp.gt_eq l r =
      let ord = value_cmp fl l r in done (bool (is_greater ord || is_equal ord))
  apply_binary BinaryOp.lt l r = done (bool (is_less (value_cmp fl l r)))
  apply_binary BinaryOp.lt_eq l r =
      let ord = value_cmp fl l r in done (bool (is_less ord || is_equal ord))
  apply_binary BinaryOp.plus l r = add_values l r
  apply_binary BinaryOp.minus l r = sub_values l r
  apply_binary BinaryOp.multiply l r = mul_values l r
  apply_binary BinaryOp.divide l r = div_values l r
  apply_binary BinaryOp.modulo l r = rem_values l r
  -- `unreachable!()`
  apply_binary BinaryOp.and l r = panic
  apply_binary BinaryOp.or l r = panic

  abbrev pub is_between : Value F → Value F → Value F → Bool
  is_between v lo hi = not (is_less (value_cmp fl v lo)) && not (is_greater (value_cmp fl v hi))

  unfoldable mutual
    unfolding is_truthy negate_value apply_binary field_value

    pub eval : Expr F → Document F → Outcome (Value F)
    eval (literal v) doc = done v
    eval (field path) doc = done (field_value path doc)
    eval (unary UnaryOp.not e) doc = do inner ← eval e doc; done (bool (not (is_truthy inner)))
    eval (unary UnaryOp.negate e) doc = do inner ← eval e doc; negate_value inner
    eval (binary BinaryOp.and l r) doc = do
      l_val ← eval l doc
      if not (is_truthy l_val)
          then done (bool false)
          else do r_val ← eval r doc; done (bool (is_truthy r_val))
    eval (binary BinaryOp.or l r) doc = do
      l_val ← eval l doc
      if is_truthy l_val
          then done (bool true)
          else do r_val ← eval r doc; done (bool (is_truthy r_val))
    eval (binary op l r) doc = do
      l_val ← eval l doc
      r_val ← eval r doc
      apply_binary op l_val r_val
    eval (between e lo hi) doc = do
      v ← eval e doc
      lo_val ← eval lo doc
      hi_val ← eval hi doc
      done (bool (is_between v lo_val hi_val))
    eval (in_list e items) doc = do v ← eval e doc; found ← find_in v items doc; done (bool found)

    -- the loop of the `In` arm
    pub find_in : Value F → Exprs F → Document F → Outcome Bool
    find_in v nil doc = done false
    find_in v (cons item items) doc = do
      item_val ← eval item doc
      if value_eq fl v item_val then done true else find_in v items doc

  unfoldable pub matches_filter : Option (Expr F) → Document F → Outcome Bool
  matches_filter none doc = done true
  matches_filter (some e) doc = do v ← eval e doc; done (is_truthy v)

  -- The loop of `apply_assignments`: the document as it stands when the loop ends or fails, since the
  -- code assigns in place.
  unfoldable pub assign_all : List (Assignment F) → Document F → Outcome Bool × Document F
  assign_all [] doc = (done true, doc)
  assign_all (a ∷ rest) doc = elim (eval a.expr doc) [
    | fail e ↦ (fail e, doc)
    | panic ↦ (panic, doc)
    | done v ↦
        if is_id a.field
        then (raise invalid_query, doc)
        else assign_all rest (Document.insert a.field v doc)
  ]

  unfoldable pub apply_assignments :
      List (Assignment F) → ℤ → Document F → Outcome Bool × Document F
  unfolding assign_all
  apply_assignments assignments now doc = bump now (assign_all assignments doc)
