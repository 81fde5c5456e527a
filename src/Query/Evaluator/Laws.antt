-- ===== src/Query/Evaluator/Laws.antt =====
-- What the evaluator computes: laws between operators, and updates.
use nova_db.Base.{Bool-cases, inl, inr}
use nova_db.Base.{◌+◌, ◌%◌, ◌^◌, ◌≡◌, refl, Bool, false, List, [], ◌∷◌, arith}
use nova_db.Base.Int.{ℤ}
use nova_db.Core.Value.{Value, Float}
use nova_db.Core.Document
use nova_db.Core.Document.{Document, is_id}
use nova_db.Core.Error.{NovaError}
use nova_db.Query.Ast.{
  BinaryOp, UnaryOp, Expr, Exprs, Assignment, binary, unary, in_list, between, cons,
}
use nova_db.Core.Outcome.{Outcome, done, fail, panic, Outcome-cases}
use nova_db.Query.Evaluator.{eval, assign_all, bump, apply_assignments}

-- NOT (a AND b) and (NOT a) OR (NOT b) give the same result, the same error or the same panic.
pub eval_de_morgan :
    {F : Type 0} (fl : Float F) (l r : Expr F) (doc : Document F)
    → eval fl (unary UnaryOp.not (binary BinaryOp.and l r)) doc
      ≡ eval fl (binary BinaryOp.or (unary UnaryOp.not l) (unary UnaryOp.not r)) doc
unfolding eval
eval_de_morgan fl l r doc = ground arith

-- BETWEEN is the conjunction of >= and <=, where its operands have values.
pub eval_between :
    {F : Type 0} (fl : Float F) (e lo hi : Expr F) (doc : Document F) {v a b : Value F}
    → eval fl e doc ≡ done v
    → eval fl lo doc ≡ done a
    → eval fl hi doc ≡ done b
    → eval fl (between e lo hi) doc
      ≡ eval fl (binary BinaryOp.and (binary BinaryOp.gt_eq e lo) (binary BinaryOp.lt_eq e hi)) doc
unfolding eval
eval_between fl e lo hi doc p q r = ground arith

-- IN over a list is an equality with its first item, or IN over the others, where the operand has a
-- value.
pub eval_in_list :
    {F : Type 0} (fl : Float F) (e item : Expr F) (items : Exprs F) (doc : Document F) {v : Value F}
    → eval fl e doc ≡ done v
    → eval fl (in_list e (cons item items)) doc
      ≡ eval fl (binary BinaryOp.or (binary BinaryOp.eq e item) (in_list e items)) doc
unfolding eval
eval_in_list fl e item items doc p = ground arith

-- What an update leaves of a document, whether it succeeds or not.
pub record IsUpdate {F : Type 0} (now : ℤ) (doc : Document F) (o : Outcome Bool) (doc' : Document F)
    : Type 0 where
  pub id_kept : doc'.id ≡ doc.id
  pub created_kept : doc'.created_at ≡ doc.created_at
  pub version_done : (b : Bool) → o ≡ done b → doc'.version ≡ (doc.version + 1) % 2 ^ 64
  pub updated_done : (b : Bool) → o ≡ done b → doc'.updated_at ≡ now
  pub version_fail : (e : NovaError) → o ≡ fail e → doc'.version ≡ doc.version

bump_keeps :
    {F : Type 0} (now : ℤ) (doc : Document F) (r : Outcome Bool × Document F)
    → ((r.1.id ≡ doc.id) × (r.1.created_at ≡ doc.created_at) × (r.1.version ≡ doc.version))
    → IsUpdate now doc (bump now r).0 (bump now r).1
unfolding Document.advance_version
bump_keeps now doc (done b, d) (i, c, v) = record {
  id_kept = i;
  created_kept = c;
  version_done = λ b' p. rw v refl;
  updated_done = λ b' p. refl;
  version_fail = λ e p. cc;
}
bump_keeps now doc (fail e, d) (i, c, v) = record {
  id_kept = i;
  created_kept = c;
  version_done = λ b' p. cc;
  updated_done = λ b' p. cc;
  version_fail = λ e' p. v;
}
bump_keeps now doc (panic, d) (i, c, v) = record {
  id_kept = i;
  created_kept = c;
  version_done = λ b' p. cc;
  updated_done = λ b' p. cc;
  version_fail = λ e' p. v;
}

assign_all_keeps :
    {F : Type 0} (fl : Float F) (todo : List (Assignment F)) (doc : Document F)
    → ((assign_all fl todo doc).1.id ≡ doc.id)
      × ((assign_all fl todo doc).1.created_at ≡ doc.created_at)
      × ((assign_all fl todo doc).1.version ≡ doc.version)
unfolding assign_all Document.insert
assign_all_keeps fl [] doc = (refl, refl, refl)
assign_all_keeps fl (a ∷ rest) doc = elim (Outcome-cases (eval fl a.expr doc)) [
  | inr (inl (e, p)) ↦ rw (p, assign_all) (refl, refl, refl)
  | inr (inr p) ↦ rw (p, assign_all) (refl, refl, refl)
  | inl (v, p) ↦ elim (Bool-cases (is_id a.field)) [
    | inl id ↦ rw (p, assign_all) (rw id (refl, refl, refl))
    | inr other ↦
        rw (p, assign_all) (rw other (assign_all_keeps fl rest (Document.insert a.field v doc)))
  ]
]

-- An update keeps the id and the creation time. If every assignment succeeds, the version is one
-- higher modulo 2^64 and the update time is set; if one fails, the version stays.
pub apply_assignments-IsUpdate :
    {F : Type 0} (fl : Float F) (todo : List (Assignment F)) (now : ℤ) (doc : Document F)
    → IsUpdate now doc (apply_assignments fl todo now doc).0 (apply_assignments fl todo now doc).1
unfolding apply_assignments Document.advance_version
apply_assignments-IsUpdate fl todo now doc =
    bump_keeps now doc (assign_all fl todo doc) (assign_all_keeps fl todo doc)

-- Of two assignments, the first to a field other than the id, a failing second one does not undo
-- the first: the result is the error, and the document keeps the new value under its old version.
pub apply_assignments_partial :
    {F : Type 0} (fl : Float F) (a b : Assignment F) (now : ℤ) (doc : Document F) {v : Value F}
    {e : NovaError}
    → eval fl a.expr doc ≡ done v
    → is_id a.field ≡ false
    → eval fl b.expr (Document.insert a.field v doc) ≡ fail e
    → apply_assignments fl (a ∷ b ∷ []) now doc ≡ (fail e, Document.insert a.field v doc)
unfolding apply_assignments assign_all
apply_assignments_partial fl a b now doc p n q = rw (p, assign_all) (rw n (rw (q, assign_all)))
