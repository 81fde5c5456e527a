-- ===== src/Core/Value/Order.antt =====
-- The order on values: what holds of it.
use Prim.Native.Nat.{compare, Ordering}
use nova_db.Base.{ℕ, ◌≡◌, refl, [], ◌∷◌, arith}
use nova_db.Base.Text.{Text, text_cmp}
use nova_db.Core.Value.{
  Value, Values, Fields, Float, null, bool, int, float, string, bytes, array, object, timestamp,
  uuid, nil, cons, end, field, value_cmp, values_cmp, fields_cmp, tag, bool_cmp, then_cmp,
}

-- `Ordering::reverse`
abbrev pub flip : Ordering → Ordering
flip Ordering.lt = Ordering.gt
flip Ordering.eq = Ordering.eq
flip Ordering.gt = Ordering.lt

-- What `f64::total_cmp` is documented to be: a total order on floats.
pub record IsTotal {F : Type 0} (fl : Float F) : Type 0 where
  pub total_flip : (a b : F) → fl.total_cmp b a ≡ flip (fl.total_cmp a b)
  pub total_refl : (a : F) → fl.total_cmp a a ≡ Ordering.eq

pub compare-flip : (a b : ℕ) → compare b a ≡ flip (compare a b)
compare-flip a b = ground arith

pub text_cmp-flip : (a b : Text) → text_cmp b a ≡ flip (text_cmp a b)
unfolding text_cmp
text_cmp-flip [] [] = refl
text_cmp-flip [] (y ∷ ys) = refl
text_cmp-flip (x ∷ xs) [] = refl
text_cmp-flip (x ∷ xs) (y ∷ ys) = ground (arith, text_cmp-flip xs ys)

bool_cmp-flip : (a b : _) → bool_cmp b a ≡ flip (bool_cmp a b)
bool_cmp-flip a b = ground arith

then_cmp-flip :
    (o p o' p' : Ordering) → o' ≡ flip o → p' ≡ flip p → then_cmp o' p' ≡ flip (then_cmp o p)
then_cmp-flip o p o' p' h k = ground arith

module _ {F : Type 0} {fl : Float F} (laws : IsTotal fl) where
  mutual
    unfolding value_cmp

    cmp_flip : (a b : Value F) → value_cmp fl b a ≡ flip (value_cmp fl a b)
    cmp_flip null null = refl
    cmp_flip (bool a) (bool b) = bool_cmp-flip a b
    cmp_flip (int a) (int b) = compare-flip _ _
    cmp_flip (float a) (float b) = laws.total_flip a b
    cmp_flip (int a) (float b) = laws.total_flip (fl.of_int a) b
    cmp_flip (float a) (int b) = laws.total_flip a (fl.of_int b)
    cmp_flip (string a) (string b) = text_cmp-flip a b
    cmp_flip (bytes a) (bytes b) = text_cmp-flip a b
    cmp_flip (timestamp a) (timestamp b) = compare-flip _ _
    cmp_flip (uuid a) (uuid b) = text_cmp-flip a b
    cmp_flip (array a) (array b) = values_flip a b
    cmp_flip (object a) (object b) = fields_flip a b
    cmp_flip a b = compare-flip (tag a) (tag b)

    values_flip : (a b : Values F) → values_cmp fl b a ≡ flip (values_cmp fl a b)
    values_flip nil nil = refl
    values_flip nil (cons y ys) = refl
    values_flip (cons x xs) nil = refl
    values_flip (cons x xs) (cons y ys) = then_cmp-flip _ _ _ _ (cmp_flip x y) (values_flip xs ys)

    fields_flip : (a b : Fields F) → fields_cmp fl b a ≡ flip (fields_cmp fl a b)
    fields_flip end end = refl
    fields_flip end (field k w n) = refl
    fields_flip (field j v m) end = refl
    fields_flip (field j v m) (field k w n) =
        then_cmp-flip _ _ _ _ (text_cmp-flip j k)
          (then_cmp-flip _ _ _ _ (cmp_flip v w) (fields_flip m n))

-- If the order on floats is as documented (IsTotal), comparing the other way round reverses the
-- result, for all values.
pub value_cmp-flip :
    {F : Type 0} {fl : Float F} (a b : Value F)
    → IsTotal fl
    → value_cmp fl b a ≡ flip (value_cmp fl a b)
value_cmp-flip a b laws = cmp_flip laws a b
