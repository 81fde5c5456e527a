-- ===== src/Core/Value.antt =====
-- crates/nova-core/src/value.rs: the typed value, its conversions, its equality and its order.
-- `F` stands for `f64`; the operations on it that the code calls are the parameter `Float F`.
pub mod Order
pub mod Hash
pub mod Json
use Prim.Native.Nat.{compare, Ordering}
use nova_db.Base.{ℕ, ◌≡◌, Bool, true, false, not, ◌&&◌, ◌||◌, List, [], ◌∷◌, Option, none, some}
use nova_db.Base.{◌==◌, if◌then◌else◌}
use nova_db.Base.Bytes.{Bytes, bytes_eq}
use nova_db.Base.Int.{ℤ, int_cmp, int_eq}
use nova_db.Base.Text.{Text, text_eq, text_cmp}
use nova_db.Core.Error.{Result, ok, err, new_error, type_error}

pub record Float (F : Type 0) : Type 0 where
  -- IEEE `==`, `is_nan` and the total order of `f64::total_cmp`
  pub feq : F → F → Bool
  pub is_nan : F → Bool
  pub total_cmp : F → F → Ordering
  pub partial_cmp : F → F → Option Ordering
  -- `i as f64`, and `f as i64` where `f` has no fraction and is in range; `f64::to_bits`
  pub of_int : ℤ → F
  pub to_int : F → Option ℤ
  pub to_bits : F → ℕ
  pub zero : F
  pub add : F → F → F
  pub sub : F → F → F
  pub mul : F → F → F
  pub div : F → F → F
  pub neg : F → F

-- `BTreeMap<String, Value>` is the list of its entries in the order of the keys.
mutual
  pub data Value (F : Type 0) : Type 0 where
    null : Value F
    bool : Bool → Value F
    int : ℤ → Value F
    float : F → Value F
    string : Text → Value F
    bytes : Bytes → Value F
    array : Values F → Value F
    object : Fields F → Value F
    timestamp : ℤ → Value F
    uuid : Bytes → Value F

  pub data Values (F : Type 0) : Type 0 where
    nil : Values F
    cons : Value F → Values F → Values F

  pub data Fields (F : Type 0) : Type 0 where
    end : Fields F
    field : Text → Value F → Fields F → Fields F

-- `BTreeMap::get` and `BTreeMap::insert`
unfoldable pub get : {F : Type 0} → Text → Fields F → Option (Value F)
unfolding text_eq
get k end = none
get k (field j v m) = if text_eq j k then some v else get k m

unfoldable pub insert : {F : Type 0} → Text → Value F → Fields F → Fields F
unfolding text_cmp
insert k v end = field k v end
insert k v (field j w m) =
    let rest = insert k v m in
    elim (text_cmp k j) [
      | Ordering.lt ↦ field k v (field j w m)
      | Ordering.eq ↦ field j v m
      | Ordering.gt ↦ field j w rest
    ]

-- the tags of `cmp`: Int and Float share one
abbrev pub tag : {F : Type 0} → Value F → ℕ
tag null = 0
tag (bool _) = 1
tag (int _) = 2
tag (float _) = 2
tag (string _) = 3
tag (bytes _) = 4
tag (timestamp _) = 5
tag (uuid _) = 6
tag (array _) = 7
tag (object _) = 8

abbrev pub bool_cmp : Bool → Bool → Ordering
bool_cmp false true = Ordering.lt
bool_cmp true false = Ordering.gt
bool_cmp _ _ = Ordering.eq

abbrev pub bool_eq : Bool → Bool → Bool
bool_eq true b = b
bool_eq false b = not b

-- `ord == Ordering::Less` and the like
abbrev pub is_less : Ordering → Bool
is_less Ordering.lt = true
is_less _ = false

abbrev pub is_equal : Ordering → Bool
is_equal Ordering.eq = true
is_equal _ = false

abbrev pub is_greater : Ordering → Bool
is_greater Ordering.gt = true
is_greater _ = false

-- The first difference decides.
abbrev pub then_cmp : Ordering → Ordering → Ordering
then_cmp Ordering.eq o = o
then_cmp o _ = o

module _ {F : Type 0} (fl : Float F) where
  unfoldable mutual
    unfolding text_eq

    -- `PartialEq::eq`
    pub value_eq : Value F → Value F → Bool
    value_eq null null = true
    value_eq (bool a) (bool b) = bool_eq a b
    value_eq (int a) (int b) = int_eq a b
    value_eq (float a) (float b) = if fl.is_nan a && fl.is_nan b then true else fl.feq a b
    value_eq (int a) (float b) = fl.feq (fl.of_int a) b
    value_eq (float b) (int a) = fl.feq (fl.of_int a) b
    value_eq (string a) (string b) = text_eq a b
    value_eq (bytes a) (bytes b) = bytes_eq a b
    value_eq (array a) (array b) = values_eq a b
    value_eq (object a) (object b) = fields_eq a b
    value_eq (timestamp a) (timestamp b) = int_eq a b
    value_eq (uuid a) (uuid b) = bytes_eq a b
    value_eq _ _ = false

    pub values_eq : Values F → Values F → Bool
    values_eq nil nil = true
    values_eq (cons x xs) (cons y ys) = value_eq x y && values_eq xs ys
    values_eq _ _ = false

    pub fields_eq : Fields F → Fields F → Bool
    fields_eq end end = true
    fields_eq (field j v m) (field k w n) = text_eq j k && (value_eq v w && fields_eq m n)
    fields_eq _ _ = false

  unfoldable mutual
    unfolding text_cmp

    -- `Ord::cmp`: values of different tags are ordered by their tags.
    pub value_cmp : Value F → Value F → Ordering
    value_cmp null null = Ordering.eq
    value_cmp (bool a) (bool b) = bool_cmp a b
    value_cmp (int a) (int b) = int_cmp a b
    value_cmp (float a) (float b) = fl.total_cmp a b
    value_cmp (int a) (float b) = fl.total_cmp (fl.of_int a) b
    value_cmp (float a) (int b) = fl.total_cmp a (fl.of_int b)
    value_cmp (string a) (string b) = text_cmp a b
    value_cmp (bytes a) (bytes b) = text_cmp a b
    value_cmp (timestamp a) (timestamp b) = int_cmp a b
    value_cmp (uuid a) (uuid b) = text_cmp a b
    value_cmp (array a) (array b) = values_cmp a b
    value_cmp (object a) (object b) = fields_cmp a b
    value_cmp a b = compare (tag a) (tag b)

    pub values_cmp : Values F → Values F → Ordering
    values_cmp nil nil = Ordering.eq
    values_cmp nil (cons y ys) = Ordering.lt
    values_cmp (cons x xs) nil = Ordering.gt
    values_cmp (cons x xs) (cons y ys) = then_cmp (value_cmp x y) (values_cmp xs ys)

    pub fields_cmp : Fields F → Fields F → Ordering
    fields_cmp end end = Ordering.eq
    fields_cmp end (field k w n) = Ordering.lt
    fields_cmp (field j v m) end = Ordering.gt
    fields_cmp (field j v m) (field k w n) =
        then_cmp (text_cmp j k) (then_cmp (value_cmp v w) (fields_cmp m n))

  -- `as_int`, `as_float`, `as_bool`, `as_str`: a conversion or a type error
  unfoldable pub as_int : Value F → Result ℤ
  as_int (int i) = ok i
  as_int (float f) = elim (fl.to_int f) [ some i ↦ ok i | none ↦ err (new_error type_error) ]
  as_int _ = err (new_error type_error)

  unfoldable pub as_float : Value F → Result F
  as_float (float f) = ok f
  as_float (int i) = ok (fl.of_int i)
  as_float _ = err (new_error type_error)

  -- `numeric_cmp`
  unfoldable pub numeric_cmp : Value F → Value F → Option Ordering
  numeric_cmp (int a) (int b) = some (int_cmp a b)
  numeric_cmp (float a) (float b) = fl.partial_cmp a b
  numeric_cmp (int a) (float b) = fl.partial_cmp (fl.of_int a) b
  numeric_cmp (float a) (int b) = fl.partial_cmp a (fl.of_int b)
  numeric_cmp _ _ = none

unfoldable pub as_bool : {F : Type 0} → Value F → Result Bool
as_bool (bool b) = ok b
as_bool _ = err (new_error type_error)

unfoldable pub as_str : {F : Type 0} → Value F → Result Text
as_str (string s) = ok s
as_str _ = err (new_error type_error)

-- `str::split('.')`: the parts between the dots, one more than there are dots
unfoldable pub split_dots : Text → Text × List Text
split_dots [] = ([], [])
split_dots (c ∷ s) =
    let (first, others) = split_dots s in
    if c == b'.' then ([], first ∷ others) else (c ∷ first, others)

abbrev pub step_into : {F : Type 0} → Text → Value F → Option (Value F)
step_into part (object map) = get part map
step_into part _ = none

unfoldable pub walk : {F : Type 0} → List Text → Value F → Option (Value F)
unfolding get
walk [] current = some current
walk (part ∷ parts) current = elim (step_into part current) [ none ↦ none | some v ↦ walk parts v ]

-- `Value::get_path`
unfoldable pub get_path : {F : Type 0} → Text → Value F → Option (Value F)
unfolding split_dots walk
get_path path v = let (first, others) = split_dots path in walk (first ∷ others) v
