-- ===== src/Base/Map/Filled.antt =====
-- Maps that a loop over another map fills: their keys are distinct, and their values are converted.
use nova_db.Base.{◌≡◌, some-injective, Bool-cases, inl, inr, subst, [], ◌∷◌, Option, none, some}
use nova_db.Base.Map.{Eq, Map, get, get-insert, IsDistinct}
use nova_db.Base.Map.Loops.{insert_each, put_parsed}
use nova_db.Base.Map.Splits.{insert-IsDistinct}

module _ {K J V W : Type 0} ⦃eK : Eq K⦄ ⦃eJ : Eq J⦄ (parse : K → Option J) (conv : V → W) where
  put_parsed-IsDistinct :
      (o : Option J) (v : V) (acc : Map J W)
      → IsDistinct acc
      → IsDistinct (put_parsed parse conv o v acc)
  put_parsed-IsDistinct none v acc d = d
  put_parsed-IsDistinct (some j) v acc d = insert-IsDistinct j (conv v) acc d

  pub insert_each-IsDistinct :
      (m : Map K V) (acc : Map J W) → IsDistinct acc → IsDistinct (insert_each parse conv m acc)
  unfolding insert_each
  insert_each-IsDistinct [] acc d = d
  insert_each-IsDistinct ((k, v) ∷ m) acc d =
      insert_each-IsDistinct m (put_parsed parse conv (parse k) v acc)
        (put_parsed-IsDistinct (parse k) v acc d)

  -- what holds of every value
  abbrev pub AllValues : (W → Type 0) → Map J W → Type 0
  AllValues P m = (j : J) (w : W) → get j m ≡ some w → P w

  module _ (P : W → Type 0) (made : (v : V) → P (conv v)) where
    put_parsed-AllValues :
        (o : Option J) (v : V) (acc : Map J W)
        → AllValues P acc
        → AllValues P (put_parsed parse conv o v acc)
    put_parsed-AllValues none v acc all = all
    put_parsed-AllValues (some i) v acc all = λ j w h. elim (Bool-cases (eJ.beq i j)) [
      | inl same ↦
          subst P (some-injective (rw same at (rw (get-insert i j (conv v) acc) at h))) (made v)
      | inr other ↦ all j w (rw other at (rw (get-insert i j (conv v) acc) at h))
    ]

    pub insert_each-AllValues :
        (m : Map K V) (acc : Map J W) → AllValues P acc → AllValues P (insert_each parse conv m acc)
    unfolding insert_each
    insert_each-AllValues [] acc all = all
    insert_each-AllValues ((k, v) ∷ m) acc all =
        insert_each-AllValues m (put_parsed parse conv (parse k) v acc)
          (put_parsed-AllValues (parse k) v acc all)
