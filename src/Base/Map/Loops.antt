-- ===== src/Base/Map/Loops.antt =====
-- The loops that fill a new map from another one.
use nova_db.Base.{
  none≢some, false≢true, ◌≡◌, refl, sym, ap, ◌∙◌, false, true, Bool-cases, Option-cases, inl, inr,
  [], ◌∷◌, Option, none, some, if◌then◌else◌,
}
use nova_db.Base.Map.{Eq, Map, get, insert, get-insert, IsDistinct}

eq→beq : {K : Type 0} ⦃e : Eq K⦄ (a b : K) → a ≡ b → e.beq a b ≡ true
eq→beq ⦃e⦄ a b p = rw p (e.beq_refl b)

-- what a key is bound to: its value, converted, or what it was bound to before
abbrev pub pick : {V W : Type 0} → (V → W) → Option V → Option W → Option W
pick conv (some v) old = some (conv v)
pick conv none old = old

module _ {K J V W : Type 0} ⦃eK : Eq K⦄ ⦃eJ : Eq J⦄ (parse : K → Option J) (conv : V → W) where
  -- one round: an entry whose key does not parse is skipped
  abbrev pub put_parsed : Option J → V → Map J W → Map J W
  put_parsed none v acc = acc
  put_parsed (some j) v acc = insert j (conv v) acc

  -- `for (k, v) in map { if let Some(j) = parse(k) { acc.insert(j, conv(v)); } }`
  unfoldable pub insert_each : Map K V → Map J W → Map J W
  unfolding insert
  insert_each [] acc = acc
  insert_each ((k, v) ∷ m) acc = insert_each m (put_parsed (parse k) v acc)

  -- the key `k` is the only one in the map that gives `j`
  abbrev pub IsOnly : K → J → Map K V → Type 0
  IsOnly k j m = (k' : K) (v' : V) → get k' m ≡ some v' → parse k' ≡ some j → k' ≡ k

  put_same :
      (h : K) (j : J) (v : V) (acc : Map J W)
      → parse h ≡ some j
      → get j (put_parsed (parse h) v acc) ≡ some (conv v)
  put_same h j v acc parsed =
      rw (parsed, put_parsed) (get-insert j j (conv v) acc ∙ rw (eJ.beq_refl j) refl)

  put_other :
      (k h : K) (j : J) (v : V) (acc : Map J W)
      → (parse h ≡ some j → h ≡ k)
      → eK.beq h k ≡ false
      → get j (put_parsed (parse h) v acc) ≡ get j acc
  put_other k h j v acc only other = elim (Option-cases (parse h)) [
    | inl skipped ↦ rw (skipped, put_parsed) refl
    | inr (i, parsed) ↦
        rw (parsed, put_parsed)
          (get-insert i j (conv v) acc ∙ (elim (Bool-cases (eJ.beq i j)) [
            | inl same ↦
                absurd (
                  false≢true
                    (sym other ∙ eq→beq h k (only (parsed ∙ ap some (eJ.beq_eq i j same)))))
            | inr apart ↦ rw apart refl
          ]))
  ]

  tail-IsOnly :
      (k h : K) (j : J) (v : V) (m : Map K V)
      → IsOnly k j ((h, v) ∷ m)
      → get h m ≡ none
      → IsOnly k j m
  unfolding get
  tail-IsOnly k h j v m only absent k' v' found parsed =
      only k' v'
        (elim (Bool-cases (eK.beq h k')) [
          | inl same ↦ absurd (none≢some {a = v'} (sym absent ∙ rw (eK.beq_eq h k' same) found))
          | inr apart ↦ rw apart found
        ])
        parsed

  pub get-insert_each :
      (k : K) (j : J) (m : Map K V) (acc : Map J W)
      → parse k ≡ some j
      → IsOnly k j m
      → IsDistinct m
      → get j (insert_each m acc) ≡ pick conv (get k m) (get j acc)
  unfolding get insert_each
  get-insert_each k j [] acc parsed only d = refl
  get-insert_each k j ((h, v) ∷ m) acc parsed only (absent, d) =
      get-insert_each k j m (put_parsed (parse h) v acc) parsed (tail-IsOnly k h j v m only absent)
        d
      ∙ (elim (Bool-cases (eK.beq h k)) [
        | inl same ↦
            let absent' : get k m ≡ none = rw (← eK.beq_eq h k same) absent in
            let parsed' : parse h ≡ some j = rw (eK.beq_eq h k same) parsed in
            rw absent' (rw (same, if◌then◌else◌) (put_same h j v acc parsed'))
        | inr other ↦
            rw (other, put_other k h j v acc (λ p. only h v (rw (eK.beq_refl h) refl) p) other) refl
      ])
