-- ===== src/Base/Map/Splits.antt =====
-- Maps whose keys are distinct, cut in front of an entry, as a loop over them meets it.
use nova_db.Base.{
  none≢some, false≢true, ◌≡◌, refl, sym, ap, ◌∙◌, false, Bool-cases, inl, inr, [], ◌∷◌, ◌++◌, none,
  some, if◌then◌else◌,
}
use nova_db.Base.Map.{Eq, Map, get, insert, remove, get-insert, get-remove, IsDistinct}

beq_flip : {K : Type 0} ⦃e : Eq K⦄ (a b : K) → e.beq b a ≡ false → e.beq a b ≡ false
beq_flip ⦃e⦄ a b h = elim (Bool-cases (e.beq a b)) [
  | inl same ↦ absurd (false≢true (sym h ∙ rw (e.beq_eq a b same) (e.beq_refl b)))
  | inr other ↦ other
]

module _ {K V : Type 0} ⦃e : Eq K⦄ where
  pub insert-IsDistinct : (k : K) (v : V) (m : Map K V) → IsDistinct m → IsDistinct (insert k v m)
  unfolding insert get
  insert-IsDistinct k v [] d = (refl, tt)
  insert-IsDistinct k v ((j, w) ∷ m) (new, d) = elim (Bool-cases (e.beq j k)) [
    | inl same ↦ rw (same, if◌then◌else◌) (new, d)
    | inr other ↦
        rw (other, if◌then◌else◌)
          (get-insert k j v m ∙ rw (beq_flip k j other) new, insert-IsDistinct k v m d)
  ]

  pub remove-IsDistinct : (k : K) (m : Map K V) → IsDistinct m → IsDistinct (remove k m)
  unfolding remove
  remove-IsDistinct k [] d = tt
  remove-IsDistinct k ((j, w) ∷ m) (new, d) = elim (Bool-cases (e.beq j k)) [
    | inl same ↦ rw (same, if◌then◌else◌) (remove-IsDistinct k m d)
    | inr other ↦
        rw (other, if◌then◌else◌)
          (get-remove k j m ∙ rw (beq_flip k j other) new, remove-IsDistinct k m d)
  ]

  -- an entry in the middle: its key is not in front of it, and it is what the key is bound to
  pub middle-get :
      (k : K) (v : V) (front back : Map K V)
      → IsDistinct (front ++ (k, v) ∷ back)
      → (get k front ≡ none) × (get k (front ++ (k, v) ∷ back) ≡ some v)
  unfolding get
  middle-get k v [] back d = (refl, rw (e.beq_refl k) refl)
  middle-get k v ((j, w) ∷ front) back (new, d) =
      let (absent, there) = middle-get k v front back d in
      elim (Bool-cases (e.beq j k)) [
        | inl same ↦ absurd (none≢some {a = v} (sym new ∙ (rw (e.beq_eq j k same) there)))
        | inr other ↦ (rw other absent, rw other there)
      ]

  pub insert-middle :
      (k : K) (v w : V) (front back : Map K V)
      → get k front ≡ none
      → insert k v (front ++ (k, w) ∷ back) ≡ front ++ (k, v) ∷ back
  unfolding get insert
  insert-middle k v w [] back h = rw (e.beq_refl k) refl
  insert-middle k v w ((j, u) ∷ front) back h = elim (Bool-cases (e.beq j k)) [
    | inl same ↦ absurd (none≢some {a = u} (sym h ∙ rw same refl))
    | inr other ↦ rw other (ap (λ m. (j, u) ∷ m) (insert-middle k v w front back (rw other at h)))
  ]

  pub insert-end :
      (k : K) (v : V) (front : Map K V)
      → get k front ≡ none
      → insert k v front ≡ front ++ (k, v) ∷ []
  unfolding get insert
  insert-end k v [] h = refl
  insert-end k v ((j, u) ∷ front) h = elim (Bool-cases (e.beq j k)) [
    | inl same ↦ absurd (none≢some {a = u} (sym h ∙ rw same refl))
    | inr other ↦ rw other (ap (λ m. (j, u) ∷ m) (insert-end k v front (rw other at h)))
  ]
