-- ===== src/Server/Engine/Found.antt =====
-- crates/nova-server/src/engine.rs: the answers of FIND.
use nova_db.Base.{
  ℕ, zero, suc, ◌≤◌, ◌≡◌, refl, sym, ◌∙◌, ap, subst, Bool, true, false, List, [], ◌∷◌, Option, none,
  some, arith, Bool-cases, Option-cases, inl, inr, length, take, drop, All, leb, length-take,
}
use nova_db.Base.Map
use nova_db.Base.Map.{Map, text_eq, pair_eq}
use nova_db.Core.Document.{Document}
use nova_db.Core.DocumentId.{DocumentId}
use nova_db.Core.Outcome.{Outcome, done, fail, panic, ◌>>=◌}
use nova_db.Core.Value.{Float}
use nova_db.Index.Entries.{Ids}
use nova_db.Index.Manager.{IndexManager, find_index_for_field}
use nova_db.Protocol.Payload.{ResponsePayload, records}
use nova_db.Protocol.Payload
use nova_db.Query.Ast.{Expr, SortClause}
use nova_db.Query.Evaluator.{matches_filter}
use nova_db.Query.Planner.{plan, access_for, seq_scan}
use nova_db.Server.Engine.{DatabaseEngine, DocumentStore}
use nova_db.Server.Engine.Reads.{
  execute_find, find_in_store, candidate_ids, filter_candidates, keep_if, sort_by, insert_sorted,
  sort_results, page, or_zero, up_to,
}
use nova_db.Storage.Recovery.{CollectionKey, or_default}

pub >>=-eq-done :
    {A B : Type 0} (m : Outcome A) (f : A → Outcome B) {b : B}
    → (m >>= f) ≡ done b
    → (a : A) × (m ≡ done a) × (f a ≡ done b)
>>=-eq-done (done a) f h = (a, refl, h)
>>=-eq-done (fail e) f h = cc
>>=-eq-done panic f h = cc

pub done-injective : {A : Type 0} {a b : A} → done a ≡ done b → a ≡ b
done-injective h = cc

pub records-injective :
    {F : Type 0} {ds es : List (Document F)} {m n : ℕ}
    → records ds m ≡ records es n
    → (ds ≡ es) × (m ≡ n)
records-injective h = (cc, cc)

abbrev pub Within : ℕ → Option ℕ → Type 0
Within n none = Unit {0}
Within n (some l) = n ≤ l

none-Within : (l : Option ℕ) → Within 0 l
none-Within none = tt
none-Within (some n) = omega arith

pub count-injective :
    {F : Type 0} {m n : ℕ} → ◌≡◌ {A = ResponsePayload F} (Payload.count m) (Payload.count n) → m ≡ n
count-injective h = cc

pub access_for-nil :
    {F : Type 0} (filter : Option (Expr F)) → access_for [] filter ≡ seq_scan filter
unfolding access_for find_index_for_field
access_for-nil none = refl
access_for-nil (some e) = ground arith

module _ {F : Type 0} (fl : Float F) where
  length-insert_sorted :
      (clause : SortClause) (d : Document F) (docs : List (Document F))
      → length (insert_sorted fl clause d docs) ≡ suc (length docs)
  unfolding insert_sorted
  length-insert_sorted clause d [] = refl
  length-insert_sorted clause d (e ∷ docs) = ground (arith, length-insert_sorted clause d docs)

  pub length-sort_results :
      (sort : Option SortClause) (docs : List (Document F))
      → length (sort_results fl sort docs) ≡ length docs
  unfolding sort_by
  length-sort_results none docs = refl
  length-sort_results (some clause) [] = refl
  length-sort_results (some clause) (d ∷ docs) =
      length-insert_sorted clause d (sort_by fl clause docs)
      ∙ ap suc (length-sort_results (some clause) docs)

module _ {F : Type 0} (fl : Float F) (filter : Option (Expr F)) where
  module _ (P : Document F → Type 0) where
    insert_sorted-All :
        (clause : SortClause) (d : Document F) (docs : List (Document F))
        → P d
        → All P docs
        → All P (insert_sorted fl clause d docs)
    unfolding insert_sorted
    insert_sorted-All clause d [] p ps = (p, tt)
    insert_sorted-All clause d (e ∷ docs) p (q, qs) =
        ground (arith, insert_sorted-All clause d docs p qs)

    sort_results-All :
        (sort : Option SortClause) (docs : List (Document F))
        → All P docs
        → All P (sort_results fl sort docs)
    unfolding sort_by
    sort_results-All none docs ps = ps
    sort_results-All (some clause) [] ps = tt
    sort_results-All (some clause) (d ∷ docs) (p, ps) =
        insert_sorted-All clause d (sort_by fl clause docs) p
          (sort_results-All (some clause) docs ps)

    take-All : (n : ℕ) (docs : List (Document F)) → All P docs → All P (take n docs)
    take-All zero docs ps = tt
    take-All (suc n) [] ps = tt
    take-All (suc n) (d ∷ docs) (p, ps) = (p, take-All n docs ps)

    drop-All : (n : ℕ) (docs : List (Document F)) → All P docs → All P (drop n docs)
    drop-All zero docs ps = ps
    drop-All (suc n) [] ps = tt
    drop-All (suc n) (d ∷ docs) (p, ps) = drop-All n docs ps

    page-All :
        (offset limit : Option ℕ) (docs : List (Document F))
        → All P docs
        → All P (page fl offset limit docs)
    unfolding page
    page-All offset limit docs ps = elim (Bool-cases (leb (length docs) (or_zero fl offset))) [
      | inl past ↦ rw past tt
      | inr inside ↦ rw inside (cut limit)
    ]
      where
        cut : (l : Option ℕ) → All P (up_to fl l (drop (or_zero fl offset) docs))
        cut none = drop-All (or_zero fl offset) docs ps
        cut (some n) = take-All n _ (drop-All (or_zero fl offset) docs ps)

  page-Within :
      (offset limit : Option ℕ) (docs : List (Document F))
      → Within (length (page fl offset limit docs)) limit
  unfolding page
  page-Within offset none docs = tt
  page-Within offset (some n) docs = elim (Bool-cases (leb (length docs) (or_zero fl offset))) [
    | inl past ↦ rw past (omega arith)
    | inr inside ↦ rw inside (omega (arith, length-take n (drop (or_zero fl offset) docs)))
  ]

  -- a document of the collection that passes the filter
  abbrev pub Answers : DocumentStore F → Document F → Type 0
  Answers store doc =
      ((id : DocumentId) × (Map.get id store ≡ some doc))
      × (matches_filter fl filter doc ≡ done true)

  keep_if-All :
      (store : DocumentStore F) (passes : Bool) (doc : Document F) (rest : List (Document F))
      → (id : DocumentId) × (Map.get id store ≡ some doc)
      → matches_filter fl filter doc ≡ done passes
      → All (Answers store) rest
      → All (Answers store) (keep_if fl passes doc rest)
  keep_if-All store true doc rest held m ps = ((held, m), ps)
  keep_if-All store false doc rest held m ps = ps

  pub filter_candidates-All :
      (store : DocumentStore F) (ids : Ids) (docs : List (Document F))
      → filter_candidates fl filter store ids ≡ done docs
      → All (Answers store) docs
  unfolding filter_candidates
  filter_candidates-All store [] docs h = subst (λ ds. All (Answers store) ds) (done-injective h) tt
  filter_candidates-All store (id ∷ ids) docs h = elim (Option-cases (Map.get id store)) [
    | inl gone ↦ filter_candidates-All store ids docs (rw (gone, filter_candidates) at h)
    | inr (doc, found) ↦
        let (passes, m, k) =
          >>=-eq-done (matches_filter fl filter doc) _ (rw (found, filter_candidates) at h) in
        let (rest, r, l) = >>=-eq-done (filter_candidates fl filter store ids) _ k in
        subst (λ ds. All (Answers store) ds) (done-injective l)
          (keep_if-All store passes doc rest (id, found) m (filter_candidates-All store ids rest r))
  ]

  -- the answer of `execute_find` on a collection that is there
  find_in_store-Answers :
      (sort : Option SortClause) (limit offset : Option ℕ) (m : IndexManager F)
      (store : DocumentStore F) (docs : List (Document F)) (n : ℕ)
      → find_in_store fl filter sort limit offset m store ≡ done (records docs n)
      → All (Answers store) docs × (n ≡ length docs) × Within n limit
  unfolding find_in_store
  find_in_store-Answers sort limit offset m store docs n h =
      let (ids, c, k) =
        >>=-eq-done (candidate_ids fl (plan filter sort limit offset m).access m store) _ h in
      let (results, r, l) = >>=-eq-done (filter_candidates fl filter store ids) _ k in
      let paged = page fl offset limit (sort_results fl sort results) in
      let (same, size) = records-injective (done-injective l) in
      let all = page-All (Answers store) offset limit (sort_results fl sort results) (
        sort_results-All (Answers store) sort results
          (filter_candidates-All store ids results r)) in
      (
        subst (λ ds. All (Answers store) ds) same all,
        sym size ∙ ap (λ (ds : List (Document F)). length ds) same,
        subst (λ k. Within k limit) size (page-Within offset limit (sort_results fl sort results)),
      )

  -- If FIND answers with documents, whatever plan was taken, each is a document of the collection
  -- that passes the filter, the count is their number, and a limit bounds it.
  pub execute_find-Answers :
      (key : CollectionKey) (sort : Option SortClause) (limit offset : Option ℕ)
      (s : DatabaseEngine F) (docs : List (Document F)) (n : ℕ)
      → execute_find fl key filter sort limit offset s ≡ done (records docs n)
      → All (Answers (or_default (Map.get key s.collections))) docs
        × (n ≡ length docs)
        × Within n limit
  unfolding execute_find
  execute_find-Answers key sort limit offset s docs n h =
      elim (Option-cases (Map.get key s.collections)) [
        | inl absent ↦
            let (same, size) =
              records-injective (done-injective (rw (absent, execute_find) at h)) in
            rw absent (rw (← same) (rw (← size) (tt, refl, none-Within limit)))
        | inr (store, found) ↦
            rw found (
              find_in_store-Answers sort limit offset _ store docs n
                (rw (found, execute_find) at h))
      ]
