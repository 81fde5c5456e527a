-- ===== src/Server/Engine/Counted.antt =====
-- crates/nova-server/src/engine.rs: the answers of COUNT and EXISTS.
use nova_db.Base.{
  ℕ, ◌≡◌, refl, sym, ◌∙◌, ap, Bool, true, false, List, [], ◌∷◌, Option, none, some, arith,
  if◌then◌else◌, Option-cases, inl, inr, length, ltb,
}
use nova_db.Base.Bytes.{bytes_eq_refl}
use nova_db.Base.Map
use nova_db.Base.Map.{IsDistinct, Map, text_eq, pair_eq}
use nova_db.Core.Document.{Document}
use nova_db.Core.DocumentId.{DocumentId}
use nova_db.Core.Outcome.{done}
use nova_db.Core.Value.{Float}
use nova_db.Protocol.Payload.{ResponsePayload, records}
use nova_db.Protocol.Payload
use nova_db.Query.Ast.{Expr, SortClause}
use nova_db.Query.Evaluator.{matches_filter}
use nova_db.Query.Planner.{plan}
use nova_db.Server.Engine.{DatabaseEngine, DocumentStore}
use nova_db.Server.Engine.Reads.{
  execute_find, execute_count, execute_exists, find_in_store, candidate_ids, filter_candidates,
  keep_if, sort_results, page, count_matches, any_match, keys, add_if,
}
use nova_db.Server.Engine.Round.{apart}
use nova_db.Storage.Recovery.{CollectionKey, or_default}
use nova_db.Server.Engine.Found.{
  >>=-eq-done, done-injective, records-injective, count-injective, access_for-nil,
  length-sort_results,
}

module _ {F : Type 0} (fl : Float F) (filter : Option (Expr F)) where
  -- EXISTS answers whether COUNT, of the same collection, answers more than zero.
  any_match-count_matches :
      (store : DocumentStore F) (n : ℕ)
      → count_matches fl filter store ≡ done n
      → any_match fl filter store ≡ done (ltb 0 n)
  unfolding count_matches any_match
  any_match-count_matches [] n h = rw (← done-injective h) refl
  any_match-count_matches ((id, doc) ∷ store) n h =
      let (passes, m, k) = >>=-eq-done (matches_filter fl filter doc) _ h in
      let (rest, r, l) = >>=-eq-done (count_matches fl filter store) _ k in
      rw m (settle passes rest (done-injective l) (any_match-count_matches store rest r))
    where
      settle :
          (passes : Bool) (rest : ℕ)
          → add_if fl passes rest ≡ n
          → any_match fl filter store ≡ done (ltb 0 rest)
          → (if passes then done true else any_match fl filter store) ≡ done (ltb 0 n)
      settle true rest e ih = rw (← e) (ground arith)
      settle false rest e ih = rw (← e) ih

  -- If COUNT answers with a number, EXISTS with the same filter answers whether it is above zero.
  pub execute_exists-execute_count :
      (key : CollectionKey) (s : DatabaseEngine F) (n : ℕ)
      → execute_count fl key filter s ≡ done (Payload.count n)
      → execute_exists fl key filter s ≡ done (Payload.exists (ltb 0 n))
  unfolding execute_count execute_exists
  execute_exists-execute_count key s n h =
      let store = or_default (Map.get key s.collections) in
      let (k, c, e) = >>=-eq-done (count_matches fl filter store) _ h in
      let same : k ≡ n = count-injective (done-injective e) in
      rw (any_match-count_matches store k c) (rw same refl)

  add_if-length :
      (passes : Bool) (doc : Document F) (rest docs : List (Document F))
      → keep_if fl passes doc rest ≡ docs
      → add_if fl passes (length rest) ≡ length docs
  add_if-length true doc rest docs e = rw (← e) refl
  add_if-length false doc rest docs e = rw (← e) refl

  length-page : (docs : List (Document F)) → length (page fl none none docs) ≡ length docs
  unfolding page
  length-page docs = ground arith

  candidate_ids-keys :
      (sort : Option SortClause) (store : DocumentStore F)
      → candidate_ids fl (plan filter sort none none []).access [] store ≡ done (keys store)
  unfolding plan candidate_ids
  candidate_ids-keys sort store = rw (access_for-nil filter) refl

  count-candidates :
      (whole store : DocumentStore F) (docs : List (Document F))
      → ((id : DocumentId) (doc : Document F)
          → Map.get id store ≡ some doc
          → Map.get id whole ≡ some doc)
      → IsDistinct store
      → filter_candidates fl filter whole (keys store) ≡ done docs
      → count_matches fl filter store ≡ done (length docs)
  unfolding count_matches filter_candidates Map.get
  count-candidates whole [] docs inside d h = rw (← done-injective h) refl
  count-candidates whole ((id, doc) ∷ store) docs inside (new, d) h =
      let here : Map.get id whole ≡ some doc = inside id doc (rw (bytes_eq_refl id) refl) in
      let (passes, m, k) =
        >>=-eq-done (matches_filter fl filter doc) _ (rw (here, filter_candidates) at h) in
      let (rest, r, l) = >>=-eq-done (filter_candidates fl filter whole (keys store)) _ k in
      let ih =
        count-candidates whole store rest
          (λ id' doc' g. inside id' doc' (rw (apart id id' store new g) g)) d r in
      rw m (rw ih (ap (λ n. done n) (add_if-length passes doc rest docs (done-injective l))))

  -- If there is no index and the ids of the collection differ, COUNT answers with the count that
  -- FIND without limit and offset answers with.
  pub execute_count-execute_find :
      (key : CollectionKey) (s : DatabaseEngine F) (sort : Option SortClause)
      (docs : List (Document F)) (n : ℕ)
      → IsDistinct (or_default (Map.get key s.collections))
      → or_default (Map.get key s.indexes) ≡ []
      → execute_find fl key filter sort none none s ≡ done (records docs n)
      → execute_count fl key filter s ≡ done (Payload.count n)
  unfolding execute_find execute_count find_in_store
  execute_count-execute_find key s sort docs n d bare h =
      elim (Option-cases (Map.get key s.collections)) [
        | inl absent ↦
            let (same, size) =
              records-injective (done-injective (rw (absent, execute_find) at h)) in
            rw absent (unfold count_matches in rw (← size) refl)
        | inr (store, found) ↦
            let h' : find_in_store fl filter sort none none [] store ≡ done (records docs n) =
              rw bare at (rw (found, execute_find) at h) in
            let (ids, c, k) =
              >>=-eq-done (candidate_ids fl (plan filter sort none none []).access [] store) _ h' in
            let (results, r, l) = >>=-eq-done (filter_candidates fl filter store ids) _ k in
            let all : keys store ≡ ids = done-injective (sym (candidate_ids-keys sort store) ∙ c) in
            let counted =
              count-candidates store store results (λ id doc g. g) (rw found at d)
                (rw (← all) at r) in
            let size : length results ≡ n =
              sym (length-sort_results fl sort results)
              ∙ sym (length-page (sort_results fl sort results))
              ∙ (records-injective (done-injective l)).1 in
            rw found (rw counted (ap (λ n. done (Payload.count n)) size))
      ]
