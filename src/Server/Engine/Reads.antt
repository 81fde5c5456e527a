-- ===== src/Server/Engine/Reads.antt =====
-- crates/nova-server/src/engine.rs: `execute_find`, `execute_count` and `execute_exists`.
use Prim.Native.Nat.{Ordering}
use nova_db.Base.{
  ℕ, suc, Bool, true, false, List, [], ◌∷◌, Option, none, some, if◌then◌else◌, length, take, drop,
  leb,
}
use nova_db.Base.Map
use nova_db.Base.Map.{Map, text_eq, pair_eq}
use nova_db.Base.Text.{Text}
use nova_db.Core.Document
use nova_db.Core.Document.{Document}
use nova_db.Core.DocumentId.{DocumentId}
use nova_db.Core.Outcome.{Outcome, done, panic, ◌>>=◌}
use nova_db.Core.Value.{Value, Float, null, value_cmp, is_greater}
use nova_db.Core.Value.Order.{flip}
use nova_db.Index.Entries
use nova_db.Index.Entries.{Ids, Scan, scanned, scan_not_supported, range_panic}
use nova_db.Index.{IndexRange}
use nova_db.Index.Manager.{Index, IndexManager}
use nova_db.Protocol.Payload.{ResponsePayload, records}
use nova_db.Protocol.Payload
use nova_db.Query.Ast.{Expr, SortClause, SortDirection, asc, desc}
use nova_db.Query.Evaluator.{matches_filter}
use nova_db.Query.Planner.{Access, index_lookup, index_range_scan, seq_scan, plan}
use nova_db.Server.Engine.{DatabaseEngine, DocumentStore}
use nova_db.Storage.Recovery.{CollectionKey, or_default}

-- `store.keys()`
abbrev pub keys : {V : Type 0} → Map DocumentId V → Ids
keys [] = []
keys ((id, v) ∷ store) = id ∷ keys store

module _ {F : Type 0} (fl : Float F) where
  -- `scan(range).unwrap_or_default()`
  abbrev pub scan_ids : Scan → Outcome Ids
  scan_ids (scanned ids) = done ids
  scan_ids scan_not_supported = done []
  scan_ids range_panic = panic

  abbrev look_up : Value F → DocumentStore F → Option (Index F) → Outcome Ids
  look_up key store none = done (keys store)
  look_up key store (some index) = done (Entries.lookup fl index.index_type key index.entries)

  abbrev scan_range : IndexRange F → DocumentStore F → Option (Index F) → Outcome Ids
  scan_range range store none = done (keys store)
  scan_range range store (some index) =
      scan_ids (Entries.scan fl index.index_type range index.entries)

  -- the ids that the plan asks for
  unfoldable pub candidate_ids : Access F → IndexManager F → DocumentStore F → Outcome Ids
  candidate_ids (index_lookup name key) m store = look_up key store (Map.get name m)
  candidate_ids (index_range_scan name range) m store = scan_range range store (Map.get name m)
  candidate_ids (seq_scan _) m store = done (keys store)

  abbrev pub keep_if : Bool → Document F → List (Document F) → List (Document F)
  keep_if true doc docs = doc ∷ docs
  keep_if false doc docs = docs

  -- the loop over the candidates: the documents that pass the filter, or the first error
  unfoldable pub filter_candidates :
      Option (Expr F) → DocumentStore F → Ids → Outcome (List (Document F))
  filter_candidates filter store [] = done []
  filter_candidates filter store (id ∷ ids) = elim (Map.get id store) [
    | none ↦ filter_candidates filter store ids
    | some doc ↦ do
      passes ← matches_filter fl filter doc
      docs ← filter_candidates filter store ids
      done (keep_if passes doc docs)
  ]

  abbrev value_or_null : Option (Value F) → Value F
  value_or_null none = null
  value_or_null (some v) = v

  -- the value of the sort field, or Null
  abbrev pub sort_key : Text → Document F → Value F
  sort_key f doc = value_or_null (Document.lookup f doc)

  abbrev directed : SortDirection → Ordering → Ordering
  directed asc o = o
  directed desc o = flip o

  abbrev pub sort_cmp : SortClause → Document F → Document F → Ordering
  sort_cmp clause a b =
      directed clause.direction (value_cmp fl (sort_key clause.field a) (sort_key clause.field b))

  -- `sort_by` is stable: a document goes behind those that compare equal and came before it.
  unfoldable pub insert_sorted : SortClause → Document F → List (Document F) → List (Document F)
  insert_sorted clause d [] = d ∷ []
  insert_sorted clause d (e ∷ docs) =
      let later = insert_sorted clause d docs in
      if is_greater (sort_cmp clause d e) then e ∷ later else d ∷ e ∷ docs

  unfoldable pub sort_by : SortClause → List (Document F) → List (Document F)
  unfolding insert_sorted
  sort_by clause [] = []
  sort_by clause (d ∷ docs) = insert_sorted clause d (sort_by clause docs)

  abbrev pub sort_results : Option SortClause → List (Document F) → List (Document F)
  sort_results none docs = docs
  sort_results (some clause) docs = sort_by clause docs

  abbrev pub up_to : Option ℕ → List (Document F) → List (Document F)
  up_to none docs = docs
  up_to (some n) docs = take n docs

  abbrev pub or_zero : Option ℕ → ℕ
  or_zero none = 0
  or_zero (some n) = n

  -- `results[off..end]`, with an end behind the results cut back to it. An offset that is within the
  -- results and a limit that `parse_usize` read, below 2 ^ 63, add up without an overflow.
  unfoldable pub page : Option ℕ → Option ℕ → List (Document F) → List (Document F)
  page offset limit docs =
      if leb (length docs) (or_zero offset) then [] else up_to limit (drop (or_zero offset) docs)

  abbrev respond : List (Document F) → ResponsePayload F
  respond docs = records docs (length docs)

  -- the part of `execute_find` behind the choice of the collection
  unfoldable pub find_in_store :
      Option (Expr F)
      → Option SortClause
      → Option ℕ
      → Option ℕ
      → IndexManager F
      → DocumentStore F
      → Outcome (ResponsePayload F)
  unfolding candidate_ids filter_candidates sort_by page plan
  find_in_store filter sort limit offset m store = do
    ids ← candidate_ids (plan filter sort limit offset m).access m store
    results ← filter_candidates filter store ids
    done (respond (page offset limit (sort_results sort results)))

  unfoldable pub execute_find :
      CollectionKey
      → Option (Expr F)
      → Option SortClause
      → Option ℕ
      → Option ℕ
      → DatabaseEngine F
      → Outcome (ResponsePayload F)
  unfolding find_in_store
  execute_find key filter sort limit offset s = elim (Map.get key s.collections) [
    | none ↦ done (records [] 0)
    | some store ↦ find_in_store filter sort limit offset (or_default (Map.get key s.indexes)) store
  ]

  abbrev pub add_if : Bool → ℕ → ℕ
  add_if true n = suc n
  add_if false n = n

  unfoldable pub count_matches : Option (Expr F) → DocumentStore F → Outcome ℕ
  count_matches filter [] = done 0
  count_matches filter ((id, doc) ∷ store) = do
    passes ← matches_filter fl filter doc
    n ← count_matches filter store
    done (add_if passes n)

  -- The loop breaks at the first match.
  unfoldable pub any_match : Option (Expr F) → DocumentStore F → Outcome Bool
  any_match filter [] = done false
  any_match filter ((id, doc) ∷ store) = do
    passes ← matches_filter fl filter doc
    if passes then done true else any_match filter store

  -- A collection that is not there counts as an empty one.
  unfoldable pub execute_count :
      CollectionKey → Option (Expr F) → DatabaseEngine F → Outcome (ResponsePayload F)
  unfolding count_matches
  execute_count key filter s = do
    n ← count_matches filter (or_default (Map.get key s.collections))
    done (Payload.count n)

  unfoldable pub execute_exists :
      CollectionKey → Option (Expr F) → DatabaseEngine F → Outcome (ResponsePayload F)
  unfolding any_match
  execute_exists key filter s = do
    found ← any_match filter (or_default (Map.get key s.collections))
    done (Payload.exists found)
