-- ===== src/Server/Engine/IndexRuns.antt =====
-- crates/nova-server/src/engine.rs: FIND by a hash index, after any run of the statements that write.
use nova_db.Base.{
  ◌≡◌, refl, sym, ap, ◌∙◌, subst, true, false, Bool-cases, inl, inr, Option-cases, ◌↔◌, List, [],
  ◌∷◌, ◌++◌, Option, none, some, none≢some, length,
}
use nova_db.Base.Bytes.{bytes_eq_refl}
use nova_db.Base.Map
use nova_db.Base.Map.{Map, IsDistinct, text_eq as text_key, pair_eq, pair_beq_refl}
use nova_db.Base.Map.Splits.{insert-end}
use nova_db.Base.Text.{Text, text_eq}
use nova_db.Core.Document.{Document, is_id}
use nova_db.Core.DocumentId.{DocumentId}
use nova_db.Core.Outcome.{done}
use nova_db.Core.Value.{Value, Float, null, value_eq}
use nova_db.Index.{hash}
use nova_db.Index.Covering.{IsKeyClass}
use nova_db.Index.Held.{index_insert-IsInPlace}
use nova_db.Index.Kept.{HasKey, created}
use nova_db.Index.Manager.{
  Index, IndexManager, find_index_for_field, new_index, add_index, index_insert,
}
use nova_db.Protocol.Payload.{ResponsePayload, records}
use nova_db.Query.Ast.{Expr, Assignment}
use nova_db.Query.Evaluator.{matches_filter}
use nova_db.Server.Engine.{DatabaseEngine, DocumentStore, Environment, Json}
use nova_db.Server.Engine.Documents.{find_doc}
use nova_db.Server.Engine.Indexed.{IsIn, equals, execute_find_indexed}
use nova_db.Server.Engine.Indexes.{populate, index_name, execute_create_index}
use nova_db.Server.Engine.Inserts.{execute_insert}
use nova_db.Server.Engine.Maintained.{
  IsIndexed, execute_insert-IsIndexed, execute_update-IsIndexed, execute_remove-IsIndexed,
}
use nova_db.Server.Engine.Reads.{execute_find}
use nova_db.Server.Engine.Removes.{execute_remove}
use nova_db.Server.Engine.Tracked.{IsListed, populate-IsKept}
use nova_db.Server.Engine.Tracking.{AssignsKeys}
use nova_db.Server.Engine.Writes.{execute_update}
use nova_db.Storage.Recovery.{CollectionKey, or_default}
use nova_db.Wire.{Wire}

module _ {F : Type 0} (fl : Float F) where
  pub populate_place :
      (store : DocumentStore F) (i : Index F)
      → ((populate fl store i).name ≡ i.name) × ((populate fl store i).field ≡ i.field)
  unfolding populate
  populate_place [] i = (refl, refl)
  populate_place ((id, doc) ∷ store) i =
      let rest = populate_place store (index_insert fl doc i) in
      let one = index_insert-IsInPlace fl doc i in (rest.0 ∙ one.0, rest.1 ∙ one.1)

  pub find_index_for_field-end :
      (f name : Text) (i : Index F) (m : IndexManager F)
      → i.field ≡ f
      → find_index_for_field f m ≡ none
      → find_index_for_field f (m ++ (name, i) ∷ []) ≡ some i
  unfolding find_index_for_field text_eq
  find_index_for_field-end f name i [] on_f h =
      rw (ap (λ t. text_eq t f) on_f ∙ bytes_eq_refl f) refl
  find_index_for_field-end f name i ((n, j) ∷ m) on_f h = elim (Bool-cases (text_eq j.field f)) [
    | inl same ↦ absurd (none≢some {a = j} (sym h ∙ rw same refl))
    | inr other ↦ rw other (find_index_for_field-end f name i m on_f (rw other at h))
  ]

module _ {F : Type 0} (fl : Float F) (IsKey : Value F → Type 0) (f : Text)
    (key : CollectionKey) where
  -- CREATE INDEX on a field without one
  execute_create_index-IsIndexed :
      (s : DatabaseEngine F)
      → find_index_for_field f (or_default (Map.get key s.indexes)) ≡ none
      → Map.get (index_name key.1 f) (or_default (Map.get key s.indexes)) ≡ none
      → IsDistinct (or_default (Map.get key s.collections))
      → IsListed fl IsKey f (or_default (Map.get key s.collections))
      → IsIndexed fl IsKey f key (execute_create_index fl key f hash s).1
  unfolding execute_create_index add_index
  execute_create_index-IsIndexed s unindexed unnamed d listed =
      let store = or_default (Map.get key s.collections) in
      let m = or_default (Map.get key s.indexes) in
      let name = index_name key.1 f in
      let i = populate fl store (new_index hash name f) in
      let place = populate_place fl store (new_index hash name f) in
      let last : Map.insert i.name i m ≡ m ++ (name, i) ∷ [] =
        ap (λ n. Map.insert n i m) place.0 ∙ insert-end name i m unnamed in
      let there : Map.get name (Map.insert i.name i m) ≡ some i =
        ap (λ n. Map.get name (Map.insert n i m)) place.0
        ∙ Map.get-insert name name i m
        ∙ rw (bytes_eq_refl name) refl in
      rw (Map.get-insert key key (Map.insert i.name i m) s.indexes) (
        rw (pair_beq_refl key) (record {
          index = i;
          first = rw last (find_index_for_field-end fl f name i m place.1 unindexed);
          named = subst (λ n. Map.get n (Map.insert i.name i m) ≡ some i) (sym place.0) there;
          kept =
              populate-IsKept fl IsKey f [] store (new_index hash name f) (created name) d listed;
        }))

-- The engines in which CREATE INDEX made the first index on the field of a collection, and those that
-- INSERT, UPDATE and REMOVE make of them, on any collection. INSERT and REMOVE may also fail; UPDATE
-- may not. What is written at the field stays in the class.
pub data IsRun {F H : Type 0} (fl : Float F) (x : Wire H) (json : Json F) (IsKey : Value F → Type 0)
    (f : Text) (key : CollectionKey) : DatabaseEngine F → Type 0 where
  indexed :
      (s : DatabaseEngine F)
      → find_index_for_field f (or_default (Map.get key s.indexes)) ≡ none
      → Map.get (index_name key.1 f) (or_default (Map.get key s.indexes)) ≡ none
      → IsDistinct (or_default (Map.get key s.collections))
      → IsListed fl IsKey f (or_default (Map.get key s.collections))
      → IsRun fl x json IsKey f key (execute_create_index fl key f hash s).1
  and_insert :
      (env : Environment) (key' : CollectionKey) (doc : Document F) (s : DatabaseEngine F)
      → IsRun fl x json IsKey f key s
      → (key' ≡ key → HasKey fl IsKey f doc)
      → IsRun fl x json IsKey f key (execute_insert fl x json env key' doc s).1
  and_update :
      (env : Environment) (key' : CollectionKey) (todo : List (Assignment F))
      (filter : Option (Expr F)) (s : DatabaseEngine F) (r : ResponsePayload F)
      → IsRun fl x json IsKey f key s
      → (key' ≡ key → AssignsKeys fl env IsKey f todo (or_default (Map.get key' s.collections)))
      → (execute_update fl x json env key' todo filter s).0 ≡ done r
      → IsRun fl x json IsKey f key (execute_update fl x json env key' todo filter s).1
  and_remove :
      (env : Environment) (key' : CollectionKey) (filter : Option (Expr F)) (s : DatabaseEngine F)
      → IsRun fl x json IsKey f key s
      → IsRun fl x json IsKey f key (execute_remove fl x json env key' filter s).1

module _ {F H : Type 0} (fl : Float F) (x : Wire H) (json : Json F) (IsKey : Value F → Type 0)
    (f : Text) (class : IsKeyClass fl IsKey) (key : CollectionKey) where
  IsRun-IsIndexed :
      (s : DatabaseEngine F) → IsRun fl x json IsKey f key s → IsIndexed fl IsKey f key s
  IsRun-IsIndexed _ (indexed s unindexed unnamed d listed) =
      execute_create_index-IsIndexed fl IsKey f key s unindexed unnamed d listed
  IsRun-IsIndexed _ (and_insert env key' doc s r is_key) =
      execute_insert-IsIndexed fl x json env IsKey f key key' doc s (IsRun-IsIndexed s r) is_key
  IsRun-IsIndexed _ (and_update env key' todo filter s r run is_key e) =
      execute_update-IsIndexed fl x json env IsKey f key class key' todo filter s r
        (IsRun-IsIndexed s run) is_key e
  IsRun-IsIndexed _ (and_remove env key' filter s r) =
      execute_remove-IsIndexed fl x json env IsKey f key class key' filter s (IsRun-IsIndexed s r)

-- Let CREATE INDEX ... TYPE HASH make the first index on a field other than the id, on a collection
-- that lists each document once and under its id, and let any insertions and removals, failed ones
-- too, and updates that do not fail follow, on any collection (IsRun). Let the values that are
-- written at the field be in a class of values on which == is an equivalence and equal values hash
-- alike, and so a literal, which does not equal Null. FIND with field == literal, without sort,
-- limit and offset, then answers, and a document of the collection is among the answers exactly if
-- it passes the filter.
pub execute_find-IsRun :
    {F H : Type 0} (fl : Float F) (x : Wire H) (json : Json F) (IsKey : Value F → Type 0) (f : Text)
    (lit : Value F) (key : CollectionKey) (s : DatabaseEngine F) (id : DocumentId)
    (doc : Document F)
    → is_id f ≡ false
    → IsKeyClass fl IsKey
    → IsRun fl x json IsKey f key s
    → IsKey lit
    → value_eq fl null lit ≡ false
    → find_doc key id s.collections ≡ some doc
    → (docs : List (Document F)) × (execute_find fl key (some (equals f lit)) none none none s
        ≡ done (records docs (length docs)))
      × (IsIn doc docs ↔ (matches_filter fl (some (equals f lit)) doc ≡ done true))
unfolding Map.get
execute_find-IsRun fl x json IsKey f lit key s id doc no_id class run is_key not_null there =
    let h = IsRun-IsIndexed fl x json IsKey f class key s run in
    elim (Option-cases (Map.get key s.collections)) [
      | inl gone ↦ absurd (none≢some {a = doc} (rw gone at there))
      | inr (store, held) ↦
          execute_find_indexed fl f lit no_id IsKey key s store h.index id doc class
            (rw held at h.kept) held h.first h.named is_key not_null (rw held at there)
    ]
