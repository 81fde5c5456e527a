-- ===== src/Server/Engine/Indexed.antt =====
-- crates/nova-server/src/engine.rs: FIND by a hash index.
use nova_db.Base.{
  none≢some, some-injective, false≢true, ◌≡◌, refl, sym, ◌∙◌, Bool, true, false, Bool-cases,
  Option-cases, inl, inr, ◌↔◌, List, [], ◌∷◌, none, some, All, arith, length,
}
use nova_db.Base.Bytes.{bytes_eq→eq}
use nova_db.Base.Map
use nova_db.Base.Map.{Map, text_eq as text_key, pair_eq}
use nova_db.Storage.Recovery.{CollectionKey, or_default}
use nova_db.Base.Text.{Text, text_eq}
use nova_db.Core.Document
use nova_db.Core.Document.{Document, is_id}
use nova_db.Core.DocumentId.{DocumentId}
use nova_db.Core.Outcome.{done}
use nova_db.Core.Value.{Value, Float, null, value_eq}
use nova_db.Index.Entries.{Ids, has, lookup}
use nova_db.Index.Covering.{IsKeyClass, lookup_same}
use nova_db.Index.Kept.{IsKept}
use nova_db.Index.Followed.{kept-IsFollowing}
use nova_db.Index.Manager.{Index, IndexManager, find_index_for_field}
use nova_db.Protocol.Payload.{records}
use nova_db.Query.Ast.{BinaryOp, Expr, literal, field, binary}
use nova_db.Query.Evaluator.{matches_filter, eval, field_value, or_null}
use nova_db.Query.Planner.{plan, access_for}
use nova_db.Server.Engine.{DatabaseEngine, DocumentStore}
use nova_db.Server.Engine.Found.{Answers, done-injective, filter_candidates-All}
use nova_db.Server.Engine.Reads.{
  execute_find, find_in_store, candidate_ids, filter_candidates, keep_if, page,
}

-- The document is in the list.
pub data IsIn {F : Type 0} (doc : Document F) : List (Document F) → Type 0 where
  first : (docs : List (Document F)) → IsIn doc (doc ∷ docs)
  later : (d : Document F) (docs : List (Document F)) → IsIn doc docs → IsIn doc (d ∷ docs)

All-IsIn :
    {F : Type 0} (P : Document F → Type 0) (doc : Document F) (docs : List (Document F))
    → IsIn doc docs
    → All P docs
    → P doc
All-IsIn P doc _ (first docs) (p, ps) = p
All-IsIn P doc _ (later d docs h) (p, ps) = All-IsIn P doc docs h ps

module _ {F : Type 0} (fl : Float F) where
  keep_if-first :
      {passes : Bool} (d : Document F) (docs : List (Document F))
      → passes ≡ true
      → IsIn d (keep_if fl passes d docs)
  keep_if-first d docs h = rw h (first docs)

  keep_if-later :
      (passes : Bool) (d doc : Document F) (docs : List (Document F))
      → IsIn doc docs
      → IsIn doc (keep_if fl passes d docs)
  keep_if-later true d doc docs h = later d docs h
  keep_if-later false d doc docs h = h

-- field == literal
abbrev pub equals : {F : Type 0} → Text → Value F → Expr F
equals f lit = binary BinaryOp.eq (field f) (literal lit)

abbrev holds : {F : Type 0} → Float F → Text → Value F → Document F → Bool
holds fl f lit doc = value_eq fl (or_null (Document.lookup f doc)) lit

module _ {F : Type 0} (fl : Float F) (f : Text) (lit : Value F) (no_id : is_id f ≡ false) where
  pub matches_equals :
      (doc : Document F) → matches_filter fl (some (equals f lit)) doc ≡ done (holds fl f lit doc)
  unfolding matches_filter eval field_value
  matches_equals doc = rw no_id refl

  -- The loop over the candidates ends, with every candidate for which the equality holds.
  filter_candidates_total :
      (store : DocumentStore F) (ids : Ids)
      → (docs : List (Document F)) × (filter_candidates fl (some (equals f lit)) store ids
          ≡ done docs)
        × ((id : DocumentId) (doc : Document F)
            → has id ids ≡ true
            → Map.get id store ≡ some doc
            → holds fl f lit doc ≡ true
            → IsIn doc docs)
  unfolding filter_candidates has text_eq
  filter_candidates_total store [] = ([], refl, λ id doc h. absurd (false≢true h))
  filter_candidates_total store (j ∷ ids) =
      let (docs, rest, all) = filter_candidates_total store ids in
      elim (Option-cases (Map.get j store)) [
        | inl gone ↦
            rw (gone, filter_candidates)
              (
                docs,
                rest,
                λ id doc h at_id p. elim (Bool-cases (text_eq j id)) [
                  | inl same ↦
                      absurd (none≢some {a = doc} (sym gone ∙ rw (bytes_eq→eq j id same) at_id))
                  | inr other ↦ all id doc (rw other at h) at_id p
                ],
              )
        | inr (d, there) ↦ (
          keep_if fl (holds fl f lit d) d docs,
          rw (there, filter_candidates) (rw (matches_equals d) (rw rest refl)),
          λ id doc h at_id p. elim (Bool-cases (text_eq j id)) [
            | inl same ↦
                let it : d ≡ doc = some-injective (sym there ∙ rw (bytes_eq→eq j id same) at_id) in
                rw (← it) (keep_if-first fl d docs (rw it p))
            | inr other ↦
                keep_if-later fl (holds fl f lit d) d doc docs (all id doc (rw other at h) at_id p)
          ],
        )
      ]

  -- An equality with the literal finds the value that the document has.
  value_of :
      (doc : Document F)
      → value_eq fl null lit ≡ false
      → holds fl f lit doc ≡ true
      → (v : Value F) × (Document.lookup f doc ≡ some v) × (value_eq fl v lit ≡ true)
  value_of doc not_null h = elim (Option-cases (Document.lookup f doc)) [
    | inl none_there ↦ absurd (false≢true (sym not_null ∙ (rw none_there at h)))
    | inr (v, there) ↦ (v, there, rw there at h)
  ]

  candidate_ids-lookup :
      (m : IndexManager F) (i : Index F) (store : DocumentStore F)
      → find_index_for_field f m ≡ some i
      → Map.get i.name m ≡ some i
      → candidate_ids fl (plan (some (equals f lit)) none none none m).access m store
        ≡ done (lookup fl i.index_type lit i.entries)
  unfolding candidate_ids plan access_for
  candidate_ids-lookup m i store found named = rw (found, access_for) (rw named refl)

  page_all : (docs : List (Document F)) → page fl none none docs ≡ docs
  unfolding page
  page_all [] = refl
  page_all (d ∷ docs) = ground arith

  lookup_covers :
      (IsKey : Value F → Type 0) (store : DocumentStore F) (i : Index F) (id : DocumentId)
      (doc : Document F)
      → IsKeyClass fl IsKey
      → IsKept fl IsKey f store i
      → IsKey lit
      → value_eq fl null lit ≡ false
      → Map.get id store ≡ some doc
      → holds fl f lit doc ≡ true
      → has id (lookup fl i.index_type lit i.entries) ≡ true
  lookup_covers IsKey store i id doc class kept key not_null there passes =
      let (name, es, same, c) = kept-IsFollowing fl IsKey f class store i kept in
      let (v, at_v, equal) = value_of doc not_null passes in
      rw same (
        rw (← lookup_same fl IsKey class v lit es c.keys (c.has_key id doc there v at_v) key equal)
          (c.covered id doc v there at_v))

  -- Let a hash index on a field other than the id be kept by the insertions, updates and removals
  -- that made a collection, with all values of the field, and a literal that does not equal Null,
  -- in a class of values on which == is an equivalence and equal values hash alike; and let the
  -- engine hold both, the index being the first on the field. FIND with field == literal, without
  -- sort, limit and offset, then answers, and a document of the collection is among the answers
  -- exactly if it passes the filter.
  pub execute_find_indexed :
      (IsKey : Value F → Type 0) (key : CollectionKey) (s : DatabaseEngine F)
      (store : DocumentStore F) (i : Index F) (id : DocumentId) (doc : Document F)
      → IsKeyClass fl IsKey
      → IsKept fl IsKey f store i
      → Map.get key s.collections ≡ some store
      → find_index_for_field f (or_default (Map.get key s.indexes)) ≡ some i
      → Map.get i.name (or_default (Map.get key s.indexes)) ≡ some i
      → IsKey lit
      → value_eq fl null lit ≡ false
      → Map.get id store ≡ some doc
      → (docs : List (Document F)) × (execute_find fl key (some (equals f lit)) none none none s
          ≡ done (records docs (length docs)))
        × (IsIn doc docs ↔ (matches_filter fl (some (equals f lit)) doc ≡ done true))
  unfolding execute_find find_in_store
  execute_find_indexed IsKey key s store i id doc class kept held found named is_key not_null
        there =
      let ids = lookup fl i.index_type lit i.entries in
      let (docs, filtered, all) = filter_candidates_total store ids in
      (
        docs,
        rw (held, execute_find)
            (rw (candidate_ids-lookup (or_default (Map.get key s.indexes)) i store found named)
              (rw filtered (rw (page_all docs) refl))),
        (
          λ is_in.
              (All-IsIn (Answers fl (some (equals f lit)) store) doc docs is_in
                (filter_candidates-All fl (some (equals f lit)) store ids docs filtered)).1,
          λ passes.
              all id doc
                (lookup_covers IsKey store i id doc class kept is_key not_null there
                  (done-injective (sym (matches_equals doc) ∙ passes)))
                there (done-injective (sym (matches_equals doc) ∙ passes)),
        ),
      )
