-- ===== src/Server/Engine/Removal.antt =====
-- crates/nova-server/src/engine.rs: what REMOVE does to the documents that pass its filter, and to all
-- others.
use nova_db.Base.{
  ℕ, ◌+◌, ◌^◌, ◌<◌, ◌≤◌, ◌≡◌, ◌≢◌, refl, ◌∙◌, sym, Bool, true, false, [], ◌∷◌, Option, none, some,
  none≢some, some-injective, arith, if◌then◌else◌, Bool-cases, inl, inr, length,
}
use nova_db.Base.Bytes.{bytes_eq, bytes_eq→eq, bytes_eq_refl}
use nova_db.Base.Text
use nova_db.Base.Map
use nova_db.Base.Map.{IsDistinct, Map, text_eq, pair_eq, pair_beq, pair_beq_refl}
use nova_db.Core.Document.{Document}
use nova_db.Core.DocumentId.{DocumentId}
use nova_db.Core.Outcome.{Outcome, done, panic, Outcome-cases}
use nova_db.Core.Value.{Float}
use nova_db.Index.Entries.{has, Ids}
use nova_db.Query.Ast.{Expr}
use nova_db.Query.Evaluator.{matches_filter}
use nova_db.Protocol.Payload.{ResponsePayload, success}
use nova_db.Server.Engine.{DatabaseEngine, DocumentStore, Environment, Json}
use nova_db.Server.Engine.Documents.{find_doc}
use nova_db.Server.Engine.Durable.{IsDurable}
use nova_db.Server.Engine.Synced.{IsLoggable}
use nova_db.Server.Engine.Round.{apart}
use nova_db.Server.Engine.TakenOut.{execute_remove-IsTakenOut}
use nova_db.Server.Engine.Writes.{targets}
use nova_db.Server.Engine.Removes.{execute_remove}
use nova_db.Storage.Recovery.{CollectionKey, or_default}
use nova_db.Storage.Wal.{no_fault}
use nova_db.Wire.{Wire, IsWire}

-- `unwrap_or(false)` of what a filter gives
abbrev pub passes : Outcome Bool → Bool
passes (done b) = b
passes _ = false

module _ {F : Type 0} (fl : Float F) (filter : Option (Expr F)) where
  -- The targets are the ids of the documents that pass, of any store that lists each id once.
  record IsTargets (store : DocumentStore F) : Type 0 where
    ids : Ids
    selected : targets fl filter store ≡ done ids
    few : length ids ≤ length store
    chosen :
        (id : DocumentId) (doc : Document F)
        → Map.get id store ≡ some doc
        → has id ids ≡ passes (matches_filter fl filter doc)
    strange : (id : DocumentId) → Map.get id store ≡ none → has id ids ≡ false

  -- a document in front that passes, or does not
  taken :
      (id : DocumentId) (doc : Document F) (store : DocumentStore F)
      → Map.get id store ≡ none
      → matches_filter fl filter doc ≡ done true
      → IsTargets store
      → IsTargets ((id, doc) ∷ store)
  unfolding targets Map.get has Text.text_eq
  taken id doc store new pass t = record {
    ids = id ∷ t.ids;
    selected = rw (pass, targets) (rw t.selected refl);
    few = omega (arith, t.few);
    chosen = λ id' doc' h. elim (Bool-cases (bytes_eq id id')) [
      | inl same ↦ rw same (rw (← some-injective (rw same at h)) (rw pass refl))
      | inr other ↦ rw other (t.chosen id' doc' (rw other at h))
    ];
    strange = λ id' h. elim (Bool-cases (bytes_eq id id')) [
      | inl same ↦ absurd (none≢some (sym (rw same at h)))
      | inr other ↦ rw other (t.strange id' (rw other at h))
    ];
  }

  left :
      (id : DocumentId) (doc : Document F) (store : DocumentStore F)
      → Map.get id store ≡ none
      → targets fl filter ((id, doc) ∷ store) ≡ targets fl filter store
      → passes (matches_filter fl filter doc) ≡ false
      → IsTargets store
      → IsTargets ((id, doc) ∷ store)
  unfolding Map.get has
  left id doc store new skips miss t = record {
    ids = t.ids;
    selected = skips ∙ t.selected;
    few = omega (arith, t.few);
    chosen = λ id' doc' h. elim (Bool-cases (bytes_eq id id')) [
      | inl same ↦
          rw (← bytes_eq→eq id id' same)
            (rw (← some-injective (rw same at h)) (t.strange id new ∙ sym miss))
      | inr other ↦ t.chosen id' doc' (rw other at h)
    ];
    strange = λ id' h. elim (Bool-cases (bytes_eq id id')) [
      | inl same ↦ absurd (none≢some (sym (rw same at h)))
      | inr other ↦ t.strange id' (rw other at h)
    ];
  }

  targets-IsTargets :
      (store : DocumentStore F)
      → IsDistinct store
      → ((id : DocumentId) (doc : Document F)
          → Map.get id store ≡ some doc
          → matches_filter fl filter doc ≢ panic)
      → IsTargets store
  unfolding targets Map.get
  targets-IsTargets [] distinct calm = record {
    ids = [];
    selected = refl;
    few = omega arith;
    chosen = λ id doc h. absurd (none≢some h);
    strange = λ id h. unfold has in refl;
  }
  targets-IsTargets ((id, doc) ∷ store) (new, distinct) calm =
      let rest =
        targets-IsTargets store distinct
          (λ id' doc' h. calm id' doc' (rw (apart id id' store new h) h)) in
      elim (Outcome-cases (matches_filter fl filter doc)) [
        | inl (true, pass) ↦ taken id doc store new pass rest
        | inl (false, miss) ↦ left id doc store new (rw (miss, targets) refl) (rw miss refl) rest
        | inr (inl (e, bad)) ↦ left id doc store new (rw (bad, targets) refl) (rw bad refl) rest
        | inr (inr stop) ↦ absurd (calm id doc (rw (bytes_eq_refl id) refl) stop)
      ]

-- What REMOVE promises: the documents that pass its filter are gone, the others of the collection are
-- as they were, and so are the other collections; the log is in step.
pub record IsRemoved {F H : Type 0} (fl : Float F) (x : Wire H) (json : Json F)
    (key : CollectionKey) (filter : Option (Expr F)) (s : DatabaseEngine F)
    (o : Outcome (ResponsePayload F) × DatabaseEngine F) : Type 0 where
  pub affected : ℕ
  pub answer : o.0 ≡ done (success affected)
  pub durable : IsDurable x json o.1
  pub filtered :
      (id : DocumentId) (doc : Document F)
      → find_doc key id s.collections ≡ some doc
      → find_doc key id o.1.collections
        ≡ (if passes (matches_filter fl filter doc) then none else some doc)
  pub absent :
      (id : DocumentId)
      → find_doc key id s.collections ≡ none
      → find_doc key id o.1.collections ≡ none
  pub others :
      (key' : CollectionKey) (id : DocumentId)
      → pair_beq key key' ≡ false
      → find_doc key' id o.1.collections ≡ find_doc key' id s.collections

-- Let the log of an engine be in step with its memory, no fault be injected, the collection list
-- each id once, its ids be ones that can be logged, and the filter panic on none of its documents.
-- REMOVE, while sequence numbers are left for all of them, answers with a success; then the
-- documents that pass the filter are gone from the collection, those that do not, or on which it is
-- an error, are as they were, none is added, the other collections are as they were, and the log is
-- in step again.
pub execute_remove-IsRemoved :
    {F H : Type 0} (fl : Float F) (x : Wire H) (json : Json F) (env : Environment)
    (key : CollectionKey) (filter : Option (Expr F)) (s : DatabaseEngine F)
    → IsWire x
    → env.fault ≡ no_fault
    → IsDurable x json s
    → IsDistinct (or_default (Map.get key s.collections))
    → ((id : DocumentId) (doc : Document F)
        → find_doc key id s.collections ≡ some doc
        → matches_filter fl filter doc ≢ panic)
    → ((id : DocumentId) (doc : Document F)
        → find_doc key id s.collections ≡ some doc
        → IsLoggable key id [])
    → s.wal.current_sequence + length (or_default (Map.get key s.collections)) < 2 ^ 64
    → IsRemoved fl x json key filter s (execute_remove fl x json env key filter s)
execute_remove-IsRemoved fl x json env key filter s laws calm d distinct sound fits room =
    let t = targets-IsTargets fl filter (or_default (Map.get key s.collections)) distinct sound in
    let r =
      execute_remove-IsTakenOut fl x json env key filter t.ids s laws calm d t.selected fits
        (omega (arith, t.few)) in
    record {
      affected = r.affected;
      answer = r.answer;
      durable = r.durable;
      filtered = λ id doc there.
          r.left key id ∙ rw (pair_beq_refl key) (rw (t.chosen id doc there) (rw there refl));
      absent = λ id gone. r.left key id ∙ rw (pair_beq_refl key) (rw (t.strange id gone) gone);
      others = λ key' id other. r.left key' id ∙ rw other refl;
    }
