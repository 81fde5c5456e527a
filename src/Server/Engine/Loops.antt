-- ===== src/Server/Engine/Loops.antt =====
-- What UPDATE and REMOVE have in common: a loop over one collection, and what follows it.
use nova_db.Base.{
  ◌≡◌, refl, sym, ◌∙◌, false, List, [], ◌∷◌, if◌then◌else◌, Bool-cases, inl, inr, length,
}
use nova_db.Base.Map
use nova_db.Base.Map.{Map, text_eq, pair_eq, pair_beq, pair_beq_eq}
use nova_db.Core.Document.{Document}
use nova_db.Core.DocumentId.{DocumentId}
use nova_db.Core.Event.{DataEvent, EventType}
use nova_db.Core.Outcome.{Outcome, done}
use nova_db.Core.Value.{Float}
use nova_db.Protocol.Payload.{success}
use nova_db.Server.Engine.{DatabaseEngine, DocumentStore, Environment, Json, emit_event, emit_all}
use nova_db.Server.Engine.Documents.{find_doc, find_doc-insert}
use nova_db.Server.Engine.Durable.{IsDurable}
use nova_db.Server.Engine.Synced.{IsSynced}
use nova_db.Server.Engine.Writes.{Progress, store_back, finish, change_events}
use nova_db.Storage.Recovery.{RecoveredState, CollectionKey}
use nova_db.Wire.{Wire}

-- Where a loop over the collection `key` ends, if the log was in step with `st` before.
pub record IsLoopEnd {F H : Type 0} (x : Wire H) (json : Json F) (key : CollectionKey)
    (st : RecoveredState (Document F)) (o : Outcome (Unit {0}) × (DocumentStore F × Progress F))
    : Type 0 where
  pub ended : o.0 ≡ done tt
  pub state : RecoveredState (Document F)
  pub synced : IsSynced x json o.1.1.wal state
  pub here : (id : DocumentId) → Map.get id o.1.0 ≡ find_doc key id state.collections
  pub others :
      (key' : CollectionKey) (id : DocumentId)
      → pair_beq key key' ≡ false
      → find_doc key' id state.collections ≡ find_doc key' id st.collections

-- Events change neither the documents nor the log.
emit_all-keeps :
    {F : Type 0} (es : List (DataEvent F)) (s : DatabaseEngine F)
    → ((emit_all es s).collections ≡ s.collections) × ((emit_all es s).wal ≡ s.wal)
unfolding emit_all emit_event
emit_all-keeps [] s = (refl, refl)
emit_all-keeps (e ∷ es) s = emit_all-keeps es (emit_event e s)

module _ {F H : Type 0} (fl : Float F) (x : Wire H) (json : Json F) (env : Environment)
    (t : EventType) (key : CollectionKey) where
  pub finish-done :
      (o : Outcome (Unit {0})) (store : DocumentStore F) (p : Progress F) (s : DatabaseEngine F)
      → o ≡ done tt
      → finish fl x json env t key o store p s ≡ (
        done (success (length p.changes)),
        emit_all
            (change_events fl x json env t key p.changes)
            (store_back fl x json env key store p s),
      )
  finish-done o store p s e = rw e

  module _ (o : Outcome (Unit {0})) (store : DocumentStore F) (p : Progress F)
      (s : DatabaseEngine F) (e : o ≡ done tt) where
    pub finish-docs :
        (key' : CollectionKey) (id : DocumentId)
        → find_doc key' id (finish fl x json env t key o store p s).1.collections
          ≡ (if pair_beq key key' then Map.get id store else find_doc key' id s.collections)
    finish-docs key' id =
        let keeps =
          emit_all-keeps (change_events fl x json env t key p.changes)
            (store_back fl x json env key store p s) in
        rw e (rw keeps.0 (find_doc-insert key key' id store s.collections))

    pub finish-IsDurable :
        (d : IsDurable x json s)
        → IsLoopEnd x json key d.recovered (o, (store, p))
        → IsDurable x json (finish fl x json env t key o store p s).1
    finish-IsDurable d l =
        let keeps =
          emit_all-keeps (change_events fl x json env t key p.changes)
            (store_back fl x json env key store p s) in
        record {
          recovered = l.state;
          synced = rw e (rw keeps.1 l.synced);
          same_docs = λ key' id. finish-docs key' id ∙ elim (Bool-cases (pair_beq key key')) [
            | inl same ↦ rw same (rw (← pair_beq_eq key key' same) (l.here id))
            | inr other ↦ rw other (d.same_docs key' id ∙ sym (l.others key' id other))
          ];
        }
