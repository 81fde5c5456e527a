-- ===== src/Server/Engine/Writes.antt =====
-- crates/nova-server/src/engine.rs: `execute_update`, and what it shares with the other writes.
-- Each holds the locks that it takes for its whole length, or for the part that it guards: a
-- statement is taken to run alone.
use nova_db.Base.Int.{as_u64}
use nova_db.Base.{ℕ, Bool, true, false, List, [], ◌∷◌, ◌++◌, Option, none, some, length}
use nova_db.Base.Bytes.{Bytes}
use nova_db.Base.Map
use nova_db.Base.Map.{Map, text_eq, pair_eq}
use nova_db.Core.Document.{Document}
use nova_db.Core.DocumentId.{DocumentId}
use nova_db.Core.Event
use nova_db.Core.Event.{DataEvent, EventType}
use nova_db.Core.Outcome.{Outcome, done, fail, panic, ◌>>=◌}
use nova_db.Core.Value.{Float}
use nova_db.Index.Manager.{IndexManager, on_update}
use nova_db.Protocol.Payload.{ResponsePayload, success}
use nova_db.Query.Ast.{Expr, Assignment}
use nova_db.Query.Evaluator.{matches_filter, apply_assignments}
use nova_db.Server.Engine.{
  DatabaseEngine, DocumentStore, Environment, Json, assigning, appending, emitting, emit_all,
}
use nova_db.Storage.Format.{RecordType, storage}
use nova_db.Storage.Recovery.{CollectionKey, or_default}
use nova_db.Storage.Wal.{WriteAheadLog, Mutation, append}
use nova_db.Wire.{Wire}

abbrev pub contains_key : {V : Type 0} → DocumentId → Map DocumentId V → Bool
contains_key id m = elim (Map.get id m) [ none ↦ false | some _ ↦ true ]

-- the arguments of `append` for a document of a collection, outside a transaction
abbrev pub mutation : RecordType → CollectionKey → DocumentId → Bytes → Mutation
mutation t key id payload = record {
  record_type = t;
  namespace = key.0;
  collection = key.1;
  document_id = id;
  payload = payload;
  tx_id = none;
}

-- an append to the log, at the time that the environment has for the document
abbrev pub log :
    {H : Type 0}
    → Wire H
    → Environment
    → RecordType
    → CollectionKey
    → DocumentId
    → Bytes
    → WriteAheadLog
    → Outcome ℕ × WriteAheadLog
log x env t key id payload w =
    append env.spill x env.fault (as_u64 (env.clock appending id)) (mutation t key id payload) w

-- a mutated document: its sequence number, and its states before and after
pub record Change (F : Type 0) : Type 0 where
  pub sequence : ℕ
  pub id : DocumentId
  pub before : Document F
  pub after : Option (Document F)

-- what the loops of `execute_update` and `execute_remove` change as they go
pub record Progress (F : Type 0) : Type 0 where
  pub wal : WriteAheadLog
  pub manager : IndexManager F
  pub changes : List (Change F)

module _ {F : Type 0} (fl : Float F) where
  -- `matches_filter(..).unwrap_or(false)`: an error counts as no match.
  unfoldable pub targets : Option (Expr F) → DocumentStore F → Outcome (List DocumentId)
  targets filter [] = done []
  targets filter ((id, doc) ∷ store) = elim (matches_filter fl filter doc) [
    | panic ↦ panic
    | fail e ↦ targets filter store
    | done false ↦ targets filter store
    | done true ↦ do ids ← targets filter store; done (id ∷ ids)
  ]

module _ {F H : Type 0} (fl : Float F) (x : Wire H) (json : Json F) (env : Environment) where
  abbrev pub event_for :
      EventType
      → CollectionKey
      → ℕ
      → DocumentId
      → Option (Document F)
      → Option (Document F)
      → DataEvent F
  event_for t key sequence id before after =
      Event.new sequence t key.0 key.1 id before after none (env.clock emitting id)

  -- One document that passes the filter: assigned in place, then logged, then indexed.
  abbrev pub note_update :
      DocumentId
      → Document F
      → Document F
      → Outcome ℕ × WriteAheadLog
      → Progress F
      → Outcome (Unit {0}) × (Document F × Progress F)
  note_update id before after (done sequence, w) p = (
    done tt,
    (
      after,
      record {
        wal = w;
        manager = on_update fl before after p.manager;
        changes =
            p.changes
            ++ (record { sequence = sequence; id = id; before = before; after = some after }) ∷ [];
      },
    ),
  )
  note_update id before after (fail e, w) p = (fail e, (after, record p { wal = w }))
  note_update id before after (panic, w) p = (panic, (after, record p { wal = w }))

  abbrev pub log_update :
      CollectionKey
      → DocumentId
      → Document F
      → Document F
      → Option Bytes
      → Progress F
      → Outcome (Unit {0}) × (Document F × Progress F)
  log_update key id before after none p = (fail storage, (after, p))
  log_update key id before after (some payload) p =
      note_update id before after (log x env RecordType.update key id payload p.wal) p

  abbrev pub assigned :
      CollectionKey
      → DocumentId
      → Document F
      → Outcome Bool × Document F
      → Progress F
      → Outcome (Unit {0}) × (Document F × Progress F)
  assigned key id before (done _, after) p = log_update key id before after (json.to_vec after) p
  assigned key id before (fail e, after) p = (fail e, (after, p))
  assigned key id before (panic, after) p = (panic, (after, p))

  unfoldable pub update_one :
      CollectionKey
      → Option (Expr F)
      → List (Assignment F)
      → DocumentId
      → Document F
      → Progress F
      → Outcome (Unit {0}) × (Document F × Progress F)
  update_one key filter todo id doc p = elim (matches_filter fl filter doc) [
    | fail e ↦ (fail e, (doc, p))
    | panic ↦ (panic, (doc, p))
    | done false ↦ (done tt, (doc, p))
    | done true ↦ assigned key id doc (apply_assignments fl todo (env.clock assigning id) doc) p
  ]

  -- The loop over the collection, up to the first error: the rest of the documents stay as they are.
  unfoldable pub update_all :
      CollectionKey
      → Option (Expr F)
      → List (Assignment F)
      → DocumentStore F
      → Progress F
      → Outcome (Unit {0}) × (DocumentStore F × Progress F)
  unfolding update_one
  update_all key filter todo [] p = (done tt, ([], p))
  update_all key filter todo ((id, doc) ∷ store) p =
      let (o, (doc', p')) = update_one key filter todo id doc p in
      elim o [
        | done _ ↦
            let (o', (store', p'')) = update_all key filter todo store p' in
            (o', ((id, doc') ∷ store', p''))
        | fail e ↦ (fail e, ((id, doc') ∷ store, p'))
        | panic ↦ (panic, ((id, doc') ∷ store, p'))
      ]

  abbrev pub change_events : EventType → CollectionKey → List (Change F) → List (DataEvent F)
  change_events t key [] = []
  change_events t key (c ∷ cs) =
      event_for t key c.sequence c.id (some c.before) c.after ∷ change_events t key cs

  -- The collection and its indexes as a loop left them; events only if it ended without an error.
  abbrev pub store_back :
      CollectionKey → DocumentStore F → Progress F → DatabaseEngine F → DatabaseEngine F
  store_back key store p s = record s {
    collections = Map.insert key store s.collections;
    indexes = Map.insert key p.manager s.indexes;
    wal = p.wal;
  }

  abbrev pub finish :
      EventType
      → CollectionKey
      → Outcome (Unit {0})
      → DocumentStore F
      → Progress F
      → DatabaseEngine F
      → Outcome (ResponsePayload F) × DatabaseEngine F
  finish t key (done _) store p s = (
    done (success (length p.changes)),
    emit_all (change_events t key p.changes) (store_back key store p s),
  )
  finish t key (fail e) store p s = (fail e, store_back key store p s)
  finish t key panic store p s = (panic, store_back key store p s)

  abbrev pub begin : CollectionKey → DatabaseEngine F → Progress F
  begin key s = record { wal = s.wal; manager = or_default (Map.get key s.indexes); changes = [] }

  unfoldable pub execute_update :
      CollectionKey
      → List (Assignment F)
      → Option (Expr F)
      → DatabaseEngine F
      → Outcome (ResponsePayload F) × DatabaseEngine F
  unfolding update_all emit_all
  execute_update key todo filter s =
      let (o, (store, p)) =
        update_all key filter todo (or_default (Map.get key s.collections)) (begin key s) in
      finish EventType.update key o store p s
