-- ===== src/Server/Engine/Removes.antt =====
-- crates/nova-server/src/engine.rs: `execute_remove`.
use nova_db.Base.{ℕ, List, [], ◌∷◌, ◌++◌, Option, none, some}
use nova_db.Base.Map
use nova_db.Base.Map.{Map, text_eq, pair_eq}
use nova_db.Core.Document.{Document}
use nova_db.Core.DocumentId.{DocumentId}
use nova_db.Core.Event.{EventType}
use nova_db.Core.Outcome.{Outcome, done, fail, panic}
use nova_db.Core.Value.{Float}
use nova_db.Index.Manager.{on_remove}
use nova_db.Protocol.Payload.{ResponsePayload}
use nova_db.Query.Ast.{Expr}
use nova_db.Server.Engine.{DatabaseEngine, DocumentStore, Environment, Json, emit_all}
use nova_db.Storage.Format.{RecordType}
use nova_db.Storage.Recovery.{CollectionKey, or_default}
use nova_db.Storage.Wal.{WriteAheadLog}
use nova_db.Wire.{Wire}
use nova_db.Server.Engine.Writes.{log, Progress, targets, finish, begin}

module _ {F H : Type 0} (fl : Float F) (x : Wire H) (json : Json F) (env : Environment) where
  -- One target: taken out of the collection, then logged, then taken out of the indexes.
  abbrev pub note_remove :
      DocumentId
      → Document F
      → Outcome ℕ × WriteAheadLog
      → DocumentStore F
      → Progress F
      → Outcome (Unit {0}) × (DocumentStore F × Progress F)
  note_remove id doc (done sequence, w) store p = (
    done tt,
    (
      store,
      record {
        wal = w;
        manager = on_remove fl doc p.manager;
        changes =
            p.changes ++ (record { sequence = sequence; id = id; before = doc; after = none }) ∷ [];
      },
    ),
  )
  note_remove id doc (fail e, w) store p = (fail e, (store, record p { wal = w }))
  note_remove id doc (panic, w) store p = (panic, (store, record p { wal = w }))

  unfoldable pub remove_one :
      CollectionKey
      → DocumentId
      → DocumentStore F
      → Progress F
      → Outcome (Unit {0}) × (DocumentStore F × Progress F)
  remove_one key id store p = elim (Map.get id store) [
    | none ↦ (done tt, (store, p))
    | some doc ↦
        note_remove id doc (log x env RecordType.delete key id [] p.wal) (Map.remove id store) p
  ]

  unfoldable pub remove_all :
      CollectionKey
      → List DocumentId
      → DocumentStore F
      → Progress F
      → Outcome (Unit {0}) × (DocumentStore F × Progress F)
  unfolding remove_one
  remove_all key [] store p = (done tt, (store, p))
  remove_all key (id ∷ ids) store p =
      let (o, (store', p')) = remove_one key id store p in
      elim o [
        | done _ ↦ remove_all key ids store' p'
        | fail e ↦ (fail e, (store', p'))
        | panic ↦ (panic, (store', p'))
      ]

  unfoldable pub execute_remove :
      CollectionKey
      → Option (Expr F)
      → DatabaseEngine F
      → Outcome (ResponsePayload F) × DatabaseEngine F
  unfolding targets remove_all emit_all
  execute_remove key filter s =
      let store = or_default (Map.get key s.collections) in
      elim (targets fl filter store) [
        | fail e ↦ (fail e, s)
        | panic ↦
            finish fl x json env EventType.delete key panic store (begin fl x json env key s) s
        | done ids ↦
            let (o, (store', p)) = remove_all key ids store (begin fl x json env key s) in
            finish fl x json env EventType.delete key o store' p s
      ]
