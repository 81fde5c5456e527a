-- ===== src/Server/Engine/Inserts.antt =====
-- crates/nova-server/src/engine.rs: `execute_insert`.
use nova_db.Base.{ℕ, [], ◌∷◌, Option, none, some, if◌then◌else◌}
use nova_db.Base.Bytes.{Bytes}
use nova_db.Base.Map
use nova_db.Base.Map.{Map, text_eq, pair_eq}
use nova_db.Core.Document.{Document}
use nova_db.Core.Error.{document_already_exists}
use nova_db.Core.Event.{EventType}
use nova_db.Core.Outcome.{Outcome, done, fail, panic, raise}
use nova_db.Core.Value.{Float}
use nova_db.Index.Manager.{on_insert}
use nova_db.Protocol.Payload.{ResponsePayload, records}
use nova_db.Server.Engine.{DatabaseEngine, Environment, Json, emit_event}
use nova_db.Storage.Format.{RecordType, storage}
use nova_db.Storage.Recovery.{CollectionKey, or_default}
use nova_db.Wire.{Wire}
use nova_db.Server.Engine.Writes.{contains_key, log, event_for}

module _ {F H : Type 0} (fl : Float F) (x : Wire H) (json : Json F) (env : Environment) where
  -- the memory, the indexes and the event, once the insertion is in the log
  abbrev stored : CollectionKey → Document F → ℕ → DatabaseEngine F → DatabaseEngine F
  stored key doc sequence s =
      emit_event (event_for fl x json env EventType.create key sequence doc.id none (some doc))
        (record s {
          collections =
              Map.insert key (Map.insert doc.id doc (or_default (Map.get key s.collections)))
                s.collections;
          indexes =
              Map.insert key (on_insert fl doc (or_default (Map.get key s.indexes))) s.indexes;
        })

  abbrev pub finish_insert :
      CollectionKey
      → Document F
      → Outcome ℕ
      → DatabaseEngine F
      → Outcome (ResponsePayload F) × DatabaseEngine F
  finish_insert key doc (done sequence) s = (done (records (doc ∷ []) 1), stored key doc sequence s)
  finish_insert key doc (fail e) s = (fail e, s)
  finish_insert key doc panic s = (panic, s)

  abbrev pub log_insert :
      CollectionKey
      → Document F
      → Option Bytes
      → DatabaseEngine F
      → Outcome (ResponsePayload F) × DatabaseEngine F
  log_insert key doc none s = (fail storage, s)
  log_insert key doc (some payload) s =
      let (o, w) = log x env RecordType.insert key doc.id payload s.wal in
      finish_insert key doc o (record s { wal = w })

  unfoldable pub execute_insert :
      CollectionKey → Document F → DatabaseEngine F → Outcome (ResponsePayload F) × DatabaseEngine F
  unfolding emit_event
  execute_insert key doc s =
      if contains_key doc.id (or_default (Map.get key s.collections))
      then (raise document_already_exists, s)
      else log_insert key doc (json.to_vec doc) s
