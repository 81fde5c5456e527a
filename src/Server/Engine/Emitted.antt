-- ===== src/Server/Engine/Emitted.antt =====
-- crates/nova-server/src/engine.rs: the event of an INSERT.
use nova_db.Base.{ℕ, ◌≢◌, if◌then◌else◌, ◌≡◌, refl, Bool-cases, inl, inr, ◌∷◌, Option, none, some}
use nova_db.Base.Bytes.{Bytes}
use nova_db.Base.Map
use nova_db.Base.Map.{Map, text_eq, pair_eq}
use nova_db.Core.Document.{Document}
use nova_db.Core.Error.{NovaError}
use nova_db.Core.Event.{DataEvent, EventType}
use nova_db.Core.Outcome.{Outcome, done, fail, panic}
use nova_db.Core.Value.{Float}
use nova_db.Protocol.Frame.{new}
use nova_db.Protocol.Payload.{ResponsePayload}
use nova_db.Server.Engine.{DatabaseEngine, Environment, Json, emit_event}
use nova_db.Server.Engine.Inserts.{execute_insert, log_insert, finish_insert}
use nova_db.Server.Engine.Writes.{contains_key, log}
use nova_db.Storage.Format.{RecordType}
use nova_db.Storage.Recovery.{CollectionKey, or_default}
use nova_db.Wire.{Wire}

-- the creation of a document
pub record IsCreation {F : Type 0} (key : CollectionKey) (doc : Document F) (e : DataEvent F)
    : Type 0 where
  pub created : e.event_type ≡ EventType.create
  pub in_namespace : e.namespace ≡ key.0
  pub in_collection : e.collection ≡ key.1
  pub after_is : e.after ≡ some doc

fail≢done : {A : Type 0} {e : NovaError} {a : A} → fail e ≢ done a
fail≢done h = cc

module _ {F H : Type 0} (fl : Float F) (x : Wire H) (json : Json F) (env : Environment) where
  finish_insert_emits :
      (key : CollectionKey) (doc : Document F) (o : Outcome ℕ) (s : DatabaseEngine F)
      {r : ResponsePayload F}
      → (finish_insert fl x json env key doc o s).0 ≡ done r
      → (e : DataEvent F) × IsCreation key doc e
        × ((finish_insert fl x json env key doc o s).1.events ≡ e ∷ s.events)
  unfolding emit_event
  finish_insert_emits key doc (done n) s h = (
    _,
    record { created = refl; in_namespace = refl; in_collection = refl; after_is = refl },
    refl,
  )
  finish_insert_emits key doc (fail e) s h = cc
  finish_insert_emits key doc panic s h = cc

  log_insert_emits :
      (key : CollectionKey) (doc : Document F) (o : Option Bytes) (s : DatabaseEngine F)
      {r : ResponsePayload F}
      → (log_insert fl x json env key doc o s).0 ≡ done r
      → (e : DataEvent F) × IsCreation key doc e
        × ((log_insert fl x json env key doc o s).1.events ≡ e ∷ s.events)
  log_insert_emits key doc none s h = cc
  log_insert_emits key doc (some payload) s h =
      finish_insert_emits key doc (log x env RecordType.insert key doc.id payload s.wal).0
        (record s { wal = (log x env RecordType.insert key doc.id payload s.wal).1 }) h

  pub execute_insert_emits :
      (key : CollectionKey) (doc : Document F) (s : DatabaseEngine F) {r : ResponsePayload F}
      → (execute_insert fl x json env key doc s).0 ≡ done r
      → (e : DataEvent F) × IsCreation key doc e
        × ((execute_insert fl x json env key doc s).1.events ≡ e ∷ s.events)
  unfolding execute_insert
  execute_insert_emits key doc s h =
      elim (Bool-cases (contains_key doc.id (or_default (Map.get key s.collections)))) [
        | inl there ↦ absurd (fail≢done (rw (there, if◌then◌else◌) at h))
        | inr new ↦
            rw (new, if◌then◌else◌)
              (log_insert_emits key doc (json.to_vec doc) s (rw (new, if◌then◌else◌) at h))
      ]
