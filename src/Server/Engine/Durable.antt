-- ===== src/Server/Engine/Durable.antt =====
-- crates/nova-server/src/engine.rs: the documents in memory and the log, over an INSERT and a restart.
use nova_db.Base.{ℕ, ◌+◌, ◌^◌, ◌<◌, ◌≡◌, refl, sym, ◌∙◌, ap, false, List, [], ◌∷◌, none, some, inl}
use nova_db.Base.Bytes.{Bytes}
use nova_db.Base.Map
use nova_db.Base.Map.{Map, text_eq, pair_eq, pair_beq}
use nova_db.Core.Document.{Document}
use nova_db.Core.DocumentId.{DocumentId}
use nova_db.Core.Error.{ok}
use nova_db.Core.Outcome.{Outcome, done}
use nova_db.Core.Value.{Float}
use nova_db.Protocol.Payload.{ResponsePayload, records}
use nova_db.Server.Engine.{DatabaseEngine, Environment, Json, open_engine, files_of, emit_event}
use nova_db.Server.Engine.Documents.{find_doc, after_write, find_doc-put}
use nova_db.Server.Engine.Synced.{IsSynced, IsLoggable, log_put-IsLogged}
use nova_db.Server.Engine.Writes.{contains_key}
use nova_db.Server.Engine.Inserts.{execute_insert}
use nova_db.Server.Metrics.{ServerMetrics}
use nova_db.Storage.Format.{RecordType}
use nova_db.Storage.Recovery.{RecoveredState, CollectionKey, recover, or_default}
use nova_db.Storage.Wal.{SyncMode, no_fault, on_disk}
use nova_db.Storage.Wal.Durable.{Holds-recover}
use nova_db.Wire.{Wire, IsWire}

pub record IsDurable {F H : Type 0} (x : Wire H) (json : Json F) (s : DatabaseEngine F)
    : Type 0 where
  pub recovered : RecoveredState (Document F)
  pub synced : IsSynced x json s.wal recovered
  pub same_docs :
      (key : CollectionKey) (id : DocumentId)
      → find_doc key id s.collections ≡ find_doc key id recovered.collections

-- What an insertion promises: the document as the answer, in memory and in the log.
pub record IsInserted {F H : Type 0} (x : Wire H) (json : Json F) (key : CollectionKey)
    (doc : Document F) (s : DatabaseEngine F) (o : Outcome (ResponsePayload F) × DatabaseEngine F)
    : Type 0 where
  pub answer : o.0 ≡ done (records (doc ∷ []) 1)
  pub durable : IsDurable x json o.1
  pub written :
      (key' : CollectionKey) (id' : DocumentId)
      → find_doc key' id' o.1.collections
        ≡ after_write key doc.id (some doc) key' id' (find_doc key' id' s.collections)
  pub counted : o.1.wal.current_sequence ≡ s.wal.current_sequence + 1

-- Let the log of an engine be in step with its memory, and no fault be injected. Inserting a
-- document with a new id, which can be written, read back and logged, answers with it; then it is
-- in memory, all other documents are as they were, the log is in step again and the sequence number
-- is one higher.
pub execute_insert-IsInserted :
    {F H : Type 0} (fl : Float F) (x : Wire H) (json : Json F) (env : Environment)
    (key : CollectionKey) (doc : Document F) (payload : Bytes) (s : DatabaseEngine F)
    → IsWire x
    → env.fault ≡ no_fault
    → IsDurable x json s
    → find_doc key doc.id s.collections ≡ none
    → json.to_vec doc ≡ some payload
    → json.from_slice payload ≡ some doc
    → IsLoggable key doc.id payload
    → s.wal.current_sequence + 1 < 2 ^ 64
    → IsInserted x json key doc s (execute_insert fl x json env key doc s)
unfolding execute_insert emit_event
execute_insert-IsInserted fl x json env key doc payload s laws calm d fresh wrote reads v room =
    let step =
      log_put-IsLogged x json env laws calm RecordType.insert key doc doc.id payload s.wal
        d.recovered (inl refl) d.synced v reads room in
    let absent : contains_key doc.id (or_default (Map.get key s.collections)) ≡ false =
      rw (fresh, contains_key) in
    rw absent (
      rw wrote (
        rw step.returned (record {
          answer = refl;
          durable = record {
            recovered = step.state;
            synced = step.synced;
            same_docs = λ key' id'.
                find_doc-put key key' doc.id id' doc s.collections
                ∙ ap (λ o. after_write key doc.id (some doc) key' id' o) (d.same_docs key' id')
                ∙ sym (step.written key' id');
          };
          written = λ key' id'. find_doc-put key key' doc.id id' doc s.collections;
          counted = step.counted;
        })))

-- Let the log of an engine be in step with its memory (IsDurable: with SyncMode always, it holds
-- records in range whose replay gives the documents in memory, and its sequence number is the
-- highest one). A restart from the files that a crash leaves then succeeds, with the same documents
-- in every collection and the same sequence number.
pub open_engine-recovers :
    {F H : Type 0} (fl : Float F) (x : Wire H) (json : Json F) (s : DatabaseEngine F)
    (dir : List (ℕ × Bytes)) (mode : SyncMode) (metrics : ServerMetrics)
    → IsWire x
    → IsDurable x json s
    → files_of dir ≡ on_disk s.wal
    → (s' : DatabaseEngine F) × (open_engine fl x json dir mode metrics ≡ some (ok s'))
      × ((key : CollectionKey) (id : DocumentId)
          → find_doc key id s'.collections ≡ find_doc key id s.collections)
      × (s'.wal.current_sequence ≡ s.wal.current_sequence)
unfolding open_engine
open_engine-recovers fl x json s dir mode metrics laws d files =
    let log = d.synced in
    let back =
      Holds-recover json.from_slice x log.logged s.wal d.recovered laws log.valid log.mode log.holds
        log.replayed in
    let back' : recover json.from_slice x (files_of dir) ≡ some (ok (d.recovered, on_disk s.wal)) =
      rw files back in
    (rw (back', open_engine) (_, refl, (λ key id. sym (d.same_docs key id)), sym log.sequenced))
