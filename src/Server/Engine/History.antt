-- ===== src/Server/Engine/History.antt =====
-- crates/nova-server/src/engine.rs: engines as a run of statements leaves them.
use nova_db.Base.{ℕ, ◌+◌, ◌^◌, ◌<◌, ◌≡◌, refl, List, [], Option, none, some, length}
use nova_db.Base.Bytes.{Bytes}
use nova_db.Base.Map
use nova_db.Base.Map.{IsDistinct, Map, text_eq, pair_eq}
use nova_db.Core.Document.{Document}
use nova_db.Core.DocumentId.{DocumentId}
use nova_db.Core.Error.{ok}
use nova_db.Core.Outcome.{done}
use nova_db.Core.Value.{Float}
use nova_db.Index.Entries.{Ids}
use nova_db.Query.Ast.{Expr, Assignment}
use nova_db.Server.Engine.{
  DatabaseEngine, Environment, Json, open_engine, files_of, segment_size_limit,
}
use nova_db.Server.Engine.Documents.{find_doc}
use nova_db.Server.Engine.Durable.{IsDurable, execute_insert-IsInserted, open_engine-recovers}
use nova_db.Server.Engine.Inserts.{execute_insert}
use nova_db.Server.Engine.TakenOut.{execute_remove-IsTakenOut}
use nova_db.Server.Engine.Removes.{execute_remove}
use nova_db.Server.Engine.Round.{IsUpdated}
use nova_db.Server.Engine.Synced.{IsLoggable}
use nova_db.Server.Engine.Update.{execute_update-IsUpdateDone}
use nova_db.Server.Engine.Writes.{execute_update, targets}
use nova_db.Server.Metrics.{ServerMetrics}
use nova_db.Storage.Recovery
use nova_db.Storage.Recovery.{CollectionKey, or_default}
use nova_db.Storage.Recovery.Replay.{replay_all}
use nova_db.Storage.Wal.{SyncMode, always, no_fault, on_disk, open_wal}
use nova_db.Storage.Wal.Durable.{new-Holds}
use nova_db.Wire.{Wire, IsWire}

-- An engine on an empty directory.
abbrev pub first_engine : {F : Type 0} → ServerMetrics → DatabaseEngine F
first_engine metrics = record {
  collections = [];
  indexes = [];
  wal = open_wal [] always segment_size_limit;
  events = [];
  metrics = metrics;
}

-- The engines that inserts, updates and removals reach, if none of them fails half-way.
pub data IsReached {F H : Type 0} (fl : Float F) (x : Wire H) (json : Json F)
    : DatabaseEngine F → Type 0 where
  started : (metrics : ServerMetrics) → IsReached fl x json (first_engine metrics)
  after_insert :
      (env : Environment) (key : CollectionKey) (doc : Document F) (payload : Bytes)
      (s : DatabaseEngine F)
      → env.fault ≡ no_fault
      → IsReached fl x json s
      → find_doc key doc.id s.collections ≡ none
      → json.to_vec doc ≡ some payload
      → json.from_slice payload ≡ some doc
      → IsLoggable key doc.id payload
      → s.wal.current_sequence + 1 < 2 ^ 64
      → IsReached fl x json (execute_insert fl x json env key doc s).1
  after_update :
      (env : Environment) (key : CollectionKey) (filter : Option (Expr F))
      (todo : List (Assignment F)) (s : DatabaseEngine F)
      → env.fault ≡ no_fault
      → IsReached fl x json s
      → IsDistinct (or_default (Map.get key s.collections))
      → ((id : DocumentId) (doc : Document F)
          → find_doc key id s.collections ≡ some doc
          → (after : Document F) × IsUpdated fl json env key filter todo id doc after)
      → s.wal.current_sequence + length (or_default (Map.get key s.collections)) < 2 ^ 64
      → IsReached fl x json (execute_update fl x json env key todo filter s).1
  after_remove :
      (env : Environment) (key : CollectionKey) (filter : Option (Expr F)) (ids : Ids)
      (s : DatabaseEngine F)
      → env.fault ≡ no_fault
      → IsReached fl x json s
      → targets fl filter (or_default (Map.get key s.collections)) ≡ done ids
      → ((id : DocumentId) (doc : Document F)
          → find_doc key id s.collections ≡ some doc
          → IsLoggable key id [])
      → s.wal.current_sequence + length ids < 2 ^ 64
      → IsReached fl x json (execute_remove fl x json env key filter s).1

module _ {F H : Type 0} (fl : Float F) (x : Wire H) (json : Json F) (laws : IsWire x) where
  first_engine-IsDurable : (metrics : ServerMetrics) → IsDurable x json (first_engine metrics)
  unfolding open_wal replay_all
  first_engine-IsDurable metrics = record {
    recovered = Recovery.new;
    synced = record {
      logged = [];
      holds = new-Holds x segment_size_limit;
      valid = tt;
      replayed = refl;
      mode = refl;
      sequenced = refl;
    };
    same_docs = λ key id. refl;
  }

  IsReached-IsDurable : (s : DatabaseEngine F) → IsReached fl x json s → IsDurable x json s
  IsReached-IsDurable _ (started metrics) = first_engine-IsDurable metrics
  IsReached-IsDurable _ (after_insert env key doc payload s calm r fresh wrote reads v room) =
      let i =
        execute_insert-IsInserted fl x json env key doc payload s laws calm
          (IsReached-IsDurable s r) fresh wrote reads v room in
      i.durable
  IsReached-IsDurable _ (after_update env key filter todo s calm r distinct fine room) =
      let u =
        execute_update-IsUpdateDone fl x json env key filter todo s laws calm
          (IsReached-IsDurable s r) distinct fine room in
      u.durable
  IsReached-IsDurable _ (after_remove env key filter ids s calm r hits fits room) =
      let d =
        execute_remove-IsTakenOut fl x json env key filter ids s laws calm (IsReached-IsDurable s r)
          hits fits room in
      d.durable

-- Take an engine that was started on an empty directory, with SyncMode always, and any run of
-- inserts, updates and removals on it (IsReached), each without a fault, with documents that can be
-- written, read back and logged, within the sequence numbers, and without an error half-way. A
-- restart from the files that a crash leaves then succeeds, with the same documents in every
-- collection.
pub open_engine-IsReached :
    {F H : Type 0} (fl : Float F) (x : Wire H) (json : Json F) (s : DatabaseEngine F)
    (dir : List (ℕ × Bytes)) (mode : SyncMode) (metrics : ServerMetrics)
    → IsWire x
    → IsReached fl x json s
    → files_of dir ≡ on_disk s.wal
    → (s' : DatabaseEngine F) × (open_engine fl x json dir mode metrics ≡ some (ok s'))
      × ((key : CollectionKey) (id : DocumentId)
          → find_doc key id s'.collections ≡ find_doc key id s.collections)
open_engine-IsReached fl x json s dir mode metrics laws r files =
    let (s', opened, docs, number) =
      open_engine-recovers fl x json s dir mode metrics laws
        (IsReached-IsDurable fl x json laws s r) files in
    (s', opened, docs)
