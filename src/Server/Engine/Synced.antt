-- ===== src/Server/Engine/Synced.antt =====
-- The log that the engine writes, and the state that recovery makes of it.
use nova_db.Base.{
  ℕ, ◌+◌, ◌%◌, ◌^◌, ◌≤◌, ◌<◌, ◌≡◌, ◌⊎◌, refl, sym, ◌∙◌, ap, List, [], ◌∷◌, ◌++◌, Option, none, some,
  arith, inl, inr, lt→ltb, length, All,
}
use nova_db.Base.Bytes.{Bytes}
use nova_db.Base.Int.{ℤ, pos, negsuc, as_u64}
use nova_db.Base.Map.{text_eq, pair_eq}
use nova_db.Base.Text.{IsScalar, as_bytes}
use nova_db.Core.DocumentId
use nova_db.Core.DocumentId.{DocumentId}
use nova_db.Core.Document.{Document}
use nova_db.Core.Error.{ok}
use nova_db.Core.Outcome.{Outcome, done}
use nova_db.Server.Engine.{Environment, Json, appending}
use nova_db.Server.Engine.Documents.{find_doc, after_write, find_doc-put, find_doc-drop}
use nova_db.Server.Engine.Writes.{mutation, log}
use nova_db.Storage.Format.{NbfRecord, IsRecord, RecordType, max_u16, max_payload}
use nova_db.Storage.Recovery.{RecoveredState, CollectionKey, new, replay_record}
use nova_db.Storage.Recovery.Replay.{replay_all}
use nova_db.Storage.Wal.{WriteAheadLog, always, no_fault, next_sequence, record_for}
use nova_db.Storage.Wal.Durable.{Holds, append-Holds, replay_all-append, All-snoc}
use nova_db.Wire.{Wire, IsWire}

-- The log, with SyncMode always, holds records in range that replay to the state `st`, and its sequence
-- number is the highest one.
pub record IsSynced {F H : Type 0} (x : Wire H) (json : Json F) (w : WriteAheadLog)
    (st : RecoveredState (Document F)) : Type 0 where
  pub logged : List NbfRecord
  pub holds : Holds x logged w
  pub valid : All IsRecord logged
  pub replayed : replay_all json.from_slice logged new ≡ ok st
  pub mode : w.sync_mode ≡ always
  pub sequenced : w.current_sequence ≡ st.max_sequence

-- What an append asks for: names, an id and a payload that a record holds.
pub record IsLoggable (key : CollectionKey) (id : DocumentId) (payload : Bytes) : Type 0 where
  pub namespace_chars : All IsScalar key.0
  pub collection_chars : All IsScalar key.1
  pub id_chars : All IsScalar id
  pub namespace_le : length (as_bytes key.0) ≤ max_u16
  pub collection_le : length (as_bytes key.1) ≤ max_u16
  pub id_le : length (as_bytes id) ≤ max_u16
  pub id_new : DocumentId.new id ≡ ok id
  pub payload_le : length payload ≤ max_payload

as_u64_lt : (i : ℤ) → as_u64 i < 256 ^ 8
as_u64_lt (pos n) = omega arith
as_u64_lt (negsuc n) = omega arith

logged-IsRecord :
    (t : RecordType) (key : CollectionKey) (id : DocumentId) (payload : Bytes) (n : ℕ) (i : ℤ)
    → IsLoggable key id payload
    → IsRecord (record_for (mutation t key id payload) ((n + 1) % 2 ^ 64) (as_u64 i))
logged-IsRecord t key id payload n i v = record {
  flags_lt = omega arith;
  sequence_lt = omega arith;
  timestamp_lt = as_u64_lt i;
  raw_tx_lt = omega arith;
  tx_nonzero = refl;
  namespace_chars = v.namespace_chars;
  collection_chars = v.collection_chars;
  id_chars = v.id_chars;
  namespace_le = v.namespace_le;
  collection_le = v.collection_le;
  id_le = v.id_le;
  id_new = v.id_new;
  payload_le = v.payload_le;
}

-- One record more in the state: its sequence number, and its document written.
pub record IsReplayed {D : Type 0} (r : NbfRecord) (new_doc : Option D) (st st' : RecoveredState D)
    : Type 0 where
  pub highest : st'.max_sequence ≡ r.sequence
  pub written :
      (key' : CollectionKey) (id' : DocumentId)
      → find_doc key' id' st'.collections
        ≡ after_write
            (r.namespace, r.collection)
            r.document_id
            new_doc
            key'
            id'
            (find_doc key' id' st.collections)

module _ {D : Type 0} (js : Bytes → Option D) (r : NbfRecord) (st : RecoveredState D)
    (next : st.max_sequence < r.sequence) where
  pub replay_put :
      (d : D)
      → js r.payload ≡ some d
      → (r.record_type ≡ RecordType.insert) ⊎ (r.record_type ≡ RecordType.update)
      → (st' : RecoveredState D) × (replay_record js r st ≡ ok st') × IsReplayed r (some d) st st'
  unfolding replay_record
  replay_put d h (inl t) = rw (lt→ltb _ _ next) (
      rw t (
        rw h (
          _,
          refl,
          record {
            highest = refl;
            written = λ key' id'.
                find_doc-put (r.namespace, r.collection) key' r.document_id id' d st.collections;
          },
        )))
  replay_put d h (inr t) = rw (lt→ltb _ _ next) (
      rw t (
        rw h (
          _,
          refl,
          record {
            highest = refl;
            written = λ key' id'.
                find_doc-put (r.namespace, r.collection) key' r.document_id id' d st.collections;
          },
        )))

  pub replay_drop :
      r.record_type ≡ RecordType.delete
      → (st' : RecoveredState D) × (replay_record js r st ≡ ok st') × IsReplayed r none st st'
  unfolding replay_record
  replay_drop t = rw (lt→ltb _ _ next) (
      rw t (
        _,
        refl,
        record {
          highest = refl;
          written = λ key' id'.
              find_doc-drop (r.namespace, r.collection) key' r.document_id id' st.collections;
        },
      ))

-- What a logged mutation leaves: its number, and a log in step with one write more.
pub record IsLogged {F H : Type 0} (x : Wire H) (json : Json F) (key : CollectionKey)
    (id : DocumentId) (new_doc : Option (Document F)) (st : RecoveredState (Document F))
    (w : WriteAheadLog) (o : Outcome ℕ × WriteAheadLog) : Type 0 where
  pub returned : o.0 ≡ done (w.current_sequence + 1)
  pub state : RecoveredState (Document F)
  pub synced : IsSynced x json o.1 state
  pub written :
      (key' : CollectionKey) (id' : DocumentId)
      → find_doc key' id' state.collections
        ≡ after_write key id new_doc key' id' (find_doc key' id' st.collections)
  pub counted : o.1.current_sequence ≡ w.current_sequence + 1

module _ {F H : Type 0} (x : Wire H) (json : Json F) (env : Environment) (laws : IsWire x)
    (calm : env.fault ≡ no_fault) where
  pub log-IsLogged :
      (t : RecordType) (key : CollectionKey) (id : DocumentId) (payload : Bytes) (w : WriteAheadLog)
      (st : RecoveredState (Document F)) (new_doc : Option (Document F))
      → IsSynced x json w st
      → IsLoggable key id payload
      → w.current_sequence + 1 < 2 ^ 64
      → (st.max_sequence < next_sequence w
          → let r =
              record_for
                (mutation t key id payload)
                (next_sequence w)
                (as_u64 (env.clock appending id)) in
            (st' : RecoveredState (Document F)) × (replay_record json.from_slice r st ≡ ok st')
            × IsReplayed r new_doc st st')
      → IsLogged x json key id new_doc st w (log x env t key id payload w)
  log-IsLogged t key id payload w st new_doc s v room replay =
      let i = env.clock appending id in
      let r = record_for (mutation t key id payload) (next_sequence w) (as_u64 i) in
      let u : IsRecord r = logged-IsRecord t key id payload w.current_sequence i v in
      let step =
        append-Holds x env.spill (as_u64 i) (mutation t key id payload) s.logged w laws u s.holds in
      let number : next_sequence w ≡ w.current_sequence + 1 = omega arith in
      let (st', p, q) = replay (omega (arith, s.sequenced)) in
      rw calm (record {
        returned = step.returned ∙ ap (λ n. done n) number;
        state = st';
        synced = record {
          logged = s.logged ++ r ∷ [];
          holds = step.holds;
          valid = All-snoc s.logged s.valid u;
          replayed =
              replay_all-append json.from_slice s.logged (r ∷ []) new
              ∙ rw s.replayed (unfold replay_all in rw p);
          mode = step.same_mode ∙ s.mode;
          sequenced = step.sequenced ∙ sym q.highest;
        };
        written = q.written;
        counted = step.sequenced ∙ number;
      })

  -- a document put
  pub log_put-IsLogged :
      (t : RecordType) (key : CollectionKey) (doc : Document F) (id : DocumentId) (payload : Bytes)
      (w : WriteAheadLog) (st : RecoveredState (Document F))
      → (t ≡ RecordType.insert) ⊎ (t ≡ RecordType.update)
      → IsSynced x json w st
      → IsLoggable key id payload
      → json.from_slice payload ≡ some doc
      → w.current_sequence + 1 < 2 ^ 64
      → IsLogged x json key id (some doc) st w (log x env t key id payload w)
  log_put-IsLogged t key doc id payload w st kind s v reads room =
      log-IsLogged t key id payload w st (some doc) s v room
        (λ next. replay_put json.from_slice _ st next doc reads kind)

  -- a document taken out
  pub log_drop-IsLogged :
      (key : CollectionKey) (id : DocumentId) (w : WriteAheadLog) (st : RecoveredState (Document F))
      → IsSynced x json w st
      → IsLoggable key id []
      → w.current_sequence + 1 < 2 ^ 64
      → IsLogged x json key id none st w (log x env RecordType.delete key id [] w)
  log_drop-IsLogged key id w st s v room =
      log-IsLogged RecordType.delete key id [] w st none s v room
        (λ next. replay_drop json.from_slice _ st next refl)
