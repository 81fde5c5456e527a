-- ===== src/Server/Engine/Round.antt =====
-- crates/nova-server/src/engine.rs: what UPDATE does to one document.
use nova_db.Base.{
  ◌+◌, ◌^◌, ◌≤◌, ◌<◌, ◌≡◌, refl, Bool, true, false, List, Option, none, some, arith, Bool-cases,
  inl, inr,
}
use nova_db.Base.Bytes.{Bytes, bytes_eq, bytes_eq→eq}
use nova_db.Base.Map
use nova_db.Base.Map.{IsDistinct, Map, text_eq, pair_eq, pair_beq, pair_beq_refl, pair_beq_eq}
use nova_db.Core.Document.{Document}
use nova_db.Core.DocumentId.{DocumentId}
use nova_db.Core.Outcome.{Outcome, done}
use nova_db.Core.Value.{Float}
use nova_db.Query.Ast.{Expr, Assignment}
use nova_db.Query.Evaluator.{matches_filter, apply_assignments}
use nova_db.Server.Engine.{Environment, Json, assigning}
use nova_db.Server.Engine.Documents.{find_doc, after_write}
use nova_db.Server.Engine.Synced.{IsSynced, IsLoggable, log_put-IsLogged}
use nova_db.Server.Engine.Writes.{Progress, update_one}
use nova_db.Storage.Format.{RecordType}
use nova_db.Storage.Recovery.{RecoveredState, CollectionKey}
use nova_db.Storage.Wal.{no_fault}
use nova_db.Wire.{Wire, IsWire}

-- What an update makes of one document, if nothing fails: the filter passes it over, or it is assigned
-- to and its new state can be logged and read back.
pub data IsUpdated {F : Type 0} (fl : Float F) (json : Json F) (env : Environment)
    (key : CollectionKey) (filter : Option (Expr F)) (todo : List (Assignment F)) (id : DocumentId)
    (before after : Document F) : Type 0 where
  passed_over :
      matches_filter fl filter before ≡ done false
      → before ≡ after
      → IsUpdated fl json env key filter todo id before after
  assigned_to :
      (b : Bool) (payload : Bytes)
      → matches_filter fl filter before ≡ done true
      → apply_assignments fl todo (env.clock assigning id) before ≡ (done b, after)
      → json.to_vec after ≡ some payload
      → json.from_slice payload ≡ some after
      → IsLoggable key id payload
      → IsUpdated fl json env key filter todo id before after

after_write_same :
    {D : Type 0} (key key' : CollectionKey) (id id' : DocumentId)
    (docs : CollectionKey → DocumentId → Option D)
    → docs key' id' ≡ after_write key id (docs key id) key' id' (docs key' id')
after_write_same key key' id id' docs = elim (Bool-cases (pair_beq key key')) [
  | inr other ↦ rw other refl
  | inl same ↦ elim (Bool-cases (bytes_eq id id')) [
    | inr other ↦ rw same (rw other refl)
    | inl same_id ↦
        rw same (rw same_id (rw (pair_beq_eq key key' same) (rw (bytes_eq→eq id id' same_id) refl)))
  ]
]

-- an id that the rest of the list has is not the one in front
pub apart :
    {V : Type 0} (id id' : DocumentId) (store : Map DocumentId V) {v : V}
    → Map.get id store ≡ none
    → Map.get id' store ≡ some v
    → bytes_eq id id' ≡ false
apart id id' store absent present = ground (arith, bytes_eq→eq id id')

module _ {F H : Type 0} (fl : Float F) (x : Wire H) (json : Json F) (env : Environment)
    (laws : IsWire x) (calm : env.fault ≡ no_fault) (key : CollectionKey) (filter : Option (Expr F))
    (todo : List (Assignment F)) where
  -- One round of the loop: the document as it should be, and a log with one write more at most.
  pub record IsRound (id : DocumentId) (after : Document F) (p : Progress F)
      (st : RecoveredState (Document F)) (o : Outcome (Unit {0}) × (Document F × Progress F))
      : Type 0 where
    pub progress : Progress F
    pub result : o ≡ (done tt, (after, progress))
    pub state : RecoveredState (Document F)
    pub synced : IsSynced x json progress.wal state
    pub written :
        (key' : CollectionKey) (id' : DocumentId)
        → find_doc key' id' state.collections
          ≡ after_write key id (some after) key' id' (find_doc key' id' st.collections)
    pub counted : progress.wal.current_sequence ≤ p.wal.current_sequence + 1

  pub update_one-IsRound :
      (id : DocumentId) (doc after : Document F) (p : Progress F) (st : RecoveredState (Document F))
      → IsUpdated fl json env key filter todo id doc after
      → IsSynced x json p.wal st
      → find_doc key id st.collections ≡ some doc
      → p.wal.current_sequence + 1 < 2 ^ 64
      → IsRound id after p st (update_one fl x json env key filter todo id doc p)
  unfolding update_one
  update_one-IsRound id doc after p st (passed_over skip same) s there room =
      rw (skip, update_one)
        (record {
          progress = p;
          result = rw same refl;
          state = st;
          synced = s;
          written = λ key' id'. rw (← same) (
              rw (← there) (after_write_same key key' id id' (λ k i. find_doc k i st.collections)));
          counted = omega arith;
        })
  update_one-IsRound id doc after p st (assigned_to b payload hit assigned wrote reads v) s there
        room =
      let step =
        log_put-IsLogged x json env laws calm RecordType.update key after id payload p.wal st
          (inr refl) s v reads room in
      rw (hit, update_one)
        (rw assigned (
          rw wrote (
            rw step.returned (record {
              progress = _;
              result = refl;
              state = step.state;
              synced = step.synced;
              written = step.written;
              counted = omega (arith, step.counted);
            }))))
