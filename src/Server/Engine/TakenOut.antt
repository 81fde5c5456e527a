-- ===== src/Server/Engine/TakenOut.antt =====
-- crates/nova-server/src/engine.rs: what REMOVE does to its targets and to the log.
use nova_db.Base.{
  ℕ, ◌+◌, ◌^◌, ◌<◌, ◌≡◌, refl, sym, ◌∙◌, ap, [], ◌∷◌, Option, none, some, arith, if◌then◌else◌,
  Bool-cases, Option-cases, inl, inr, length,
}
use nova_db.Base.Bytes.{bytes_eq, bytes_eq→eq}
use nova_db.Base.Text
use nova_db.Base.Map
use nova_db.Base.Map.{Map, text_eq, pair_eq, pair_beq, pair_beq_refl, pair_beq_eq}
use nova_db.Core.Document.{Document}
use nova_db.Core.DocumentId.{DocumentId}
use nova_db.Core.Outcome.{Outcome, done}
use nova_db.Core.Value.{Float}
use nova_db.Index.Entries.{has, Ids}
use nova_db.Core.Event.{EventType}
use nova_db.Query.Ast.{Expr}
use nova_db.Protocol.Payload.{ResponsePayload, success}
use nova_db.Server.Engine.{DatabaseEngine, DocumentStore, Environment, Json}
use nova_db.Server.Engine.Documents.{find_doc}
use nova_db.Server.Engine.Durable.{IsDurable}
use nova_db.Server.Engine.Loops.{IsLoopEnd, finish-done, finish-IsDurable, finish-docs}
use nova_db.Server.Engine.Synced.{IsSynced, IsLoggable, log_drop-IsLogged}
use nova_db.Server.Engine.Writes.{Progress, targets, begin, log}
use nova_db.Server.Engine.Removes.{execute_remove, remove_all, remove_one}
use nova_db.Storage.Format.{RecordType}
use nova_db.Storage.Recovery.{RecoveredState, CollectionKey, or_default}
use nova_db.Storage.Wal.{no_fault}
use nova_db.Wire.{Wire, IsWire}

module _ {V : Type 0} where
  left_out :
      (id id' : DocumentId) (ids : Ids) (store : Map DocumentId V)
      → Map.get id store ≡ none
      → (if has id' ids then none else Map.get id' store)
        ≡ (if has id' (id ∷ ids) then none else Map.get id' store)
  unfolding has Text.text_eq
  left_out id id' ids store gone = ground (arith, bytes_eq→eq id id')

  taken_out :
      (id id' : DocumentId) (ids : Ids) (store : Map DocumentId V)
      → (if has id' ids then none else Map.get id' (Map.remove id store))
        ≡ (if has id' (id ∷ ids) then none else Map.get id' store)
  unfolding has Text.text_eq
  taken_out id id' ids store = rw (Map.get-remove id id' store) (ground arith)

  still_there :
      (id id' : DocumentId) (store : Map DocumentId V) {v : V}
      → Map.get id' (Map.remove id store) ≡ some v
      → Map.get id' store ≡ some v
  still_there id id' store h = ground (arith, rw (Map.get-remove id id' store) at h)

module _ {F H : Type 0} (fl : Float F) (x : Wire H) (json : Json F) (env : Environment)
    (laws : IsWire x) (calm : env.fault ≡ no_fault) (key : CollectionKey) where
  remove_one-found :
      (id : DocumentId) (doc : Document F) (n : ℕ) (store : DocumentStore F) (p : Progress F)
      → Map.get id store ≡ some doc
      → (log x env RecordType.delete key id [] p.wal).0 ≡ done n
      → (p' : Progress F) × (remove_one fl x json env key id store p
          ≡ (done tt, (Map.remove id store, p')))
        × (p'.wal ≡ (log x env RecordType.delete key id [] p.wal).1)
  unfolding remove_one
  remove_one-found id doc n store p found logged =
      rw (found, remove_one) (rw logged (_, refl, refl))

  remove_all-step :
      (id : DocumentId) (ids : Ids) (store store' : DocumentStore F) (p p' : Progress F)
      → remove_one fl x json env key id store p ≡ (done tt, (store', p'))
      → remove_all fl x json env key (id ∷ ids) store p ≡ remove_all fl x json env key ids store' p'
  unfolding remove_all
  remove_all-step id ids store store' p p' e = rw (e, remove_all) (rw e)

  -- What the loop over the targets leaves: it ends, the log is in step, and the targets are gone.
  pub record IsRemoval (ids : Ids) (store : DocumentStore F) (st : RecoveredState (Document F))
      (o : Outcome (Unit {0}) × (DocumentStore F × Progress F)) : Type 0 where
    pub end : IsLoopEnd x json key st o
    pub left :
        (id : DocumentId) → Map.get id o.1.0 ≡ (if has id ids then none else Map.get id store)

  remove_all-IsRemoval :
      (ids : Ids) (store : DocumentStore F) (p : Progress F) (st : RecoveredState (Document F))
      → IsSynced x json p.wal st
      → ((id : DocumentId) → Map.get id store ≡ find_doc key id st.collections)
      → ((id : DocumentId) (doc : Document F) → Map.get id store ≡ some doc → IsLoggable key id [])
      → p.wal.current_sequence + length ids < 2 ^ 64
      → IsRemoval ids store st (remove_all fl x json env key ids store p)
  unfolding remove_all has
  remove_all-IsRemoval [] store p st s same fits room = record {
    end = record { ended = refl; state = st; synced = s; here = same; others = λ key' id h. refl };
    left = λ id. refl;
  }
  remove_all-IsRemoval (id ∷ ids) store p st s same fits room =
      elim (Option-cases (Map.get id store)) [
        | inl gone ↦
            let skip =
              remove_all-step id ids store store p p (unfold remove_one in rw (gone, remove_one)) in
            let rest = remove_all-IsRemoval ids store p st s same fits (omega arith) in
            rw skip (record {
              end = rest.end;
              left = λ id'. rest.left id' ∙ left_out id id' ids store gone;
            })
        | inr (doc, found) ↦
            let step =
              log_drop-IsLogged x json env laws calm key id p.wal st s (fits id doc found)
                (omega arith) in
            let (p', e, w) = remove_one-found id doc _ store p found step.returned in
            let rest =
              remove_all-IsRemoval ids (Map.remove id store) p' step.state (rw w step.synced)
                (λ id'.
                  Map.get-remove id id' store
                  ∙ (ap (λ o. if bytes_eq id id' then none else o) (same id')
                      ∙ sym (step.written key id' ∙ rw (pair_beq_refl key) refl)))
                (λ id' doc' h. fits id' doc' (still_there id id' store h))
                (rw w (omega (arith, step.counted))) in
            rw (remove_all-step id ids store (Map.remove id store) p p' e) (record {
              end = record {
                ended = rest.end.ended;
                state = rest.end.state;
                synced = rest.end.synced;
                here = rest.end.here;
                others =
                    λ key' id' h. rest.end.others key' id' h ∙ step.written key' id' ∙ rw h refl;
              };
              left = λ id'. rest.left id' ∙ taken_out id id' ids store;
            })
      ]

-- What REMOVE promises for the ids of its targets.
pub record IsTakenOut {F H : Type 0} (x : Wire H) (json : Json F) (key : CollectionKey) (ids : Ids)
    (s : DatabaseEngine F) (o : Outcome (ResponsePayload F) × DatabaseEngine F) : Type 0 where
  pub affected : ℕ
  pub answer : o.0 ≡ done (success affected)
  pub durable : IsDurable x json o.1
  pub left :
      (key' : CollectionKey) (id : DocumentId)
      → find_doc key' id o.1.collections ≡ (
          if pair_beq key key'
          then (if has id ids then none else find_doc key' id s.collections)
          else find_doc key' id s.collections)

-- REMOVE with the targets that the filter selects
pub execute_remove-IsTakenOut :
    {F H : Type 0} (fl : Float F) (x : Wire H) (json : Json F) (env : Environment)
    (key : CollectionKey) (filter : Option (Expr F)) (ids : Ids) (s : DatabaseEngine F)
    → IsWire x
    → env.fault ≡ no_fault
    → IsDurable x json s
    → targets fl filter (or_default (Map.get key s.collections)) ≡ done ids
    → ((id : DocumentId) (doc : Document F)
        → find_doc key id s.collections ≡ some doc
        → IsLoggable key id [])
    → s.wal.current_sequence + length ids < 2 ^ 64
    → IsTakenOut x json key ids s (execute_remove fl x json env key filter s)
unfolding execute_remove
execute_remove-IsTakenOut fl x json env key filter ids s laws calm d hits fits room =
    let store = or_default (Map.get key s.collections) in
    let r =
      remove_all-IsRemoval fl x json env laws calm key ids store (begin fl x json env key s)
        d.recovered d.synced (λ id. d.same_docs key id) fits room in
    let o = remove_all fl x json env key ids store (begin fl x json env key s) in
    rw (hits, execute_remove)
      (record {
        affected = length o.1.1.changes;
        answer =
            ap (λ r. r.0)
              (finish-done fl x json env EventType.delete key o.0 o.1.0 o.1.1 s r.end.ended);
        durable =
            finish-IsDurable fl x json env EventType.delete key o.0 o.1.0 o.1.1 s r.end.ended d
              r.end;
        left = λ key' id.
            finish-docs fl x json env EventType.delete key o.0 o.1.0 o.1.1 s r.end.ended key' id
            ∙ elim (Bool-cases (pair_beq key key')) [
              | inl same ↦ rw same (rw (← pair_beq_eq key key' same) (r.left id))
              | inr other ↦ rw other refl
            ];
      })
