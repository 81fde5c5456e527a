-- ===== src/Server/Connection/Stream.antt =====
-- crates/nova-server/src/connection.rs: the task that `start_watch` spawns, on the events that the
-- broadcast channel hands it.
use nova_db.Base.{
  ℕ, ◌-◌, Bool, true, false, List, [], ◌∷◌, ◌++◌, Option, none, some, if◌then◌else◌, length, take,
}
use nova_db.Base.Bytes.{Bytes}
use nova_db.Base.Text.{text_eq}
use nova_db.Core.Document.{Document}
use nova_db.Core.Event.{DataEvent}
use nova_db.Core.Outcome.{Outcome, done, fail, panic}
use nova_db.Core.Value.{Float}
use nova_db.Protocol.Frame.{NvpFrame, FrameType, new}
use nova_db.Query.Evaluator.{matches_filter}
use nova_db.Server.Engine.{DatabaseEngine}
use nova_db.Server.Connection.{PayloadJson, Watcher}

-- the events in the order in which they were sent
abbrev pub oldest_first : {A : Type 0} → List A → List A
oldest_first [] = []
oldest_first (e ∷ es) = oldest_first es ++ (e ∷ [])

module _ {F : Type 0} where
  -- what a receiver of `subscribe_events` is handed, while it does not lag behind
  abbrev pub received : Watcher F → DatabaseEngine F → List (DataEvent F)
  received w s = oldest_first (take (length s.events - w.since) s.events)

  -- `event.after.as_ref().or(event.before.as_ref())`
  abbrev pub doc_of : Option (Document F) → Option (Document F) → Option (Document F)
  doc_of (some doc) before = some doc
  doc_of none before = before

  module _ (forms : PayloadJson F) where
    -- the frame for an event, if it serialises
    abbrev pub event_frame : ℕ → Option Bytes → Option NvpFrame
    event_frame id none = none
    event_frame id (some bytes) = some (new FrameType.event id bytes)

    module _ (fl : Float F) where
      -- One event: the frame that is sent for it. An error of the filter counts as no match.
      unfoldable pub watch_step : Watcher F → DataEvent F → Outcome (Option NvpFrame)
      watch_step w e =
          let hit = event_frame w.sub_id (forms.event_to_bytes e) in
          if text_eq e.collection w.collection
          then elim (doc_of e.after e.before) [
            | none ↦ done hit
            | some doc ↦ elim (matches_filter fl w.filter doc) [
              | done matches ↦ done (if matches then hit else none)
              | fail error ↦ done none
              | panic ↦ panic
            ]
          ]
          else done none

      -- The loop of the task: the frames it sends, and whether it still runs.
      unfoldable pub watch_loop : Watcher F → List (DataEvent F) → List NvpFrame × Bool
      unfolding watch_step
      watch_loop w [] = ([], true)
      watch_loop w (e ∷ es) =
          let rest = watch_loop w es in
          elim (watch_step w e) [
            | done none ↦ rest
            | done (some frame) ↦ (frame ∷ rest.0, rest.1)
            | fail error ↦ ([], false)
            | panic ↦ ([], false)
          ]
