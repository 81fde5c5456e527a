-- ===== src/Server/Connection/Run.antt =====
-- crates/nova-server/src/connection.rs: `run`, on what the socket delivers.
use nova_db.Base.{ℕ, Bool, true, false, List, [], ◌∷◌, ◌++◌, Option, none, some}
use nova_db.Base.Text.{Text}
use nova_db.Core.Document.{Document}
use nova_db.Core.Error.{Result, ok, err, NovaError}
use nova_db.Core.Outcome.{Outcome, done, fail, panic}
use nova_db.Core.Value.{Float}
use nova_db.Protocol.Frame.{NvpFrame, FrameType, new}
use nova_db.Protocol.Payload.{ResponsePayload}
use nova_db.Query.Lexer.Scan.{Chars}
use nova_db.Server.Engine.{DatabaseEngine, Environment, Json}
use nova_db.Server.Metrics.{inc_connections, dec_connections}
use nova_db.Wire.{Wire}
use nova_db.Server.Connection.{PayloadJson, ConnectionHandler, new_handler, handle_frame}

-- What the reader yields, and whether the writer still takes the reply to it.
pub record Arrival : Type 0 where
  pub item : Result NvpFrame
  pub writing : Bool

module _ {F : Type 0} (forms : PayloadJson F) where
  -- the frame for an error, if it serialises
  abbrev pub error_frames : ℕ → NovaError → List NvpFrame
  error_frames id e = elim (forms.response_to_bytes (ResponsePayload.error e)) [
    | none ↦ []
    | some bytes ↦ new FrameType.error id bytes ∷ []
  ]

  -- how the loop goes on behind a frame: what it sends, whether it goes on, whether it panicked
  abbrev pub replies : ℕ → Bool → Outcome (Option NvpFrame) → List NvpFrame × Outcome Bool
  replies id true (done (some frame)) = (frame ∷ [], done true)
  replies id false (done (some frame)) = ([], done false)
  replies id writing (done none) = ([], done true)
  replies id true (fail e) = (error_frames id e, done true)
  replies id false (fail e) = ([], done true)
  replies id writing panic = ([], panic)

module _ {F : Type 0} where
  abbrev pub connected : DatabaseEngine F → DatabaseEngine F
  connected s = record s { metrics = inc_connections s.metrics }

  abbrev pub disconnected : ConnectionHandler F → ConnectionHandler F
  disconnected s = record s {
    engine = record s.engine { metrics = dec_connections s.engine.metrics };
  }

  -- a panic ends the task before it counts the client out
  abbrev pub hang_up :
      Outcome (Unit {0}) × (List NvpFrame × ConnectionHandler F)
      → Outcome (Unit {0}) × (List NvpFrame × ConnectionHandler F)
  hang_up (done u, (out, s)) = (done u, (out, disconnected s))
  hang_up (fail e, (out, s)) = (fail e, (out, s))
  hang_up (panic, (out, s)) = (panic, (out, s))

-- the end, the frames and the handler behind a frame; the last argument is the rest of the loop
abbrev pub proceed :
    {S : Type 0}
    → Outcome Bool
    → List NvpFrame
    → S
    → Outcome (Unit {0}) × (List NvpFrame × S)
    → Outcome (Unit {0}) × (List NvpFrame × S)
proceed (done true) out s rest = (rest.0, (out ++ rest.1.0, rest.1.1))
proceed (done false) out s rest = (done tt, (out, s))
proceed (fail e) out s rest = (fail e, (out, s))
proceed panic out s rest = (panic, (out, s))

module _ {F H : Type 0} (forms : PayloadJson F) (fl : Float F) (x : Wire H) (json : Json F)
    (env : Environment) (chars : Chars F) (fresh : Document F) (auth_token : Option Text) where
  -- The reader loop: how it ends, the frames that it sends and the handler.
  unfoldable pub reader_loop :
      List Arrival
      → ConnectionHandler F
      → Outcome (Unit {0}) × (List NvpFrame × ConnectionHandler F)
  unfolding handle_frame
  reader_loop [] s = (done tt, ([], s))
  reader_loop (a ∷ arrivals) s = elim a.item [
    | err e ↦ (done tt, ([], s))
    | ok frame ↦
        let (o, s') = handle_frame forms fl x json env chars fresh auth_token frame s in
        let (out, next) = replies forms frame.request_id a.writing o in
        proceed next out s' (reader_loop arrivals s')
  ]

  unfoldable pub run :
      List Arrival → DatabaseEngine F → Outcome (Unit {0}) × (List NvpFrame × ConnectionHandler F)
  unfolding reader_loop
  run arrivals engine = hang_up (reader_loop arrivals (new_handler auth_token (connected engine)))
