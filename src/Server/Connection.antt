-- ===== src/Server/Connection.antt =====
-- crates/nova-server/src/connection.rs: one client's connection, its state and the handlers of a
-- frame.
pub mod Stream
pub mod Run
pub mod Refusals
pub mod Locked
pub mod Watching
use nova_db.Base.{
  ℕ, ◌-◌, Bool, true, false, List, [], ◌∷◌, ◌++◌, Option, none, some, if◌then◌else◌, length, take,
}
use nova_db.Base.Bytes.{Bytes}
use nova_db.Base.Text.{Text, text_eq, codes}
use nova_db.Core.Document.{Document}
use nova_db.Core.Error.{
  Result, ok, err, NovaError, protocol_violation, authentication_failed, permission_denied,
  invalid_query,
}
use nova_db.Core.Event.{DataEvent}
use nova_db.Core.Outcome.{Outcome, done, fail, panic, raise, ◌>>=◌, returned}
use nova_db.Core.Value.{Float}
use nova_db.Protocol.Frame.{NvpFrame, FrameType, new, new_pong}
use nova_db.Protocol.Payload.{RequestPayload, ResponsePayload}
use nova_db.Query.Ast.{Statement, Expr}
use nova_db.Query.Evaluator.{matches_filter}
use nova_db.Query.Lexer.Scan.{Chars}
use nova_db.Query.Parser.Statements.{parse_nql}
use nova_db.Server.Engine.{DatabaseEngine, Environment, Json}
use nova_db.Server.Engine.Execute.{execute}
use nova_db.Server.Metrics.{inc_connections, dec_connections}
use nova_db.Wire.{Wire}

-- serde_json's forms of the payloads
pub record PayloadJson (F : Type 0) : Type 0 where
  pub request_from_bytes : Bytes → Option RequestPayload
  pub response_to_bytes : ResponsePayload F → Option Bytes
  pub event_to_bytes : DataEvent F → Option Bytes

-- A task that `start_watch` spawns: its subscription, and how many events were sent before it.
pub record Watcher (F : Type 0) : Type 0 where
  pub sub_id : ℕ
  pub collection : Text
  pub filter : Option (Expr F)
  pub since : ℕ

-- `ConnectionHandler` with the engine it shares and the tasks it has spawned
pub record ConnectionHandler (F : Type 0) : Type 0 where
  pub engine : DatabaseEngine F
  pub authenticated : Bool
  pub watchers : List (Watcher F)

abbrev pub is_some : {A : Type 0} → Option A → Bool
is_some (some a) = true
is_some none = false

module _ {F : Type 0} where
  -- `ConnectionHandler::new`, for the token of the configuration
  abbrev pub new_handler : Option Text → DatabaseEngine F → ConnectionHandler F
  new_handler auth_token engine = record {
    engine = engine;
    authenticated = if is_some auth_token then false else true;
    watchers = [];
  }

  -- `subscribe_events`, for the task
  abbrev pub subscription : ℕ → Text → Option (Expr F) → DatabaseEngine F → Watcher F
  subscription id collection filter engine = record {
    sub_id = id;
    collection = collection;
    filter = filter;
    since = length engine.events;
  }

  module _ (forms : PayloadJson F) where
    -- `NvpFrame::new(FrameType::Response, req_id, resp.to_bytes()?)`
    abbrev pub reply : ℕ → ResponsePayload F → Outcome (Option NvpFrame)
    reply id resp = elim (forms.response_to_bytes resp) [
      | none ↦ raise protocol_violation
      | some bytes ↦ done (some (new FrameType.response id bytes))
    ]

module _ {F H : Type 0} (forms : PayloadJson F) (fl : Float F) (x : Wire H) (json : Json F)
    (env : Environment) (chars : Chars F) (fresh : Document F) (auth_token : Option Text) where
  -- `parse_nql`; `none` is no result of it
  abbrev pub parsed : Text → Outcome (Statement F)
  parsed nql = elim (parse_nql chars fresh nql) [ none ↦ panic | some r ↦ returned r ]

  abbrev pub start_watch :
      ℕ
      → Text
      → Option (Expr F)
      → ConnectionHandler F
      → Outcome (Option NvpFrame) × ConnectionHandler F
  start_watch id collection filter s = (
    reply forms id (ResponsePayload.watch_ack id),
    record s { watchers = subscription id collection filter s.engine ∷ s.watchers },
  )

  -- a statement of a query
  abbrev pub run_statement :
      ℕ → Statement F → ConnectionHandler F → Outcome (Option NvpFrame) × ConnectionHandler F
  run_statement id (Statement.watch collection filter) s = start_watch id collection filter s
  run_statement id stmt s =
      let (o, engine) = execute fl x json env stmt (codes "default") s.engine in
      (o >>= reply forms id, record s { engine = engine })

  -- a statement of a WATCH request
  abbrev pub watch_statement :
      ℕ → Statement F → ConnectionHandler F → Outcome (Option NvpFrame) × ConnectionHandler F
  watch_statement id (Statement.watch collection filter) s = start_watch id collection filter s
  watch_statement id stmt s = (raise invalid_query, s)

  abbrev pub with_statement :
      (Statement F → ConnectionHandler F → Outcome (Option NvpFrame) × ConnectionHandler F)
      → Outcome (Statement F)
      → ConnectionHandler F
      → Outcome (Option NvpFrame) × ConnectionHandler F
  with_statement next (done stmt) s = next stmt s
  with_statement next (fail e) s = (fail e, s)
  with_statement next panic s = (panic, s)

  abbrev pub authenticate :
      ℕ → Text → Option Text → ConnectionHandler F → Outcome (Option NvpFrame) × ConnectionHandler F
  authenticate id token (some expected) s =
      if text_eq token expected
      then (reply forms id (ResponsePayload.success 0), record s { authenticated = true })
      else (raise authentication_failed, s)
  authenticate id token none s =
      (reply forms id (ResponsePayload.success 0), record s { authenticated = true })

  -- the requests that need authentication
  abbrev pub guarded :
      (ConnectionHandler F → Outcome (Option NvpFrame) × ConnectionHandler F)
      → ConnectionHandler F
      → Outcome (Option NvpFrame) × ConnectionHandler F
  guarded next s = if s.authenticated then next s else (raise permission_denied, s)

  unfoldable pub handle_request :
      ℕ → RequestPayload → ConnectionHandler F → Outcome (Option NvpFrame) × ConnectionHandler F
  unfolding execute
  handle_request id (RequestPayload.auth token) s = authenticate id token auth_token s
  handle_request id RequestPayload.ping s = (reply forms id ResponsePayload.pong, s)
  handle_request id (RequestPayload.query nql) s =
      guarded (λ s. with_statement (run_statement id) (parsed nql) s) s
  handle_request id (RequestPayload.watch nql) s =
      guarded (λ s. with_statement (watch_statement id) (parsed nql) s) s
  handle_request id (RequestPayload.unwatch subscription) s =
      guarded (λ s. (reply forms id (ResponsePayload.success 1), s)) s

  abbrev pub handle_payload :
      ℕ
      → Option RequestPayload
      → ConnectionHandler F
      → Outcome (Option NvpFrame) × ConnectionHandler F
  handle_payload id none s = (raise protocol_violation, s)
  handle_payload id (some payload) s = handle_request id payload s

  abbrev pub handle_typed :
      FrameType → NvpFrame → ConnectionHandler F → Outcome (Option NvpFrame) × ConnectionHandler F
  handle_typed FrameType.ping frame s = (done (some (new_pong frame.request_id)), s)
  handle_typed FrameType.pong frame s = (done none, s)
  handle_typed FrameType.request frame s =
      handle_payload frame.request_id (forms.request_from_bytes frame.payload) s
  handle_typed FrameType.response frame s = (raise protocol_violation, s)
  handle_typed FrameType.event frame s = (raise protocol_violation, s)
  handle_typed FrameType.error frame s = (raise protocol_violation, s)

  unfoldable pub handle_frame :
      NvpFrame → ConnectionHandler F → Outcome (Option NvpFrame) × ConnectionHandler F
  unfolding handle_request
  handle_frame frame s = handle_typed frame.frame_type frame s
