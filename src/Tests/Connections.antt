-- ===== src/Tests/Connections.antt =====
-- A client's connection, with payloads whose first byte is their kind.
use nova_db.Base.{
  if◌then◌else◌, ◌==◌, ℕ, ◌≡◌, ◌≢◌, refl, true, List, [], ◌∷◌, Option, none, some, All, arith,
}
use nova_db.Base.Bytes.{Bytes}
use nova_db.Base.Text.{Text, codes}
use nova_db.Core.Error.{ok}
use nova_db.Core.Event.{DataEvent}
use nova_db.Core.Outcome.{done}
use nova_db.Protocol.Frame.{NvpFrame, FrameType, new}
use nova_db.Protocol.Payload.{RequestPayload}
use nova_db.Query.Ast.{Statement}
use nova_db.Query.Evaluator.{matches_filter}
use nova_db.Query.Parser.Statements.{parse_nql}
use nova_db.Server.Connection.{
  PayloadJson, ConnectionHandler, new_handler, subscription, handle_frame,
}
use nova_db.Server.Connection.Run.{Arrival, run}
use nova_db.Server.Connection.Refusals.{IsPublic, LacksToken}
use nova_db.Server.Connection.Locked.{run_locked}
use nova_db.Server.Connection.Stream.{watch_loop, received}
use nova_db.Server.Connection.Watching.{handle_frame_hears}
use nova_db.Server.Engine.Emitted.{IsCreation}
use nova_db.Server.Engine.Inserts.{execute_insert}
use nova_db.Tests.Engine
use nova_db.Tests.Engine.{json, env, key, one, first_answer}
use nova_db.Tests.Lexing.{ascii}
use nova_db.Tests.Lexing
use nova_db.Tests.Plain.{plain}
use nova_db.Tests.Queries.{even, doc}

abbrev request_from_bytes : Bytes → Option RequestPayload
request_from_bytes [] = none
request_from_bytes (kind ∷ rest) =
    if kind == 1
    then some (RequestPayload.query rest)
    else if kind == 2
    then some (RequestPayload.auth rest)
    else if kind == 3
    then some RequestPayload.ping
    else if kind == 4
    then some (RequestPayload.watch rest)
    else none

abbrev pub forms : PayloadJson ℕ
forms = record {
  request_from_bytes = request_from_bytes;
  response_to_bytes = λ r. some (7 ∷ []);
  event_to_bytes = λ e. some e.document_id;
}

abbrev pub token : Text
token = codes "sesame"

abbrev arrival : ℕ → Bytes → Arrival
arrival id body = record { item = ok (new FrameType.request id body); writing = true }

-- a query, a wrong token and a ping
abbrev arrivals : List Arrival
arrivals = arrival 1 (1 ∷ codes "COUNT u") ∷ arrival 2 (2 ∷ codes "open") ∷ arrival 3 (3 ∷ []) ∷ []

arrival-LacksToken :
    (id : ℕ) (body : Bytes)
    → request_from_bytes body ≢ some (RequestPayload.auth token)
    → LacksToken forms token (arrival id body)
arrival-LacksToken id body h frame same = λ r. h (cc)

query_is_no_token : some (RequestPayload.query (codes "COUNT u")) ≢ some (RequestPayload.auth token)
query_is_no_token h = cc

ping_is_no_token : some RequestPayload.ping ≢ some (RequestPayload.auth token)
ping_is_no_token h = cc

open_is_no_token : some (RequestPayload.auth (codes "open")) ≢ some (RequestPayload.auth token)
open_is_no_token h = cc

run_locked_example :
    (out : List NvpFrame) × All (IsPublic forms) out
    × (run forms even plain json env ascii Lexing.fresh (some token) arrivals one
        ≡ (done tt, (out, new_handler (some token) one)))
run_locked_example =
    run_locked forms even plain json env ascii Lexing.fresh token arrivals one
      (
        arrival-LacksToken 1 (1 ∷ codes "COUNT u") query_is_no_token,
        (
          arrival-LacksToken 2 (2 ∷ codes "open") open_is_no_token,
          (arrival-LacksToken 3 (3 ∷ []) ping_is_no_token, tt),
        ),
      )
      (omega arith)

abbrev client : ConnectionHandler ℕ
client = new_handler none Engine.fresh

parsed_watch :
    parse_nql ascii Lexing.fresh (codes "WATCH u") ≡ some (ok (Statement.watch (codes "u") none))
unfolding parse_nql
parsed_watch = refl

handle_frame_hears_example :
    let w = subscription 9 (codes "u") none client.engine in
    (handle_frame forms even plain json env ascii Lexing.fresh none
        (new FrameType.request 9 (4 ∷ codes "WATCH u"))
        client
      ≡ (done (some (new FrameType.response 9 (7 ∷ []))), record client { watchers = w ∷ [] }))
    × ((e : DataEvent ℕ) × (bytes : Bytes) × IsCreation key doc e
        × (some e.document_id ≡ some bytes)
        × ((watch_loop forms even w
              (received w (execute_insert even plain json env key doc Engine.fresh).1)).0
            ≡ new FrameType.event 9 bytes ∷ []))
unfolding watch_loop matches_filter
handle_frame_hears_example =
    handle_frame_hears forms even plain json env ascii Lexing.fresh none 9 (4 ∷ codes "WATCH u")
      (RequestPayload.watch (codes "WATCH u")) (codes "WATCH u") key.0 key.1 none (7 ∷ []) doc
      client Engine.fresh refl refl refl parsed_watch refl (omega arith) refl first_answer refl
      (λ e c. (e.document_id, refl))
