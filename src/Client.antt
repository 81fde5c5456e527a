-- ===== src/Client.antt =====
-- crates/nova-client/src/client.rs: the client's requests, and the task that reads what the server sends.
pub mod Answers
pub mod Collection
pub mod Asked
pub mod Found
use nova_db.Base.{
  ℕ, ◌+◌, ◌%◌, ◌^◌, ◌==◌, Bool, true, false, ◌||◌, List, [], ◌∷◌, Option, none, some, if◌then◌else◌,
}
use nova_db.Base.Bytes.{Bytes}
use nova_db.Base.Text.{Text}
use nova_db.Core.Error.{
  Result, ok, err, ◌>>=◌, ok_or, new_error, protocol_violation, authentication_failed,
}
use nova_db.Core.Event.{DataEvent}
use nova_db.Protocol.Frame.{NvpFrame, FrameType, new}
use nova_db.Protocol.Payload.{RequestPayload, ResponsePayload}

-- serde_json's forms of the payloads, on the client's side
pub record ClientJson (F : Type 0) : Type 0 where
  pub request_to_bytes : RequestPayload → Option Bytes
  pub response_from_bytes : Bytes → Option (ResponsePayload F)
  pub event_from_bytes : Bytes → Option (DataEvent F)

-- `NovaClient`: the ids in `pending` and in `watchers`, what the senders of `pending` were given and
-- what the streams of `watchers` were sent, the last one first.
pub record NovaClient (F : Type 0) : Type 0 where
  pub next_req_id : ℕ
  pub pending : List ℕ
  pub watchers : List ℕ
  pub answered : List (ℕ × Result (ResponsePayload F))
  pub streamed : List (ℕ × DataEvent F)

-- the client behind `connect`
abbrev pub new_client : {F : Type 0} → NovaClient F
new_client = record { next_req_id = 1; pending = []; watchers = []; answered = []; streamed = [] }

unfoldable pub contains : ℕ → List ℕ → Bool
contains id [] = false
contains id (i ∷ ids) = i == id || contains id ids

-- `remove` from a map
unfoldable pub without : ℕ → List ℕ → List ℕ
without id [] = []
without id (i ∷ ids) = let rest = without id ids in if i == id then rest else i ∷ rest

-- `insert` into a map: the sender of an id that is there is replaced
abbrev pub add_id : ℕ → List ℕ → List ℕ
add_id id ids = if contains id ids then ids else id ∷ ids

module _ {F : Type 0} (json : ClientJson F) where
  abbrev pub response_of : Bytes → Result (ResponsePayload F)
  response_of bytes = ok_or (new_error protocol_violation) (json.response_from_bytes bytes)

  -- the error of an Error frame
  abbrev pub error_of : ResponsePayload F → Result (ResponsePayload F)
  error_of (ResponsePayload.error e) = err e
  error_of _ = err (new_error protocol_violation)

  -- the sender of a pending request is taken out and given the answer
  abbrev pub resolve : ℕ → Result (ResponsePayload F) → NovaClient F → NovaClient F
  resolve id answer c =
      if contains id c.pending
      then record c { pending = without id c.pending; answered = (id, answer) ∷ c.answered }
      else c

  -- an event goes to the stream with its id, if it can be read
  abbrev pub push_event : ℕ → Option (DataEvent F) → NovaClient F → NovaClient F
  push_event id none c = c
  push_event id (some e) c =
      if contains id c.watchers then record c { streamed = (id, e) ∷ c.streamed } else c

  -- a frame by its type
  abbrev pub receive_typed : FrameType → ℕ → Bytes → NovaClient F → NovaClient F
  receive_typed FrameType.response id bytes c = resolve id (response_of bytes) c
  receive_typed FrameType.error id bytes c = resolve id (response_of bytes >>= error_of) c
  receive_typed FrameType.event id bytes c = push_event id (json.event_from_bytes bytes) c
  receive_typed FrameType.pong id bytes c = resolve id (ok ResponsePayload.pong) c
  receive_typed FrameType.request id bytes c = c
  receive_typed FrameType.ping id bytes c = c

  -- The task that reads, on one frame.
  unfoldable pub receive : NvpFrame → NovaClient F → NovaClient F
  unfolding contains without
  receive frame c = receive_typed frame.frame_type frame.request_id frame.payload c

  -- The task on what the decoder yields: an error ends it.
  unfoldable pub receive_all : List (Result NvpFrame) → NovaClient F → NovaClient F
  unfolding receive
  receive_all [] c = c
  receive_all (err e ∷ items) c = c
  receive_all (ok frame ∷ items) c = receive_all items (receive frame c)

  -- `send_request` up to where it waits: the frame that it sends
  unfoldable pub send_request : RequestPayload → NovaClient F → Result NvpFrame × NovaClient F
  unfolding contains
  send_request payload c =
      let id = c.next_req_id in
      let c' = record c { next_req_id = (id + 1) % 2 ^ 64 } in
      elim (json.request_to_bytes payload) [
        | none ↦ (err (new_error protocol_violation), c')
        | some bytes ↦
            (ok (new FrameType.request id bytes), record c' { pending = add_id id c'.pending })
      ]

  -- `register_watch` up to where it waits: its stream is there before the request is
  unfoldable pub register_watch : Text → NovaClient F → Result NvpFrame × NovaClient F
  unfolding send_request
  register_watch nql c =
      let id = c.next_req_id in
      send_request (RequestPayload.watch nql) (record c { watchers = add_id id c.watchers })

  -- what the calls make of an answer
  abbrev pub ping_result : ResponsePayload F → Result (Unit {0})
  ping_result ResponsePayload.pong = ok tt
  ping_result _ = err (new_error protocol_violation)

  abbrev pub auth_result : ResponsePayload F → Result (Unit {0})
  auth_result (ResponsePayload.success n) = ok tt
  auth_result _ = err (new_error authentication_failed)

  abbrev pub watch_result : ResponsePayload F → Result (Unit {0})
  watch_result (ResponsePayload.watch_ack id) = ok tt
  watch_result _ = err (new_error protocol_violation)
