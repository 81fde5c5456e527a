-- ===== src/Server/Connection/Watching.antt =====
-- crates/nova-server/src/connection.rs: what a WATCH hears of an INSERT.
use nova_db.Base.{
  false≢true, ℕ, ◌-◌, ◌≤◌, ◌≡◌, refl, ap, true, Option-cases, inl, inr, List, [], ◌∷◌, ◌++◌, Option,
  none, some, some-injective, none≢some, length, arith, suc,
}
use nova_db.Base.Bytes.{Bytes, bytes_eq_refl}
use nova_db.Base.Map.{text_eq, pair_eq}
use nova_db.Base.Text
use nova_db.Base.Text.{Text}
use nova_db.Core.Document.{Document}
use nova_db.Core.Error.{ok}
use nova_db.Core.Event.{DataEvent}
use nova_db.Core.Outcome.{done, Outcome-cases}
use nova_db.Core.Value.{Float}
use nova_db.Protocol.Frame.{NvpFrame, FrameType, new}
use nova_db.Protocol.Payload.{RequestPayload, ResponsePayload}
use nova_db.Query.Ast.{Statement, Expr}
use nova_db.Query.Evaluator.{matches_filter}
use nova_db.Query.Lexer.Scan.{Chars}
use nova_db.Query.Parser.Statements.{parse_nql}
use nova_db.Server.Engine.{DatabaseEngine, Environment, Json}
use nova_db.Server.Engine.Inserts.{execute_insert}
use nova_db.Server.Engine.Emitted.{IsCreation, execute_insert_emits}
use nova_db.Server.Connection.{
  PayloadJson, Watcher, ConnectionHandler, subscription, reply, handle_frame, handle_request,
  handle_payload, parsed, guarded,
}
use nova_db.Server.Connection.Stream.{watch_step, watch_loop, received, event_frame, doc_of}
use nova_db.Wire.{Wire}

suc_sub : (m n : ℕ) → m ≤ n → suc n - m ≡ suc (n - m)
suc_sub m n h = omega arith

-- the text of a request that carries a statement: a query, or a WATCH as the client sends it
abbrev pub nql_of : RequestPayload → Option Text
nql_of (RequestPayload.query nql) = some nql
nql_of (RequestPayload.watch nql) = some nql
nql_of _ = none

module _ {F : Type 0} where
  -- an event more on the channel
  received_next :
      (w : Watcher F) (e : DataEvent F) (s s' : DatabaseEngine F)
      → w.since ≤ length s.events
      → s'.events ≡ e ∷ s.events
      → received w s' ≡ received w s ++ (e ∷ [])
  received_next w e s s' h same = rw same (rw (suc_sub w.since (length s.events) h) refl)

  module _ (forms : PayloadJson F) (fl : Float F) where
    watch_loop_next :
        (w : Watcher F) (es : List (DataEvent F)) (e : DataEvent F) (frame : NvpFrame)
        → (watch_loop forms fl w es).1 ≡ true
        → watch_step forms fl w e ≡ done (some frame)
        → (watch_loop forms fl w (es ++ (e ∷ []))).0 ≡ (watch_loop forms fl w es).0 ++ (frame ∷ [])
    unfolding watch_loop
    watch_loop_next w [] e frame on hit = rw (hit, watch_loop) refl
    watch_loop_next w (e' ∷ es) e frame on hit = elim (Outcome-cases (watch_step forms fl w e')) [
      | inl (o, here) ↦ elim (Option-cases o) [
        | inl nothing ↦
            rw (here, watch_loop)
              (rw nothing
                (watch_loop_next w es e frame (rw nothing at rw (here, watch_loop) at on) hit))
        | inr (f, sent) ↦
            rw (here, watch_loop)
              (rw sent (
                ap (λ fs. f ∷ fs)
                  (watch_loop_next w es e frame (rw sent at rw (here, watch_loop) at on) hit)))
      ]
      | inr (inl (error, here)) ↦ absurd (false≢true (rw (here, watch_loop) at on))
      | inr (inr here) ↦ absurd (false≢true (rw (here, watch_loop) at on))
    ]

    watch_step_created :
        (w : Watcher F) (ns : Text) (doc : Document F) (e : DataEvent F) (bytes : Bytes)
        → IsCreation (ns, w.collection) doc e
        → matches_filter fl w.filter doc ≡ done true
        → forms.event_to_bytes e ≡ some bytes
        → watch_step forms fl w e ≡ done (some (new FrameType.event w.sub_id bytes))
    unfolding watch_step Text.text_eq
    watch_step_created w ns doc e bytes c passes wrote = rw c.in_collection (
        rw (bytes_eq_refl w.collection)
          (rw (c.after_is, doc_of) (rw passes (rw (wrote, event_frame) refl))))

module _ {F H : Type 0} (forms : PayloadJson F) (fl : Float F) (x : Wire H) (json : Json F)
    (env : Environment) (chars : Chars F) (fresh : Document F) (auth_token : Option Text) where
  -- the answer to a WATCH
  handle_frame_watch :
      (id : ℕ) (body : Bytes) (payload : RequestPayload) (nql coll : Text)
      (filter : Option (Expr F)) (ack : Bytes) (s : ConnectionHandler F)
      → s.authenticated ≡ true
      → forms.request_from_bytes body ≡ some payload
      → nql_of payload ≡ some nql
      → parse_nql chars fresh nql ≡ some (ok (Statement.watch coll filter))
      → forms.response_to_bytes (ResponsePayload.watch_ack id) ≡ some ack
      → handle_frame forms fl x json env chars fresh auth_token (new FrameType.request id body) s
        ≡ (
          done (some (new FrameType.response id ack)),
          record s { watchers = subscription id coll filter s.engine ∷ s.watchers },
        )
  unfolding handle_frame handle_request
  handle_frame_watch id body (RequestPayload.query nql') nql coll filter ack s known read asked
        parses wrote =
      rw (read, handle_payload)
        (rw (known, guarded)
          (rw (some-injective asked) (rw (parses, parsed) (rw (wrote, reply) refl))))
  handle_frame_watch id body (RequestPayload.watch nql') nql coll filter ack s known read asked
        parses wrote =
      rw (read, handle_payload)
        (rw (known, guarded)
          (rw (some-injective asked) (rw (parses, parsed) (rw (wrote, reply) refl))))
  handle_frame_watch id body (RequestPayload.auth t) nql coll filter ack s known read asked parses
        wrote =
      absurd (none≢some asked)
  handle_frame_watch id body RequestPayload.ping nql coll filter ack s known read asked parses
        wrote =
      absurd (none≢some asked)
  handle_frame_watch id body (RequestPayload.unwatch i) nql coll filter ack s known read asked
        parses wrote =
      absurd (none≢some asked)

  -- An authenticated client that sends a text parsed as a WATCH, in a query or in a WATCH request,
  -- gets the acknowledgement, if it can be written, under the id of its request. Let its task still
  -- run when it has been handed the events up to a later state. A successful insertion then, in any
  -- namespace, of a document into the watched collection that passes the filter, has the task send
  -- one frame more than before under that id: the event of the creation, which has to serialise.
  pub handle_frame_hears :
      (id : ℕ) (body : Bytes) (payload : RequestPayload) (nql ns coll : Text)
      (filter : Option (Expr F)) (ack : Bytes) (doc : Document F) (s : ConnectionHandler F)
      (later : DatabaseEngine F) {r : ResponsePayload F}
      → s.authenticated ≡ true
      → forms.request_from_bytes body ≡ some payload
      → nql_of payload ≡ some nql
      → parse_nql chars fresh nql ≡ some (ok (Statement.watch coll filter))
      → forms.response_to_bytes (ResponsePayload.watch_ack id) ≡ some ack
      → length s.engine.events ≤ length later.events
      → (watch_loop forms fl
          (subscription id coll filter s.engine)
          (received (subscription id coll filter s.engine) later)).1
        ≡ true
      → (execute_insert fl x json env (ns, coll) doc later).0 ≡ done r
      → matches_filter fl filter doc ≡ done true
      → ((e : DataEvent F)
          → IsCreation (ns, coll) doc e
          → (bytes : Bytes) × (forms.event_to_bytes e ≡ some bytes))
      → let w = subscription id coll filter s.engine in
        (handle_frame forms fl x json env chars fresh auth_token (new FrameType.request id body) s
          ≡ (done (some (new FrameType.response id ack)), record s { watchers = w ∷ s.watchers }))
        × ((e : DataEvent F) × (bytes : Bytes) × IsCreation (ns, coll) doc e
            × (forms.event_to_bytes e ≡ some bytes)
            × ((watch_loop forms fl w
                  (received w (execute_insert fl x json env (ns, coll) doc later).1)).0
                ≡ (watch_loop forms fl w (received w later)).0
                  ++ (new FrameType.event id bytes ∷ [])))
  handle_frame_hears id body payload nql ns coll filter ack doc s later known read asked parses
        wrote since on inserts passes writes =
      let w = subscription id coll filter s.engine in
      let (e, c, emitted) = execute_insert_emits fl x json env (ns, coll) doc later inserts in
      let (bytes, written) = writes e c in
      (
        handle_frame_watch id body payload nql coll filter ack s known read asked parses wrote,
        (
          e,
          bytes,
          c,
          written,
          rw
              (received_next w e later (execute_insert fl x json env (ns, coll) doc later).1 since
                emitted)
              (watch_loop_next forms fl w (received w later) e (new FrameType.event id bytes) on
                (watch_step_created forms fl w ns doc e bytes c passes written)),
        ),
      )
