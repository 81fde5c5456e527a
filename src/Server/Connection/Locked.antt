-- ===== src/Server/Connection/Locked.antt =====
-- crates/nova-server/src/connection.rs: a client without the token.
use nova_db.Base.{
  ℕ, ◌<◌, ◌^◌, ◌≡◌, ◌≢◌, refl, ap, ◌∙◌, Bool, false, Bool-cases, Option-cases, inl, inr, List, [],
  ◌∷◌, Option, some, All,
}
use nova_db.Base.Bytes.{bytes_eq→eq}
use nova_db.Base.Text.{Text, text_eq}
use nova_db.Core.Document.{Document}
use nova_db.Core.Error.{
  Result-cases, new_error, protocol_violation, authentication_failed, permission_denied,
}
use nova_db.Core.Outcome.{Outcome, done, fail}
use nova_db.Core.Value.{Float}
use nova_db.Protocol.Frame.{NvpFrame, FrameType}
use nova_db.Protocol.Payload.{RequestPayload}
use nova_db.Query.Lexer.Scan.{Chars}
use nova_db.Server.Engine.{DatabaseEngine, Environment, Json}
use nova_db.Server.Connection.{
  PayloadJson, ConnectionHandler, handle_frame, handle_request, handle_payload, handle_typed,
  authenticate, new_handler,
}
use nova_db.Server.Connection.Run.{
  Arrival, reader_loop, run, connected, disconnected, proceed, hang_up,
}
use nova_db.Server.Metrics.{fetch_sub-fetch_add}
use nova_db.Server.Connection.Refusals.{
  malformed, wrong_token, locked, IsPublic, heartbeat, IsPublicAnswer, LacksToken,
  pong-IsPublicAnswer, replies-IsPublic, All-append,
}
use nova_db.Wire.{Wire}

module _ {F : Type 0} where
  hang_up-done :
      (r : Outcome (Unit {0}) × (List NvpFrame × ConnectionHandler F)) (s : ConnectionHandler F)
      → r.0 ≡ done tt
      → r.1.1 ≡ s
      → hang_up r ≡ (done tt, (r.1.0, disconnected s))
  hang_up-done r s ended kept = rw (ended, hang_up) (rw kept refl)

  -- counted in and out again
  counted_out :
      (token : Text) (s : DatabaseEngine F)
      → s.metrics.active_connections < 2 ^ 64
      → disconnected (new_handler (some token) (connected s)) ≡ new_handler (some token) s
  counted_out token s h =
      ap
        (λ n.
          new_handler (some token)
            (record s { metrics = record s.metrics { active_connections = n } }))
        (fetch_sub-fetch_add s.metrics.active_connections h)

module _ {F H : Type 0} (forms : PayloadJson F) (fl : Float F) (x : Wire H) (json : Json F)
    (env : Environment) (chars : Chars F) (fresh : Document F) (token : Text) where
  -- the request is answered without a change
  abbrev IsAnswered : ConnectionHandler F → Outcome (Option NvpFrame) × ConnectionHandler F → Type 0
  IsAnswered s p = (p.1 ≡ s) × IsPublicAnswer forms p.0

  handle_request-IsAnswered :
      (id : ℕ) (payload : RequestPayload) (s : ConnectionHandler F)
      → s.authenticated ≡ false
      → payload ≢ RequestPayload.auth token
      → IsAnswered s (handle_request forms fl x json env chars fresh (some token) id payload s)
  unfolding handle_request text_eq
  handle_request-IsAnswered id (RequestPayload.auth given) s h k =
      elim (Bool-cases (text_eq given token)) [
        | inl same ↦ absurd (k (ap RequestPayload.auth (bytes_eq→eq given token same)))
        | inr other ↦ rw (other, authenticate) (refl, (authentication_failed, refl, wrong_token))
      ]
  handle_request-IsAnswered id RequestPayload.ping s h k = (refl, pong-IsPublicAnswer forms id)
  handle_request-IsAnswered id (RequestPayload.query nql) s h k =
      rw h (refl, (permission_denied, refl, locked))
  handle_request-IsAnswered id (RequestPayload.watch nql) s h k =
      rw h (refl, (permission_denied, refl, locked))
  handle_request-IsAnswered id (RequestPayload.unwatch subscription) s h k =
      rw h (refl, (permission_denied, refl, locked))

  refusal : (s : ConnectionHandler F) → IsAnswered s (fail (new_error protocol_violation), s)
  refusal s = (refl, (protocol_violation, refl, malformed))

  handle_typed-IsAnswered :
      (t : FrameType) (frame : NvpFrame) (s : ConnectionHandler F)
      → s.authenticated ≡ false
      → forms.request_from_bytes frame.payload ≢ some (RequestPayload.auth token)
      → IsAnswered s (handle_typed forms fl x json env chars fresh (some token) t frame s)
  handle_typed-IsAnswered FrameType.ping frame s h k = (refl, heartbeat frame.request_id)
  handle_typed-IsAnswered FrameType.pong frame s h k = (refl, tt)
  handle_typed-IsAnswered FrameType.response frame s h k = refusal s
  handle_typed-IsAnswered FrameType.event frame s h k = refusal s
  handle_typed-IsAnswered FrameType.error frame s h k = refusal s
  handle_typed-IsAnswered FrameType.request frame s h k =
      elim (Option-cases (forms.request_from_bytes frame.payload)) [
        | inl unread ↦ rw (unread, handle_payload) (refusal s)
        | inr (payload, read) ↦
            rw (read, handle_payload)
              (handle_request-IsAnswered frame.request_id payload s h
                (λ same. k (read ∙ ap some same)))
      ]

  -- what the loop comes to: an end without a panic, public frames and the handler as it was
  abbrev IsQuiet :
      ConnectionHandler F → Outcome (Unit {0}) × (List NvpFrame × ConnectionHandler F) → Type 0
  IsQuiet s r = (r.0 ≡ done tt) × All (IsPublic forms) r.1.0 × (r.1.1 ≡ s)

  proceed-IsQuiet :
      (next : Outcome Bool) (out : List NvpFrame) (s' s : ConnectionHandler F)
      (rest : Outcome (Unit {0}) × (List NvpFrame × ConnectionHandler F))
      → ((b : Bool) × (next ≡ done b))
      → All (IsPublic forms) out
      → s' ≡ s
      → IsQuiet s rest
      → IsQuiet s (proceed next out s' rest)
  proceed-IsQuiet next out s' s rest (b, same) h k (ended, quiet, kept) = elim (Bool-cases b) [
    | inl on ↦ rw same (rw on (ended, All-append (IsPublic forms) out rest.1.0 h quiet, kept))
    | inr off ↦ rw same (rw off (refl, h, k))
  ]

  reader_loop-IsQuiet :
      (arrivals : List Arrival) (s : ConnectionHandler F)
      → s.authenticated ≡ false
      → All (LacksToken forms token) arrivals
      → IsQuiet s (reader_loop forms fl x json env chars fresh (some token) arrivals s)
  unfolding reader_loop handle_frame
  reader_loop-IsQuiet [] s h k = (refl, tt, refl)
  reader_loop-IsQuiet (a ∷ arrivals) s h (k, ks) = elim (Result-cases a.item) [
    | inl (e, broken) ↦ rw broken (refl, tt, refl)
    | inr (frame, arrived) ↦
        let (same, answer) = handle_typed-IsAnswered frame.frame_type frame s h (k frame arrived) in
        let p =
          handle_typed forms fl x json env chars fresh (some token) frame.frame_type frame s in
        let (out, next) = replies-IsPublic forms frame.request_id a.writing p.0 answer in
        rw arrived (
          proceed-IsQuiet _ _ p.1 s _ next out same (rw same (reader_loop-IsQuiet arrivals s h ks)))
  ]

  -- Let a token be configured, let no frame that a client sends be a request with the token, and
  -- let fewer than 2^64 connections be counted. Whatever else it sends, its connection ends without
  -- a panic and leaves the whole engine as it found it, the counters included; the client is not
  -- authenticated and watches nothing, and it is sent nothing but pongs and errors for a malformed
  -- request, a wrong token or a missing one.
  pub run_locked :
      (arrivals : List Arrival) (engine : DatabaseEngine F)
      → All (LacksToken forms token) arrivals
      → engine.metrics.active_connections < 2 ^ 64
      → (out : List NvpFrame) × All (IsPublic forms) out
        × (run forms fl x json env chars fresh (some token) arrivals engine
            ≡ (done tt, (out, new_handler (some token) engine)))
  unfolding run
  run_locked arrivals engine k h =
      let s = new_handler (some token) (connected engine) in
      let r = reader_loop forms fl x json env chars fresh (some token) arrivals s in
      let (ended, quiet, kept) = reader_loop-IsQuiet arrivals s refl k in
      (
        r.1.0,
        quiet,
        hang_up-done r s ended kept ∙ ap (λ h. (done tt, (r.1.0, h))) (counted_out token engine h),
      )
