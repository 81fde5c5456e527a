-- ===== src/Server/Connection/Refusals.antt =====
-- crates/nova-server/src/connection.rs: what a client without the token may be sent.
use nova_db.Base.{
  ℕ, ◌≡◌, ◌≢◌, refl, Bool, true, false, Option-cases, inl, inr, List, [], ◌∷◌, ◌++◌, Option, none,
  some, All,
}
use nova_db.Base.Bytes.{Bytes}
use nova_db.Base.Text.{Text}
use nova_db.Core.Error.{
  ok, ErrorCode, new_error, protocol_violation, authentication_failed, permission_denied,
}
use nova_db.Core.Outcome.{Outcome, done, fail, panic}
use nova_db.Protocol.Frame.{NvpFrame, FrameType, new, new_pong}
use nova_db.Protocol.Payload.{RequestPayload, ResponsePayload}
use nova_db.Server.Connection.{PayloadJson, reply}
use nova_db.Server.Connection.Run.{Arrival, replies, error_frames}

-- what a client without the token may be told
pub data IsRefusal : ErrorCode → Type 0 where
  malformed : IsRefusal protocol_violation
  wrong_token : IsRefusal authentication_failed
  locked : IsRefusal permission_denied

module _ {F : Type 0} (forms : PayloadJson F) where
  -- a frame that says nothing about the database
  pub data IsPublic : NvpFrame → Type 0 where
    heartbeat : (id : ℕ) → IsPublic (new_pong id)
    pong_reply :
        (id : ℕ) (bytes : Bytes)
        → forms.response_to_bytes ResponsePayload.pong ≡ some bytes
        → IsPublic (new FrameType.response id bytes)
    refused :
        (id : ℕ) (c : ErrorCode) (bytes : Bytes)
        → IsRefusal c
        → forms.response_to_bytes (ResponsePayload.error (new_error c)) ≡ some bytes
        → IsPublic (new FrameType.error id bytes)

  abbrev pub IsPublicAnswer : Outcome (Option NvpFrame) → Type 0
  IsPublicAnswer (done none) = Unit
  IsPublicAnswer (done (some frame)) = IsPublic frame
  IsPublicAnswer (fail e) = (c : ErrorCode) × (e ≡ new_error c) × IsRefusal c
  IsPublicAnswer panic = ⊥

  -- The arrival is no request that carries the token.
  abbrev pub LacksToken : Text → Arrival → Type 0
  LacksToken token a =
      (frame : NvpFrame)
      → a.item ≡ ok frame
      → forms.request_from_bytes frame.payload ≢ some (RequestPayload.auth token)

  error_frames-IsPublic :
      (id : ℕ) (c : ErrorCode) → IsRefusal c → All IsPublic (error_frames forms id (new_error c))
  error_frames-IsPublic id c r =
      elim (Option-cases (forms.response_to_bytes (ResponsePayload.error (new_error c)))) [
        | inl none_written ↦ rw (none_written, All, error_frames) tt
        | inr (bytes, written) ↦ rw (written, All, error_frames) (refused id c bytes r written, tt)
      ]

  pub pong-IsPublicAnswer : (id : ℕ) → IsPublicAnswer (reply forms id ResponsePayload.pong)
  pong-IsPublicAnswer id = elim (Option-cases (forms.response_to_bytes ResponsePayload.pong)) [
    | inl none_written ↦
        rw (none_written, IsPublicAnswer, reply) (protocol_violation, refl, malformed)
    | inr (bytes, written) ↦ rw (written, IsPublicAnswer, reply) (pong_reply id bytes written)
  ]

  -- what the loop sends for such an answer, and that it does not stop with a panic
  pub replies-IsPublic :
      (id : ℕ) (writing : Bool) (o : Outcome (Option NvpFrame))
      → IsPublicAnswer o
      → All IsPublic (replies forms id writing o).0
        × ((b : Bool) × ((replies forms id writing o).1 ≡ done b))
  replies-IsPublic id true (done (some frame)) h = ((h, tt), (true, refl))
  replies-IsPublic id false (done (some frame)) h = (tt, (false, refl))
  replies-IsPublic id true (done none) h = (tt, (true, refl))
  replies-IsPublic id false (done none) h = (tt, (true, refl))
  replies-IsPublic id true (fail e) (c, same, r) =
      rw same (error_frames-IsPublic id c r, (true, refl))
  replies-IsPublic id false (fail e) h = (tt, (true, refl))
  replies-IsPublic id false panic h = elim h [ ]
  replies-IsPublic id true panic h = elim h [ ]

pub All-append :
    {A : Type 0} (P : A → Type 0) (left right : List A)
    → All P left
    → All P right
    → All P (left ++ right)
All-append P [] right h k = k
All-append P (a ∷ left) right (h, hs) k = (h, All-append P left right hs k)
