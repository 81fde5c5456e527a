-- ===== src/Protocol/Payload.antt =====
-- crates/nova-protocol/src/frame.rs: the requests and the responses. The words of a success message are left out.
use nova_db.Base.{ℕ, Bool, List}
use nova_db.Base.Text.{Text}
use nova_db.Core.Document.{Document}
use nova_db.Core.Error.{NovaError}

pub data ResponsePayload (F : Type 0) : Type 0 where
  success : ℕ → ResponsePayload F
  records : List (Document F) → ℕ → ResponsePayload F
  count : ℕ → ResponsePayload F
  exists : Bool → ResponsePayload F
  watch_ack : ℕ → ResponsePayload F
  error : NovaError → ResponsePayload F
  pong : ResponsePayload F

pub data RequestPayload : Type 0 where
  query watch auth : Text → RequestPayload
  unwatch : ℕ → RequestPayload
  ping : RequestPayload
