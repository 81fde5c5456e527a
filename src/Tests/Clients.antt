-- ===== src/Tests/Clients.antt =====
-- A client that waits for the answers to two requests. The byte of a payload is a count.
use nova_db.Base.{ℕ, ◌≡◌, refl, inl, inr, List, [], ◌∷◌, Option, none, some}
use nova_db.Base.Bytes.{Bytes}
use nova_db.Client.{ClientJson, NovaClient, contains, receive_all}
use nova_db.Client.Answers.{answers_to, receive_all_answers}
use nova_db.Core.Error.{Result, ok}
use nova_db.Protocol.Frame.{NvpFrame, FrameType, new}
use nova_db.Protocol.Payload.{ResponsePayload}

abbrev count_of : Bytes → Option (ResponsePayload ℕ)
count_of [] = none
count_of (n ∷ rest) = some (ResponsePayload.count n)

abbrev json : ClientJson ℕ
json = record {
  request_to_bytes = λ r. some [];
  response_from_bytes = count_of;
  event_from_bytes = λ bytes. none;
}

abbrev waiting : NovaClient ℕ
waiting = record {
  next_req_id = 3;
  pending = 2 ∷ 1 ∷ [];
  watchers = [];
  answered = [];
  streamed = [];
}

-- the answer to request 2, a ping and two frames for request 1
abbrev frames : List (Result NvpFrame)
frames =
    ok (new FrameType.response 2 (8 ∷ []))
    ∷ ok (new FrameType.ping 1 [])
    ∷ ok (new FrameType.response 1 (5 ∷ []))
    ∷ ok (new FrameType.pong 1 [])
    ∷ []

receive_all_answers_example :
    answers_to 1 (receive_all json frames waiting).answered ≡ ok (ResponsePayload.count 5) ∷ []
unfolding contains
receive_all_answers_example =
    receive_all_answers json 1 (new FrameType.response 2 (8 ∷ []) ∷ new FrameType.ping 1 [] ∷ [])
      (new FrameType.response 1 (5 ∷ [])) (ok (new FrameType.pong 1 []) ∷ []) waiting
      (ok (ResponsePayload.count 5)) refl (inl refl, (inr refl, tt)) refl refl
