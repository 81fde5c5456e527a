-- ===== src/Client/Answers.antt =====
-- crates/nova-client/src/client.rs: which frame answers a request.
use nova_db.Base.{
  ℕ, ◌≡◌, refl, sym, ap, ◌∙◌, true, false, ◌==◌, ==_refl, ==_iff, Bool-cases, Option-cases, inl,
  inr, ◌⊎◌, List, [], ◌∷◌, ◌++◌, map, Option, none, some, All, arith, if◌then◌else◌, some-injective,
  none≢some,
}
use nova_db.Base.Bytes.{Bytes}
use nova_db.Core.Error.{Result, ok, err, ◌>>=◌}
use nova_db.Core.Event.{DataEvent}
use nova_db.Protocol.Frame.{NvpFrame, FrameType}
use nova_db.Protocol.Payload.{ResponsePayload}
use nova_db.Client.{
  ClientJson, NovaClient, contains, without, response_of, error_of, resolve, push_event,
  receive_typed, receive, receive_all,
}

-- the answers that a request was given, the last one first
abbrev pub answers_to : {A : Type 0} → ℕ → List (ℕ × A) → List A
answers_to id [] = []
answers_to id ((i, a) ∷ rest) =
    let others = answers_to id rest in if i == id then a ∷ others else others

contains-without :
    (id j : ℕ) (ids : List ℕ)
    → contains id (without j ids) ≡ (if j == id then false else contains id ids)
unfolding contains without
contains-without id j [] = ground arith
contains-without id j (i ∷ ids) =
    ground (arith, contains-without id j ids, ==_iff i j, ==_iff i id, ==_iff j id)

module _ {F : Type 0} (json : ClientJson F) where
  -- what a frame answers to the request with its id
  abbrev pub answer_of : FrameType → Bytes → Option (Result (ResponsePayload F))
  answer_of FrameType.response bytes = some (response_of json bytes)
  answer_of FrameType.error bytes = some (response_of json bytes >>= error_of json)
  answer_of FrameType.pong bytes = some (ok ResponsePayload.pong)
  answer_of FrameType.request bytes = none
  answer_of FrameType.event bytes = none
  answer_of FrameType.ping bytes = none

  -- The frame answers another request, or none.
  abbrev pub IsOther : ℕ → NvpFrame → Type 0
  IsOther id g = ((g.request_id == id) ≡ false) ⊎ (answer_of g.frame_type g.payload ≡ none)

  -- what is known of one request
  abbrev SameRequest : ℕ → NovaClient F → NovaClient F → Type 0
  SameRequest id c c' =
      (contains id c'.pending ≡ contains id c.pending)
      × (answers_to id c'.answered ≡ answers_to id c.answered)

  resolve_other :
      (id j : ℕ) (a : Result (ResponsePayload F)) (c : NovaClient F)
      → (j == id) ≡ false
      → SameRequest id c (resolve json j a c)
  resolve_other id j a c other = elim (Bool-cases (contains j c.pending)) [
    | inl waiting ↦ rw waiting (contains-without id j c.pending ∙ rw other refl, rw other refl)
    | inr gone ↦ rw gone (refl, refl)
  ]

  push_event_same :
      (id j : ℕ) (o : Option (DataEvent F)) (c : NovaClient F)
      → SameRequest id c (push_event json j o c)
  push_event_same id j none c = (refl, refl)
  push_event_same id j (some e) c = elim (Bool-cases (contains j c.watchers)) [
    | inl watched ↦ rw watched (refl, refl)
    | inr gone ↦ rw gone (refl, refl)
  ]

  typed_other :
      (t : FrameType) (id j : ℕ) (bytes : Bytes) (c : NovaClient F)
      → ((j == id) ≡ false) ⊎ (answer_of t bytes ≡ none)
      → SameRequest id c (receive_typed json t j bytes c)
  typed_other FrameType.response id j bytes c (inl other) = resolve_other id j _ c other
  typed_other FrameType.response id j bytes c (inr h) = absurd (none≢some (sym h))
  typed_other FrameType.error id j bytes c (inl other) = resolve_other id j _ c other
  typed_other FrameType.error id j bytes c (inr h) = absurd (none≢some (sym h))
  typed_other FrameType.pong id j bytes c (inl other) = resolve_other id j _ c other
  typed_other FrameType.pong id j bytes c (inr h) = absurd (none≢some (sym h))
  typed_other FrameType.event id j bytes c h = push_event_same id j (json.event_from_bytes bytes) c
  typed_other FrameType.request id j bytes c h = (refl, refl)
  typed_other FrameType.ping id j bytes c h = (refl, refl)

  typed_hit :
      (t : FrameType) (id : ℕ) (bytes : Bytes) (c : NovaClient F) (a : Result (ResponsePayload F))
      → answer_of t bytes ≡ some a
      → receive_typed json t id bytes c ≡ resolve json id a c
  typed_hit FrameType.response id bytes c a h = ap (λ r. resolve json id r c) (some-injective h)
  typed_hit FrameType.error id bytes c a h = ap (λ r. resolve json id r c) (some-injective h)
  typed_hit FrameType.pong id bytes c a h = ap (λ r. resolve json id r c) (some-injective h)
  typed_hit FrameType.event id bytes c a h = absurd (none≢some h)
  typed_hit FrameType.request id bytes c a h = absurd (none≢some h)
  typed_hit FrameType.ping id bytes c a h = absurd (none≢some h)

  resolve_waiting :
      (id : ℕ) (a : Result (ResponsePayload F)) (c : NovaClient F)
      → contains id c.pending ≡ true
      → (contains id (resolve json id a c).pending ≡ false)
        × (answers_to id (resolve json id a c).answered ≡ a ∷ answers_to id c.answered)
  resolve_waiting id a c waiting =
      rw waiting (contains-without id id c.pending ∙ rw (==_refl id) refl, rw (==_refl id) refl)

  -- A request that no longer waits is given nothing.
  typed_gone :
      (t : FrameType) (id j : ℕ) (bytes : Bytes) (c : NovaClient F)
      → contains id c.pending ≡ false
      → SameRequest id c (receive_typed json t j bytes c)
  typed_gone t id j bytes c gone = elim (Bool-cases (j == id)) [
    | inr other ↦ typed_other t id j bytes c (inl other)
    | inl same ↦ elim (Option-cases (answer_of t bytes)) [
      | inl nothing ↦ typed_other t id j bytes c (inr nothing)
      | inr (a, answers) ↦
          rw (typed_hit t j bytes c a answers) (rw ((==_iff j id).0 same) (rw gone (gone, refl)))
    ]
  ]

  receive_all_gone :
      (id : ℕ) (items : List (Result NvpFrame)) (c : NovaClient F)
      → contains id c.pending ≡ false
      → answers_to id (receive_all json items c).answered ≡ answers_to id c.answered
  unfolding receive_all receive
  receive_all_gone id [] c gone = refl
  receive_all_gone id (err e ∷ items) c gone = refl
  receive_all_gone id (ok g ∷ items) c gone =
      let (still, same) = typed_gone g.frame_type id g.request_id g.payload c gone in
      receive_all_gone id items (receive_typed json g.frame_type g.request_id g.payload c)
        (still ∙ gone)
      ∙ same

  -- Let a request wait for its answer. If the frames that the client reads begin with frames that
  -- answer other requests or none, followed by one that answers it, then, whatever follows, the
  -- request is given the answer of that frame and no other.
  pub receive_all_answers :
      (id : ℕ) (before : List NvpFrame) (g : NvpFrame) (items : List (Result NvpFrame))
      (c : NovaClient F) (a : Result (ResponsePayload F))
      → contains id c.pending ≡ true
      → All (IsOther id) before
      → g.request_id ≡ id
      → answer_of g.frame_type g.payload ≡ some a
      → answers_to id (receive_all json (map ok before ++ (ok g ∷ items)) c).answered
        ≡ a ∷ answers_to id c.answered
  unfolding receive_all receive
  receive_all_answers id [] g items c a waiting others mine answers =
      let (gone, given) = resolve_waiting id a c waiting in
      rw (typed_hit g.frame_type g.request_id g.payload c a answers)
        (rw mine (receive_all_gone id items (resolve json id a c) gone ∙ given))
  receive_all_answers id (b ∷ before) g items c a waiting (other, others) mine answers =
      let (still, same) = typed_other b.frame_type id b.request_id b.payload c other in
      receive_all_answers id before g items
        (receive_typed json b.frame_type b.request_id b.payload c) a (still ∙ waiting) others mine
        answers
      ∙ ap (λ as'. a ∷ as') same
