-- ===== src/Server/Web/Events.antt =====
-- crates/nova-server/src/web.rs: the stream of events of /api/events, on what the broadcast channel hands
-- it.
use nova_db.Base.{Bool, List, [], ◌∷◌, ◌++◌, Option, none, some, if◌then◌else◌}
use nova_db.Base.Text.{Text, codes}
use nova_db.Core.Document.{Document}
use nova_db.Core.Event.{DataEvent, as_str}
use nova_db.Core.Value.Json.{JsonCrates, JsonValue}
use nova_db.Server.Status.{object_of}
use nova_db.Server.Web.{Words, document_to_json}

-- what `recv` yields
pub data Received (F : Type 0) : Type 0 where
  event : DataEvent F → Received F
  lagged closed : Received F

module _ {F N : Type 0} (crates : JsonCrates F N) (words : Words F N)
    (to_string : JsonValue N → Option Text) where
  -- the document after the change, else the one before it
  abbrev shown_document : Option (Document F) → Option (Document F) → JsonValue N
  shown_document (some doc) before = document_to_json crates doc
  shown_document none (some doc) = document_to_json crates doc
  shown_document none none = JsonValue.null

  unfoldable pub event_to_json : DataEvent F → JsonValue N
  unfolding as_str document_to_json
  event_to_json e = object_of (
      (codes "sequence", JsonValue.number (words.number e.sequence))
      ∷ (codes "event_type", JsonValue.string (as_str e.event_type))
      ∷ (codes "namespace", JsonValue.string e.namespace)
      ∷ (codes "collection", JsonValue.string e.collection)
      ∷ (codes "document_id", JsonValue.string e.document_id)
      ∷ (codes "document", shown_document e.after e.before)
      ∷ (codes "timestamp", JsonValue.number (crates.of_i64 e.timestamp))
      ∷ [])

  abbrev or_empty : Option Text → Text
  or_empty none = []
  or_empty (some t) = t

  unfoldable pub event_message : DataEvent F → Text
  unfolding event_to_json
  event_message e = codes "data: " ++ (or_empty (to_string (event_to_json e)) ++ (10 ∷ 10 ∷ []))

  -- the loop: the messages that are written, up to the first that cannot be
  unfoldable pub stream_events : List (Received F × Bool) → List Text
  unfolding event_message
  stream_events [] = []
  stream_events ((event e, writes) ∷ arrivals) =
      let rest = stream_events arrivals in if writes then event_message e ∷ rest else []
  stream_events ((lagged, writes) ∷ arrivals) = stream_events arrivals
  stream_events ((closed, writes) ∷ arrivals) = []
