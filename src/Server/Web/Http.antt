-- ===== src/Server/Web/Http.antt =====
-- crates/nova-server/src/web.rs: one HTTP request over the web interface.
use nova_db.Base.{ℕ, [], Option, none, some, length}
use nova_db.Base.Int.{ℤ}
use nova_db.Base.Text.{Text, codes, as_bytes}
use nova_db.Core.Document.{Document}
use nova_db.Core.Outcome.{Outcome, done, fail, panic}
use nova_db.Core.Value.{Float}
use nova_db.Core.Value.Json.{JsonCrates, JsonValue}
use nova_db.Query.Lexer.Scan.{Chars}
use nova_db.Server.Engine.{DatabaseEngine, Environment, Json}
use nova_db.Server.Status.{ServerConfig, get_system_status}
use nova_db.Server.Web.{Words, execute_query_api}
use nova_db.Server.Web.Request.{
  Route, preflight, studio, status, query, seed, events, not_found, request_line, route,
  extract_json_body, body_text,
}
use nova_db.Server.Web.Seed.{seed_sample_data}
use nova_db.Wire.{Wire}

-- What is written to the stream. The page and the answers have the status 200 and the length of their
-- body in bytes; the events follow the head of a stream.
pub data HttpResponse : Type 0 where
  no_content : HttpResponse
  content : (content_type : Text) → (content_length : ℕ) → (body : Text) → HttpResponse
  event_stream : HttpResponse
  nothing_found : HttpResponse

abbrev with_length : Text → Text → HttpResponse
with_length content_type body = content content_type (length (as_bytes body)) body

abbrev text_or_default : Option Text → Text
text_or_default none = []
text_or_default (some t) = t

module _ {N : Type 0} where
  -- an answer in JSON
  abbrev pub json_answer :
      (JsonValue N → Option Text) → Outcome (JsonValue N) → Outcome HttpResponse
  json_answer to_string (done j) =
      done (with_length (codes "application/json; charset=utf-8") (text_or_default (to_string j)))
  json_answer to_string (fail e) = fail e
  json_answer to_string panic = panic

-- What the interface takes from elsewhere: serde_json's reader and writer, the page, and the time.
pub record WebCrates (N : Type 0) : Type 0 where
  pub from_str : Text → Option (JsonValue N)
  pub to_string : JsonValue N → Option Text
  pub html : Text
  pub now : ℤ
  pub elapsed : ℕ

module _ {F N H : Type 0} (crates : JsonCrates F N) (words : Words F N) (web : WebCrates N)
    (config : ServerConfig) (fl : Float F) (x : Wire H) (json : Json F) (env : Environment)
    (chars : Chars F) (fresh : Document F) where
  abbrev pub answer_to : Route → Text → DatabaseEngine F → Outcome HttpResponse × DatabaseEngine F
  answer_to preflight request s = (done no_content, s)
  answer_to studio request s = (done (with_length (codes "text/html; charset=utf-8") web.html), s)
  answer_to status request s =
      (json_answer web.to_string (done (get_system_status words.number config web.now s)), s)
  answer_to query request s =
      let body = extract_json_body web.from_str request in
      let (o, s') =
        execute_query_api crates words web.elapsed fl x json env chars fresh
          (body_text (codes "query") [] body) (body_text (codes "namespace") (codes "default") body)
          s in
      (json_answer web.to_string o, s')
  answer_to seed request s =
      let (o, s') = seed_sample_data words fl x json env chars fresh s in
      (json_answer web.to_string o, s')
  answer_to events request s = (done event_stream, s)
  answer_to not_found request s = (done nothing_found, s)

  -- `handle_http_connection`, on the text of the request
  unfoldable pub handle_http_connection :
      Text → DatabaseEngine F → Outcome HttpResponse × DatabaseEngine F
  unfolding request_line route extract_json_body execute_query_api seed_sample_data
      get_system_status
  handle_http_connection request s =
      let (method, path) = request_line request in answer_to (route method path) request s
