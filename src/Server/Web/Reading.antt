-- ===== src/Server/Web/Reading.antt =====
-- crates/nova-server/src/web.rs: requests that do not change the database.
use nova_db.Base.{◌≡◌, refl, Bool, true, false, false≢true, arith}
use nova_db.Base.Text.{Text, text_eq, codes}
use nova_db.Core.Document.{Document}
use nova_db.Core.Outcome.{done}
use nova_db.Core.Value.{Float}
use nova_db.Core.Value.Json.{JsonCrates}
use nova_db.Query.Lexer.Scan.{Chars}
use nova_db.Server.Engine.{DatabaseEngine, Environment, Json}
use nova_db.Server.Status.{ServerConfig}
use nova_db.Server.Web.{Words}
use nova_db.Server.Web.Http.{HttpResponse, WebCrates, answer_to, handle_http_connection}
use nova_db.Server.Web.Request.{
  Route, preflight, studio, status, query, seed, events, not_found, request_line, route,
}
use nova_db.Wire.{Wire}

abbrev reads : Route → Bool
reads query = false
reads seed = false
reads _ = true

route_reads :
    (method path : Text) → text_eq method (codes "POST") ≡ false → reads (route method path) ≡ true
unfolding route
route_reads method path h = ground (arith, h)

module _ {F N H : Type 0} (crates : JsonCrates F N) (words : Words F N) (web : WebCrates N)
    (config : ServerConfig) (fl : Float F) (x : Wire H) (json : Json F) (env : Environment)
    (chars : Chars F) (fresh : Document F) where
  answer_to_reads :
      (r : Route) (request : Text) (s : DatabaseEngine F)
      → reads r ≡ true
      → (answer : HttpResponse) × (answer_to crates words web config fl x json env chars fresh r
            request s
          ≡ (done answer, s))
  answer_to_reads preflight request s h = (_, refl)
  answer_to_reads studio request s h = (_, refl)
  answer_to_reads status request s h = (_, refl)
  answer_to_reads query request s h = absurd (false≢true h)
  answer_to_reads seed request s h = absurd (false≢true h)
  answer_to_reads events request s h = (_, refl)
  answer_to_reads not_found request s h = (_, refl)

-- An HTTP request with a method other than POST is answered without a panic, and leaves the whole
-- engine as it was.
pub handle_http_connection_reads :
    {F N H : Type 0} (crates : JsonCrates F N) (words : Words F N) (web : WebCrates N)
    (config : ServerConfig) (fl : Float F) (x : Wire H) (json : Json F) (env : Environment)
    (chars : Chars F) (fresh : Document F) (request : Text) (s : DatabaseEngine F)
    → text_eq (request_line request).0 (codes "POST") ≡ false
    → (answer : HttpResponse) × (handle_http_connection crates words web config fl x json env chars
          fresh request s
        ≡ (done answer, s))
unfolding handle_http_connection
handle_http_connection_reads crates words web config fl x json env chars fresh request s h =
    let line = request_line request in
    answer_to_reads crates words web config fl x json env chars fresh (route line.0 line.1) request
      s (route_reads line.0 line.1 h)
