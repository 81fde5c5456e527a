-- ===== src/Tests/Webs.antt =====
-- Requests over the web interface, on the collection of Tests/Engine.
use nova_db.Base.{
  ℕ, ◌≡◌, refl, sym, ap, true, false, ◌⊎◌, inl, Option, none, some, [], ◌∷◌, ◌++◌, ◌∙◌,
}
use nova_db.Base.Int.{ℤ, pos}
use nova_db.Base.Text.{Text, codes, text_cmp, text_eq}
use nova_db.Core.Error.{ok, permission_denied, Result}
use nova_db.Core.Outcome.{done, raise}
use nova_db.Core.Value.{Value, Values, Fields, value_eq}
use nova_db.Core.Value.Json.{JsonValue, JsonFields, from_json}
use nova_db.Core.Value.Json.Survives.{IsWellFormed, survives}
use nova_db.Index.{ordered}
use nova_db.Protocol.Payload.{RequestPayload}
use nova_db.Query.Ast.{Statement}
use nova_db.Query.Parser.Statements.{parse_nql}
use nova_db.Server.Connection.{ConnectionHandler, handle_request}
use nova_db.Server.Status.{ServerConfig, default_config}
use nova_db.Server.Web.{Words, value_to_json, is_blank}
use nova_db.Server.Web.Agree.{value_eq-value_to_json}
use nova_db.Server.Web.Http.{HttpResponse, WebCrates, handle_http_connection}
use nova_db.Server.Web.Reading.{handle_http_connection_reads}
use nova_db.Server.Web.Request.{request_line, extract_json_body}
use nova_db.Server.Web.Unguarded.{is_watch, handle_http_connection-handle_request}
use nova_db.Tests.Connections.{forms, token}
use nova_db.Tests.Engine.{env, one, json}
use nova_db.Tests.Lexing.{ascii}
use nova_db.Tests.Plain.{plain}
use nova_db.Tests.Queries.{even, doc}
use nova_db.Tests.Values.{crates, crates-IsJsonCrates}

-- { "a": ["x", 3.0] }
abbrev shown : Value ℕ
shown = Value.object (
    Fields.field (codes "a")
      (Value.array
        (Values.cons (Value.string (codes "x")) (Values.cons (Value.float 3) Values.nil)))
      Fields.end)

shown-IsWellFormed : IsWellFormed shown
unfolding IsWellFormed text_cmp
shown-IsWellFormed = ((tt, tt), ((tt, (tt, tt)), tt))

value_eq-value_to_json_example :
    value_eq even (from_json crates (value_to_json crates shown)) shown ≡ true
unfolding survives
value_eq-value_to_json_example =
    value_eq-value_to_json even crates shown crates-IsJsonCrates shown-IsWellFormed refl

abbrev words : Words ℕ (ℤ ⊎ ℕ)
words = record {
  error_text = λ e. codes "refused";
  success_text = λ p. codes "well";
  number = λ n. inl (pos n);
}

abbrev inside : ConnectionHandler ℕ
inside = record { engine = one; authenticated = true; watchers = [] }

abbrev removal : Text
removal = codes "REMOVE u"

removal-parsed : parse_nql ascii doc removal ≡ some (ok (Statement.remove (codes "u") none))
unfolding parse_nql
removal-parsed = refl

statement_of : Option (Result (Statement ℕ)) → Statement ℕ
statement_of (some (ok stmt)) = stmt
statement_of _ = Statement.begin

removal_no_watch :
    (stmt : Statement ℕ) → parse_nql ascii doc removal ≡ some (ok stmt) → is_watch stmt ≡ false
unfolding statement_of
removal_no_watch stmt e = ap (λ r. is_watch (statement_of r)) (sym e ∙ removal-parsed)

abbrev web : WebCrates (ℤ ⊎ ℕ)
web = record {
  from_str = λ t. none;
  to_string = λ j. none;
  html = codes "<html>";
  now = pos 0;
  elapsed = 0;
}

-- a reader that knows one body
abbrev reader : WebCrates (ℤ ⊎ ℕ)
reader = record web {
  from_str = λ t. some (
      JsonValue.object
        (JsonFields.field (codes "query") (JsonValue.string removal) JsonFields.end));
}

abbrev post_query : Text
post_query = codes "POST /api/query HTTP/1.1" ++ (13 ∷ 10 ∷ 13 ∷ 10 ∷ codes "{}")

abbrev guarded_config : ServerConfig
guarded_config = record default_config { auth_token = some token }

handle_http_connection-handle_request_example :
    let locked = record inside { authenticated = false } in
    ((handle_http_connection crates words reader guarded_config even plain json env ascii doc
        post_query one).1
      ≡ (handle_request forms even plain json env ascii doc
          (some token)
          1
          (RequestPayload.query removal)
          inside).1.engine)
    × (handle_request forms even plain json env ascii doc
          (some token)
          1
          (RequestPayload.query removal)
          locked
        ≡ (raise permission_denied, locked))
unfolding is_blank request_line extract_json_body text_eq
handle_http_connection-handle_request_example =
    handle_http_connection-handle_request crates words reader guarded_config forms even plain json
      env ascii doc post_query removal 1 inside refl refl refl refl refl removal_no_watch refl

abbrev get_status : Text
get_status = codes "GET /api/status HTTP/1.1" ++ (13 ∷ 10 ∷ 13 ∷ 10 ∷ [])

handle_http_connection_reads_example :
    (answer : HttpResponse) × (handle_http_connection crates words web default_config even plain
        json env ascii doc get_status one
      ≡ (done answer, one))
unfolding request_line text_eq
handle_http_connection_reads_example =
    handle_http_connection_reads crates words web default_config even plain json env ascii doc
      get_status one refl

-- The sample data's statement for an index on users makes one on the field users of a collection ON.
sample_index :
    parse_nql ascii doc (codes "CREATE INDEX ON users (points)")
    ≡ some (ok (Statement.create_index (codes "ON") (codes "users") ordered))
unfolding parse_nql
sample_index = refl
