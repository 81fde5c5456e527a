-- ===== src/Server/Web/Unguarded.antt =====
-- crates/nova-server/src/web.rs and connection.rs: a query over HTTP and a query on a connection.
use nova_db.Base.{
  ℕ, ◌≡◌, refl, ap, ◌∙◌, Bool, true, false, false≢true, sym, inl, inr, Option-cases, Option, some,
  [],
}
use nova_db.Base.Text.{Text, codes, text_eq}
use nova_db.Core.Document.{Document}
use nova_db.Core.Error.{ok, Result-cases, permission_denied}
use nova_db.Core.Outcome.{raise, returned}
use nova_db.Core.Value.{Float}
use nova_db.Core.Value.Json.{JsonCrates}
use nova_db.Protocol.Payload.{RequestPayload}
use nova_db.Query.Ast.{Statement}
use nova_db.Query.Lexer.Scan.{Chars}
use nova_db.Query.Parser.Statements.{parse_nql}
use nova_db.Server.Connection.{
  PayloadJson, ConnectionHandler, handle_request, run_statement, parsed,
}
use nova_db.Server.Engine.{Environment, Json}
use nova_db.Server.Engine.Execute.{execute}
use nova_db.Server.Status.{ServerConfig}
use nova_db.Server.Web.Http.{WebCrates, handle_http_connection}
use nova_db.Server.Web.Request.{request_line, route, body_text, extract_json_body}
use nova_db.Server.Web.{Words, is_blank, execute_query_api}
use nova_db.Wire.{Wire}

abbrev pub is_watch : {F : Type 0} → Statement F → Bool
is_watch (Statement.watch coll filter) = true
is_watch _ = false

module _ {F H : Type 0} (forms : PayloadJson F) (fl : Float F) (x : Wire H) (json : Json F)
    (env : Environment) (chars : Chars F) (fresh : Document F) (auth_token : Option Text) where
  run_statement-engine :
      (id : ℕ) (stmt : Statement F) (h : ConnectionHandler F)
      → is_watch stmt ≡ false
      → (run_statement forms fl x json env chars fresh auth_token id stmt h).1.engine
        ≡ (execute fl x json env stmt (codes "default") h.engine).1
  run_statement-engine id (Statement.find coll filter sort limit offset) h other = refl
  run_statement-engine id (Statement.insert coll doc) h other = refl
  run_statement-engine id (Statement.update coll todo filter) h other = refl
  run_statement-engine id (Statement.remove coll filter) h other = refl
  run_statement-engine id (Statement.count coll filter) h other = refl
  run_statement-engine id (Statement.exists coll filter) h other = refl
  run_statement-engine id (Statement.create_index coll f t) h other = refl
  run_statement-engine id (Statement.drop_index coll f) h other = refl
  run_statement-engine id Statement.begin h other = refl
  run_statement-engine id Statement.commit h other = refl
  run_statement-engine id Statement.rollback h other = refl
  run_statement-engine id (Statement.watch coll filter) h other = absurd (false≢true (sym other))

  execute_query_api-handle_request :
      {N : Type 0} (crates : JsonCrates F N) (words : Words F N) (elapsed id : ℕ) (query : Text)
      (h : ConnectionHandler F)
      → h.authenticated ≡ true
      → is_blank query ≡ false
      → ((stmt : Statement F)
          → parse_nql chars fresh query ≡ some (ok stmt)
          → is_watch stmt ≡ false)
      → (execute_query_api crates words elapsed fl x json env chars fresh query
          (codes "default")
          h.engine).1
        ≡ (handle_request forms fl x json env chars fresh auth_token id
            (RequestPayload.query query)
            h).1.engine
  unfolding execute_query_api handle_request
  execute_query_api-handle_request crates words elapsed id query h inside full no_watch = rw full (
      rw inside (elim (Option-cases (parse_nql chars fresh query)) [
        | inl never ↦ rw (never, parsed) refl
        | inr (r, e) ↦
            rw (e, parsed)
              (elim (Result-cases r) [
                | inl (e', bad) ↦ rw (bad, returned) refl
                | inr (stmt, good) ↦
                    rw (good, returned)
                      (sym (
                        run_statement-engine id stmt (record h { authenticated = true })
                          (no_watch stmt (e ∙ ap some good))))
              ])
      ]))

-- A POST of /api/query, whose body has the text of a query that is not blank and not parsed to a
-- WATCH, for the namespace default, changes the engine exactly as that query does on a connection
-- that is authenticated, whatever token is configured and whatever else the request holds. On a
-- connection that is not authenticated the same query is refused and changes nothing.
pub handle_http_connection-handle_request :
    {F N H : Type 0} (crates : JsonCrates F N) (words : Words F N) (web : WebCrates N)
    (config : ServerConfig) (forms : PayloadJson F) (fl : Float F) (x : Wire H) (json : Json F)
    (env : Environment) (chars : Chars F) (fresh : Document F) (request text : Text) (id : ℕ)
    (h : ConnectionHandler F)
    → (request_line request).0 ≡ codes "POST"
    → (request_line request).1 ≡ codes "/api/query"
    → body_text (codes "query") [] (extract_json_body web.from_str request) ≡ text
    → body_text (codes "namespace") (codes "default") (extract_json_body web.from_str request)
      ≡ codes "default"
    → is_blank text ≡ false
    → ((stmt : Statement F) → parse_nql chars fresh text ≡ some (ok stmt) → is_watch stmt ≡ false)
    → h.authenticated ≡ true
    → let locked = record h { authenticated = false } in
      ((handle_http_connection crates words web config fl x json env chars fresh request h.engine).1
        ≡ (handle_request forms fl x json env chars fresh config.auth_token id
            (RequestPayload.query text)
            h).1.engine)
      × (handle_request forms fl x json env chars fresh config.auth_token id
            (RequestPayload.query text)
            locked
          ≡ (raise permission_denied, locked))
unfolding handle_http_connection route text_eq handle_request
handle_http_connection-handle_request crates words web config forms fl x json env chars fresh
      request text id h post path asks default full no_watch inside =
    let same =
      execute_query_api-handle_request forms fl x json env chars fresh config.auth_token crates
        words web.elapsed id text h inside full no_watch in
    (rw post (rw path (rw asks (rw default same))), refl)
