-- ===== src/Server/Web.antt =====
-- crates/nova-server/src/web.rs: what the web interface does with a query, and its answers in JSON.
pub mod Request
pub mod Seed
pub mod Events
pub mod Http
pub mod Agree
pub mod Unguarded
pub mod Reading
use nova_db.Base.{
  ℕ, zero, suc, ◌+◌, ◌/◌, ◌%◌, ltb, Bool, true, false, List, [], ◌∷◌, ◌++◌, Option, none, some,
  if◌then◌else◌, length,
}
use nova_db.Base.Text.{Text, codes, trim}
use nova_db.Core.Document.{Document}
use nova_db.Core.Error.{NovaError, Result, ok, err}
use nova_db.Core.Outcome.{Outcome, done, fail, panic}
use nova_db.Core.Value.{Value, Values, Fields, Float}
use nova_db.Core.Value.Json
use nova_db.Core.Value.Json.{JsonCrates, JsonValue, JsonValues, JsonFields, number_or_null}
use nova_db.Protocol.Payload.{ResponsePayload}
use nova_db.Query.Ast.{Statement}
use nova_db.Query.Lexer.Scan.{Chars}
use nova_db.Query.Parser.Statements.{parse_nql}
use nova_db.Server.Engine.{DatabaseEngine, Environment, Json}
use nova_db.Server.Engine.Execute.{execute}
use nova_db.Server.Status.{decimal, object_of}
use nova_db.Wire.{Wire}

-- `query.trim().is_empty()`
unfoldable pub is_blank : Text → Bool
unfolding trim
is_blank query = elim (trim query) [ [] ↦ true | c ∷ s ↦ false ]

-- What the answers take from elsewhere: the words of errors and of success messages, and a number as
-- serde_json has it.
pub record Words (F N : Type 0) : Type 0 where
  pub error_text : NovaError → Text
  pub success_text : ResponsePayload F → Text
  pub number : ℕ → N

module _ {N : Type 0} where
  abbrev pub failure : Text → JsonValue N
  failure text =
      object_of
        ((codes "success", JsonValue.bool false) ∷ (codes "error", JsonValue.string text) ∷ [])

module _ {F N : Type 0} (crates : JsonCrates F N) where
  -- `value_to_json`; the last argument of `fields_to_json` is the map so far
  unfoldable mutual
    unfolding Json.insert decimal

    pub value_to_json : Value F → JsonValue N
    value_to_json Value.null = JsonValue.null
    value_to_json (Value.bool b) = JsonValue.bool b
    value_to_json (Value.int i) = JsonValue.number (crates.of_i64 i)
    value_to_json (Value.float f) = number_or_null crates (crates.from_f64 f)
    value_to_json (Value.string s) = JsonValue.string s
    value_to_json (Value.bytes b) =
        JsonValue.string (codes "<" ++ (decimal (length b) ++ codes " bytes>"))
    value_to_json (Value.array xs) = JsonValue.array (items_to_json xs)
    value_to_json (Value.object m) = JsonValue.object (fields_to_json m JsonFields.end)
    value_to_json (Value.timestamp t) = JsonValue.number (crates.of_i64 t)
    value_to_json (Value.uuid u) = JsonValue.string (crates.uuid_text u)

    pub items_to_json : Values F → JsonValues N
    items_to_json Values.nil = JsonValues.nil
    items_to_json (Values.cons v vs) = JsonValues.cons (value_to_json v) (items_to_json vs)

    pub fields_to_json : Fields F → JsonFields N → JsonFields N
    fields_to_json Fields.end obj = obj
    fields_to_json (Fields.field k v m) obj = fields_to_json m (Json.insert k (value_to_json v) obj)

  -- `document_to_json`
  unfoldable pub document_to_json : Document F → JsonValue N
  unfolding value_to_json
  document_to_json doc = JsonValue.object (
      fields_to_json doc.fields (Json.insert (codes "id") (JsonValue.string doc.id) JsonFields.end))

  abbrev pub documents_to_json : List (Document F) → JsonValues N
  documents_to_json [] = JsonValues.nil
  documents_to_json (doc ∷ docs) = JsonValues.cons (document_to_json doc) (documents_to_json docs)

module _ {F N : Type 0} (crates : JsonCrates F N) (words : Words F N) (elapsed : ℕ) where
  -- an answer of the given type, with what it says
  abbrev succeeded : Text → List (Text × JsonValue N) → JsonValue N
  succeeded type entries = object_of (
      (codes "success", JsonValue.bool true)
      ∷ (codes "execution_time_us", JsonValue.number (words.number elapsed))
      ∷ (codes "type", JsonValue.string type)
      ∷ entries)

  abbrev failed : NovaError → JsonValue N
  failed e = object_of (
      (codes "success", JsonValue.bool false)
      ∷ (codes "execution_time_us", JsonValue.number (words.number elapsed))
      ∷ (codes "error", JsonValue.string (words.error_text e))
      ∷ [])

  abbrev count_entry : ℕ → Text × JsonValue N
  count_entry n = (codes "count", JsonValue.number (words.number n))

  unfoldable pub payload_to_json : ResponsePayload F → JsonValue N
  unfolding document_to_json Json.insert
  payload_to_json (ResponsePayload.records docs n) =
      succeeded (codes "records")
        (count_entry n ∷ (codes "data", JsonValue.array (documents_to_json crates docs)) ∷ [])
  payload_to_json (ResponsePayload.success n) = succeeded (codes "success") (
      (codes "message", JsonValue.string (words.success_text (ResponsePayload.success n)))
      ∷ (codes "affected", JsonValue.number (words.number n))
      ∷ [])
  payload_to_json (ResponsePayload.count n) = succeeded (codes "count") (count_entry n ∷ [])
  payload_to_json (ResponsePayload.exists b) =
      succeeded (codes "exists") ((codes "exists", JsonValue.bool b) ∷ [])
  payload_to_json (ResponsePayload.error e) = failed e
  payload_to_json (ResponsePayload.watch_ack id) =
      succeeded (codes "watch") ((codes "subscription_id", JsonValue.number (words.number id)) ∷ [])
  payload_to_json ResponsePayload.pong = succeeded (codes "pong") []

  abbrev pub outcome_to_json : Outcome (ResponsePayload F) → Outcome (JsonValue N)
  outcome_to_json (done payload) = done (payload_to_json payload)
  outcome_to_json (fail e) = done (failed e)
  outcome_to_json panic = panic

  module _ {H : Type 0} (fl : Float F) (x : Wire H) (json : Json F) (env : Environment)
      (chars : Chars F) (fresh : Document F) where
    abbrev pub run_parsed :
        Option (Result (Statement F))
        → Text
        → DatabaseEngine F
        → Outcome (JsonValue N) × DatabaseEngine F
    -- no result of `parse_nql`
    run_parsed none ns s = (panic, s)
    run_parsed (some (err e)) ns s =
        (done (failure (codes "Syntax Error: " ++ words.error_text e)), s)
    run_parsed (some (ok stmt)) ns s =
        let (o, s') = execute fl x json env stmt ns s in (outcome_to_json o, s')

    unfoldable pub execute_query_api :
        Text → Text → DatabaseEngine F → Outcome (JsonValue N) × DatabaseEngine F
    unfolding parse_nql execute payload_to_json is_blank
    execute_query_api query ns s =
        if is_blank query
        then (done (failure (codes "Query string cannot be empty")), s)
        else run_parsed (parse_nql chars fresh query) ns s
