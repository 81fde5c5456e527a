-- ===== src/Server/Status.antt =====
-- crates/nova-server/src/config.rs, and the status that engine.rs and metrics.rs report.
use nova_db.Base.{
  ◌-◌, ◌<◌, ◌≡◌, ap, ◌∙◌, arith, true, false, Bool-cases, inl, inr, ℕ, zero, suc, ◌+◌, ◌*◌, ◌/◌,
  ◌%◌, ltb, ◌||◌, List, [], ◌∷◌, ◌++◌, Option, none, some, if◌then◌else◌, length,
}
use nova_db.Base.Int.{ℤ, pos_part, wrapping_sub}
use nova_db.Base.Map
use nova_db.Base.Map.{Map, text_eq as text_key, pair_eq}
use nova_db.Base.Text.{Text, text_eq, codes}
use nova_db.Core.Document.{Document}
use nova_db.Core.Value.Json
use nova_db.Core.Value.Json.{JsonValue, JsonValues, JsonFields}
use nova_db.Index.Manager.{IndexManager}
use nova_db.Server.Engine.{DatabaseEngine, DocumentStore}
use nova_db.Query.Lexer.Scan.{digits_value}
use nova_db.Server.Metrics.{ServerMetrics}
use nova_db.Storage.Recovery.{CollectionKey, Collections, or_default}
use nova_db.Storage.Wal.{SyncMode, always, never}

-- `{}` of a number; as many rounds as the number and one more are enough for its digits
abbrev decimal_loop : ℕ → ℕ → Text → Text
decimal_loop zero n digits = digits
decimal_loop (suc fuel) n digits =
    let more = (b'0' + n % 10) ∷ digits in
    let rest = decimal_loop fuel (n / 10) more in if ltb n 10 then more else rest

unfoldable pub decimal : ℕ → Text
decimal n = decimal_loop (suc n) n []

-- `ServerConfig`; the directory is what `to_string_lossy` makes of it.
pub record ServerConfig : Type 0 where
  pub host : Text
  pub port : ℕ
  pub data_dir : Text
  pub max_connections : ℕ
  pub max_frame_size : ℕ
  pub sync_mode : Text
  pub auth_token : Option Text
  pub web_port : Option ℕ

-- `default`
abbrev pub default_config : ServerConfig
default_config = record {
  host = codes "127.0.0.1";
  port = 7400;
  data_dir = codes "./data";
  max_connections = 1000;
  max_frame_size = 16 * 1024 * 1024;
  sync_mode = codes "always";
  auth_token = none;
  web_port = none;
}

-- `get_sync_mode`, for what `to_lowercase` makes of the mode
unfoldable pub get_sync_mode : (Text → Text) → ServerConfig → SyncMode
unfolding text_eq
get_sync_mode to_lowercase config =
    let mode = to_lowercase config.sync_mode in
    if text_eq mode (codes "none") || text_eq mode (codes "buffered") then never else always

unfoldable pub bind_addr : ServerConfig → Text
unfolding decimal
bind_addr config = config.host ++ (codes ":" ++ decimal config.port)

abbrev web_addr_at : Text → Option ℕ → Option Text
web_addr_at host none = none
web_addr_at host (some p) = some (host ++ (codes ":" ++ decimal p))

unfoldable pub web_addr : ServerConfig → Option Text
unfolding decimal
web_addr config = web_addr_at config.host config.web_port

-- `uptime_secs` of `ServerMetrics::snapshot`: a division towards zero, and nothing below zero
abbrev pub uptime_seconds : ℤ → ServerMetrics → ℕ
uptime_seconds now m = pos_part (wrapping_sub now m.start_time_micros) / 1000000

module _ {N : Type 0} where
  -- `json!({ .. })`
  abbrev pub fields_of : List (Text × JsonValue N) → JsonFields N → JsonFields N
  fields_of [] m = m
  fields_of ((k, v) ∷ rest) m = fields_of rest (Json.insert k v m)

  abbrev pub object_of : List (Text × JsonValue N) → JsonValue N
  object_of entries = JsonValue.object (fields_of entries JsonFields.end)

  abbrev text_or_null : Option Text → JsonValue N
  text_or_null none = JsonValue.null
  text_or_null (some t) = JsonValue.string t

  abbrev as_values : List (JsonValue N) → JsonValues N
  as_values [] = JsonValues.nil
  as_values (v ∷ vs) = JsonValues.cons v (as_values vs)

  module _ (number : ℕ → N) where
    abbrev counted : ℕ → JsonValue N
    counted n = JsonValue.number (number n)

    abbrev coll_info : {F : Type 0} → Text → DocumentStore F → IndexManager F → JsonValue N
    coll_info coll store m = object_of (
        (codes "name", JsonValue.string coll)
        ∷ (codes "document_count", counted (length store))
        ∷ (codes "index_count", counted (length m))
        ∷ [])

    -- the loop over the collections
    abbrev by_namespace :
        {F : Type 0}
        → Collections (Document F)
        → Map CollectionKey (IndexManager F)
        → Map Text (List (JsonValue N))
        → Map Text (List (JsonValue N))
    by_namespace [] indexes acc = acc
    by_namespace (((ns, coll), store) ∷ colls) indexes acc =
        let info = coll_info coll store (or_default (Map.get (ns, coll) indexes)) in
        by_namespace colls indexes (Map.insert ns (or_default (Map.get ns acc) ++ info ∷ []) acc)

    abbrev namespaces : Map Text (List (JsonValue N)) → List (JsonValue N)
    namespaces [] = []
    namespaces ((name, infos) ∷ rest) =
        object_of (
          (codes "name", JsonValue.string name)
          ∷ (codes "collections", JsonValue.array (as_values infos))
          ∷ [])
        ∷ namespaces rest

    abbrev metrics_json : ℤ → ServerMetrics → JsonValue N
    metrics_json now m = object_of (
        (codes "uptime_seconds", counted (uptime_seconds now m))
        ∷ (codes "total_queries", counted m.total_queries)
        ∷ (codes "total_writes", counted m.total_writes)
        ∷ (codes "total_reads", counted m.total_reads)
        ∷ (codes "total_events", counted m.total_events_emitted)
        ∷ (codes "active_connections", counted m.active_connections)
        ∷ [])

    -- `get_system_status`, at the time `now`
    unfoldable pub get_system_status :
        {F : Type 0} → ServerConfig → ℤ → DatabaseEngine F → JsonValue N
    unfolding Json.insert bind_addr web_addr wrapping_sub
    get_system_status config now s = object_of (
        (codes "status", JsonValue.string (codes "online"))
        ∷ (codes "version", JsonValue.string (codes "0.1.0"))
        ∷ (
          codes "tagline",
          JsonValue.string (codes "A database that understands the flow of your data."),
        )
        ∷ (codes "bind_addr", JsonValue.string (bind_addr config))
        ∷ (codes "web_addr", text_or_null (web_addr config))
        ∷ (codes "data_dir", JsonValue.string config.data_dir)
        ∷ (codes "sync_mode", JsonValue.string config.sync_mode)
        ∷ (codes "max_connections", counted config.max_connections)
        ∷ (codes "metrics", metrics_json now s.metrics)
        ∷ (
          codes "namespaces",
          JsonValue.array (as_values (namespaces (by_namespace s.collections s.indexes []))),
        )
        ∷ [])

-- The digits are those of the number: they read back as it.
decimal_loop-digits :
    (fuel n : ℕ) (acc : Text)
    → n < fuel
    → digits_value 0 (decimal_loop fuel n acc) ≡ digits_value n acc
unfolding digits_value
decimal_loop-digits zero n acc h = absurd (omega arith)
decimal_loop-digits (suc fuel) n acc h = elim (Bool-cases (ltb n 10)) [
  | inl last ↦ rw last (ap (λ k. digits_value k acc) (one_digit n last))
  | inr more ↦ rw more (
      decimal_loop-digits fuel (n / 10) ((b'0' + n % 10) ∷ acc) (fewer n fuel more h)
      ∙ ap (λ k. digits_value k acc) (ground arith))
]
  where
    one_digit : (n : ℕ) → ltb n 10 ≡ true → 0 * 10 + (b'0' + n % 10 - b'0') ≡ n
    one_digit n h = ground (arith, h)

    fewer : (n fuel : ℕ) → ltb n 10 ≡ false → n < suc fuel → n / 10 < fuel
    fewer n fuel h k = ground (arith, h, k)

pub decimal-digits : (n : ℕ) → digits_value 0 (decimal n) ≡ n
unfolding decimal digits_value
decimal-digits n = decimal_loop-digits (suc n) n [] (omega arith)
