-- ===== src/Server/Web/Seed.antt =====
-- crates/nova-server/src/web.rs: the sample data.
use nova_db.Base.{ℕ, suc, true, List, [], ◌∷◌, ◌++◌, Option, none, some}
use nova_db.Base.Text.{Text, codes}
use nova_db.Core.Document.{Document}
use nova_db.Core.Error.{Result, ok, err}
use nova_db.Core.Outcome.{Outcome, done, fail, panic}
use nova_db.Core.Value.{Float}
use nova_db.Core.Value.Json.{JsonValue}
use nova_db.Query.Ast.{Statement}
use nova_db.Query.Lexer.Scan.{Chars}
use nova_db.Query.Parser.Statements.{parse_nql}
use nova_db.Server.Engine.{DatabaseEngine, Environment, Json}
use nova_db.Server.Engine.Execute.{execute}
use nova_db.Server.Status.{object_of, decimal}
use nova_db.Server.Web.{Words}
use nova_db.Wire.{Wire}

-- the queries of `seed_sample_data`
abbrev pub sample_queries : List Text
sample_queries =
    codes
      "INSERT INTO users VALUES ({ \"id\": \"usr_01\", \"name\": \"Elena Rostova\", \"role\": \"Lead Architect\", \"team\": \"Core Systems\", \"points\": 98, \"active\": true })"
    ∷ codes
        "INSERT INTO users VALUES ({ \"id\": \"usr_02\", \"name\": \"Marcus Vance\", \"role\": \"Site Reliability Engineer\", \"team\": \"Infrastructure\", \"points\": 88, \"active\": true })"
    ∷ codes
        "INSERT INTO users VALUES ({ \"id\": \"usr_03\", \"name\": \"Aria Chen\", \"role\": \"Data Systems Engineer\", \"team\": \"Analytics\", \"points\": 92, \"active\": true })"
    ∷ codes
        "INSERT INTO users VALUES ({ \"id\": \"usr_04\", \"name\": \"Devon Miller\", \"role\": \"Security Specialist\", \"team\": \"Security\", \"points\": 74, \"active\": false })"
    ∷ codes
        "INSERT INTO sensors VALUES ({ \"id\": \"sns_north_01\", \"name\": \"Cryo Tank Alpha\", \"location\": \"Zone 1\", \"temp\": 64.2, \"pressure\": 101.3, \"status\": \"nominal\" })"
    ∷ codes
        "INSERT INTO sensors VALUES ({ \"id\": \"sns_north_02\", \"name\": \"Core Turbine 4\", \"location\": \"Zone 2\", \"temp\": 82.5, \"pressure\": 114.7, \"status\": \"warning\" })"
    ∷ codes
        "INSERT INTO sensors VALUES ({ \"id\": \"sns_south_01\", \"name\": \"Reactor Shield B\", \"location\": \"Zone 3\", \"temp\": 91.0, \"pressure\": 128.2, \"status\": \"critical\" })"
    ∷ codes
        "INSERT INTO sensors VALUES ({ \"id\": \"sns_south_02\", \"name\": \"Cooling Valve 9\", \"location\": \"Zone 1\", \"temp\": 52.8, \"pressure\": 98.4, \"status\": \"nominal\" })"
    ∷ codes "CREATE INDEX ON users (points)"
    ∷ codes "CREATE INDEX ON sensors (temp)"
    ∷ []

module _ {F N H : Type 0} (words : Words F N) (fl : Float F) (x : Wire H) (json : Json F)
    (env : Environment) (chars : Chars F) (fresh : Document F) where
  abbrev seed_one :
      Option (Result (Statement F)) → ℕ × DatabaseEngine F → Outcome ℕ × DatabaseEngine F
  seed_one none (n, s) = (panic, s)
  seed_one (some (err e)) (n, s) = (done n, s)
  seed_one (some (ok stmt)) (n, s) =
      let (o, s') = execute fl x json env stmt (codes "default") s in
      elim o [ done r ↦ (done (suc n), s') | fail e ↦ (done (suc n), s') | panic ↦ (panic, s') ]

  -- the loop over the queries: one that parses is counted, whatever comes of it
  unfoldable pub seed_all : List Text → ℕ × DatabaseEngine F → Outcome ℕ × DatabaseEngine F
  unfolding parse_nql execute
  seed_all [] (n, s) = (done n, s)
  seed_all (q ∷ queries) (n, s) =
      let (o, s') = seed_one (parse_nql chars fresh q) (n, s) in
      elim o [ done m ↦ seed_all queries (m, s') | fail e ↦ (fail e, s') | panic ↦ (panic, s') ]

  abbrev seed_json : Outcome ℕ → Outcome (JsonValue N)
  seed_json (done seeded) = done (
      object_of (
        (codes "success", JsonValue.bool true)
        ∷ (
          codes "message",
          JsonValue.string (
              codes "Seeded "
              ++ (decimal seeded
                  ++ codes " sample documents and indexes into 'default' namespace")),
        )
        ∷ (codes "count", JsonValue.number (words.number seeded))
        ∷ []))
  seed_json (fail e) = fail e
  seed_json panic = panic

  -- `seed_sample_data`
  unfoldable pub seed_sample_data : DatabaseEngine F → Outcome (JsonValue N) × DatabaseEngine F
  unfolding seed_all
  seed_sample_data s = let (o, s') = seed_all sample_queries (0, s) in (seed_json o, s')
