-- ===== src/Server/Web/Request.antt =====
-- crates/nova-server/src/web.rs: the text of an HTTP request, and what it asks for.
use nova_db.Base.{◌==◌, ◌&&◌, ◌||◌, List, [], ◌∷◌, Option, none, some, if◌then◌else◌, take, drop}
use nova_db.Base.Text.{Text, text_eq, codes, is_whitespace}
use nova_db.Core.Value.Json.{JsonValue, JsonFields}

-- the first line, without its line break
abbrev first_line : Text → Text
first_line [] = []
first_line (c ∷ []) = if c == 10 then [] else c ∷ []
first_line (c ∷ d ∷ s) =
    let rest = first_line (d ∷ s) in if c == 10 || (c == 13 && d == 10) then [] else c ∷ rest

-- the characters up to the first space, and those behind it
abbrev word_of : Text → Text × Text
word_of [] = ([], [])
word_of (c ∷ s) = let (w, rest) = word_of s in if is_whitespace c then ([], s) else (c ∷ w, rest)

abbrev skip_spaces : Text → Text
skip_spaces [] = []
skip_spaces (c ∷ s) = if is_whitespace c then skip_spaces s else c ∷ s

abbrev unless_empty : Text → Text → Text
unless_empty [] default = default
unless_empty (c ∷ s) default = c ∷ s

-- method and path: the first two words of the line
unfoldable pub request_line : Text → Text × Text
unfolding is_whitespace
request_line request =
    let (method, rest) = word_of (skip_spaces (first_line request)) in
    let (path, others) = word_of (skip_spaces rest) in
    (unless_empty method (codes "GET"), unless_empty path (codes "/"))

-- what the request asks for
pub data Route : Type 0 where
  preflight studio status query seed events not_found : Route

abbrev routes : List (Text × (Text × Route))
routes =
    (codes "GET", (codes "/", studio))
    ∷ (codes "GET", (codes "/api/status", status))
    ∷ (codes "POST", (codes "/api/query", query))
    ∷ (codes "POST", (codes "/api/seed", seed))
    ∷ (codes "GET", (codes "/api/events", events))
    ∷ []

abbrev route_in : List (Text × (Text × Route)) → Text → Text → Route
route_in [] method path = not_found
route_in ((m, (p, r)) ∷ rest) method path =
    if text_eq method m && text_eq path p then r else route_in rest method path

unfoldable pub route : Text → Text → Route
unfolding text_eq
route method path =
    if text_eq method (codes "OPTIONS") then preflight else route_in routes method path

-- behind the empty line, if there is one
unfoldable pub body_of : Text → Option Text
body_of [] = none
body_of (c ∷ s) =
    let rest = body_of s in
    if text_eq (take 4 (c ∷ s)) (13 ∷ 10 ∷ 13 ∷ 10 ∷ []) then some (drop 3 s) else rest

module _ {N : Type 0} where
  abbrev get_field : Text → JsonFields N → Option (JsonValue N)
  get_field key JsonFields.end = none
  get_field key (JsonFields.field k v m) = if text_eq k key then some v else get_field key m

  abbrev str_or : Option (JsonValue N) → Text → Text
  str_or (some (JsonValue.string s)) default = s
  str_or _ default = default

  -- `body_json.get(key).and_then(|v| v.str_or()).unwrap_or(default)`
  abbrev pub body_text : Text → Text → JsonValue N → Text
  body_text key default (JsonValue.object m) = str_or (get_field key m) default
  body_text key default _ = default

  abbrev parsed_body : Option (JsonValue N) → JsonValue N
  parsed_body none = JsonValue.object JsonFields.end
  parsed_body (some j) = j

  -- `extract_json_body`, for serde_json's reader
  unfoldable pub extract_json_body : (Text → Option (JsonValue N)) → Text → JsonValue N
  unfolding body_of
  extract_json_body from_str request = elim (body_of request) [
    | none ↦ JsonValue.object JsonFields.end
    | some body ↦ parsed_body (from_str body)
  ]
