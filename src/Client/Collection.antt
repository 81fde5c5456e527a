-- ===== src/Client/Collection.antt =====
-- crates/nova-client/src/collection.rs: `CollectionHandle`, which puts statements together as texts and
-- reads the answers. serde_json's writer of fields is a parameter.
use nova_db.Base.{ℕ, Bool, List, [], ◌∷◌, ◌++◌, Option, none, some, if◌then◌else◌}
use nova_db.Base.Text.{Text, text_eq, codes, trim}
use nova_db.Client.{ClientJson, NovaClient, send_request, register_watch}
use nova_db.Core.Document.{Document}
use nova_db.Core.DocumentId.{DocumentId}
use nova_db.Core.Error.{Result, ok, err, new_error, invalid_query, protocol_violation}
use nova_db.Core.Value.{Fields}
use nova_db.Protocol.Frame.{NvpFrame}
use nova_db.Protocol.Payload.{RequestPayload, ResponsePayload}

abbrev quote : Text
quote = b'"' ∷ []

-- `pop` on a String, and `pop` on a Vec
abbrev pub without_last : Text → Text
without_last [] = []
without_last (c ∷ []) = []
without_last (c ∷ d ∷ s) = c ∷ without_last (d ∷ s)

abbrev pub last_of : {A : Type 0} → List A → Option A
last_of [] = none
last_of (a ∷ []) = some a
last_of (a ∷ b ∷ s) = last_of (b ∷ s)

-- the id as a field of the object: `"_id": "{id}"`
abbrev id_part : DocumentId → Text
id_part id = codes "\"_id\": \"" ++ id ++ quote

-- the object of an INSERT, from the JSON of the fields
unfoldable pub fields_inner : Text → DocumentId → Text
unfolding text_eq trim
fields_inner json_str id =
    if text_eq json_str (codes "{}")
    then codes "{" ++ id_part id ++ codes "}"
    else without_last (trim json_str) ++ codes ", " ++ id_part id ++ codes "}"

-- a statement on the collection, with a condition or without
abbrev pub on_collection : Text → Text → Option Text → Text
on_collection keyword coll none = keyword ++ coll
on_collection keyword coll (some filter) = keyword ++ coll ++ codes " WHERE " ++ filter

-- the texts of the calls
unfoldable pub insert_nql : Text → Text → DocumentId → Text
unfolding fields_inner
insert_nql coll json_str id =
    codes "INSERT INTO " ++ coll ++ codes " VALUES (" ++ fields_inner json_str id ++ codes ")"

unfoldable pub find_nql : Text → Text → Text
find_nql coll filter = on_collection (codes "FIND ") coll (some filter)

unfoldable pub find_all_nql : Text → Text
find_all_nql coll = on_collection (codes "FIND ") coll none

unfoldable pub find_by_id_nql : Text → Text → Text
find_by_id_nql coll id = codes "FIND " ++ (coll ++ (codes " WHERE id == \"" ++ (id ++ quote)))

unfoldable pub update_nql : Text → Text → Text → Text
update_nql coll filter set_clause =
    codes "UPDATE " ++ coll ++ codes " SET " ++ set_clause ++ codes " WHERE " ++ filter

unfoldable pub remove_nql : Text → Text → Text
remove_nql coll filter = on_collection (codes "REMOVE ") coll (some filter)

unfoldable pub count_nql : Text → Option Text → Text
count_nql coll filter = on_collection (codes "COUNT ") coll filter

unfoldable pub exists_nql : Text → Text → Text
exists_nql coll filter = on_collection (codes "EXISTS ") coll (some filter)

unfoldable pub create_index_nql : Text → Text → Text → Text
create_index_nql coll f t = codes "CREATE INDEX " ++ coll ++ codes "." ++ f ++ codes " TYPE " ++ t

unfoldable pub drop_index_nql : Text → Text → Text
drop_index_nql coll f = codes "DROP INDEX " ++ coll ++ codes "." ++ f

unfoldable pub watch_nql : Text → Option Text → Text
watch_nql coll filter = on_collection (codes "WATCH ") coll filter

abbrev pub unexpected : {A : Type 0} → Result A
unexpected = err (new_error protocol_violation)

-- what the calls make of the answers
module _ {F : Type 0} where
  unfoldable pub insert_result : Document F → ResponsePayload F → Result (Document F)
  insert_result doc (ResponsePayload.records (d ∷ docs) n) = ok d
  insert_result doc (ResponsePayload.success n) = ok doc
  insert_result doc _ = unexpected

  unfoldable pub find_result : ResponsePayload F → Result (List (Document F))
  find_result (ResponsePayload.records docs n) = ok docs
  find_result _ = unexpected

  unfoldable pub find_by_id_result : ResponsePayload F → Result (Option (Document F))
  find_by_id_result (ResponsePayload.records docs n) = ok (last_of docs)
  find_by_id_result _ = unexpected

  unfoldable pub affected_result : ResponsePayload F → Result ℕ
  affected_result (ResponsePayload.success n) = ok n
  affected_result _ = unexpected

  unfoldable pub count_result : ResponsePayload F → Result ℕ
  count_result (ResponsePayload.count n) = ok n
  count_result _ = unexpected

  unfoldable pub exists_result : ResponsePayload F → Result Bool
  exists_result (ResponsePayload.exists b) = ok b
  exists_result _ = unexpected

  unfoldable pub index_result : ResponsePayload F → Result (Unit {0})
  index_result (ResponsePayload.success n) = ok tt
  index_result _ = unexpected

-- the calls, up to where they wait
module _ {F : Type 0} (json : ClientJson F) (fields_text : Fields F → Option Text) where
  -- `execute_nql`
  unfoldable pub execute_nql : Text → NovaClient F → Result NvpFrame × NovaClient F
  unfolding send_request
  execute_nql nql c = send_request json (RequestPayload.query nql) c

  abbrev insert_text :
      Text → Document F → Option Text → NovaClient F → Result NvpFrame × NovaClient F
  insert_text coll doc none c = (err (new_error invalid_query), c)
  insert_text coll doc (some json_str) c = execute_nql (insert_nql coll json_str doc.id) c

  unfoldable pub insert_request : Text → Document F → NovaClient F → Result NvpFrame × NovaClient F
  unfolding execute_nql insert_nql
  insert_request coll doc c = insert_text coll doc (fields_text doc.fields) c

  -- `watch`
  unfoldable pub watch_request : Text → Option Text → NovaClient F → Result NvpFrame × NovaClient F
  unfolding register_watch watch_nql
  watch_request coll filter c = register_watch json (watch_nql coll filter) c
