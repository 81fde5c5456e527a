-- ===== src/Tests/Reads.antt =====
-- FIND, COUNT and EXISTS on the collection of Tests/Engine.
use nova_db.Base.{◌≤◌, ◌≡◌, refl, true, [], ◌∷◌, none, some, length, All}
use nova_db.Base.Bytes.{bytes_eq}
use nova_db.Base.Map
use nova_db.Base.Map.{Map, text_eq, pair_eq, pair_beq}
use nova_db.Core.Outcome.{done}
use nova_db.Protocol.Payload
use nova_db.Protocol.Payload.{ResponsePayload, records}
use nova_db.Server.Engine.Reads.{
  execute_find, execute_count, execute_exists, find_in_store, candidate_ids, filter_candidates,
  page, count_matches,
}
use nova_db.Server.Engine.Found.{Answers, execute_find-Answers}
use nova_db.Server.Engine.Counted.{execute_count-execute_find, execute_exists-execute_count}
use nova_db.Index.Manager.{find_index_for_field}
use nova_db.Query.Planner.{plan, access_for}
use nova_db.Tests.Queries.{even, doc, less_than_five}
use nova_db.Tests.Engine.{key, one, passes}

found_doc :
    execute_find even key (some less_than_five) none (some 1) none one ≡ done (records (doc ∷ []) 1)
unfolding execute_find find_in_store Map.get plan access_for candidate_ids filter_candidates page
    bytes_eq find_index_for_field
found_doc = rw passes refl

execute_find-Answers_example :
    All (Answers even (some less_than_five) ((doc.id, doc) ∷ [])) (doc ∷ [])
    × (1 ≡ length (doc ∷ []))
    × (1 ≤ 1)
unfolding Map.get bytes_eq
execute_find-Answers_example =
    execute_find-Answers even (some less_than_five) key none (some 1) none one (doc ∷ []) 1
      found_doc

found_all :
    execute_find even key (some less_than_five) none none none one ≡ done (records (doc ∷ []) 1)
unfolding execute_find find_in_store Map.get plan access_for candidate_ids filter_candidates page
    bytes_eq find_index_for_field
found_all = rw passes refl

execute_count-execute_find_example :
    execute_count even key (some less_than_five) one ≡ done (Payload.count 1)
unfolding Map.get bytes_eq
execute_count-execute_find_example =
    execute_count-execute_find even (some less_than_five) key one none (doc ∷ []) 1 (refl, tt) refl
      found_all

counted_doc : execute_count even key (some less_than_five) one ≡ done (Payload.count 1)
unfolding execute_count count_matches Map.get bytes_eq
counted_doc = rw passes refl

exists_counted : execute_exists even key (some less_than_five) one ≡ done (Payload.exists true)
exists_counted = execute_exists-execute_count even (some less_than_five) key one 1 counted_doc
