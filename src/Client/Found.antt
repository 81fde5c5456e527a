-- ===== src/Client/Found.antt =====
-- crates/nova-client/src/collection.rs: `find_by_id`, answered by the engine.
use nova_db.Base.{
  ◌≡◌, refl, ap, true, Bool-cases, Option-cases, inl, inr, List, [], ◌∷◌, Option, none, some,
  length, arith,
}
use nova_db.Base.Bytes.{bytes_eq, bytes_eq_refl, bytes_eq→eq}
use nova_db.Base.Map
use nova_db.Base.Map.{Map, IsDistinct, text_eq as text_key, pair_eq}
use nova_db.Base.Text.{Text, text_eq}
use nova_db.Client.Asked.{id_is, parse_nql-find_by_id_nql}
use nova_db.Client.Collection.{find_by_id_nql, find_by_id_result, last_of}
use nova_db.Core.Document.{Document, id_key}
use nova_db.Core.DocumentId.{DocumentId}
use nova_db.Core.Error.{ok}
use nova_db.Core.Outcome.{done}
use nova_db.Core.Value.{Float, value_eq}
use nova_db.Index.Manager.{IndexManager, find_index_for_field}
use nova_db.Protocol.Payload.{ResponsePayload, records}
use nova_db.Query.Ast.{Statement}
use nova_db.Query.Evaluator.{matches_filter, eval, field_value}
use nova_db.Query.Lexer.{word_kind}
use nova_db.Query.Lexer.Scan.{Chars}
use nova_db.Query.Lexer.Strings.{escape}
use nova_db.Query.Lexer.Words.{IsAscii, is_name}
use nova_db.Query.Parser.Statements.{parse_nql}
use nova_db.Query.Planner.{plan, access_for, exact_match, range_match, between_match}
use nova_db.Query.Token.{TokenKind}
use nova_db.Server.Engine.{DatabaseEngine, DocumentStore, Environment, Json}
use nova_db.Server.Engine.Documents.{find_doc}
use nova_db.Server.Engine.Execute.{execute}
use nova_db.Server.Engine.Reads.{
  keys, filter_candidates, candidate_ids, page, find_in_store, execute_find,
}
use nova_db.Server.Engine.Round.{apart}
use nova_db.Storage.Recovery.{CollectionKey, or_default}
use nova_db.Wire.{Wire}

abbrev listed : {A : Type 0} → Option A → List A
listed none = []
listed (some a) = a ∷ []

-- The documents stand under their ids.
abbrev pub IsUnderId : {F : Type 0} → DocumentStore F → Type 0
IsUnderId {F} store =
    (id : DocumentId) (doc : Document F) → Map.get id store ≡ some doc → doc.id ≡ id

module _ {F : Type 0} (fl : Float F) (id : Text) where
  matches_id :
      (doc : Document F) → matches_filter fl (some (id_is id)) doc ≡ done (bytes_eq doc.id id)
  unfolding matches_filter eval field_value value_eq text_eq bytes_eq
  matches_id doc = refl

  -- the loop over all ids of a part of the collection
  filter_candidates-keys :
      (whole part : DocumentStore F)
      → IsDistinct part
      → ((id' : DocumentId) (doc : Document F)
          → Map.get id' part ≡ some doc
          → (Map.get id' whole ≡ some doc) × (doc.id ≡ id'))
      → filter_candidates fl (some (id_is id)) whole (keys part) ≡ done (listed (Map.get id part))
  unfolding filter_candidates Map.get
  filter_candidates-keys whole [] d held = refl
  filter_candidates-keys whole ((j, doc) ∷ part) (new, d) held =
      let (there, its_id) = held j doc (rw (bytes_eq_refl j) refl) in
      let rest =
        filter_candidates-keys whole part d
          (λ id' doc' h. held id' doc' (rw (apart j id' part new h) h)) in
      rw (there, filter_candidates)
        (rw (matches_id doc) (
          rw rest (
            rw its_id (elim (Bool-cases (bytes_eq j id)) [
              | inl same ↦
                  let gone : Map.get id part ≡ none = rw (← bytes_eq→eq j id same) new in
                  rw same (rw gone refl)
              | inr other ↦ rw other refl
            ]))))

  page_all : (docs : List (Document F)) → page fl none none docs ≡ docs
  unfolding page
  page_all [] = refl
  page_all (d ∷ docs) = ground arith

  last_of-listed : (o : Option (Document F)) → last_of (listed o) ≡ o
  last_of-listed none = refl
  last_of-listed (some d) = refl

  candidate_ids-id :
      (m : IndexManager F) (store : DocumentStore F)
      → find_index_for_field id_key m ≡ none
      → candidate_ids fl (plan (some (id_is id)) none none none m).access m store
        ≡ done (keys store)
  unfolding candidate_ids plan access_for exact_match range_match between_match
  candidate_ids-id m store h = rw h refl

  execute_find-id :
      (key : CollectionKey) (s : DatabaseEngine F)
      → find_index_for_field id_key (or_default (Map.get key s.indexes)) ≡ none
      → IsDistinct (or_default (Map.get key s.collections))
      → IsUnderId (or_default (Map.get key s.collections))
      → let docs = listed (find_doc key id s.collections) in
        execute_find fl key (some (id_is id)) none none none s ≡ done (records docs (length docs))
  unfolding execute_find find_in_store Map.get
  execute_find-id key s unindexed d under = elim (Option-cases (Map.get key s.collections)) [
    | inl gone ↦ rw (gone, execute_find) refl
    | inr (store, held) ↦
        rw (held, execute_find)
          (rw (candidate_ids-id (or_default (Map.get key s.indexes)) store unindexed) (
            rw
              (filter_candidates-keys store store (rw held at d)
                (λ id' doc h. (h, (rw held at under) id' doc h)))
              (rw (page_all (listed (Map.get id store))) refl)))
  ]

-- Let a collection have a name of ASCII letters, digits and underscores that does not begin with a
-- digit and is no keyword, and list each document once and under its id, without an index on the
-- id; let an id have no double quote and no backslash, and let Unicode's classes of letters and
-- digits be as documented on ASCII. The text that find_by_id puts together is then parsed to a
-- statement, the engine answers it, and what find_by_id makes of the answer is the document with
-- that id, or none if there is none.
pub find_by_id-answers :
    {F H : Type 0} (chars : Chars F) (fl : Float F) (x : Wire H) (json : Json F) (env : Environment)
    (fresh : Document F) (ns coll id : Text) (s : DatabaseEngine F)
    → IsAscii chars
    → is_name coll ≡ true
    → word_kind {F = F} coll ≡ TokenKind.identifier coll
    → escape b'"' id ≡ id
    → find_index_for_field id_key (or_default (Map.get (ns, coll) s.indexes)) ≡ none
    → IsDistinct (or_default (Map.get (ns, coll) s.collections))
    → IsUnderId (or_default (Map.get (ns, coll) s.collections))
    → (statement : Statement F) × (payload : ResponsePayload F) × (parse_nql chars fresh
          (find_by_id_nql coll id)
        ≡ some (ok statement))
      × ((execute fl x json env statement ns s).0 ≡ done payload)
      × (find_by_id_result payload ≡ ok (find_doc (ns, coll) id s.collections))
unfolding execute find_by_id_result
find_by_id-answers chars fl x json env fresh ns coll id s ascii named free plain unindexed d under =
    let docs = listed (find_doc (ns, coll) id s.collections) in
    (
      _,
      records docs (length docs),
      parse_nql-find_by_id_nql chars ascii coll id named free plain fresh,
      execute_find-id fl id (ns, coll) s unindexed d under,
      ap ok (last_of-listed fl id (find_doc (ns, coll) id s.collections)),
    )
