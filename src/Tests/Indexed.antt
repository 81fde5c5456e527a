-- ===== src/Tests/Indexed.antt =====
-- FIND by a hash index on the collection of Tests/Engine.
use nova_db.Base.{
  none≢some, some-injective, ℕ, ◌≡◌, refl, sym, false, true, List, [], ◌∷◌, some, none, ◌↔◌, length,
  arith,
}
use nova_db.Base.Bytes.{bytes_eq, bytes_eq_refl}
use nova_db.Base.Int.{pos}
use nova_db.Base.Map
use nova_db.Base.Map.{Map, text_eq as text_key, pair_eq}
use nova_db.Base.Text
use nova_db.Base.Text.{codes}
use nova_db.Core.Document
use nova_db.Core.Document.{Document, is_id, id_key}
use nova_db.Core.Outcome.{done}
use nova_db.Core.Value
use nova_db.Core.Value.{Value, string, int, null, value_eq, split_dots, walk}
use nova_db.Core.Value.Hash.{hash_eq, hash_value}
use nova_db.Index.{hash}
use nova_db.Index.Covering.{IsKeyClass}
use nova_db.Index.Kept.{HasKey}
use nova_db.Index.Manager.{find_index_for_field}
use nova_db.Protocol.Payload.{records}
use nova_db.Query.Evaluator.{matches_filter}
use nova_db.Server.Engine.{DatabaseEngine}
use nova_db.Server.Engine.Documents.{find_doc}
use nova_db.Server.Engine.Durable.{IsDurable, execute_insert-IsInserted}
use nova_db.Storage.Recovery
use nova_db.Server.Engine.IdIndex.{execute_find_id_index}
use nova_db.Server.Engine.Indexed.{equals, IsIn}
use nova_db.Server.Engine.Indexes.{execute_create_index}
use nova_db.Server.Engine.IndexRuns.{IsRun, and_insert, execute_find-IsRun}
use nova_db.Server.Engine.Inserts.{execute_insert}
use nova_db.Server.Engine.Reads.{execute_find}
use nova_db.Tests.Engine.{
  json, env, key, one, fresh, fresh-IsSynced, wrote_doc, read_doc, payload-IsLoggable,
  fresh_sequence,
}
use nova_db.Tests.Plain.{plain, plain-IsWire}
use nova_db.Tests.Queries.{even, n_key, doc}

-- the natural numbers
abbrev IsNumber : Value ℕ → Type 0
IsNumber v = (n : ℕ) × (v ≡ int (pos n))

number_sym :
    (m n : ℕ)
    → value_eq even (int (pos m)) (int (pos n)) ≡ true
    → value_eq even (int (pos n)) (int (pos m)) ≡ true
unfolding value_eq
number_sym m n h = ground arith

number_trans :
    (m n k : ℕ)
    → value_eq even (int (pos m)) (int (pos n)) ≡ true
    → value_eq even (int (pos n)) (int (pos k)) ≡ true
    → value_eq even (int (pos m)) (int (pos k)) ≡ true
unfolding value_eq
number_trans m n k h g = ground arith

number_refl : (n : ℕ) → value_eq even (int (pos n)) (int (pos n)) ≡ true
unfolding value_eq
number_refl n = ground arith

number_hash :
    (m n : ℕ)
    → value_eq even (int (pos m)) (int (pos n)) ≡ true
    → hash_eq even (int (pos m)) (int (pos n)) ≡ true
unfolding value_eq
number_hash m n h =
    let e : m ≡ n = ground (arith, h) in rw e (bytes_eq_refl (hash_value even (int (pos n))))

numbers-IsKeyClass : IsKeyClass even IsNumber
numbers-IsKeyClass = record {
  key_refl = λ a p. rw p.1 (number_refl p.0);
  key_sym = λ a b p q h. rw p.1 (rw q.1 (number_sym p.0 q.0 (rw p.1 at rw q.1 at h)));
  key_trans = λ a b c p q r h g.
      rw p.1 (rw r.1 (number_trans p.0 q.0 r.0 (rw p.1 at rw q.1 at h) (rw q.1 at rw r.1 at g)));
  key_hash = λ a b p q h. rw p.1 (rw q.1 (number_hash p.0 q.0 (rw p.1 at rw q.1 at h)));
}

doc-HasKey : HasKey even IsNumber n_key doc
unfolding Document.lookup Document.get_path Value.get split_dots walk Text.text_eq bytes_eq
doc-HasKey v h = (4, sym (some-injective h))

n_is_no_id : is_id n_key ≡ false
unfolding Text.text_eq bytes_eq
n_is_no_id = refl

-- CREATE INDEX on the empty collection, and the document inserted
abbrev indexed : DatabaseEngine ℕ
indexed = (execute_create_index even key n_key hash fresh).1

abbrev filled : DatabaseEngine ℕ
filled = (execute_insert even plain json env key doc indexed).1

filled-IsRun : IsRun even plain json IsNumber n_key key filled
unfolding Map.get find_index_for_field
filled-IsRun =
    and_insert env key doc indexed
      (IsRun.indexed fresh refl refl tt (λ id d h. absurd (none≢some h))) (λ same. doc-HasKey)

indexed-IsDurable : IsDurable plain json indexed
unfolding execute_create_index
indexed-IsDurable = record {
  recovered = Recovery.new;
  synced = fresh-IsSynced;
  same_docs = λ k id. refl;
}

filled_doc : find_doc key doc.id filled.collections ≡ some doc
unfolding Map.get execute_create_index bytes_eq
filled_doc =
    let i =
      execute_insert-IsInserted even plain json env key doc (1 ∷ 4 ∷ doc.id) indexed plain-IsWire
        refl indexed-IsDurable refl wrote_doc read_doc
        (payload-IsLoggable (1 ∷ 4 ∷ doc.id) (omega arith)) fresh_sequence in
    i.written key doc.id

execute_find-IsRun_example :
    (docs : List (Document ℕ)) × (execute_find even key
        (some (equals n_key (int (pos 4))))
        none
        none
        none
        filled
      ≡ done (records docs (length docs)))
    × (IsIn doc docs ↔ (matches_filter even (some (equals n_key (int (pos 4)))) doc ≡ done true))
unfolding value_eq
execute_find-IsRun_example =
    execute_find-IsRun even plain json IsNumber n_key (int (pos 4)) key filled doc.id doc n_is_no_id
      numbers-IsKeyClass filled-IsRun (4, refl) refl filled_doc

execute_find_id_index_example :
    execute_find even key
      (some (equals id_key (string doc.id)))
      none
      none
      none
      (execute_create_index even key id_key hash one).1
    ≡ done (records [] 0)
unfolding Map.get find_index_for_field Value.get Text.text_eq bytes_eq
execute_find_id_index_example =
    execute_find_id_index even key hash (string doc.id) ((doc.id, doc) ∷ []) one refl (refl, tt)
      refl refl

-- the document with the integer 5, which the float 2 of Tests/Queries equals, and does not hash as
abbrev five : Document ℕ
five = record doc { fields = Value.field n_key (int (pos 5)) Value.end }

abbrev with_five : DatabaseEngine ℕ
with_five = record fresh { collections = (key, (five.id, five) ∷ []) ∷ [] }

-- the float finds it without an index
five_equals : value_eq even (int (pos 5)) (Value.float 2) ≡ true
unfolding value_eq
five_equals = refl
