-- ===== src/Tests/Engine.antt =====
-- The engine on one collection d.u, whose documents hold one number.
use nova_db.Base.{
  none≢some, some-injective, ℕ, ◌+◌, ◌<◌, ◌≤◌, ◌^◌, ◌≡◌, ◌≢◌, refl, sym, ◌∙◌, ap, Bool-cases, inl,
  inr, true, false, List, [], ◌∷◌, Option, none, some, arith, length,
}
use nova_db.Base.Bytes.{Bytes, bytes_eq, bytes_eq→eq}
use nova_db.Base.Int.{pos}
use nova_db.Base.Map
use nova_db.Base.Map.{Map, text_eq, pair_eq, pair_beq}
use nova_db.Base.Text
use nova_db.Base.Text.{Text, as_bytes, utf8_char, trim, trim_start, is_whitespace}
use nova_db.Core.Document
use nova_db.Core.Document.{Document}
use nova_db.Core.DocumentId
use nova_db.Core.DocumentId.{DocumentId}
use nova_db.Core.Error.{ok, new_error, invalid_query}
use nova_db.Core.Outcome.{panic, done, fail}
use nova_db.Core.Value
use nova_db.Core.Value.{Value, int, string, end, field, split_dots, walk}
use nova_db.Protocol.Payload.{records}
use nova_db.Query.Ast
use nova_db.Query.Ast.{Expr, Assignment, BinaryOp, literal}
use nova_db.Query.Evaluator
use nova_db.Server.Engine.{
  DatabaseEngine, Environment, Json, open_engine, files_of, segment_size_limit,
}
use nova_db.Server.Engine.Documents.{find_doc, after_write}
use nova_db.Server.Engine.Durable.{
  IsDurable, IsInserted, execute_insert-IsInserted, open_engine-recovers,
}
use nova_db.Server.Engine.Synced.{IsSynced, IsLoggable, IsLogged, log_put-IsLogged}
use nova_db.Server.Engine.Writes.{execute_update, log}
use nova_db.Server.Engine.Inserts.{execute_insert}
use nova_db.Server.Engine.Removes.{execute_remove}
use nova_db.Server.Engine.Removal.{IsRemoved, execute_remove-IsRemoved}
use nova_db.Server.Engine.Update.{IsUpdateDone, execute_update-IsUpdateDone}
use nova_db.Server.Engine.Round.{assigned_to, IsUpdated}
use nova_db.Server.Engine.History.{IsReached, started, after_insert, open_engine-IsReached}
use nova_db.Server.Engine.Diverged.{execute_update_partial}
use nova_db.Storage.Format.{RecordType}
use nova_db.Server.Metrics
use nova_db.Storage.Recovery
use nova_db.Storage.Recovery.{CollectionKey, or_default}
use nova_db.Storage.Recovery.Replay.{replay_all}
use nova_db.Storage.Wal.{always, no_fault, open_wal, on_disk}
use nova_db.Storage.Wal.Durable.{new-Holds}
use nova_db.Tests.Plain.{plain, plain-IsWire}
use nova_db.Tests.Queries.{even, n_key, doc, less_than_five}

abbrev number_of : Option (Value ℕ) → Option ℕ
number_of (some (int (pos n))) = some n
number_of _ = none

abbrev as_payload : ℕ → DocumentId → Option ℕ → Option Bytes
as_payload version id none = none
as_payload version id (some n) = some (version ∷ n ∷ id)

-- a document whose version and number are one byte each
abbrev numbered : ℕ → ℕ → DocumentId → Document ℕ
numbered version n id = record {
  id = id;
  version = version;
  created_at = pos 10;
  updated_at = pos 10;
  fields = field n_key (int (pos n)) end;
}

abbrev from_payload : Bytes → Option (Document ℕ)
from_payload (version ∷ n ∷ id) = some (numbered version n id)
from_payload _ = none

unfoldable pub json : Json ℕ
unfolding Value.get Text.text_eq bytes_eq
json = record {
  to_vec = λ d. as_payload d.version d.id (number_of (Value.get n_key d.fields));
  from_slice = from_payload;
}

abbrev number_files : ℕ → List Bytes → List (ℕ × Bytes)
number_files n [] = []
number_files n (file ∷ files) = (n, file) ∷ number_files (n + 1) files

files_of_number : (n : ℕ) (files : List Bytes) → files_of (number_files n files) ≡ files
files_of_number n [] = refl
files_of_number n (file ∷ files) = ap (λ fs. file ∷ fs) (files_of_number (n + 1) files)

abbrev pub env : Environment
env = record { spill = λ b. 1; fault = no_fault; clock = λ r id. pos 10 }

abbrev pub key : CollectionKey
key = (b'd' ∷ [], b'u' ∷ [])

abbrev pub fresh : DatabaseEngine ℕ
fresh = record {
  collections = [];
  indexes = [];
  wal = open_wal [] always segment_size_limit;
  events = [];
  metrics = Metrics.new (pos 0);
}

pub fresh-IsSynced : IsSynced plain json fresh.wal Recovery.new
unfolding open_wal replay_all
fresh-IsSynced = record {
  logged = [];
  holds = new-Holds plain segment_size_limit;
  valid = tt;
  replayed = refl;
  mode = refl;
  sequenced = refl;
}

fresh-IsDurable : IsDurable plain json fresh
fresh-IsDurable = record {
  recovered = Recovery.new;
  synced = fresh-IsSynced;
  same_docs = λ k id. refl;
}

pub payload-IsLoggable : (payload : Bytes) → length payload ≤ 10 → IsLoggable key doc.id payload
unfolding DocumentId.new as_bytes utf8_char trim trim_start is_whitespace
payload-IsLoggable payload h = record {
  namespace_chars = omega arith;
  collection_chars = omega arith;
  id_chars = omega arith;
  namespace_le = omega arith;
  collection_le = omega arith;
  id_le = omega arith;
  id_new = refl;
  payload_le = omega arith;
}

pub wrote_doc : json.to_vec doc ≡ some (1 ∷ 4 ∷ doc.id)
unfolding json
wrote_doc = refl

pub read_doc : json.from_slice (1 ∷ 4 ∷ doc.id) ≡ some doc
unfolding json
read_doc = refl

pub fresh_sequence : fresh.wal.current_sequence + 1 < 2 ^ 64
unfolding open_wal
fresh_sequence = omega arith

execute_insert-IsInserted_example :
    IsInserted plain json key doc fresh (execute_insert even plain json env key doc fresh)
unfolding Map.get
execute_insert-IsInserted_example =
    execute_insert-IsInserted even plain json env key doc (1 ∷ 4 ∷ doc.id) fresh plain-IsWire refl
      fresh-IsDurable refl wrote_doc read_doc (payload-IsLoggable (1 ∷ 4 ∷ doc.id) (omega arith))
      fresh_sequence

pub first_answer :
    (execute_insert even plain json env key doc fresh).0 ≡ done (records (doc ∷ []) 1)
unfolding Map.get
first_answer =
    (execute_insert-IsInserted even plain json env key doc (1 ∷ 4 ∷ doc.id) fresh plain-IsWire refl
      fresh-IsDurable refl wrote_doc read_doc (payload-IsLoggable (1 ∷ 4 ∷ doc.id) (omega arith))
      fresh_sequence).answer

-- the log after the first insertion
after_insertion :
    IsLogged plain json key doc.id
      (some doc)
      Recovery.new
      fresh.wal
      (log plain env RecordType.insert key doc.id (1 ∷ 4 ∷ doc.id) fresh.wal)
after_insertion =
    log_put-IsLogged plain json env plain-IsWire refl RecordType.insert key doc doc.id
      (1 ∷ 4 ∷ doc.id) fresh.wal Recovery.new (inl refl) fresh-IsSynced
      (payload-IsLoggable (1 ∷ 4 ∷ doc.id) (omega arith)) read_doc fresh_sequence

-- the engine with one document
abbrev pub one : DatabaseEngine ℕ
one = record fresh {
  collections = (key, (doc.id, doc) ∷ []) ∷ [];
  wal = (log plain env RecordType.insert key doc.id (1 ∷ 4 ∷ doc.id) fresh.wal).1;
}

one_docs :
    (k : CollectionKey) (id : DocumentId)
    → find_doc k id one.collections ≡ after_write key doc.id (some doc) k id none
unfolding Map.get
one_docs k id = elim (Bool-cases (pair_beq key k)) [
  | inl same ↦ rw same refl
  | inr other ↦ rw other refl
]

pub one-IsDurable : IsDurable plain json one
unfolding Map.get
one-IsDurable = record {
  recovered = after_insertion.state;
  synced = after_insertion.synced;
  same_docs = λ k id. one_docs k id ∙ sym (after_insertion.written k id);
}

one_sequence : one.wal.current_sequence ≡ 1
unfolding open_wal
one_sequence = after_insertion.counted

open_engine-recovers_example :
    (s' : DatabaseEngine ℕ) × (open_engine even plain json
        (number_files 0 (on_disk one.wal))
        always
        (Metrics.new (pos 20))
      ≡ some (ok s'))
    × ((k : CollectionKey) (id : DocumentId)
        → find_doc k id s'.collections ≡ find_doc k id one.collections)
    × (s'.wal.current_sequence ≡ one.wal.current_sequence)
open_engine-recovers_example =
    open_engine-recovers even plain json one (number_files 0 (on_disk one.wal)) always
      (Metrics.new (pos 20)) plain-IsWire one-IsDurable (files_of_number 0 (on_disk one.wal))

only_doc :
    (id : DocumentId) (d : Document ℕ)
    → find_doc key id one.collections ≡ some d
    → (doc.id ≡ id) × (doc ≡ d)
unfolding Map.get bytes_eq
only_doc id d h = elim (Bool-cases (bytes_eq doc.id id)) [
  | inl same ↦ (bytes_eq→eq doc.id id same, some-injective (rw same at h))
  | inr other ↦ absurd (none≢some (rw other at h))
]

pub passes : Evaluator.matches_filter even (some less_than_five) doc ≡ done true
unfolding Evaluator.matches_filter Evaluator.eval Evaluator.field_value Document.lookup
    Document.get_path Value.get split_dots walk Text.text_eq bytes_eq Evaluator.apply_binary
    Value.value_cmp
passes = refl

no_panic :
    (id : DocumentId) (d : Document ℕ)
    → find_doc key id one.collections ≡ some d
    → Evaluator.matches_filter even (some less_than_five) d ≢ panic
no_panic id d h = rw (← (only_doc id d h).1) (rw passes cc)

execute_remove-IsRemoved_example :
    IsRemoved even plain json key
      (some less_than_five)
      one
      (execute_remove even plain json env key (some less_than_five) one)
unfolding Map.get bytes_eq open_wal
execute_remove-IsRemoved_example =
    execute_remove-IsRemoved even plain json env key (some less_than_five) one plain-IsWire refl
      one-IsDurable (refl, tt) no_panic
      (λ id d h. rw (← (only_doc id d h).0) (payload-IsLoggable [] (omega arith)))
      (omega (arith, one_sequence))

abbrev set_seven : Assignment ℕ
set_seven = record { field = n_key; expr = literal (int (pos 7)) }

updates :
    Evaluator.apply_assignments even (set_seven ∷ []) (pos 10) doc
    ≡ (done true, numbered 2 7 doc.id)
unfolding Evaluator.apply_assignments Evaluator.assign_all Evaluator.eval Document.insert
    Document.advance_version Value.insert Text.text_eq bytes_eq
updates = refl

wrote_seven : json.to_vec (numbered 2 7 doc.id) ≡ some (2 ∷ 7 ∷ doc.id)
unfolding json
wrote_seven = refl

read_seven : json.from_slice (2 ∷ 7 ∷ doc.id) ≡ some (numbered 2 7 doc.id)
unfolding json
read_seven = refl

one-IsUpdated :
    (id : DocumentId) (d : Document ℕ)
    → find_doc key id one.collections ≡ some d
    → (after : Document ℕ) × IsUpdated even json env key
        (some less_than_five)
        (set_seven ∷ [])
        id
        d
        after
one-IsUpdated id d h =
    let (same_id, same_doc) = only_doc id d h in
    rw (← same_id) (
      rw (← same_doc) (
        numbered 2 7 doc.id,
        assigned_to true (2 ∷ 7 ∷ doc.id) passes updates wrote_seven read_seven
            (payload-IsLoggable (2 ∷ 7 ∷ doc.id) (omega arith)),
      ))

execute_update-IsUpdateDone_example :
    IsUpdateDone even plain json env key
      (some less_than_five)
      (set_seven ∷ [])
      one
      (execute_update even plain json env key (set_seven ∷ []) (some less_than_five) one)
unfolding Map.get bytes_eq
execute_update-IsUpdateDone_example =
    execute_update-IsUpdateDone even plain json env key (some less_than_five) (set_seven ∷ []) one
      plain-IsWire refl one-IsDurable (refl, tt) one-IsUpdated (omega (arith, one_sequence))

-- an assignment that cannot be evaluated: "b" - 1
abbrev set_wrong : Assignment ℕ
set_wrong = record {
  field = n_key;
  expr = Ast.binary BinaryOp.minus (literal (string (b'b' ∷ []))) (literal (int (pos 1)));
}

seven : Evaluator.eval even (literal (int (pos 7))) doc ≡ done (int (pos 7))
unfolding Evaluator.eval
seven = refl

wrong : (d : Document ℕ) → Evaluator.eval even set_wrong.expr d ≡ fail (new_error invalid_query)
unfolding Evaluator.eval Evaluator.apply_binary Evaluator.sub_values
wrong d = refl

n_is_no_id : Document.is_id n_key ≡ false
unfolding Text.text_eq bytes_eq
n_is_no_id = refl

execute_update_partial_example :
    let o =
      execute_update even plain json env key
        (set_seven ∷ set_wrong ∷ [])
        (some less_than_five)
        one in
    (o.0 ≡ fail (new_error invalid_query))
    × (find_doc key doc.id o.1.collections ≡ some (Document.insert n_key (int (pos 7)) doc))
    × (o.1.wal ≡ one.wal)
    × (find_doc key doc.id one-IsDurable.recovered.collections ≡ some doc)
unfolding Map.get bytes_eq
execute_update_partial_example =
    execute_update_partial even plain json env key (some less_than_five) set_seven set_wrong doc.id
      doc [] one one-IsDurable refl passes seven n_is_no_id
      (wrong (Document.insert n_key (int (pos 7)) doc))

-- the first insertion of all
abbrev reached : DatabaseEngine ℕ
reached = (execute_insert even plain json env key doc fresh).1

reached-IsReached : IsReached even plain json reached
unfolding Map.get
reached-IsReached =
    after_insert env key doc (1 ∷ 4 ∷ doc.id) fresh refl (started (Metrics.new (pos 0))) refl
      wrote_doc read_doc (payload-IsLoggable (1 ∷ 4 ∷ doc.id) (omega arith)) fresh_sequence

open_engine-IsReached_example :
    (s' : DatabaseEngine ℕ) × (open_engine even plain json
        (number_files 0 (on_disk reached.wal))
        always
        (Metrics.new (pos 20))
      ≡ some (ok s'))
    × ((k : CollectionKey) (id : DocumentId)
        → find_doc k id s'.collections ≡ find_doc k id reached.collections)
open_engine-IsReached_example =
    open_engine-IsReached even plain json reached (number_files 0 (on_disk reached.wal)) always
      (Metrics.new (pos 20)) plain-IsWire reached-IsReached
      (files_of_number 0 (on_disk reached.wal))
