-- ===== src/Server/Engine/Diverged.antt =====
-- crates/nova-server/src/engine.rs: an UPDATE that fails.
use nova_db.Base.{◌≡◌, refl, sym, ◌∙◌, true, false, [], ◌∷◌, Option, some}
use nova_db.Base.Bytes.{bytes_eq_refl}
use nova_db.Base.Map
use nova_db.Base.Map.{text_eq, pair_eq, pair_beq_refl}
use nova_db.Core.Document
use nova_db.Core.Document.{Document, is_id}
use nova_db.Core.DocumentId.{DocumentId}
use nova_db.Core.Error.{NovaError}
use nova_db.Core.Outcome.{done, fail}
use nova_db.Core.Value.{Value, Float}
use nova_db.Query.Ast.{Expr, Assignment}
use nova_db.Query.Evaluator.{eval, matches_filter}
use nova_db.Query.Evaluator.Laws.{apply_assignments_partial}
use nova_db.Server.Engine.{DatabaseEngine, DocumentStore, Environment, Json, assigning}
use nova_db.Server.Engine.Documents.{find_doc, find_doc-insert}
use nova_db.Server.Engine.Durable.{IsDurable}
use nova_db.Server.Engine.Writes.{execute_update, update_all, update_one, begin}
use nova_db.Storage.Recovery.{CollectionKey, or_default}
use nova_db.Wire.{Wire}

-- Let the log of an engine be in step with its memory. UPDATE with two assignments, the first to a
-- field other than the id, whose second one fails on the first document of the collection, answers
-- with that error and logs nothing; but the document in memory has the new value of the first
-- assignment, where the log still gives the old document.
pub execute_update_partial :
    {F H : Type 0} (fl : Float F) (x : Wire H) (json : Json F) (env : Environment)
    (key : CollectionKey) (filter : Option (Expr F)) (a b : Assignment F) (id : DocumentId)
    (doc : Document F) (store : DocumentStore F) (s : DatabaseEngine F) {v : Value F}
    {e : NovaError}
    → (d : IsDurable x json s) → or_default (Map.get key s.collections) ≡ (id, doc) ∷ store
    → matches_filter fl filter doc ≡ done true
    → eval fl a.expr doc ≡ done v
    → is_id a.field ≡ false
    → eval fl b.expr (Document.insert a.field v doc) ≡ fail e
    → let o = execute_update fl x json env key (a ∷ b ∷ []) filter s in
      (o.0 ≡ fail e)
      × (find_doc key id o.1.collections ≡ some (Document.insert a.field v doc))
      × (o.1.wal ≡ s.wal)
      × (find_doc key id d.recovered.collections ≡ some doc)
unfolding execute_update
execute_update_partial fl x json env key filter a b id doc store s {v} {e} d first hit p n q =
    let done_so_far = apply_assignments_partial fl a b (env.clock assigning id) doc p n q in
    let one : update_one fl x json env key filter (a ∷ b ∷ []) id doc (begin fl x json env key s)
        ≡ (fail e, (Document.insert a.field v doc, begin fl x json env key s)) =
      unfold update_one in rw (hit, update_one) (rw done_so_far refl) in
    let all : update_all fl x json env key filter (a ∷ b ∷ [])
          (or_default (Map.get key s.collections)) (begin fl x json env key s)
        ≡ (fail e, ((id, Document.insert a.field v doc) ∷ store, begin fl x json env key s)) =
      rw first (unfold update_all in rw (one, update_all) (rw one refl)) in
    let held : find_doc key id s.collections ≡ some doc =
      rw first (unfold Map.get in rw (bytes_eq_refl id) refl) in
    rw all (
      refl,
      find_doc-insert key key id ((id, Document.insert a.field v doc) ∷ store) s.collections
          ∙ rw (pair_beq_refl key) (unfold Map.get in rw (bytes_eq_refl id) refl),
      refl,
      sym (d.same_docs key id) ∙ held,
    )
