-- ===== src/Server/Engine/Tracking.antt =====
-- crates/nova-server/src/engine.rs: the loops of UPDATE, REMOVE and CREATE INDEX, and an index on the
-- collection that they walk.
use nova_db.Base.{
  ℕ, ◌≡◌, refl, sym, ap, ◌∙◌, subst, true, false, Bool, ◌⊎◌, inl, inr, List, [], ◌∷◌, ◌++◌,
  append_assoc, Option, none, some,
}
use nova_db.Base.Bytes.{Bytes, bytes_eq_refl}
use nova_db.Base.Map
use nova_db.Base.Map.{Map, IsDistinct, text_eq, pair_eq}
use nova_db.Base.Map.Splits.{middle-get, insert-middle}
use nova_db.Base.Text.{Text}
use nova_db.Core.Document.{Document}
use nova_db.Core.DocumentId.{DocumentId}
use nova_db.Core.Outcome.{Outcome, done, fail, panic, Outcome-cases}
use nova_db.Core.Value.{Value, Float}
use nova_db.Index.Covering.{IsKeyClass}
use nova_db.Index.Followed.{kept-IsFollowing}
use nova_db.Index.Held.{HasIndex, IsKept-IsDistinct, on_update-HasIndex}
use nova_db.Index.Kept.{HasKey}
use nova_db.Index.Manager.{IndexManager, on_update}
use nova_db.Query.Ast.{Expr, Assignment}
use nova_db.Query.Evaluator.{matches_filter, apply_assignments}
use nova_db.Query.Evaluator.Laws.{apply_assignments-IsUpdate}
use nova_db.Server.Engine.{DocumentStore, Environment, Json, assigning}
use nova_db.Server.Engine.Round.{apart}
use nova_db.Server.Engine.Writes.{
  Progress, note_update, log_update, assigned, update_one, update_all,
}
use nova_db.Storage.Recovery.{CollectionKey}
use nova_db.Storage.Wal.{WriteAheadLog}
use nova_db.Wire.{Wire}

module _ {F H : Type 0} (fl : Float F) (x : Wire H) (json : Json F) (env : Environment)
    (key : CollectionKey) (filter : Option (Expr F)) (todo : List (Assignment F)) where
  -- a document that passed the filter, assigned to, with its indexes told of it
  abbrev IsAssigned : DocumentId → Document F → Document F → Progress F → Progress F → Type 0
  IsAssigned id doc after p p' =
      (b : Bool) × (apply_assignments fl todo (env.clock assigning id) doc ≡ (done b, after))
      × (p'.manager ≡ on_update fl doc after p.manager)

  -- what a round ends in: the document, and the indexes
  abbrev IsTold : DocumentId → Document F → Document F → Progress F → Progress F → Type 0
  IsTold id doc after p p' =
      ((after ≡ doc) × (p'.manager ≡ p.manager)) ⊎ IsAssigned id doc after p p'

  note_update_told :
      (id : DocumentId) (doc new after : Document F) (r : Outcome ℕ × WriteAheadLog)
      (p p' : Progress F)
      → note_update fl x json env id doc new r p ≡ (done tt, (after, p'))
      → (new ≡ after) × (p'.manager ≡ on_update fl doc new p.manager)
  note_update_told id doc new after (done n, w) p p' h =
      (ap (λ q. q.1.0) h, ap (λ q. q.1.1.manager) (sym h))
  note_update_told id doc new after (fail e, w) p p' h = cc h
  note_update_told id doc new after (panic, w) p p' h = cc h

  log_update_told :
      (id : DocumentId) (doc new after : Document F) (o : Option Bytes) (p p' : Progress F)
      → log_update fl x json env key id doc new o p ≡ (done tt, (after, p'))
      → (new ≡ after) × (p'.manager ≡ on_update fl doc new p.manager)
  log_update_told id doc new after none p p' h = cc h
  log_update_told id doc new after (some payload) p p' h =
      note_update_told id doc new after _ p p' h

  assigned-IsAssigned :
      (id : DocumentId) (doc after : Document F) (r : Outcome Bool × Document F) (p p' : Progress F)
      → apply_assignments fl todo (env.clock assigning id) doc ≡ r
      → assigned fl x json env key id doc r p ≡ (done tt, (after, p'))
      → IsAssigned id doc after p p'
  assigned-IsAssigned id doc after (done b, new) p p' e h =
      let (same, told) = log_update_told id doc new after (json.to_vec new) p p' h in
      rw (← same) (b, e, told)
  assigned-IsAssigned id doc after (fail e', new) p p' e h = cc h
  assigned-IsAssigned id doc after (panic, new) p p' e h = cc h

  update_one-IsTold :
      (id : DocumentId) (doc after : Document F) (p p' : Progress F)
      → update_one fl x json env key filter todo id doc p ≡ (done tt, (after, p'))
      → IsTold id doc after p p'
  unfolding update_one
  update_one-IsTold id doc after p p' h = elim (Outcome-cases (matches_filter fl filter doc)) [
    | inl (false, e) ↦
        let h' = rw (e, update_one) at h in
        inl (ap (λ q. q.1.0) (sym h'), ap (λ q. q.1.1.manager) (sym h'))
    | inl (true, e) ↦ inr (assigned-IsAssigned id doc after _ p p' refl (rw (e, update_one) at h))
    | inr (inl (e', e)) ↦ cc (rw (e, update_one) at h)
    | inr (inr e) ↦ cc (rw (e, update_one) at h)
  ]

  update_all_first :
      (id : DocumentId) (doc : Document F) (store store' : DocumentStore F) (p p' : Progress F)
      (o : Outcome (Unit {0}) × (Document F × Progress F))
      → update_one fl x json env key filter todo id doc p ≡ o
      → update_all fl x json env key filter todo ((id, doc) ∷ store) p ≡ (done tt, (store', p'))
      → (o.0 ≡ done tt)
        × (rest : DocumentStore F) × (update_all fl x json env key filter todo store o.1.1
            ≡ (done tt, (rest, p')))
        × (store' ≡ (id, o.1.0) ∷ rest)
  unfolding update_all
  update_all_first id doc store store' p p' (done tt, (after, p'')) e h =
      let h' = rw e at (rw (e, update_all) at h) in
      let r = update_all fl x json env key filter todo store p'' in
      (refl, r.1.0, ap (λ q. (q.0, (r.1.0, q.1.1))) h', ap (λ q. q.1.0) (sym h'))
  update_all_first id doc store store' p p' (fail e', (after, p'')) e h =
      cc (rw (e, update_all) at h)
  update_all_first id doc store store' p p' (panic, (after, p'')) e h = cc (rw (e, update_all) at h)

module _ {F : Type 0} (fl : Float F) (env : Environment) (IsKey : Value F → Type 0) (f : Text) where
  -- The values that the assignments give to the documents that they succeed on are in the class.
  abbrev pub AssignsKeys : List (Assignment F) → DocumentStore F → Type 0
  AssignsKeys todo store =
      (id : DocumentId) (doc after : Document F) (b : Bool)
      → Map.get id store ≡ some doc
      → apply_assignments fl todo (env.clock assigning id) doc ≡ (done b, after)
      → HasKey fl IsKey f after

module _ {F H : Type 0} (fl : Float F) (x : Wire H) (json : Json F) (env : Environment)
    (IsKey : Value F → Type 0) (f : Text) (class : IsKeyClass fl IsKey) (key : CollectionKey) where
  pub HasIndex-id :
      (store : DocumentStore F) {m : IndexManager F} (id : DocumentId) (doc : Document F)
      → HasIndex fl IsKey f store m
      → Map.get id store ≡ some doc
      → doc.id ≡ id
  HasIndex-id store id doc h there =
      (kept-IsFollowing fl IsKey f class store h.index h.kept).3.same_id id doc there

  -- one round of the loop of UPDATE, in the midst of the collection
  told-HasIndex :
      (filter : Option (Expr F)) (todo : List (Assignment F)) (front store : DocumentStore F)
      (id : DocumentId) (doc after : Document F) (p p' : Progress F)
      → HasIndex fl IsKey f (front ++ (id, doc) ∷ store) p.manager
      → ((b : Bool)
          → apply_assignments fl todo (env.clock assigning id) doc ≡ (done b, after)
          → HasKey fl IsKey f after)
      → IsTold fl x json env key filter todo id doc after p p'
      → HasIndex fl IsKey f (front ++ (id, after) ∷ store) p'.manager
  told-HasIndex filter todo front store id doc after p p' h keys (inl (same, told)) =
      rw same (rw told h)
  told-HasIndex filter todo front store id doc after p p' h keys (inr (b, e, told)) =
      let whole = front ++ (id, doc) ∷ store in
      let (absent, there) =
        middle-get id doc front store (IsKept-IsDistinct fl IsKey f whole h.index h.kept) in
      let its_id = HasIndex-id whole id doc h there in
      let kept_id : after.id ≡ doc.id =
        subst (λ (r : Outcome Bool × Document F). r.1.id ≡ doc.id) e
          (apply_assignments-IsUpdate fl todo (env.clock assigning id) doc).id_kept in
      let held : Map.get doc.id whole ≡ some doc =
        subst (λ i. Map.get i whole ≡ some doc) (sym its_id) there in
      rw told (
        subst (λ st. HasIndex fl IsKey f st (on_update fl doc after p.manager))
          (ap (λ i. Map.insert i after whole) its_id
            ∙ insert-middle id after doc front store absent)
          (on_update-HasIndex fl IsKey f whole p.manager h doc after held kept_id (keys b e)))

  -- The loop of UPDATE over the rest of a collection: if it ends without an error, the index is
  -- kept with the collection that it leaves.
  pub update_all-HasIndex :
      (filter : Option (Expr F)) (todo : List (Assignment F)) (front store store' : DocumentStore F)
      (p p' : Progress F)
      → HasIndex fl IsKey f (front ++ store) p.manager
      → IsDistinct store
      → AssignsKeys fl env IsKey f todo store
      → update_all fl x json env key filter todo store p ≡ (done tt, (store', p'))
      → HasIndex fl IsKey f (front ++ store') p'.manager
  unfolding update_all Map.get
  update_all-HasIndex filter todo front [] store' p p' h d keys e =
      rw (ap (λ q. q.1.0) (sym e)) (rw (ap (λ q. q.1.1.manager) (sym e)) h)
  update_all-HasIndex filter todo front ((id, doc) ∷ store) store' p p' h (new, d) keys e =
      let o = update_one fl x json env key filter todo id doc p in
      let (ended, rest, looped, shape) =
        update_all_first fl x json env key filter todo id doc store store' p p' o refl e in
      let told =
        update_one-IsTold fl x json env key filter todo id doc o.1.0 p o.1.1
          (ap (λ t. (t, o.1)) ended) in
      let one =
        told-HasIndex filter todo front store id doc o.1.0 p o.1.1 h
          (λ b applied. keys id doc o.1.0 b (rw (bytes_eq_refl id) refl) applied) told in
      let others : AssignsKeys fl env IsKey f todo store =
        λ id' doc' after b there. keys id' doc' after b (rw (apart id id' store new there) there) in
      let all =
        update_all-HasIndex filter todo (front ++ (id, o.1.0) ∷ []) store rest o.1.1 p'
          (rw (append_assoc front ((id, o.1.0) ∷ []) store) one) d others looped in
      rw shape (rw (append_assoc front ((id, o.1.0) ∷ []) rest) at all)
