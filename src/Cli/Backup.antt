-- ===== src/Cli/Backup.antt =====
-- crates/nova-cli/src/main.rs: a backup of the directory that a database leaves, and what it restores.
use nova_db.Base.{
  ◌≡◌, refl, sym, ap, ◌+◌, subst, ltb, ◌∙◌, Bool-cases, inl, inr, List, [], ◌∷◌, Option, none, some,
}
use nova_db.Base.Bytes.{Bytes}
use nova_db.Base.Int.{ℤ}
use nova_db.Base.Map
use nova_db.Base.Map.{Map, IsDistinct, text_eq, pair_eq, pair_beq}
use nova_db.Base.Map.Splits.{insert-IsDistinct, remove-IsDistinct}
use nova_db.Base.Text.{Text}
use nova_db.Cli.{DataDir, backup_create, backup_recovered}
use nova_db.Core.Document.{Document}
use nova_db.Core.DocumentId
use nova_db.Core.DocumentId.{DocumentId}
use nova_db.Core.Error.{Result, ok, err, Result-cases, ok_or, ◌>>=◌}
use nova_db.Server.Engine.{DatabaseEngine, Json}
use nova_db.Server.Engine.Documents.{find_doc}
use nova_db.Server.Engine.Durable.{IsDurable}
use nova_db.Storage.Format.{storage, NbfRecord, RecordType}
use nova_db.Storage.Recovery
use nova_db.Storage.Recovery.{
  RecoveredState, Collections, CollectionKey, or_default, apply_to_map, apply_record_to_state,
  replay_record, recover,
}
use nova_db.Storage.Recovery.Replay.{replay_all}
use nova_db.Storage.Snapshot.{SnapshotJson, flatten, metadata, restore}
use nova_db.Storage.Snapshot.Names.{Plain}
use nova_db.Storage.Snapshot.RoundTrip.{IsDistinctAll, IsReadBack, restore-create}
use nova_db.Storage.Wal.{on_disk}
use nova_db.Storage.Wal.Durable.{Holds-recover}
use nova_db.Wire.{Wire, IsWire}

ok-injective : {A : Type 0} {a b : A} → ok a ≡ ok b → a ≡ b
ok-injective {A} {a} h = ap (λ (r : Result A). elim r [ err e ↦ a | ok c ↦ c ]) h

insert-IsDistinctAll :
    {D : Type 0} (key : CollectionKey) (m : Map DocumentId D) (colls : Collections D)
    → IsDistinctAll colls
    → IsDistinct m
    → IsDistinctAll (Map.insert key m colls)
insert-IsDistinctAll key m colls d here = record {
  outside = insert-IsDistinct key m colls d.outside;
  inside = λ key'. rw (Map.get-insert key key' m colls) (elim (Bool-cases (pair_beq key key')) [
    | inl same ↦ rw same here
    | inr other ↦ rw other (d.inside key')
  ]);
}

module _ {D : Type 0} (js : Bytes → Option D) where
  put-IsDistinct :
      (o : Option D) (id : DocumentId) (m m' : Map DocumentId D)
      → IsDistinct m
      → (ok_or storage o >>= (λ doc. ok (Map.insert id doc m))) ≡ ok m'
      → IsDistinct m'
  put-IsDistinct none id m m' d e = cc e
  put-IsDistinct (some doc) id m m' d e =
      subst (λ n. IsDistinct n) (ok-injective e) (insert-IsDistinct id doc m d)

  apply_to_map-IsDistinct :
      (r : NbfRecord) (t : RecordType) (m m' : Map DocumentId D)
      → IsDistinct m
      → apply_to_map js r t m ≡ ok m'
      → IsDistinct m'
  unfolding apply_to_map
  apply_to_map-IsDistinct r RecordType.insert m m' d e =
      put-IsDistinct (js r.payload) r.document_id m m' d e
  apply_to_map-IsDistinct r RecordType.update m m' d e =
      put-IsDistinct (js r.payload) r.document_id m m' d e
  apply_to_map-IsDistinct r RecordType.delete m m' d e =
      subst (λ n. IsDistinct n) (ok-injective e) (remove-IsDistinct r.document_id m d)
  apply_to_map-IsDistinct r RecordType.checkpoint m m' d e =
      subst (λ n. IsDistinct n) (ok-injective e) d
  apply_to_map-IsDistinct r RecordType.tx_begin m m' d e =
      subst (λ n. IsDistinct n) (ok-injective e) d
  apply_to_map-IsDistinct r RecordType.tx_commit m m' d e =
      subst (λ n. IsDistinct n) (ok-injective e) d
  apply_to_map-IsDistinct r RecordType.tx_rollback m m' d e =
      subst (λ n. IsDistinct n) (ok-injective e) d

  apply_record_to_state-IsDistinctAll :
      (r : NbfRecord) (s s' : RecoveredState D)
      → IsDistinctAll s.collections
      → (apply_record_to_state js r s
          >>= (λ t. ok (record t { records_replayed = t.records_replayed + 1 })))
        ≡ ok s'
      → IsDistinctAll s'.collections
  unfolding apply_record_to_state
  apply_record_to_state-IsDistinctAll r s s' d e =
      let key : CollectionKey = (r.namespace, r.collection) in
      let m = or_default (Map.get key s.collections) in
      elim (Result-cases (apply_to_map js r r.record_type m)) [
        | inl (e', bad) ↦ cc (rw bad at e)
        | inr (n, good) ↦
            subst (λ (t : RecoveredState D). IsDistinctAll t.collections)
              (ok-injective (rw good at e))
              (insert-IsDistinctAll key n s.collections d
                (apply_to_map-IsDistinct r r.record_type m n (d.inside key) good))
      ]

  replay_record-IsDistinctAll :
      (r : NbfRecord) (s s' : RecoveredState D)
      → IsDistinctAll s.collections
      → replay_record js r s ≡ ok s'
      → IsDistinctAll s'.collections
  unfolding replay_record
  replay_record-IsDistinctAll r s s' d e = elim (Bool-cases (ltb s.max_sequence r.sequence)) [
    | inl newer ↦
        apply_record_to_state-IsDistinctAll r (record s { max_sequence = r.sequence }) s' d
          (rw newer at e)
    | inr older ↦ apply_record_to_state-IsDistinctAll r s s' d (rw older at e)
  ]

  replay_all-IsDistinctAll :
      (rs : List NbfRecord) (s s' : RecoveredState D)
      → IsDistinctAll s.collections
      → replay_all js rs s ≡ ok s'
      → IsDistinctAll s'.collections
  unfolding replay_all
  replay_all-IsDistinctAll [] s s' d e =
      subst (λ (t : RecoveredState D). IsDistinctAll t.collections) (ok-injective e) d
  replay_all-IsDistinctAll (r ∷ rs) s s' d e = elim (Result-cases (replay_record js r s)) [
    | inl (e', bad) ↦ cc (rw bad at e)
    | inr (next, good) ↦
        replay_all-IsDistinctAll rs next s' (replay_record-IsDistinctAll r s next d good)
          (rw good at e)
  ]

module _ {F H : Type 0} (x : Wire H) (docs : Json F) (json : SnapshotJson (Document F))
    (s : DatabaseEngine F) (d : IsDurable x docs s) where
  pub recovered-IsDistinctAll : IsDistinctAll d.recovered.collections
  unfolding Map.get
  recovered-IsDistinctAll =
      replay_all-IsDistinctAll docs.from_slice d.synced.logged Recovery.new d.recovered
        (record { outside = tt; inside = λ key. tt }) d.synced.replayed

  -- Let the log of an engine be in step with its memory (IsDurable), a data directory hold the
  -- segments that a crash leaves, the laws of Wire hold, and the snapshot of the recovered
  -- collections and its metadata be readable again as IsReadBack asks. backup create then succeeds
  -- and leaves the segments as they are. Let the ids that the engine holds under a collection, and
  -- the one asked for, be valid, and the namespace and the name of the collection hold no colon.
  -- Restoring the snapshot then gives under that id what the engine holds under it.
  pub restore-backup_create :
      (id version : Text) (now : ℤ) (dir : DataDir) (raw meta_bytes : Bytes) (key : CollectionKey)
      (doc_id : DocumentId)
      → IsWire x
      → dir.segments ≡ on_disk s.wal
      → json.data_to_vec (flatten d.recovered.collections) ≡ some raw
      → (back : IsReadBack json (flatten d.recovered.collections) raw)
      → let meta = metadata x id now version d.recovered.collections raw in
        json.meta_to_vec meta ≡ some meta_bytes
        → json.meta_from_slice meta_bytes ≡ some meta
        → Plain key.0
        → Plain key.1
        → ((i : DocumentId) (doc : Document F)
            → find_doc key i s.collections ≡ some doc
            → DocumentId.new i ≡ ok i)
        → DocumentId.new doc_id ≡ ok doc_id
        → (after : DataDir) × (restored : Collections (Document F)) × (backup_create x
              docs.from_slice json id now version dir
            ≡ some (ok meta, after))
          × (after.segments ≡ dir.segments)
          × (restore x json after.snapshots id ≡ ok (meta, restored))
          × (find_doc key doc_id restored ≡ find_doc key doc_id s.collections)
  unfolding backup_create
  restore-backup_create id version now dir raw meta_bytes key doc_id laws files wrote back
        wrote_meta read_meta plain_ns plain_coll ids valid =
      let log = d.synced in
      let recovery : recover docs.from_slice x dir.segments
          ≡ some (ok (d.recovered, dir.segments)) =
        rw files (
          Holds-recover docs.from_slice x log.logged s.wal d.recovered laws log.valid log.mode
            log.holds log.replayed) in
      let (created, restored, same) =
        restore-create x json id version now d.recovered.collections dir.snapshots raw meta_bytes
          key doc_id recovered-IsDistinctAll wrote back wrote_meta read_meta plain_ns plain_coll
          (λ i doc there. ids i doc (d.same_docs key i ∙ there)) valid in
      (
        _,
        _,
        rw (recovery, backup_recovered) (rw created refl),
        refl,
        restored,
        same ∙ sym (d.same_docs key doc_id),
      )
