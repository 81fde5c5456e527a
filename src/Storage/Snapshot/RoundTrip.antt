-- ===== src/Storage/Snapshot/RoundTrip.antt =====
-- crates/nova-storage/src/snapshot.rs: a snapshot read back.
use nova_db.Base.{
  some-injective, ◌≡◌, refl, sym, ap, ◌∙◌, [], ◌∷◌, ◌++◌, Option, none, some, false, ==_refl,
}
use nova_db.Base.Bytes.{Bytes, bytes_eq, bytes_eq_refl}
use nova_db.Base.Int.{ℤ}
use nova_db.Base.Map
use nova_db.Base.Map.{Map, text_eq, pair_eq, IsDistinct}
use nova_db.Base.Map.Loops.{get-insert_each, pick}
use nova_db.Base.Text.{Text, codes}
use nova_db.Core.DocumentId
use nova_db.Core.DocumentId.{DocumentId}
use nova_db.Core.Error.{ok}
use nova_db.Storage.Recovery.{Collections, CollectionKey, or_default}
use nova_db.Storage.Snapshot.{
  SnapshotJson, FlatCollections, Directory, data_name, meta_name, string_map, flatten, valid_id,
  restore_store, unflatten, metadata, create, restore, read_files,
}
use nova_db.Storage.Snapshot.Names.{
  Plain, collection_name, parse_name, parse_name-collection_name, parse_name_only,
  collection_name_only,
}
use nova_db.Wire.{Wire, checksum}

-- the document that a map of maps holds
abbrev pub doc_in : {K D : Type 0} ⦃e : Map.Eq K⦄ → K → Text → Map K (Map Text D) → Option D
doc_in key id maps = Map.get id (or_default (Map.get key maps))

-- No key is listed twice, neither outside nor inside.
pub record IsDistinctAll {K D : Type 0} ⦃e : Map.Eq K⦄ (maps : Map K (Map Text D)) : Type 0 where
  pub outside : IsDistinct maps
  pub inside : (key : K) → IsDistinct (or_default (Map.get key maps))

-- What the reader makes of the bytes of a map: a map with the same entries, in any order.
pub record IsReadBack {D : Type 0} (json : SnapshotJson D) (flat : FlatCollections D) (raw : Bytes)
    : Type 0 where
  pub read : FlatCollections D
  pub reads : json.data_from_slice raw ≡ some read
  pub distinct : IsDistinctAll read
  pub same : (name id : Text) → doc_in name id read ≡ doc_in name id flat

module _ {D : Type 0} where
  pick_same : (o : Option D) → pick (λ doc. doc) o none ≡ o
  pick_same none = refl
  pick_same (some doc) = refl

  -- an inner map that is converted
  get-pick :
      (conv : Map Text D → Map Text D) (o : Option (Map Text D)) (id : Text)
      → Map.get id (conv (or_default o)) ≡ Map.get id (or_default o)
      → Map.get id (or_default (pick conv o none)) ≡ Map.get id (or_default o)
  get-pick conv none id h = refl
  get-pick conv (some m) id h = h

  get-string_map :
      (id : Text) (store : Map DocumentId D)
      → IsDistinct store
      → Map.get id (string_map store) ≡ Map.get id store
  unfolding Map.get
  get-string_map id store d =
      get-insert_each some (λ doc. doc) id id store [] refl (λ k v found same. some-injective same)
        d
      ∙ pick_same (Map.get id store)

  doc_in-flatten :
      (key : CollectionKey) (id : Text) (colls : Collections D)
      → Plain key.0
      → Plain key.1
      → IsDistinctAll colls
      → doc_in (collection_name key) id (flatten colls) ≡ doc_in key id colls
  unfolding Map.get
  doc_in-flatten key id colls plain_ns plain_coll d =
      ap (λ o. Map.get id (or_default o))
        (get-insert_each (λ k. some (collection_name k)) string_map key (collection_name key) colls
          [] refl
          (λ k v found same. collection_name_only k key plain_ns plain_coll (some-injective same))
          d.outside)
      ∙ get-pick string_map (Map.get key colls) id
          (get-string_map id (or_default (Map.get key colls)) (d.inside key))

  get-restore_store :
      (id : Text) (docs : Map Text D)
      → DocumentId.new id ≡ ok id
      → ((id' : Text) (doc : D) → Map.get id' docs ≡ some doc → DocumentId.new id' ≡ ok id')
      → IsDistinct docs
      → Map.get id (restore_store docs) ≡ Map.get id docs
  unfolding Map.get
  get-restore_store id docs valid all_valid d =
      get-insert_each (λ i. valid_id (DocumentId.new i)) (λ doc. doc) id id docs []
        (rw (valid, valid_id) refl)
        (λ k v found same. some-injective (rw (all_valid k v found, valid_id) at same)) d
      ∙ pick_same (Map.get id docs)

  doc_in-unflatten :
      (key : CollectionKey) (id : Text) (flat : FlatCollections D)
      → Plain key.0
      → Plain key.1
      → DocumentId.new id ≡ ok id
      → ((id' : Text) (doc : D)
          → doc_in (collection_name key) id' flat ≡ some doc
          → DocumentId.new id' ≡ ok id')
      → IsDistinctAll flat
      → doc_in key id (unflatten flat) ≡ doc_in (collection_name key) id flat
  unfolding Map.get
  doc_in-unflatten key id flat plain_ns plain_coll valid all_valid d =
      let name = collection_name key in
      ap (λ o. Map.get id (or_default o))
        (get-insert_each parse_name restore_store name key flat []
          (parse_name-collection_name key plain_ns plain_coll)
          (λ k v found same. parse_name_only k key same) d.outside)
      ∙ get-pick restore_store (Map.get name flat) id
          (get-restore_store id (or_default (Map.get name flat)) valid all_valid (d.inside name))

doc_in-read_back :
    {D : Type 0} (json : SnapshotJson D) (key : CollectionKey) (id : Text) (colls : Collections D)
    (raw : Bytes)
    → Plain key.0
    → Plain key.1
    → DocumentId.new id ≡ ok id
    → ((i : Text) (doc : D) → doc_in key i colls ≡ some doc → DocumentId.new i ≡ ok i)
    → IsDistinctAll colls
    → (back : IsReadBack json (flatten colls) raw)
    → doc_in key id (unflatten back.read) ≡ doc_in key id colls
doc_in-read_back json key id colls raw plain_ns plain_coll valid ids d back =
    let there : (i : Text) → doc_in (collection_name key) i back.read ≡ doc_in key i colls =
      λ i. back.same (collection_name key) i ∙ doc_in-flatten key i colls plain_ns plain_coll d in
    doc_in-unflatten key id back.read plain_ns plain_coll valid
      (λ i doc found. ids i doc (sym (there i) ∙ found)) back.distinct
    ∙ there id

bytes_eq-append : (p a b : Text) → bytes_eq (p ++ a) (p ++ b) ≡ bytes_eq a b
unfolding bytes_eq
bytes_eq-append [] a b = refl
bytes_eq-append (c ∷ p) a b = rw (==_refl c) (bytes_eq-append p a b)

names_apart : (id : Text) → bytes_eq (meta_name id) (data_name id) ≡ false
unfolding bytes_eq
names_apart id = bytes_eq-append id (codes ".meta.json") (codes ".snap")

module _ {D H : Type 0} (x : Wire H) (json : SnapshotJson D) where
  -- the two files behind a `create`
  files_written :
      (id : Text) (raw meta_bytes : Bytes) (dir : Directory)
      → let after = Map.insert (meta_name id) meta_bytes (Map.insert (data_name id) raw dir) in
        (Map.get (meta_name id) after ≡ some meta_bytes) × (Map.get (data_name id) after ≡ some raw)
  files_written id raw meta_bytes dir =
      let inner = Map.insert (data_name id) raw dir in
      (
        Map.get-insert (meta_name id) (meta_name id) meta_bytes inner
            ∙ rw (bytes_eq_refl (meta_name id)) refl,
        Map.get-insert (meta_name id) (data_name id) meta_bytes inner
            ∙ rw (names_apart id) (
                Map.get-insert (data_name id) (data_name id) raw dir
                ∙ rw (bytes_eq_refl (data_name id)) refl),
      )

  -- Let no key of the collections be listed twice, and let the written snapshot and its metadata be
  -- readable: the metadata as it was, the data as a map with the same entries in any order. Then
  -- creating the snapshot succeeds, restoring it under its id from the directory that this leaves
  -- gives the same metadata, and a collection whose namespace and name hold no colon, and whose ids
  -- are valid, holds the same document as before under every valid id, whatever the other
  -- collections are called.
  pub restore-create :
      (id version : Text) (now : ℤ) (colls : Collections D) (dir : Directory)
      (raw meta_bytes : Bytes) (key : CollectionKey) (doc_id : Text)
      → IsDistinctAll colls
      → json.data_to_vec (flatten colls) ≡ some raw
      → (back : IsReadBack json (flatten colls) raw)
      → json.meta_to_vec (metadata x id now version colls raw) ≡ some meta_bytes
      → json.meta_from_slice meta_bytes ≡ some (metadata x id now version colls raw)
      → Plain key.0
      → Plain key.1
      → ((i : Text) (doc : D) → doc_in key i colls ≡ some doc → DocumentId.new i ≡ ok i)
      → DocumentId.new doc_id ≡ ok doc_id
      → let (r, after) = create x json id now version colls dir in
        (r ≡ ok (metadata x id now version colls raw))
        × (restore x json after id ≡ ok (metadata x id now version colls raw, unflatten back.read))
        × (doc_in key doc_id (unflatten back.read) ≡ doc_in key doc_id colls)
  unfolding create restore
  restore-create id version now colls dir raw meta_bytes key doc_id d wrote back wrote_meta
        read_meta plain_ns plain_coll ids valid =
      let (meta_there, data_there) = files_written id raw meta_bytes dir in
      rw (wrote, create)
        (rw wrote_meta (
          refl,
          rw (meta_there, read_files)
              (rw data_there (rw read_meta (rw (==_refl (checksum x raw)) (rw back.reads refl)))),
          doc_in-read_back json key doc_id colls raw plain_ns plain_coll valid ids d back,
        ))
