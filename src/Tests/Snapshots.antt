-- ===== src/Tests/Snapshots.antt =====
-- A snapshot of one collection with one document, a number.
use nova_db.Base.{none≢some, ℕ, ◌≡◌, refl, Bool-cases, inl, inr, [], ◌∷◌, Option, none, some}
use nova_db.Base.Bytes.{Bytes, bytes_eq, bytes_eq→eq}
use nova_db.Base.Int.{pos}
use nova_db.Base.Map
use nova_db.Base.Map.Loops.{insert_each}
use nova_db.Wire.{checksum}
use nova_db.Base.Map.{Map, text_eq, pair_eq, pair_beq}
use nova_db.Base.Text.{Text, codes, as_bytes, utf8_char, trim, trim_start, is_whitespace}
use nova_db.Core.DocumentId
use nova_db.Core.Error.{ok}
use nova_db.Storage.Recovery.{Collections, CollectionKey, or_default}
use nova_db.Storage.Snapshot.{
  SnapshotMetadata, SnapshotJson, FlatCollections, flatten, unflatten, metadata, count_docs, create,
  restore,
}
use nova_db.Storage.Snapshot.RoundTrip.{doc_in, IsDistinctAll, IsReadBack, restore-create}
use nova_db.Storage.Format.{nbf_version}
use nova_db.Tests.Plain.{plain}

abbrev key : CollectionKey
key = (codes "d", codes "u")

abbrev colls : Collections ℕ
colls = (key, (codes "a", 5) ∷ []) ∷ []

abbrev write_flat : FlatCollections ℕ → Option Bytes
write_flat ((name, (id, doc) ∷ []) ∷ []) = some (doc ∷ [])
write_flat _ = none

abbrev read_flat : Bytes → Option (FlatCollections ℕ)
read_flat (doc ∷ []) = some ((codes "d::u", (codes "a", doc) ∷ []) ∷ [])
read_flat _ = none

abbrev read_meta : Bytes → Option SnapshotMetadata
read_meta (count ∷ size ∷ sum ∷ []) = some (record {
  id = codes "s";
  timestamp = pos 3;
  database_version = codes "0.1.0";
  storage_version = nbf_version;
  document_count = count;
  size_bytes = size;
  checksum = sum;
})
read_meta _ = none

abbrev json : SnapshotJson ℕ
json = record {
  data_to_vec = write_flat;
  data_from_slice = read_flat;
  meta_to_vec = λ m. some (m.document_count ∷ m.size_bytes ∷ m.checksum ∷ []);
  meta_from_slice = read_meta;
}

one_entry-IsDistinctAll :
    {K : Type 0} ⦃e : Map.Eq K⦄ (k : K) (id : Text) (doc : ℕ)
    → IsDistinctAll ((k, (id, doc) ∷ []) ∷ [])
unfolding Map.get
one_entry-IsDistinctAll ⦃e⦄ k id doc = record {
  outside = (refl, tt);
  inside = λ k'. elim (Bool-cases (e.beq k k')) [
    | inl same ↦ rw (same, or_default) (refl, tt)
    | inr other ↦ rw (other, or_default) tt
  ];
}

flat-IsReadBack : IsReadBack json (flatten colls) (5 ∷ [])
unfolding insert_each Map.insert
flat-IsReadBack = record {
  read = flatten colls;
  reads = refl;
  distinct = one_entry-IsDistinctAll (codes "d::u") (codes "a") 5;
  same = λ name id. refl;
}

only_id : (i : Text) (doc : ℕ) → doc_in key i colls ≡ some doc → DocumentId.new i ≡ ok i
unfolding Map.get bytes_eq DocumentId.new as_bytes utf8_char trim trim_start is_whitespace
only_id i doc h = elim (Bool-cases (bytes_eq (codes "a") i)) [
  | inl same ↦ rw (← bytes_eq→eq (codes "a") i same) refl
  | inr other ↦ absurd (none≢some (rw other at h))
]

restore-create_example :
    let meta = metadata plain (codes "s") (pos 3) (codes "0.1.0") colls (5 ∷ []) in
    let (r, after) = create plain json (codes "s") (pos 3) (codes "0.1.0") colls [] in
    (r ≡ ok meta)
    × (restore plain json after (codes "s") ≡ ok (meta, unflatten flat-IsReadBack.read))
    × (doc_in key (codes "a") (unflatten flat-IsReadBack.read) ≡ doc_in key (codes "a") colls)
unfolding insert_each Map.insert DocumentId.new as_bytes utf8_char trim trim_start is_whitespace
    count_docs
restore-create_example =
    restore-create plain json (codes "s") (codes "0.1.0") (pos 3) colls [] (5 ∷ [])
      (1 ∷ 1 ∷ checksum plain (5 ∷ []) ∷ []) key (codes "a")
      (one_entry-IsDistinctAll key (codes "a") 5) refl flat-IsReadBack refl refl (refl, tt)
      (refl, tt) only_id refl
