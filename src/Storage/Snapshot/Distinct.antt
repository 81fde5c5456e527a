-- ===== src/Storage/Snapshot/Distinct.antt =====
-- crates/nova-storage/src/snapshot.rs: the maps that a snapshot is written from list no key twice.
use nova_db.Base.{none≢some, [], some, Option-cases, inl, inr}
use nova_db.Base.Map
use nova_db.Base.Map.{Map, IsDistinct, text_eq, pair_eq}
use nova_db.Base.Map.Filled.{insert_each-IsDistinct, insert_each-AllValues}
use nova_db.Base.Text.{Text}
use nova_db.Storage.Recovery.{Collections, or_default}
use nova_db.Storage.Snapshot.{flatten, string_map}
use nova_db.Storage.Snapshot.Names.{collection_name}
use nova_db.Storage.Snapshot.RoundTrip.{IsDistinctAll}

pub flatten-IsDistinctAll : {D : Type 0} (colls : Collections D) → IsDistinctAll (flatten colls)
unfolding Map.get
flatten-IsDistinctAll {D} colls = record {
  outside = insert_each-IsDistinct (λ key. some (collection_name key)) string_map colls [] tt;
  inside = λ name. elim (Option-cases (Map.get name (flatten colls))) [
    | inl gone ↦ rw (gone, or_default) tt
    | inr (m, there) ↦
        rw (there, or_default)
          (insert_each-AllValues (λ key. some (collection_name key)) string_map
            (λ (n : Map Text D). IsDistinct n)
            (λ store. insert_each-IsDistinct some (λ doc. doc) store [] tt) colls []
            (λ j w h. absurd (none≢some h)) name m there)
  ];
}
