-- ===== src/Index/Followed.antt =====
-- crates/nova-index/src/manager.rs: what a hash index holds after the writes of which it is told.
use nova_db.Base.{
  none≢some, ◌≡◌, refl, ap, ◌∙◌, subst, true, Bool-cases, inl, inr, [], some, if◌then◌else◌,
}
use nova_db.Base.Map
use nova_db.Base.Map.{Map, text_eq as text_key}
use nova_db.Base.Text.{Text}
use nova_db.Core.Document
use nova_db.Core.Document.{Document}
use nova_db.Core.DocumentId.{DocumentId}
use nova_db.Core.Value.{Value, Float}
use nova_db.Index.{hash}
use nova_db.Index.Entries.{Entries, has, lookup}
use nova_db.Index.Covering.{IsKeyClass}
use nova_db.Index.Kept.{
  HasKey, IsKept, created, inserted, updated, removed, untold, hash_index, Covers, put-Covers,
  drop-Covers,
}
use nova_db.Index.Manager.{Index, index_insert, index_remove, index_update, same_value}
use nova_db.Index.Values.{
  insert_entries, remove_entries, insert_value_lem, remove_value_lem, insert_entries-AllKeys,
  remove_entries-AllKeys, insert_entries_own, insert_entries_keeps, remove_entries_keeps,
  same_value_own,
}

module _ {F : Type 0} (fl : Float F) (IsKey : Value F → Type 0) (f : Text)
    (class : IsKeyClass fl IsKey) where
  -- what an index that is kept comes to
  abbrev pub IsFollowing : Map DocumentId (Document F) → Index F → Type 0
  IsFollowing store i =
      (name : Text) × (es : Entries F) × (i ≡ hash_index fl IsKey f name es)
      × Covers fl IsKey f store es

  insert-IsFollowing :
      (store : Map DocumentId (Document F)) (i : Index F) (doc : Document F)
      → IsFollowing store i
      → HasKey fl IsKey f doc
      → IsFollowing (Map.insert doc.id doc store) (index_insert fl doc i)
  insert-IsFollowing store i doc (name, es, same, c) key = rw same (
    name,
    insert_entries fl IsKey f class (Document.lookup f doc) doc.id es,
    insert_value_lem fl IsKey f class (Document.lookup f doc) doc.id name es,
    put-Covers fl IsKey f class doc.id doc store es _ c refl key
        (insert_entries-AllKeys fl IsKey f class (Document.lookup f doc) doc.id es key c.keys)
        (insert_entries_own fl IsKey f class (Document.lookup f doc) doc.id es key)
        (λ id' v other h.
          insert_entries_keeps fl IsKey f class (Document.lookup f doc) doc.id id' v es h),
  )

  remove-IsFollowing :
      (store : Map DocumentId (Document F)) (i : Index F) (doc : Document F)
      → IsFollowing store i
      → IsFollowing (Map.remove doc.id store) (index_remove fl doc i)
  remove-IsFollowing store i doc (name, es, same, c) = rw same (
    name,
    remove_entries fl IsKey f class (Document.lookup f doc) doc.id es,
    remove_value_lem fl IsKey f class (Document.lookup f doc) doc.id name es,
    drop-Covers fl IsKey f class doc.id store es _ c
        (remove_entries-AllKeys fl IsKey f class (Document.lookup f doc) doc.id es c.keys)
        (λ id' v other h.
          remove_entries_keeps fl IsKey f class (Document.lookup f doc) doc.id id' v es other h),
  )

  update-IsFollowing :
      (store : Map DocumentId (Document F)) (i : Index F) (before after : Document F)
      → IsFollowing store i
      → Map.get before.id store ≡ some before
      → after.id ≡ before.id
      → HasKey fl IsKey f after
      → IsFollowing (Map.insert before.id after store) (index_update fl before after i)
  update-IsFollowing store i before after (name, es, same, c) held id_kept key =
      rw same
        (elim (Bool-cases (same_value fl (Document.lookup f before) (Document.lookup f after))) [
          | inl equal ↦
              rw (equal, if◌then◌else◌)
                (
                  name,
                  es,
                  refl,
                  put-Covers fl IsKey f class before.id after store es es c id_kept key c.keys
                      (same_value_own fl IsKey f class (Document.lookup f before)
                        (Document.lookup f after) before.id es c.keys
                        (c.has_key before.id before held) key
                        (λ v at_v. c.covered before.id before v held at_v) equal)
                      (λ id' v other h. h),
                )
          | inr changed ↦
              let old = Document.lookup f before in
              let new = Document.lookup f after in
              let less = remove_entries fl IsKey f class old before.id es in
              let less_keys = remove_entries-AllKeys fl IsKey f class old before.id es c.keys in
              rw (changed, if◌then◌else◌)
                (
                  name,
                  insert_entries fl IsKey f class new after.id less,
                  ap (λ j. index_insert fl after j)
                        (remove_value_lem fl IsKey f class old before.id name es)
                      ∙ insert_value_lem fl IsKey f class new after.id name less,
                  put-Covers fl IsKey f class before.id after store es _ c id_kept key
                      (insert_entries-AllKeys fl IsKey f class new after.id less key less_keys)
                      (λ v at_v.
                        subst
                          (λ id.
                            has id
                              (lookup fl hash v (insert_entries fl IsKey f class new after.id less))
                            ≡ true)
                          id_kept
                          (insert_entries_own fl IsKey f class new after.id less key v at_v))
                      (λ id' v other h.
                        insert_entries_keeps fl IsKey f class new after.id id' v less
                          (remove_entries_keeps fl IsKey f class old before.id id' v es other h)),
                )
        ])

  pub kept-IsFollowing :
      (store : Map DocumentId (Document F)) (i : Index F)
      → IsKept fl IsKey f store i
      → IsFollowing store i
  unfolding Map.get
  kept-IsFollowing _ _ (created name) = (
    name,
    [],
    refl,
    record {
      keys = tt;
      same_id = λ id doc h. absurd (none≢some h);
      has_key = λ id doc h. absurd (none≢some h);
      covered = λ id doc v h at_v. absurd (none≢some h);
    },
  )
  kept-IsFollowing _ _ (inserted store i doc k key) =
      insert-IsFollowing store i doc (kept-IsFollowing store i k) key
  kept-IsFollowing _ _ (updated store i before after k held id_kept key) =
      update-IsFollowing store i before after (kept-IsFollowing store i k) held id_kept key
  kept-IsFollowing _ _ (removed store i doc k held) =
      remove-IsFollowing store i doc (kept-IsFollowing store i k)
  kept-IsFollowing _ _ (untold store i id k) =
      let (name, es, same, c) = kept-IsFollowing store i k in
      (name, es, same, drop-Covers fl IsKey f class id store es es c c.keys (λ id' v other h. h))
