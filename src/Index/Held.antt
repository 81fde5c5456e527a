-- ===== src/Index/Held.antt =====
-- crates/nova-index/src/manager.rs: the index that a manager finds for a field, over the writes of
-- which the manager is told.
use nova_db.Base.{
  subst, none≢some, ◌≡◌, refl, ap, sym, ◌∙◌, Bool-cases, inl, inr, [], ◌∷◌, Bool, Option, none,
  some,
}
use mathlib.Core.Option
use nova_db.Base.Bytes.{bytes_eq}
use nova_db.Base.Map
use nova_db.Base.Map.{Map, IsDistinct, text_eq as text_key}
use nova_db.Base.Map.Splits.{insert-IsDistinct, remove-IsDistinct}
use nova_db.Base.Text.{Text, text_eq}
use nova_db.Core.Document
use nova_db.Core.Document.{Document}
use nova_db.Core.DocumentId.{DocumentId}
use nova_db.Core.Value.{Value, Float}
use nova_db.Index.Kept.{HasKey, IsKept, created, inserted, updated, removed, untold}
use nova_db.Index.Manager.{
  Index, IndexManager, find_index_for_field, index_insert, index_remove, index_update, insert_value,
  remove_value, same_value, each, on_insert, on_update, on_remove,
}

-- A write leaves an index under its name and on its field.
abbrev pub IsInPlace : {F : Type 0} → (Index F → Index F) → Type 0
IsInPlace {F} g = (i : Index F) → ((g i).name ≡ i.name) × ((g i).field ≡ i.field)

module _ {F : Type 0} (fl : Float F) where
  insert_value-place :
      (v : Option (Value F)) (id : DocumentId) (i : Index F)
      → ((insert_value fl v id i).name ≡ i.name) × ((insert_value fl v id i).field ≡ i.field)
  insert_value-place none id i = (refl, refl)
  insert_value-place (some v) id i = (refl, refl)

  remove_value-place :
      (v : Option (Value F)) (id : DocumentId) (i : Index F)
      → ((remove_value fl v id i).name ≡ i.name) × ((remove_value fl v id i).field ≡ i.field)
  remove_value-place none id i = (refl, refl)
  remove_value-place (some v) id i = (refl, refl)

  pub index_insert-IsInPlace : (doc : Document F) → IsInPlace (index_insert fl doc)
  index_insert-IsInPlace doc i = insert_value-place (Document.lookup i.field doc) doc.id i

  index_remove-IsInPlace : (doc : Document F) → IsInPlace (index_remove fl doc)
  index_remove-IsInPlace doc i = remove_value-place (Document.lookup i.field doc) doc.id i

  index_update-IsInPlace : (before after : Document F) → IsInPlace (index_update fl before after)
  index_update-IsInPlace before after i =
      let less = index_remove-IsInPlace before i in
      let more = index_insert-IsInPlace after (index_remove fl before i) in
      elim (Bool-cases
        (same_value fl (Document.lookup i.field before) (Document.lookup i.field after))) [
          | inl same ↦ rw same (refl, refl)
          | inr other ↦ rw other (more.0 ∙ less.0, more.1 ∙ less.1)
        ]

  get-each :
      (g : Index F → Index F) (name : Text) (m : IndexManager F) {i : Index F}
      → Map.get name m ≡ some i
      → Map.get name (each fl g m) ≡ some (g i)
  unfolding Map.get
  get-each g name [] h = absurd (none≢some h)
  get-each g name ((n, j) ∷ m) h = elim (Bool-cases (bytes_eq n name)) [
    | inl same ↦ rw same (ap (Option.map g) (rw same at h))
    | inr other ↦ rw other (get-each g name m (rw other at h))
  ]

  find_index_for_field-each :
      (g : Index F → Index F) (f : Text) (m : IndexManager F) {i : Index F}
      → IsInPlace g
      → find_index_for_field f m ≡ some i
      → find_index_for_field f (each fl g m) ≡ some (g i)
  unfolding find_index_for_field
  find_index_for_field-each g f [] place h = absurd (none≢some h)
  find_index_for_field-each g f ((n, j) ∷ m) place h = elim (Bool-cases (text_eq j.field f)) [
    | inl same ↦ rw (in_place same) (ap (Option.map g) (rw same at h))
    | inr other ↦ rw (in_place other) (find_index_for_field-each g f m place (rw other at h))
  ]
    where
      in_place : {b : Bool} → text_eq j.field f ≡ b → text_eq (g j).field f ≡ b
      in_place e = ap (λ t. text_eq t f) (place j).1 ∙ e

-- The manager finds an index on the field, under its name, and that index is kept with the
-- collection.
pub record HasIndex {F : Type 0} (fl : Float F) (IsKey : Value F → Type 0) (f : Text)
    (store : Map DocumentId (Document F)) (m : IndexManager F) : Type 0 where
  pub index : Index F
  pub first : find_index_for_field f m ≡ some index
  pub named : Map.get index.name m ≡ some index
  pub kept : IsKept fl IsKey f store index

module _ {F : Type 0} (fl : Float F) (IsKey : Value F → Type 0) (f : Text)
    (store : Map DocumentId (Document F)) (m : IndexManager F)
    (h : HasIndex fl IsKey f store m) where
  each-HasIndex :
      (g : Index F → Index F) (store' : Map DocumentId (Document F))
      → IsInPlace g
      → IsKept fl IsKey f store' (g h.index)
      → HasIndex fl IsKey f store' (each fl g m)
  each-HasIndex g store' place kept = record {
    index = g h.index;
    first = find_index_for_field-each fl g f m place h.first;
    named =
        subst (λ n. Map.get n (each fl g m) ≡ some (g h.index)) (sym (place h.index).0)
          (get-each fl g h.index.name m h.named);
    kept = kept;
  }

  pub on_insert-HasIndex :
      (doc : Document F)
      → HasKey fl IsKey f doc
      → HasIndex fl IsKey f (Map.insert doc.id doc store) (on_insert fl doc m)
  unfolding on_insert
  on_insert-HasIndex doc key =
      each-HasIndex (index_insert fl doc) _ (index_insert-IsInPlace fl doc)
        (inserted store h.index doc h.kept key)

  pub on_update-HasIndex :
      (before after : Document F)
      → Map.get before.id store ≡ some before
      → after.id ≡ before.id
      → HasKey fl IsKey f after
      → HasIndex fl IsKey f (Map.insert before.id after store) (on_update fl before after m)
  unfolding on_update
  on_update-HasIndex before after held same key =
      each-HasIndex (index_update fl before after) _ (index_update-IsInPlace fl before after)
        (updated store h.index before after h.kept held same key)

  pub on_remove-HasIndex :
      (doc : Document F)
      → Map.get doc.id store ≡ some doc
      → HasIndex fl IsKey f (Map.remove doc.id store) (on_remove fl doc m)
  unfolding on_remove
  on_remove-HasIndex doc held =
      each-HasIndex (index_remove fl doc) _ (index_remove-IsInPlace fl doc)
        (removed store h.index doc h.kept held)

  pub untold-HasIndex : (id : DocumentId) → HasIndex fl IsKey f (Map.remove id store) m
  untold-HasIndex id = record {
    index = h.index;
    first = h.first;
    named = h.named;
    kept = untold store h.index id h.kept;
  }

-- A collection that an index is kept with lists every id once.
pub IsKept-IsDistinct :
    {F : Type 0} (fl : Float F) (IsKey : Value F → Type 0) (f : Text)
    (store : Map DocumentId (Document F)) (i : Index F)
    → IsKept fl IsKey f store i
    → IsDistinct store
IsKept-IsDistinct fl IsKey f _ _ (created name) = tt
IsKept-IsDistinct fl IsKey f _ _ (inserted store i doc k key) =
    insert-IsDistinct doc.id doc store (IsKept-IsDistinct fl IsKey f store i k)
IsKept-IsDistinct fl IsKey f _ _ (updated store i before after k held same key) =
    insert-IsDistinct before.id after store (IsKept-IsDistinct fl IsKey f store i k)
IsKept-IsDistinct fl IsKey f _ _ (removed store i doc k held) =
    remove-IsDistinct doc.id store (IsKept-IsDistinct fl IsKey f store i k)
IsKept-IsDistinct fl IsKey f _ _ (untold store i id k) =
    remove-IsDistinct id store (IsKept-IsDistinct fl IsKey f store i k)
