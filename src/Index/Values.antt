-- ===== src/Index/Values.antt =====
-- crates/nova-index/src/manager.rs: what an insertion and a removal do to the entries of a hash
-- index.
use nova_db.Base.{none≢some, some-injective, false≢true, ◌≡◌, refl, true, false, Option, none, some}
use nova_db.Base.Map.{text_eq as text_key}
use nova_db.Base.Text.{Text, text_eq}
use nova_db.Core.DocumentId.{DocumentId}
use nova_db.Core.Value.{Value, Float}
use nova_db.Index.{hash}
use nova_db.Index.Entries
use nova_db.Index.Entries.{Entries, has, lookup, hash_insert}
use nova_db.Index.Laws.{hash_insert-has}
use nova_db.Index.Covering.{
  IsKeyClass, AllKeys, hash_insert_keeps, remove_keeps, lookup_same, same_key,
}
use nova_db.Index.Kept.{hash_index, hash_insert-AllKeys, remove-AllKeys}
use nova_db.Index.Manager.{insert_value, remove_value, same_value}

module _ {F : Type 0} (fl : Float F) (IsKey : Value F → Type 0) (f : Text)
    (class : IsKeyClass fl IsKey) where
  -- the entries of `insert_value` and `remove_value`
  abbrev pub insert_entries : Option (Value F) → DocumentId → Entries F → Entries F
  insert_entries none id es = es
  insert_entries (some v) id es = hash_insert fl v id es

  abbrev pub remove_entries : Option (Value F) → DocumentId → Entries F → Entries F
  remove_entries none id es = es
  remove_entries (some v) id es = Entries.remove fl hash v id es

  pub insert_value_lem :
      (o : Option (Value F)) (id : DocumentId) (name : Text) (es : Entries F)
      → insert_value fl o id (hash_index fl IsKey f name es)
        ≡ hash_index fl IsKey f name (insert_entries o id es)
  insert_value_lem none id name es = refl
  insert_value_lem (some v) id name es = refl

  pub remove_value_lem :
      (o : Option (Value F)) (id : DocumentId) (name : Text) (es : Entries F)
      → remove_value fl o id (hash_index fl IsKey f name es)
        ≡ hash_index fl IsKey f name (remove_entries o id es)
  remove_value_lem none id name es = refl
  remove_value_lem (some v) id name es = refl

  pub insert_entries-AllKeys :
      (o : Option (Value F)) (id : DocumentId) (es : Entries F)
      → ((v : Value F) → o ≡ some v → IsKey v)
      → AllKeys fl IsKey es
      → AllKeys fl IsKey (insert_entries o id es)
  insert_entries-AllKeys none id es h hs = hs
  insert_entries-AllKeys (some v) id es h hs = hash_insert-AllKeys fl IsKey f v id es (h v refl) hs

  pub remove_entries-AllKeys :
      (o : Option (Value F)) (id : DocumentId) (es : Entries F)
      → AllKeys fl IsKey es
      → AllKeys fl IsKey (remove_entries o id es)
  remove_entries-AllKeys none id es hs = hs
  remove_entries-AllKeys (some v) id es hs = remove-AllKeys fl IsKey f v id es hs

  pub insert_entries_own :
      (o : Option (Value F)) (id : DocumentId) (es : Entries F)
      → ((v : Value F) → o ≡ some v → IsKey v)
      → (v : Value F) → o ≡ some v
      → has id (lookup fl hash v (insert_entries o id es)) ≡ true
  insert_entries_own none id es h v there = absurd (none≢some there)
  insert_entries_own (some w) id es h v there = rw (some-injective there) (
      hash_insert-has fl v id es
        (same_key fl IsKey class v v (h v there) (h v there) (class.key_refl v (h v there))))

  pub insert_entries_keeps :
      (o : Option (Value F)) (id id' : DocumentId) (v : Value F) (es : Entries F)
      → has id' (lookup fl hash v es) ≡ true
      → has id' (lookup fl hash v (insert_entries o id es)) ≡ true
  insert_entries_keeps none id id' v es h = h
  insert_entries_keeps (some w) id id' v es h = hash_insert_keeps fl w v id' id es h

  pub remove_entries_keeps :
      (o : Option (Value F)) (id id' : DocumentId) (v : Value F) (es : Entries F)
      → text_eq id id' ≡ false
      → has id' (lookup fl hash v es) ≡ true
      → has id' (lookup fl hash v (remove_entries o id es)) ≡ true
  remove_entries_keeps none id id' v es other h = h
  remove_entries_keeps (some w) id id' v es other h = remove_keeps fl w v id' id es other h

  -- A value that an update leaves equal is found where it was.
  pub same_value_own :
      (old new : Option (Value F)) (id : DocumentId) (es : Entries F)
      → AllKeys fl IsKey es
      → ((v : Value F) → old ≡ some v → IsKey v)
      → ((v : Value F) → new ≡ some v → IsKey v)
      → ((v : Value F) → old ≡ some v → has id (lookup fl hash v es) ≡ true)
      → same_value fl old new ≡ true
      → (v : Value F) → new ≡ some v
      → has id (lookup fl hash v es) ≡ true
  same_value_own none none id es ks hold hnew own same v there = absurd (none≢some there)
  same_value_own (some w) none id es ks hold hnew own same v there = absurd (none≢some there)
  same_value_own none (some w) id es ks hold hnew own same v there = absurd (false≢true same)
  same_value_own (some w) (some u) id es ks hold hnew own same v there =
      rw (← some-injective there)
        (rw (← lookup_same fl IsKey class w u es ks (hold w refl) (hnew u refl) same) (own w refl))
