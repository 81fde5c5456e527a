-- ===== src/Server/Engine/Documents.antt =====
-- The engine's documents as a function of collection and id, which forgets the order in which maps are
-- walked and the collections without documents.
use nova_db.Base.{◌≡◌, ◌∙◌, Bool, Option, none, some, if◌then◌else◌, Bool-cases, inl, inr}
use nova_db.Base.Bytes.{bytes_eq}
use nova_db.Base.Map
use nova_db.Base.Map.{Map, text_eq, pair_eq, pair_beq, pair_beq_eq}
use nova_db.Core.DocumentId.{DocumentId}
use nova_db.Storage.Recovery.{Collections, CollectionKey, or_default}

module _ {D : Type 0} where
  abbrev pub find_doc : CollectionKey → DocumentId → Collections D → Option D
  find_doc key id colls = Map.get id (or_default (Map.get key colls))

  -- What the documents are once that of `id` in `key` is `new`: the abstract write.
  abbrev pub after_write :
      CollectionKey → DocumentId → Option D → CollectionKey → DocumentId → Option D → Option D
  after_write key id new key' id' old =
      if pair_beq key key' then (if bytes_eq id id' then new else old) else old

  -- a collection replaced
  pub find_doc-insert :
      (key key' : CollectionKey) (id' : DocumentId) (store : Map DocumentId D)
      (colls : Collections D)
      → find_doc key' id' (Map.insert key store colls)
        ≡ (if pair_beq key key' then Map.get id' store else find_doc key' id' colls)
  find_doc-insert key key' id' store colls =
      rw (Map.get-insert key key' store colls)
        (elim (Bool-cases (pair_beq key key')) [ inl same ↦ rw same | inr other ↦ rw other ])

  at_key :
      (key key' : CollectionKey) (id' : DocumentId) (colls : Collections D) (b : Bool)
      (new : Option D)
      → (if pair_beq key key'
          then (if b then new else find_doc key id' colls)
          else find_doc key' id' colls)
        ≡ (if pair_beq key key'
            then (if b then new else find_doc key' id' colls)
            else find_doc key' id' colls)
  at_key key key' id' colls b new = elim (Bool-cases (pair_beq key key')) [
    | inl same ↦ rw (pair_beq_eq key key' same)
    | inr other ↦ rw other
  ]

  pub find_doc-put :
      (key key' : CollectionKey) (id id' : DocumentId) (d : D) (colls : Collections D)
      → find_doc key' id' (Map.insert key (Map.insert id d (or_default (Map.get key colls))) colls)
        ≡ after_write key id (some d) key' id' (find_doc key' id' colls)
  find_doc-put key key' id id' d colls =
      find_doc-insert key key' id' _ colls
      ∙ rw (Map.get-insert id id' d (or_default (Map.get key colls)))
          (at_key key key' id' colls (bytes_eq id id') (some d))

  pub find_doc-drop :
      (key key' : CollectionKey) (id id' : DocumentId) (colls : Collections D)
      → find_doc key' id' (Map.insert key (Map.remove id (or_default (Map.get key colls))) colls)
        ≡ after_write key id none key' id' (find_doc key' id' colls)
  find_doc-drop key key' id id' colls =
      find_doc-insert key key' id' _ colls
      ∙ rw (Map.get-remove id id' (or_default (Map.get key colls)))
          (at_key key key' id' colls (bytes_eq id id') none)
