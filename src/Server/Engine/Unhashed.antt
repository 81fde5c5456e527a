-- ===== src/Server/Engine/Unhashed.antt =====
-- crates/nova-server/src/engine.rs: FIND by a hash index on values that equal the literal and hash
-- otherwise, as `Hash for Value` lets a great integer and the float that it rounds to.
use nova_db.Base.{◌≡◌, false, [], ◌∷◌, some}
use nova_db.Base.Map
use nova_db.Base.Map.{Map, text_eq as text_key, pair_eq}
use nova_db.Base.Text.{Text}
use nova_db.Core.Document
use nova_db.Core.Document.{Document}
use nova_db.Core.DocumentId.{DocumentId}
use nova_db.Core.Value.{Value, Float}
use nova_db.Core.Value.Hash.{hash_eq}
use nova_db.Index.{hash}
use nova_db.Index.Entries.{Entries, lookup}
use nova_db.Index.Manager.{Index, new_index}
use nova_db.Server.Engine.{DocumentStore}

module _ {F : Type 0} (fl : Float F) (f : Text) (lit : Value F) where
  -- No document has a value of the field that hashes as the literal.
  abbrev pub HashApart : DocumentStore F → Type 0
  HashApart [] = Unit {0}
  HashApart ((id, doc) ∷ store) =
      ((v : Value F) → Document.lookup f doc ≡ some v → hash_eq fl v lit ≡ false) × HashApart store

  abbrev by_hash : Text → Entries F → Index F
  by_hash name es = record (new_index hash name f) { entries = es }
