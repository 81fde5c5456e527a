-- ===== src/Core/Event.antt =====
-- crates/nova-core/src/event.rs: the events that mutations emit.
use nova_db.Base.{ℕ, Bool, ◌&&◌, ◌++◌, [], ◌∷◌, Option}
use nova_db.Base.Int.{ℤ}
use nova_db.Base.Text.{Text, text_eq, codes}
use nova_db.Core.DocumentId.{DocumentId}
use nova_db.Core.Document.{Document}

pub data EventType : Type 0 where
  create update delete expire index_created index_dropped snapshot : EventType

-- `as_str`
unfoldable pub as_str : EventType → Text
as_str create = codes "CREATE"
as_str update = codes "UPDATE"
as_str delete = codes "DELETE"
as_str expire = codes "EXPIRE"
as_str index_created = codes "INDEX_CREATED"
as_str index_dropped = codes "INDEX_DROPPED"
as_str snapshot = codes "SNAPSHOT"

pub record DataEvent (F : Type 0) : Type 0 where
  pub sequence : ℕ
  pub event_type : EventType
  pub namespace : Text
  pub collection : Text
  pub document_id : DocumentId
  pub before : Option (Document F)
  pub after : Option (Document F)
  pub timestamp : ℤ
  pub tx_id : Option ℕ

module _ {F : Type 0} where
  -- `DataEvent::new`, at the time `now`
  abbrev pub new :
      ℕ
      → EventType
      → Text
      → Text
      → DocumentId
      → Option (Document F)
      → Option (Document F)
      → Option ℕ
      → ℤ
      → DataEvent F
  new sequence event_type ns coll id before after tx_id now = record {
    sequence = sequence;
    event_type = event_type;
    namespace = ns;
    collection = coll;
    document_id = id;
    before = before;
    after = after;
    timestamp = now;
    tx_id = tx_id;
  }

  -- `matches_collection`
  abbrev pub matches_collection : Text → Text → DataEvent F → Bool
  matches_collection ns coll e = text_eq e.namespace ns && text_eq e.collection coll

  -- `target_uri`
  abbrev pub target_uri : DataEvent F → Text
  target_uri e =
      codes "nova://"
      ++ (e.namespace ++ (b'/' ∷ []) ++ (e.collection ++ (b'/' ∷ []) ++ e.document_id))
