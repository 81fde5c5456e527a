-- ===== src/Core/DocumentId.antt =====
-- crates/nova-core/src/document.rs: document ids.
use nova_db.Base.{[], ◌∷◌, ltb, if◌then◌else◌, length}
use nova_db.Base.Text.{Text, trim, as_bytes}
use nova_db.Core.Error.{Result, ok, err, new_error, invalid_query}

-- The struct wraps the text of the id.
abbrev pub DocumentId : Type 0
DocumentId = Text

-- the tests on the trimmed text
abbrev pub check_id : Text → Result DocumentId
check_id [] = err (new_error invalid_query)
check_id (c ∷ s) =
    if ltb 256 (length (as_bytes (c ∷ s))) then err (new_error invalid_query) else ok (c ∷ s)

-- `DocumentId::new`
unfoldable pub new : Text → Result DocumentId
unfolding trim as_bytes
new s = check_id (trim s)
