-- ===== src/Tests/Asking.antt =====
-- `find_by_id` on the collection of Tests/Engine.
use nova_db.Base.{ℕ, ◌≡◌, refl, inl, inr, Bool-cases, some-injective, none≢some, [], ◌∷◌, some}
use nova_db.Base.Bytes.{bytes_eq, bytes_eq→eq}
use nova_db.Base.Text.{codes}
use nova_db.Core.Error.{ok}
use nova_db.Protocol.Payload.{ResponsePayload}
use nova_db.Base.Map
use nova_db.Client.Collection.{find_by_id_nql, find_by_id_result}
use nova_db.Client.Found.{IsUnderId, find_by_id-answers}
use nova_db.Core.Outcome.{done}
use nova_db.Index.Manager.{find_index_for_field}
use nova_db.Query.Ast.{Statement}
use nova_db.Query.Lexer.{word_kind}
use nova_db.Query.Lexer.Strings.{escape}
use nova_db.Query.Lexer.Words.{IsAscii}
use nova_db.Query.Parser.Statements.{parse_nql}
use nova_db.Server.Engine.Documents.{find_doc}
use nova_db.Server.Engine.Execute.{execute}
use nova_db.Tests.Engine.{env, one, json}
use nova_db.Tests.Lexing.{ascii}
use nova_db.Tests.Plain.{plain}
use nova_db.Tests.Queries.{even, doc}

ascii-IsAscii : IsAscii ascii
ascii-IsAscii = record { alphabetic = λ c h. refl; alphanumeric = λ c h. refl }

one-IsUnderId : IsUnderId ((doc.id, doc) ∷ [])
unfolding Map.get
one-IsUnderId id d h = elim (Bool-cases (bytes_eq doc.id id)) [
  | inl same ↦ rw (← some-injective (rw same at h)) (bytes_eq→eq doc.id id same)
  | inr other ↦ absurd (none≢some (rw other at h))
]

find_by_id-answers_example :
    (statement : Statement ℕ) × (payload : ResponsePayload ℕ) × (parse_nql ascii doc
        (find_by_id_nql (codes "u") doc.id)
      ≡ some (ok statement))
    × ((execute even plain json env statement (codes "d") one).0 ≡ done payload)
    × (find_by_id_result payload ≡ ok (find_doc (codes "d", codes "u") doc.id one.collections))
unfolding Map.get find_index_for_field escape word_kind
find_by_id-answers_example =
    find_by_id-answers ascii even plain json env doc (codes "d") (codes "u") doc.id one
      ascii-IsAscii refl refl refl refl (refl, tt) one-IsUnderId
