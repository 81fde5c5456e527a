-- ===== src/Core/Error.antt =====
-- crates/nova-core/src/error.rs: error codes, the error type and its constructors.
-- The text of a message is left out; what the code formats from computed values (a source position,
-- a pair of checksums) is kept as data.
use nova_db.Base.{◌⊎◌, inl, inr, if◌then◌else◌, ℕ, ◌≡◌, refl, Bool, Option, none, some}

pub data ErrorCode : Type 0 where
  document_not_found collection_not_found namespace_not_found document_already_exists : ErrorCode
  index_already_exists index_not_found invalid_query parse_error type_error : ErrorCode
  storage_error wal_corrupted torn_write_detected checksum_mismatch : ErrorCode
  transaction_aborted transaction_active no_active_transaction : ErrorCode
  protocol_violation frame_too_large authentication_failed permission_denied : ErrorCode
  connection_limit_exceeded buffer_overflow snapshot_failed internal_error : ErrorCode

-- What a message or its details say beyond fixed words.
pub data Details : Type 0 where
  text_only : Details
  location : ℕ → ℕ → Details
  checksums : ℕ → ℕ → Details

pub record NovaError : Type 0 where
  pub code : ErrorCode
  pub details : Details

-- `NovaError::new` and `NovaError::with_details` where the details are fixed words.
abbrev pub new_error : ErrorCode → NovaError
new_error c = record { code = c; details = text_only }

-- `NovaError::parse_error`
abbrev pub parse_failure : ℕ → ℕ → NovaError
parse_failure line col = record { code = parse_error; details = location line col }

-- `NovaError::checksum_mismatch`
abbrev pub checksum_failure : ℕ → ℕ → NovaError
checksum_failure expected calculated = record {
  code = checksum_mismatch;
  details = checksums expected calculated;
}

-- `nova_core::error::Result`
pub data Result {ℓ} (A : Type ℓ) : Type ℓ where
  err : NovaError → Result A
  ok : A → Result A

pub Result-cases {ℓ} :
    {A : Type ℓ} (r : Result A) → ((e : NovaError) × (r ≡ err e)) ⊎ ((a : A) × (r ≡ ok a))
Result-cases (err e) = inl (e, refl)
Result-cases (ok a) = inr (a, refl)

-- `option.ok_or(failure)`
abbrev pub ok_or {ℓ} : {A : Type ℓ} → NovaError → Option A → Result A
ok_or failure (some value) = ok value
ok_or failure none = err failure

-- `if !test { return Err(failure) }`
abbrev pub guard : Bool → NovaError → Result (Unit {0})
guard test failure = if test then ok tt else err failure

module _ {ℓ κ} {A : Type ℓ} {B : Type κ} where
  infixl 5 ◌>>=◌ ◌>>◌
  -- the operator `?`
  abbrev pub ◌>>=◌ : Result A → (A → Result B) → Result B
  err failure >>= next = err failure
  ok value >>= next = next value

  abbrev pub ◌>>◌ : Result A → Result B → Result B
  err failure >> next = err failure
  ok value >> next = next

  pub >>=-eq-ok :
      (m : Result A) (next : A → Result B) {b : B}
      → (m >>= next) ≡ ok b
      → (a : A) × (m ≡ ok a) × (next a ≡ ok b)
  >>=-eq-ok (err failure) next h = cc
  >>=-eq-ok (ok value) next h = (value, refl, h)
