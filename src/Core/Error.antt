-- ===== src/Core/Error.antt =====
-- crates/certimining-core/src/error.rs: the error codes, and the `Result` of every fallible
-- operation with its `?` as a bind.
use potash.Common.{ℕ, ◌≡◌, refl, ◌⊎◌, inl, inr, Bool, true, false, Option, none, some}

pub data RegistryError : Type 0 where
  head_mismatch sequence_out_of_order malformed_payload attestation_missing : RegistryError
  attestation_invalid attestation_key_mismatch category_sequence_unsupported : RegistryError
  non_monotonic_effective_at domain_tag_mismatch record_too_large : RegistryError
  epoch_out_of_order checkpoint_already_written unsupported_schema_version : RegistryError
  arithmetic_overflow canonicalization_failed epoch_capacity_exceeded : RegistryError
  inclusion_proof_invalid merge_delay_exceeded receipt_already_attached : RegistryError
  submission_not_in_epoch promise_policy_invalid : RegistryError

unfoldable pub code : RegistryError → ℕ
code head_mismatch = 0x03
code sequence_out_of_order = 0x04
code malformed_payload = 0x05
code attestation_missing = 0x06
code attestation_invalid = 0x07
code attestation_key_mismatch = 0x08
code category_sequence_unsupported = 0x09
code non_monotonic_effective_at = 0x0A
code domain_tag_mismatch = 0x0B
code record_too_large = 0x0C
code epoch_out_of_order = 0x0D
code checkpoint_already_written = 0x0E
code unsupported_schema_version = 0x0F
code arithmetic_overflow = 0x10
code canonicalization_failed = 0x11
code epoch_capacity_exceeded = 0x12
code inclusion_proof_invalid = 0x13
code merge_delay_exceeded = 0x14
code receipt_already_attached = 0x15
code submission_not_in_epoch = 0x16
code promise_policy_invalid = 0x17

-- `core::result::Result<T, RegistryError>`
pub data Result {ℓ} (T : Type ℓ) : Type ℓ where
  ok : T → Result T
  err : RegistryError → Result T

pub Result-cases {ℓ} :
    {T : Type ℓ} (r : Result T) → ((t : T) × (r ≡ ok t)) ⊎ ((e : RegistryError) × (r ≡ err e))
Result-cases (ok t) = inl (t, refl)
Result-cases (err e) = inr (e, refl)

-- `option.ok_or(e)?`
abbrev pub ok_or {ℓ} : {T : Type ℓ} → Option T → RegistryError → Result T
ok_or (some t) code = ok t
ok_or none code = err code

-- `if !test { return Err(e); }`
abbrev pub guard : Bool → RegistryError → Result (Unit {0})
guard false code = err code
guard true code = ok tt

infixl 5 ◌>>=◌ ◌>>◌
-- `step?`, and then the rest of the body.
abbrev pub ◌>>=◌ {ℓ κ} : {T : Type ℓ} {U : Type κ} → Result T → (T → Result U) → Result U
err code >>= rest = err code
ok t >>= rest = rest t

abbrev pub ◌>>◌ {ℓ} : {U : Type ℓ} → Result (Unit {0}) → Result U → Result U
step >> rest = step >>= λ done. rest
