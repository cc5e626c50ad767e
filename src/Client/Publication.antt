-- ===== src/Client/Publication.antt =====
-- crates/certimining-client/src/publish.rs: what the outcome of a submission means.
use potash.Common.{ℕ, ◌+◌, ◌≡◌, ◌≢◌, ◌↔◌, refl, arith, Bool, false, Option, some, none, ◌==◌, ltb}
use potash.Common.{bytes_eq, bytes_eq→eq, bytes_eq_refl, if◌then◌else◌}
use potash.Core.Hash.{Digest}
use potash.Program.Outcome.{CheckpointError, code, checkpoint_already_written}

pub data Outcome : Type 0 where
  landed already_published retry : Outcome
  refused : ℕ → Outcome

abbrev pub anchor_offset : ℕ
anchor_offset = 6000

abbrev pub already_written_code : ℕ
already_written_code = anchor_offset + 0x0E

unfoldable pub classify : Option ℕ → Outcome
classify none = retry
classify (some code) = if code == already_written_code then already_published else refused code

pub data Settlement : Type 0 where
  matches : Settlement
  equivocation : Digest → Settlement
  unwritten : Settlement

unfoldable pub settle : Digest → Option Digest → Settlement
settle requested none = unwritten
settle requested (some found) = if bytes_eq found requested then matches else equivocation found

unfoldable pub should_retry : Outcome → ℕ → Bool
should_retry retry attempts_left = ltb 0 attempts_left
should_retry landed attempts_left = false
should_retry already_published attempts_left = false
should_retry (refused code) attempts_left = false

-- A refusal of the program, as its code on the wire: only an already written checkpoint counts as
-- published, and no refusal is retried.
pub classify-program :
    (e : CheckpointError) (attempts : ℕ)
    → ((classify (some (anchor_offset + code e)) ≡ already_published)
        ↔ (e ≡ checkpoint_already_written))
      × (should_retry (classify (some (anchor_offset + code e))) attempts ≡ false)
unfolding classify should_retry code
classify-program CheckpointError.malformed_payload attempts =
    ((λ h. ground arith, λ h. ground arith), ground arith)
classify-program CheckpointError.epoch_out_of_order attempts =
    ((λ h. ground arith, λ h. ground arith), ground arith)
classify-program CheckpointError.checkpoint_already_written attempts =
    ((λ h. ground arith, λ h. ground arith), ground arith)
classify-program CheckpointError.unsupported_schema_version attempts =
    ((λ h. ground arith, λ h. ground arith), ground arith)
classify-program CheckpointError.receipt_already_attached attempts =
    ((λ h. ground arith, λ h. ground arith), ground arith)
classify-program CheckpointError.arithmetic_overflow attempts =
    ((λ h. ground arith, λ h. ground arith), ground arith)

-- A settlement matches exactly when the chain holds the requested root, is an equivocation exactly
-- with the other root that the chain holds, and is unwritten exactly when the chain holds none.
pub settle_iff :
    (requested found : Digest) (on_chain : Option Digest)
    → ((settle requested on_chain ≡ matches) ↔ (on_chain ≡ some requested))
      × ((settle requested on_chain ≡ unwritten) ↔ (on_chain ≡ none))
      × ((settle requested on_chain ≡ equivocation found)
          ↔ ((on_chain ≡ some found) × (found ≢ requested)))
unfolding settle
settle_iff requested found none = (
  (λ h. ground arith, λ h. ground arith),
  (λ h. refl, λ h. refl),
  (λ h. ground arith, λ h. ground arith),
)
settle_iff requested found (some root) = (
  (
    λ h. ground (arith, bytes_eq→eq root requested),
    λ h. ground (arith, h, bytes_eq_refl requested),
  ),
  (λ h. ground arith, λ h. ground arith),
  (
    λ h. (ground arith, λ same. ground (arith, same, bytes_eq_refl requested)),
    λ h. ground (arith, h.0, h.1, bytes_eq→eq root requested),
  ),
)
