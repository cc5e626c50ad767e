-- ===== src/Program/Outcome.antt =====
-- programs/certimining-checkpoint/src/lib.rs: the program's error codes, and the `Result` of an
-- instruction. An instruction that fails is rolled back, so a failure carries no state.
use potash.Common.{ℕ, ◌≡◌, ◌⊎◌, inl, inr, refl, Bool, true, false, Option, none, some}

pub data CheckpointError : Type 0 where
  malformed_payload epoch_out_of_order checkpoint_already_written : CheckpointError
  unsupported_schema_version receipt_already_attached arithmetic_overflow : CheckpointError

-- The codes of the enumeration; the framework adds 6000 on the wire.
unfoldable pub code : CheckpointError → ℕ
code malformed_payload = 0x05
code epoch_out_of_order = 0x0D
code checkpoint_already_written = 0x0E
code unsupported_schema_version = 0x0F
code receipt_already_attached = 0x15
code arithmetic_overflow = 0x10

-- A constraint of the accounts that does not hold, a failed call of the system program, or a code.
pub data Failure : Type 0 where
  constraint : Failure
  system : ℕ → Failure
  checkpoint : CheckpointError → Failure

pub data Outcome {ℓ} (A : Type ℓ) : Type ℓ where
  done : A → Outcome A
  failed : Failure → Outcome A

infixl 5 ◌>>=◌ ◌>>◌
abbrev pub ◌>>=◌ {ℓ κ} : {A : Type ℓ} {B : Type κ} → Outcome A → (A → Outcome B) → Outcome B
done a >>= f = f a
failed e >>= f = failed e

abbrev pub ◌>>◌ {ℓ} : {B : Type ℓ} → Outcome (Unit {0}) → Outcome B → Outcome B
m >> k = m >>= λ _. k

-- `require!(test, e)`
abbrev pub require : Bool → CheckpointError → Outcome (Unit {0})
require true e = done tt
require false e = failed (checkpoint e)

-- A constraint on the accounts of an instruction.
abbrev pub constrain : Bool → Outcome (Unit {0})
constrain true = done tt
constrain false = failed constraint

abbrev pub ok_or {ℓ} : {A : Type ℓ} → Option A → CheckpointError → Outcome A
ok_or none e = failed (checkpoint e)
ok_or (some a) e = done a

pub Outcome-cases {ℓ} :
    {A : Type ℓ} (r : Outcome A) → ((a : A) × (r ≡ done a)) ⊎ ((e : Failure) × (r ≡ failed e))
Outcome-cases (done a) = inl (a, refl)
Outcome-cases (failed e) = inr (e, refl)
