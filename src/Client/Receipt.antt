-- ===== src/Client/Receipt.antt =====
-- crates/certimining-client/src/ots.rs and promise_receipt.rs: timestamp receipts, and promises that
-- are judged by one. The parser of the `opentimestamps` crate and SHA-256 are parameters; `Step` is
-- the part of its tree of operations that the source reads.
pub mod Attested
pub mod Transferred
use potash.Common.{
  ℕ, ◌+◌, ◌^◌, ◌≡◌, Bool, true, false, not, Option, none, some, List, [], ◌∷◌, ◌++◌, ltb, ◌==◌,
  if◌then◌else◌, Bytes, bytes_eq, le_bytes, length,
}
use potash.Common.Int.{ℤ, pos}
use potash.Common.Early.{Early, stop, go, ◌>>=◌, ◌>>◌, stop_if, or_stop}
use potash.Core.Error.{Result, RegistryError, ok, err}
use potash.Core.Hash.{Hasher, Verifier, Digest, hash}
use potash.Log.Promise.{SignedPromise, encode_promise, verify_promise}
use potash.Client.Worker.Decision.{day_index}
use potash.Client.Bitcoin.Header.{Header, HeaderRefused, Checkpoint}
use potash.Client.Bitcoin.Confirm.{
  BitcoinClaim, Confirmed, Confirmation, confirmed, pending, confirm,
}

-- "CMv1RCPT"
abbrev pub tag_rcpt : Bytes
tag_rcpt = b'C' ∷ b'M' ∷ b'v' ∷ b'1' ∷ b'R' ∷ b'C' ∷ b'P' ∷ b'T' ∷ []

unfoldable pub receipt_digest : Hasher → Bytes → Option Digest
receipt_digest h receipt =
    if ltb (length receipt) (2 ^ 16)
    then some (hash h (tag_rcpt ++ (le_bytes 2 (length receipt) ++ receipt)))
    else none

-- A step's data: a Bitcoin attestation with its height, or an operation or another attestation.
pub data StepData : Type 0 where
  bitcoin : ℕ → StepData
  another : StepData

mutual
  pub data Step : Type 0 where
    step : StepData → Bytes → Steps → Step

  pub data Steps : Type 0 where
    done : Steps
    then_also : Step → Steps → Steps

pub record Timestamp : Type 0 where
  pub start_digest : Bytes
  pub first_step : Step

pub data ReceiptRefused : Type 0 where
  unparsable wrong_root not_yet_confirmed : ReceiptRefused

-- The first that is there.
abbrev pub or_else {ℓ} : {A : Type ℓ} → Option A → Option A → Option A
or_else none later = later
or_else (some a) later = some a

unfoldable mutual
  pub first_confirmed : Step → Option (ℕ × Bytes)
  first_confirmed (step (bitcoin height) output next) = some (height, output)
  first_confirmed (step another output next) = first_confirmed_in next

  pub first_confirmed_in : Steps → Option (ℕ × Bytes)
  first_confirmed_in done = none
  first_confirmed_in (then_also s rest) = or_else (first_confirmed s) (first_confirmed_in rest)

unfoldable pub verify_receipt :
    (Bytes → Option Timestamp)
    → (Bytes → Digest)
    → Bytes
    → Bytes
    → Early ReceiptRefused BitcoinClaim
verify_receipt parse sha256 receipt stamped = do
  parsed ← or_stop (parse receipt) unparsable
  stop_if (not (bytes_eq parsed.start_digest (sha256 stamped))) wrong_root
  (height, output) ← or_stop (first_confirmed parsed.first_step) not_yet_confirmed
  stop_if (not (ltb height (2 ^ 32))) unparsable
  stop_if (not (length output == 32)) unparsable
  go record { height = height; attested_digest = output }

pub record Established : Type 0 where
  pub by_block : Confirmed
  pub existed_by_epoch : ℕ

pub data TransferRefused : Type 0 where
  not_this_promise : ReceiptRefused → TransferRefused
  not_in_bitcoin : HeaderRefused → TransferRefused
  no_day_index : (time : ℕ) → TransferRefused
  not_yet_buried_deep_enough : (height depth required : ℕ) → TransferRefused
  promise : RegistryError → TransferRefused

-- `.map_err(e)?`
abbrev pub map_stop {ℓ} : {R S : Type 0} {A : Type ℓ} → (R → S) → Early R A → Early S A
map_stop f (stop r) = stop (f r)
map_stop f (go a) = go a

abbrev pub of_result : Result (Unit {0}) → Early TransferRefused (Unit {0})
of_result (ok u) = go tt
of_result (err e) = stop (promise e)

unfoldable pub judge_against_confirmation :
    Hasher → Verifier → SignedPromise → Bytes → Confirmed → Early TransferRefused Established
judge_against_confirmation h v p expected_batcher_key block = do
  existed_by_epoch ← or_stop (day_index (pos block.at_time)) (no_day_index block.at_time)
  of_result (verify_promise h v p expected_batcher_key existed_by_epoch)
  go record { by_block = block; existed_by_epoch = existed_by_epoch }

unfoldable pub only_confirmed : Confirmation → Early TransferRefused Confirmed
only_confirmed (confirmed c) = go c
only_confirmed (pending height depth required) =
    stop (not_yet_buried_deep_enough height depth required)

-- What the third-party crates compute.
pub record Crates : Type 0 where
  pub parse : Bytes → Option Timestamp
  pub sha256 : Bytes → Digest
  pub sha256d : Bytes → Digest

unfoldable pub verify_transferred_promise :
    Crates
    → Hasher
    → Verifier
    → SignedPromise
    → Bytes
    → Bytes
    → Checkpoint
    → List Header
    → Early TransferRefused Established
verify_transferred_promise crates h v p expected_batcher_key receipt checkpoint headers = do
  claim ←
      map_stop not_this_promise
        (verify_receipt crates.parse crates.sha256 receipt (encode_promise p))
  confirmation ← map_stop not_in_bitcoin (confirm crates.sha256d claim checkpoint headers)
  block ← only_confirmed confirmation
  judge_against_confirmation h v p expected_batcher_key block
