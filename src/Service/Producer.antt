-- ===== src/Service/Producer.antt =====
-- crates/certimining-client/src/bin/batcher-handoff.rs: the bytes that the batcher's process writes,
-- and bin/anchor-b-worker.rs: the root that the worker's process takes from them.
use potash.Common.{ℕ, Option, List, Bytes}
use potash.Common.Int.{ℤ}
use potash.Common.Early.{Early, stop, go, ◌>>=◌, ◌>>◌, or_stop}
use potash.Core.Error.{Result, RegistryError, ok, err}
use potash.Core.Hash.{Hasher, Verifier, Digest}
use potash.Core.Preimage.{handoff, preimage_bytes}
use potash.Log.Tree.{Submission, build}
use potash.Client.Schedule.{deployed}
use potash.Client.Worker.Policy.{production}
use potash.Client.Worker.Decision.{day_index}
use potash.Client.Handoff.{
  Handoff, HandoffRefused, HandoffWriteRefused, encode, decode, verify, refuse_to_write,
}
use potash.Client.Receipt.{map_stop}

-- The batcher's key pair.
pub record SigningKey : Type 0 where
  pub verifying_key : Bytes
  pub sign : Bytes → Bytes

pub data ProduceFailed : Type 0 where
  no_day_index : ProduceFailed
  does_not_build does_not_encode : RegistryError → ProduceFailed
  refused : HandoffWriteRefused → ProduceFailed

-- `.map_err(e)?`
abbrev pub or_fail {ℓ} :
    {A : Type ℓ} → (RegistryError → ProduceFailed) → Result A → Early ProduceFailed A
or_fail e (ok a) = go a
or_fail e (err code) = stop (e code)

-- What is signed for a built epoch.
abbrev pub signed_handoff : SigningKey → ℕ → ℕ → Digest → Bytes → Handoff
signed_handoff key epoch height root signed = record {
  epoch = epoch;
  height = height;
  root = root;
  batcher_key = key.verifying_key;
  signature = key.sign signed;
}

-- The process, from its parsed configuration, the clock and the file that is there, to the file.
unfoldable pub produce :
    Hasher
    → SigningKey
    → Digest
    → ℕ
    → ℕ
    → List Submission
    → ℤ
    → Option Bytes
    → Early ProduceFailed Bytes
produce h key master epoch height records seconds existing = do
  day ← or_stop (day_index seconds) no_day_index
  built ← or_fail does_not_build (build h epoch height master records)
  signed ←
      or_fail does_not_encode
        (preimage_bytes (handoff (record { epoch = epoch; height = height; root = built.root })))
  let bytes = encode (signed_handoff key epoch height built.root signed)
  map_stop refused (refuse_to_write deployed production epoch seconds existing bytes)
  go bytes

pub data RootRefused : Type 0 where
  no_handoff : RootRefused
  not_a_handoff not_verified : HandoffRefused → RootRefused

-- The worker's root for an epoch, from the epoch's file.
unfoldable pub root_for : Verifier → Bytes → ℕ → Option Bytes → Early RootRefused Digest
root_for v batcher_key epoch file = do
  bytes ← or_stop file no_handoff
  found ← map_stop not_a_handoff (decode bytes)
  map_stop not_verified (verify v found batcher_key epoch)
