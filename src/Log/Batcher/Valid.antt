-- ===== src/Log/Batcher/Valid.antt =====
-- The invariant of a batcher: what it holds fits, the queue starts only behind a full epoch, and the
-- live identifiers are a run of the counter that ends just before its next value.
pub mod Runs
pub mod Steps
pub mod Sealing
use Prim.Native.Nat.{◌≤◌}
use potash.Common.{
  ℕ, zero, suc, ◌+◌, ◌-◌, ◌*◌, ◌/◌, ◌^◌, ◌<◌, ◌≡◌, refl, ap, ◌∙◌, arith, List, [], ◌∷◌, ◌++◌,
}
use potash.Common.{length, All, Bytes, IsU64, ltb, if◌then◌else◌, length-append, ◌⊎◌, append_assoc}
use potash.Core.Error.{Result, RegistryError, ok, err}
use potash.Core.Hash.{Hasher, Signer, Digest}
use potash.Log.Tree.{Submission, min_height, max_height}
use potash.Log.Promise.{SignedPromise, max_merge_delay, promise_digest}
use potash.Log.Batcher.{
  EpochBatcher, submit, next_identifier, promised_epoch, capacity, id_of, start,
}

-- The identifiers count up from an ordinal.
abbrev pub Run : ℕ → List Submission → Type 0
Run n [] = Unit
Run n (s ∷ rest) = (s.0 ≡ id_of n) × Run (n + 1) rest

abbrev pub LeafWidths : List Submission → Type 0
LeafWidths s = All (λ e. length e.1 ≡ 32) s

pub record IsBatcher (b : EpochBatcher) : Type 0 where
  pub lowest : min_height ≤ b.height
  pub highest : b.height ≤ max_height
  pub key_width : length b.master_key ≡ 32
  pub epoch_fits : IsU64 b.epoch
  pub pending_fits : length b.pending ≤ 2 ^ b.height
  pub queue_fits : length b.overflow ≤ 2 ^ b.height * 2
  pub full_first : (length b.overflow ≡ 0) ⊎ (length b.pending ≡ 2 ^ b.height)
  pub counter_fits : IsU64 b.next_submission
  pub first : ℕ
  pub count : first + length b.pending + length b.overflow ≡ b.next_submission
  pub run : Run first (b.pending ++ b.overflow)
  pub widths : LeafWidths (b.pending ++ b.overflow)

-- The batcher after an accepted submission.
abbrev pub with_submission : EpochBatcher → Digest → EpochBatcher
with_submission b leaf =
    if ltb (length b.pending) (2 ^ b.height)
    then record b {
      next_submission = b.next_submission + 1;
      pending = b.pending ++ ((id_of b.next_submission, leaf) ∷ []);
    }
    else record b {
      next_submission = b.next_submission + 1;
      overflow = b.overflow ++ ((id_of b.next_submission, leaf) ∷ []);
    }

-- What an accepted submission gives: the batcher that holds it, and a promise of its leaf under the
-- next identifier for the epoch that has room.
pub record Accepted (leaf : Digest) (b : EpochBatcher) (b' : EpochBatcher) (p : SignedPromise)
    : Type 0 where
  pub state : b' ≡ with_submission b leaf
  pub leaf_bound : p.leaf ≡ leaf
  pub identifier : p.submission_id ≡ id_of b.next_submission
  pub accepted : p.accepted_epoch ≡ b.epoch
  pub promised : promised_epoch b ≡ ok p.promised_epoch
  pub delay : p.max_merge_delay ≡ max_merge_delay
  pub room : b.next_submission + 1 < 2 ^ 64

pub submit-Accepted :
    (h : Hasher) (signer : Signer) (leaf : Digest) (b : EpochBatcher) (p : SignedPromise)
    → b.height ≤ max_height
    → (submit h signer leaf b).1 ≡ ok p
    → Accepted leaf b (submit h signer leaf b).0 p
unfolding submit next_identifier capacity
submit-Accepted h signer leaf b p hi e = record {
  state = ground arith;
  leaf_bound = ground arith;
  identifier = ground arith;
  accepted = ground arith;
  promised = ground arith;
  delay = ground arith;
  room = ground arith;
}
