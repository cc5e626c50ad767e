-- ===== src/Log/Batcher.antt =====
-- crates/certimining-log/src/batcher.rs: submission intake, sealing, the overflow queue and resuming.
pub mod Valid
pub mod Refused
pub mod Kept
pub mod Resume
use Prim.Native.Nat.{◌≤◌}
use potash.Common.{
  ℕ, ◌+◌, ◌-◌, ◌*◌, ◌/◌, ◌^◌, ◌≡◌, Bool, true, false, ◌&&◌, ◌||◌, not, List, [], ◌∷◌, ◌++◌,
}
use potash.Common.{
  Option, none, some, Bytes, le_bytes, from_le_bytes, length, take, drop, replicate, min,
}
use potash.Common.{ltb, leb, ◌==◌, in_range, if◌then◌else◌, checked_add, checked_sub, checked_mul}
use potash.Core.Error
use potash.Core.Error.{
  Result, ok, err, guard, ok_or, malformed_payload, arithmetic_overflow, epoch_capacity_exceeded,
  epoch_out_of_order,
}
use potash.Core.Hash.{Hasher, Signer, Digest}
use potash.Core.Machine.{Machine, pure, lift, get, put, ◌>>=◌, ◌>>◌}
use potash.Log.Tree.{Submission, BuiltEpoch, build, min_height, max_height}
use potash.Log.Promise.{SignedPromise, promise_digest, max_merge_delay}

pub record BatcherSnapshot : Type 0 where
  pub epoch : ℕ
  pub next_submission : ℕ
  pub pending : List Submission
  pub overflow : List Submission

pub record EpochBatcher : Type 0 where
  pub master_key : Digest
  pub height : ℕ
  pub epoch : ℕ
  pub next_submission : ℕ
  pub pending : List Submission
  pub overflow : List Submission

unfoldable pub start : Digest → ℕ → ℕ → Result EpochBatcher
start master_key height epoch =
    if not (in_range min_height max_height height)
    then err malformed_payload
    else ok (record {
      master_key = master_key;
      height = height;
      epoch = epoch;
      next_submission = 0;
      pending = [];
      overflow = [];
    })

-- `1usize.checked_shl(height)` is `None` from 64 on, for a 64-bit `usize`.
unfoldable pub capacity : EpochBatcher → Result ℕ
capacity b = if ltb b.height 64 then ok (2 ^ b.height) else err arithmetic_overflow

abbrev pub any_nonzero : Bytes → Bool
any_nonzero [] = false
any_nonzero (b ∷ bs) = not (b == 0) || any_nonzero bs

unfoldable pub ordinal_of : Bytes → Result ℕ
ordinal_of id =
    if ltb (length id) 8
    then err malformed_payload
    else if any_nonzero (drop 8 id)
    then err malformed_payload
    else ok (from_le_bytes (take 8 id))

-- The `map(..).collect::<Result<Vec<_>>>()` over the live submissions.
unfoldable pub ordinals_of : List Submission → Result (List ℕ)
ordinals_of [] = ok []
ordinals_of (s ∷ rest) =
    Error.◌>>=◌ (ordinal_of s.0) λ n. Error.◌>>=◌ (ordinals_of rest) λ ns. ok (n ∷ ns)

abbrev pub is_empty_list {ℓ} : {A : Type ℓ} → List A → Bool
is_empty_list [] = true
is_empty_list (x ∷ xs) = false

abbrev pub last_of : ℕ → List ℕ → ℕ
last_of n [] = n
last_of n (m ∷ ms) = last_of m ms

-- `windows(2).any(|pair| right.checked_sub(left) != Some(1))`
unfoldable pub any_gap : List ℕ → Bool
any_gap [] = false
any_gap (n ∷ []) = false
any_gap (left ∷ right ∷ rest) = not (leb left right && right - left == 1) || any_gap (right ∷ rest)

-- The checks on the ordinals of the live submissions.
unfoldable pub check_run : List ℕ → ℕ → List Submission → Result (Unit {0})
check_run [] next overflow = guard (is_empty_list overflow) malformed_payload
check_run (n ∷ ns) next overflow =
    Error.◌>>=◌ (ok_or (checked_sub next 1) malformed_payload) λ expected_last.
      Error.◌>>◌ (guard (last_of n ns == expected_last) malformed_payload) (
        Error.◌>>=◌ (ok_or (checked_sub (last_of n ns) n) malformed_payload) λ distance.
          Error.◌>>=◌ (ok_or (checked_add distance 1) malformed_payload) λ span.
            Error.◌>>◌ (guard (span == length (n ∷ ns)) malformed_payload)
              (guard (not (any_gap (n ∷ ns))) malformed_payload))

unfoldable pub resume : Digest → ℕ → BatcherSnapshot → Result EpochBatcher
resume master_key height snapshot = Error.◌>>=◌ (start master_key height snapshot.epoch) λ batcher.
    Error.◌>>=◌ (capacity batcher) λ c.
      Error.◌>>◌ (guard (leb (length snapshot.pending) c) malformed_payload) (
        Error.◌>>=◌ (ok_or (checked_mul c max_merge_delay) arithmetic_overflow) λ queue_bound.
          Error.◌>>◌ (guard (leb (length snapshot.overflow) queue_bound) malformed_payload) (
            Error.◌>>◌
              (guard (is_empty_list snapshot.overflow || length snapshot.pending == c)
                malformed_payload)
              (Error.◌>>=◌ (ordinals_of (snapshot.pending ++ snapshot.overflow)) λ ordinals.
                Error.◌>>◌ (check_run ordinals snapshot.next_submission snapshot.overflow) (
                  ok (record batcher {
                    next_submission = snapshot.next_submission;
                    pending = snapshot.pending;
                    overflow = snapshot.overflow;
                  })))))

unfoldable pub snapshot : EpochBatcher → BatcherSnapshot
snapshot b = record {
  epoch = b.epoch;
  next_submission = b.next_submission;
  pending = b.pending;
  overflow = b.overflow;
}

-- The identifier of an ordinal: little-endian, in sixteen bytes.
abbrev pub id_of : ℕ → Bytes
id_of n = le_bytes 8 n ++ replicate 8 0

unfoldable pub next_identifier : EpochBatcher → Result Bytes
next_identifier b =
    Error.◌>>=◌ (ok_or (checked_add b.next_submission 1) arithmetic_overflow)
      λ _. ok (id_of b.next_submission)

-- `checked_div`
abbrev checked_div : ℕ → ℕ → Option ℕ
checked_div a b = if b == 0 then none else some (a / b)

unfoldable pub promised_epoch : EpochBatcher → Result ℕ
promised_epoch b = Error.◌>>=◌ (capacity b) λ c.
    if ltb (length b.pending) c
    then ok b.epoch
    else Error.◌>>=◌ (ok_or (checked_div (length b.overflow) c) arithmetic_overflow) λ whole.
      Error.◌>>=◌ (ok_or (checked_add whole 1) arithmetic_overflow) λ epochs_ahead.
        if ltb max_merge_delay epochs_ahead
        then err epoch_capacity_exceeded
        else ok_or (checked_add b.epoch epochs_ahead) arithmetic_overflow

unfoldable pub submit : Hasher → Signer → Digest → Machine EpochBatcher SignedPromise
submit h signer leaf = do
  b ← get
  promised ← lift (promised_epoch b)
  c ← lift (capacity b)
  submission_id ← lift (next_identifier b)
  let promise : SignedPromise = record {
    leaf = leaf;
    submission_id = submission_id;
    accepted_epoch = b.epoch;
    promised_epoch = promised;
    max_merge_delay = max_merge_delay;
    batcher_key = signer.public_key;
    signature = replicate 64 0;
  }
  digest ← lift (promise_digest h promise)
  signature ← lift (signer.sign digest)
  next ← lift (ok_or (checked_add b.next_submission 1) arithmetic_overflow)
  put (record b { next_submission = next })
  (if ltb (length b.pending) c
      then put
          (record b { next_submission = next; pending = b.pending ++ ((submission_id, leaf) ∷ []) })
      else put (record b {
        next_submission = next;
        overflow = b.overflow ++ ((submission_id, leaf) ∷ []);
      }))
  pure (record promise { signature = signature })

unfoldable pub seal : Hasher → ℕ → Machine EpochBatcher BuiltEpoch
seal h epoch = do
  b ← get
  lift (guard (epoch == b.epoch) epoch_out_of_order)
  built ← lift (build h epoch b.height b.master_key b.pending)
  c ← lift (capacity b)
  next ← lift (ok_or (checked_add epoch 1) arithmetic_overflow)
  put (record b { epoch = next })
  let moving = min c (length b.overflow)
  put (record b {
    epoch = next;
    pending = take moving b.overflow;
    overflow = drop moving b.overflow;
  })
  pure built

unfoldable pub overflow_queue_len : EpochBatcher → ℕ
overflow_queue_len b = length b.overflow
