-- ===== src/Log/Batcher/Valid/Steps.antt =====
-- Every operation keeps the invariant, and a valid batcher always seals.
use Prim.Native.Nat.{◌≤◌}
use native.Mathlib.Nat.{div-lt_iff_lt-mul}
use potash.Common.{ℕ, ◌+◌, ◌*◌, ◌/◌, ◌^◌, ◌<◌, ◌≡◌, refl, sym, arith, List, [], ◌∷◌, ◌++◌}
use potash.Common.{length, IsU64, ltb, length-append, append_assoc, append-nil}
use potash.Common.{inl, inr, Bool-cases}
use potash.Common.{pow2-pos}
use potash.Log.Batcher.Refused.{submit-refused}
use potash.Core.Error.{Result-cases, ok}
use potash.Core.Hash.{Hasher, Signer, Digest}
use potash.Log.Tree.{Submission, max_height}
use potash.Log.Batcher.{EpochBatcher, submit, promised_epoch, capacity, id_of, start}
use potash.Log.Batcher.Valid.{IsBatcher, submit-Accepted, with_submission}
use potash.Log.Batcher.Valid.Runs.{Run-snoc, Run-front, All-front, All-append}

-- A new batcher is valid.
pub start-IsBatcher :
    (key : Digest) (height epoch : ℕ) (b : EpochBatcher)
    → length key ≡ 32
    → IsU64 epoch
    → start key height epoch ≡ ok b
    → IsBatcher b
unfolding start
start-IsBatcher key height epoch b width fits e = record {
  lowest = ground arith;
  highest = ground arith;
  key_width = ground arith;
  epoch_fits = ground arith;
  pending_fits = ground arith;
  queue_fits = ground arith;
  full_first = ground arith;
  counter_fits = ground arith;
  first = 0;
  count = ground arith;
  run = rw nothing tt;
  widths = rw nothing tt;
}
  where
    nothing : b.pending ++ b.overflow ≡ []
    nothing = ground arith

-- In a full epoch a promise is given only while the queue is shorter than two epochs.
pub promised-queue :
    (b : EpochBatcher) (e : ℕ)
    → b.height ≤ max_height
    → 2 ^ b.height ≤ length b.pending
    → promised_epoch b ≡ ok e
    → (e ≡ b.epoch + (length b.overflow / 2 ^ b.height + 1))
      × (length b.overflow < 2 * 2 ^ b.height)
unfolding promised_epoch capacity
promised-queue b e hi full promised =
    (ground arith, (div-lt_iff_lt-mul (pow2-pos b.height)).0 (ground arith))

pub promised-now :
    (b : EpochBatcher) (e : ℕ)
    → b.height ≤ max_height
    → length b.pending < 2 ^ b.height
    → promised_epoch b ≡ ok e
    → e ≡ b.epoch
unfolding promised_epoch capacity
promised-now b e hi room promised = ground arith

length-zero : (s : List Submission) → length s ≡ 0 → s ≡ []
length-zero [] h = refl
length-zero (x ∷ s) h = absurd (omega arith)

module _ {b : EpochBatcher} (leaf : Digest) (valid : IsBatcher b) (width : length leaf ≡ 32)
    (counter : b.next_submission + 1 < 2 ^ 64) where
  pending_step :
      length b.pending < 2 ^ b.height
      → length b.overflow ≡ 0
      → IsBatcher (record b {
        next_submission = b.next_submission + 1;
        pending = b.pending ++ ((id_of b.next_submission, leaf) ∷ []);
      })
  pending_step room empty =
      let none_waiting : b.overflow ≡ [] = length-zero b.overflow empty in
      let live : (b.pending ++ ((id_of b.next_submission, leaf) ∷ [])) ++ b.overflow
          ≡ b.pending ++ ((id_of b.next_submission, leaf) ∷ []) =
        rw (none_waiting, append-nil) refl in
      record {
        lowest = valid.lowest;
        highest = valid.highest;
        key_width = valid.key_width;
        epoch_fits = valid.epoch_fits;
        pending_fits =
            omega (arith, length-append b.pending ((id_of b.next_submission, leaf) ∷ []));
        queue_fits = valid.queue_fits;
        full_first = inl empty;
        counter_fits = counter;
        first = valid.first;
        count =
            omega
              (arith, valid.count, length-append b.pending ((id_of b.next_submission, leaf) ∷ []));
        run = rw live (
            Run-snoc valid.first b.next_submission b.pending leaf (omega (arith, valid.count))
              (Run-front valid.first b.pending b.overflow valid.run));
        widths = rw live (
            All-append (λ e. length e.1 ≡ 32) b.pending ((id_of b.next_submission, leaf) ∷ [])
              (All-front (λ e. length e.1 ≡ 32) b.pending b.overflow valid.widths) (width, tt));
      }

  overflow_step :
      2 ^ b.height ≤ length b.pending
      → length b.overflow < 2 * 2 ^ b.height
      → IsBatcher (record b {
        next_submission = b.next_submission + 1;
        overflow = b.overflow ++ ((id_of b.next_submission, leaf) ∷ []);
      })
  overflow_step full queue =
      let live : b.pending ++ (b.overflow ++ ((id_of b.next_submission, leaf) ∷ []))
          ≡ (b.pending ++ b.overflow) ++ ((id_of b.next_submission, leaf) ∷ []) =
        sym (append_assoc b.pending b.overflow ((id_of b.next_submission, leaf) ∷ [])) in
      record {
        lowest = valid.lowest;
        highest = valid.highest;
        key_width = valid.key_width;
        epoch_fits = valid.epoch_fits;
        pending_fits = valid.pending_fits;
        queue_fits = omega (arith, length-append b.overflow ((id_of b.next_submission, leaf) ∷ []));
        full_first = inr (omega (arith, valid.pending_fits));
        counter_fits = counter;
        first = valid.first;
        count =
            omega
              (arith, valid.count, length-append b.overflow ((id_of b.next_submission, leaf) ∷ []));
        run = rw live (
            Run-snoc valid.first b.next_submission (b.pending ++ b.overflow) leaf
              (omega (arith, valid.count, length-append b.pending b.overflow)) valid.run);
        widths = rw live (
            All-append (λ e. length e.1 ≡ 32) (b.pending ++ b.overflow)
              ((id_of b.next_submission, leaf) ∷ []) valid.widths (width, tt));
      }

-- An accepted submission keeps the invariant.
pub submit-IsBatcher :
    (h : Hasher) (signer : Signer) (leaf : Digest) (b : EpochBatcher)
    → IsBatcher b
    → length leaf ≡ 32
    → IsBatcher (submit h signer leaf b).0
submit-IsBatcher h signer leaf b valid width = elim (Result-cases (submit h signer leaf b).1) [
  | inr (e, refused) ↦ rw (submit-refused h signer leaf b e refused) valid
  | inl (p, accepted) ↦
      let a = submit-Accepted h signer leaf b p valid.highest accepted in
      rw a.state (after a.promised a.room)
]
  where
    after :
        {e : ℕ}
        → promised_epoch b ≡ ok e
        → b.next_submission + 1 < 2 ^ 64
        → IsBatcher (with_submission b leaf)
    after {e} promised counter = elim (Bool-cases (ltb (length b.pending) (2 ^ b.height))) [
      | inl room ↦
          rw room (
            pending_step leaf valid width counter (ground arith) (ground (arith, valid.full_first)))
      | inr full ↦ rw full (
          overflow_step leaf valid width counter (ground arith)
            (promised-queue b e valid.highest (ground arith) promised).1)
    ]
