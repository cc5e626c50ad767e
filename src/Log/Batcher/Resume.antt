-- ===== src/Log/Batcher/Resume.antt =====
-- A valid batcher comes back from its snapshot.
pub mod Stored
use Prim.Native.Nat.{◌≤◌}
use mathlib.Core.Path.{subst, ap₂}
use potash.Common.{
  ℕ, zero, suc, ◌+◌, ◌*◌, ◌^◌, ◌≡◌, refl, sym, ap, ◌∙◌, from_le_bytes, arith, List, [], ◌∷◌, ◌++◌,
  false,
}
use potash.Common.{
  length, IsU64, le_bytes, length-le_bytes, from_le_bytes-le_bytes, replicate, take-append_exact,
  drop-append_exact, length-append, pow2_mono,
}
use potash.Core.Error.{Result-cases, ok}
use potash.Log.Tree.{Submission, min_height, max_height}
use potash.Common.{
  ◌⊎◌, Bool, true, ◌||◌, ◌==◌, inl, inr, take, drop, All, IsByte, Bytes, le_bytes-from_le_bytes,
  take-append-drop, length-take, length-drop,
}
use potash.Log.Batcher.{
  BatcherSnapshot, EpochBatcher, resume, snapshot, start, capacity, ordinal_of, ordinals_of, id_of,
  any_nonzero, last_of, any_gap, check_run, is_empty_list,
}
use potash.Log.Batcher.Valid.{IsBatcher, Run, LeafWidths}
use potash.Log.Batcher.Valid.Runs.{length-id_of, All-front}

ordinal_of-id_of : (n : ℕ) → IsU64 n → ordinal_of (id_of n) ≡ ok n
unfolding ordinal_of
ordinal_of-id_of n fits = ground (
  arith,
  length-id_of n,
  drop-append_exact (le_bytes 8 n) (replicate 8 0) 8 (length-le_bytes 8 n),
  take-append_exact (le_bytes 8 n) (replicate 8 0) 8 (length-le_bytes 8 n),
  from_le_bytes-le_bytes 8 n (omega arith),
)

-- The ordinals from `n` on.
abbrev count_up : ℕ → ℕ → List ℕ
count_up n zero = []
count_up n (suc k) = n ∷ count_up (n + 1) k

ordinals_of-Run :
    (n : ℕ) (s : List Submission)
    → n + length s ≤ 2 ^ 64
    → Run n s
    → ordinals_of s ≡ ok (count_up n (length s))
unfolding ordinals_of
ordinals_of-Run n [] fits run = refl
ordinals_of-Run n (x ∷ s) fits run =
    rw (run.0, ordinal_of-id_of n (omega arith), ordinals_of-Run (n + 1) s (omega arith) run.1)

length-count_up : (n k : ℕ) → length (count_up n k) ≡ k
length-count_up n zero = refl
length-count_up n (suc k) = ap suc (length-count_up (n + 1) k)

last_of-count_up : (n k : ℕ) → last_of n (count_up (n + 1) k) ≡ n + k
last_of-count_up n zero = omega arith
last_of-count_up n (suc k) = omega (arith, last_of-count_up (n + 1) k)

any_gap-count_up : (n k : ℕ) → any_gap (count_up n k) ≡ false
unfolding any_gap
any_gap-count_up n zero = refl
any_gap-count_up n (suc zero) = refl
any_gap-count_up n (suc (suc k)) = ground (arith, any_gap-count_up (n + 1) (suc k))

check_run-count_up :
    (n k next : ℕ) (overflow : List Submission)
    → n + k ≡ next
    → IsU64 next
    → length overflow ≤ k
    → check_run (count_up n k) next overflow ≡ ok tt
unfolding check_run
check_run-count_up n zero next [] e fits inside = refl
check_run-count_up n zero next (x ∷ s) e fits inside = absurd (omega arith)
check_run-count_up n (suc k) next overflow e fits inside =
    ground (arith, last_of-count_up n k, length-count_up (n + 1) k, any_gap-count_up n (suc k))

-- A valid batcher that is resumed from its own snapshot, with its key and height, is the same batcher.
pub resume-snapshot :
    (b : EpochBatcher) → IsBatcher b → resume b.master_key b.height (snapshot b) ≡ ok b
unfolding resume snapshot start capacity
resume-snapshot b valid =
    let live : length (b.pending ++ b.overflow) ≡ length b.pending + length b.overflow =
      length-append b.pending b.overflow in
    ground (
      arith,
      valid.lowest,
      valid.highest,
      valid.pending_fits,
      valid.queue_fits,
      valid.full_first,
      pow2_mono b.height 16 valid.highest,
      ordinals_of-Run valid.first (b.pending ++ b.overflow)
          (omega (arith, valid.count, valid.counter_fits)) valid.run,
      check_run-count_up valid.first (length (b.pending ++ b.overflow)) b.next_submission b.overflow
          (omega (arith, valid.count)) valid.counter_fits (omega arith),
    )
