-- ===== src/Log/Batcher/Resume/Stored.antt =====
-- What `resume` accepts from storage is a valid batcher.
use Prim.Native.Nat.{◌≤◌}
use mathlib.Core.Path.{subst, ap₂}
use potash.Common.{
  ℕ, ◌+◌, ◌*◌, ◌^◌, ◌≡◌, refl, sym, ap, ◌∙◌, from_le_bytes, arith, List, [], ◌∷◌, ◌++◌, false,
}
use potash.Common.{length, IsU64, le_bytes, replicate, length-append}
use potash.Core.Error.{Result-cases, ok}
use potash.Log.Tree.{Submission, min_height, max_height}
use potash.Common.{
  ◌⊎◌, Bool, true, ◌||◌, ◌==◌, inl, inr, take, drop, All, IsByte, Bytes, le_bytes-from_le_bytes,
  take-append-drop, length-take, length-drop,
}
use potash.Log.Batcher.{
  BatcherSnapshot, EpochBatcher, resume, start, capacity, ordinal_of, ordinals_of, id_of,
  any_nonzero, any_gap, check_run, is_empty_list,
}
use potash.Log.Batcher.Valid.{IsBatcher, Run, LeafWidths}
use potash.Log.Batcher.Valid.Runs.{All-front}

-- A stored submission: sixteen bytes name it, and its leaf has 32.
abbrev IsEntry : Submission → Type 0
IsEntry s = (length s.0 ≡ 16) × All IsByte s.0 × (length s.1 ≡ 32)

-- What the types of a stored snapshot guarantee.
pub record IsStored (s : BatcherSnapshot) : Type 0 where
  pub epoch : IsU64 s.epoch
  pub next_submission : IsU64 s.next_submission
  pub submissions : All IsEntry (s.pending ++ s.overflow)

any_nonzero-zeros : (bs : Bytes) → any_nonzero bs ≡ false → bs ≡ replicate (length bs) 0
any_nonzero-zeros [] e = refl
any_nonzero-zeros (b ∷ bs) e = ground (arith, any_nonzero-zeros bs)

ordinal_of-ok :
    (id : Bytes) (n : ℕ) → length id ≡ 16 → All IsByte id → ordinal_of id ≡ ok n → id ≡ id_of n
unfolding ordinal_of
ordinal_of-ok id n width bytes e =
    let whole : take 8 id ++ drop 8 id ≡ id = take-append-drop 8 id in
    let low_width : length (take 8 id) ≡ 8 = omega (arith, length-take 8 id) in
    let high_width : length (drop 8 id) ≡ 8 = omega (arith, length-drop 8 id) in
    let high : drop 8 id ≡ replicate 8 0 =
      any_nonzero-zeros (drop 8 id) (ground arith) ∙ ap (λ (k : ℕ). replicate k 0) high_width in
    let named : from_le_bytes (take 8 id) ≡ n = ground arith in
    let low : le_bytes 8 n ≡ take 8 id =
      ap (le_bytes 8) (sym named)
      ∙ ap (λ (w : ℕ). le_bytes w (from_le_bytes (take 8 id))) (sym low_width)
      ∙ le_bytes-from_le_bytes (take 8 id)
          (All-front IsByte (take 8 id) (drop 8 id) (subst (All IsByte) (sym whole) bytes)) in
    sym whole ∙ ap₂ (λ (a b : Bytes). a ++ b) (sym low) high

ordinals_of-cons :
    (x : Submission) (s : List Submission) (n : ℕ) (ns : List ℕ)
    → ordinals_of (x ∷ s) ≡ ok (n ∷ ns)
    → (ordinal_of x.0 ≡ ok n) × (ordinals_of s ≡ ok ns)
unfolding ordinals_of
ordinals_of-cons x s n ns e = (ground arith, ground arith)

-- Ordinals without a gap are those of a run.
gapless-Run :
    (s : List Submission) (n : ℕ) (ns : List ℕ)
    → All IsEntry s
    → ordinals_of s ≡ ok (n ∷ ns)
    → any_gap (n ∷ ns) ≡ false
    → Run n s × (length s ≡ length (n ∷ ns))
unfolding any_gap
gapless-Run [] n ns entries e gap = absurd (unfold ordinals_of in ground arith)
gapless-Run (x ∷ []) n [] entries e gap =
    ((ordinal_of-ok x.0 n entries.0.0 entries.0.1 (ordinals_of-cons x [] n [] e).0, tt), refl)
gapless-Run (x ∷ y ∷ s) n [] entries e gap = absurd (unfold ordinals_of in ground arith)
gapless-Run (x ∷ s) n (m ∷ ns) entries e gap =
    let (first, rest) = ordinals_of-cons x s n (m ∷ ns) e in
    let (run, size) = gapless-Run s m ns entries.1 rest (ground arith) in
    let next : m ≡ n + 1 = ground arith in
    (
      (ordinal_of-ok x.0 n entries.0.0 entries.0.1 first, subst (λ k. Run k s) next run),
      omega (arith, size),
    )

live_count :
    (n : ℕ) (ns : List ℕ) (next : ℕ) (overflow : List Submission)
    → check_run (n ∷ ns) next overflow ≡ ok tt
    → (any_gap (n ∷ ns) ≡ false) × (n + length (n ∷ ns) ≡ next)
unfolding check_run
live_count n ns next overflow e = (ground arith, ground arith)

-- The live submissions of an accepted snapshot are a run that ends before the counter.
stored_run :
    (s : BatcherSnapshot) (ns : List ℕ)
    → IsStored s
    → ordinals_of (s.pending ++ s.overflow) ≡ ok ns
    → check_run ns s.next_submission s.overflow ≡ ok tt
    → (first : ℕ) × (first + length (s.pending ++ s.overflow) ≡ s.next_submission)
      × Run first (s.pending ++ s.overflow)
stored_run s [] stored e checked =
    let nothing : s.pending ++ s.overflow ≡ [] = no_ordinals (s.pending ++ s.overflow) e in
    (s.next_submission, rw nothing (omega arith), rw nothing tt)
  where
    no_ordinals : (t : List Submission) → ordinals_of t ≡ ok [] → t ≡ []
    no_ordinals [] e = refl
    no_ordinals (x ∷ t) e = absurd (unfold ordinals_of in ground arith)
stored_run s (n ∷ ns) stored e checked =
    let (gapless, count) = live_count n ns s.next_submission s.overflow checked in
    let (run, size) = gapless-Run (s.pending ++ s.overflow) n ns stored.submissions e gapless in
    (n, omega (arith, size, count), run)

full_first :
    (overflow : List Submission) {full : Bool}
    → (is_empty_list overflow || full) ≡ true
    → (length overflow ≡ 0) ⊎ (full ≡ true)
full_first [] e = inl refl
full_first (x ∷ overflow) e = inr e

-- What `resume` has checked when it succeeds.
resume-checked :
    (key : Bytes) (height : ℕ) (s : BatcherSnapshot) (b : EpochBatcher)
    → resume key height s ≡ ok b
    → (min_height ≤ height)
      × (height ≤ max_height)
      × (length s.pending ≤ 2 ^ height)
      × (length s.overflow ≤ 2 ^ height * 2)
      × ((length s.overflow ≡ 0) ⊎ ((length s.pending == 2 ^ height) ≡ true))
      × ((ns : List ℕ) × (ordinals_of (s.pending ++ s.overflow) ≡ ok ns)
          × (check_run ns s.next_submission s.overflow ≡ ok tt))
      × (b ≡ record {
        master_key = key;
        height = height;
        epoch = s.epoch;
        next_submission = s.next_submission;
        pending = s.pending;
        overflow = s.overflow;
      })
unfolding resume start capacity
resume-checked key height s b e = elim (Result-cases (ordinals_of (s.pending ++ s.overflow))) [
  | inr (code, refused) ↦ absurd (ground arith)
  | inl (ns, found) ↦ (
    ground arith,
    ground arith,
    ground arith,
    ground arith,
    full_first s.overflow (ground arith),
    (ns, found, ground arith),
    ground arith,
  )
]

-- A batcher that is resumed from a stored snapshot is valid: what `resume` accepts it may go on with.
pub resume-IsBatcher :
    (key : Bytes) (height : ℕ) (s : BatcherSnapshot) (b : EpochBatcher)
    → length key ≡ 32
    → IsStored s
    → resume key height s ≡ ok b
    → IsBatcher b
resume-IsBatcher key height s b width stored e =
    let (lowest, highest, pending, queue, full, (ns, found, checked), result) =
      resume-checked key height s b e in
    let (first, count, run) = stored_run s ns stored found checked in
    subst IsBatcher (sym result) (record {
      lowest = lowest;
      highest = highest;
      key_width = width;
      epoch_fits = stored.epoch;
      pending_fits = pending;
      queue_fits = queue;
      full_first = elim full [
        | inl none_waiting ↦ inl none_waiting
        | inr at_capacity ↦ inr (same_length at_capacity)
      ];
      counter_fits = stored.next_submission;
      first = first;
      count = omega (arith, count, length-append s.pending s.overflow);
      run = run;
      widths = entries-LeafWidths (s.pending ++ s.overflow) stored.submissions;
    })
  where
    same_length : {a c : ℕ} → (a == c) ≡ true → a ≡ c
    same_length same = ground arith

    entries-LeafWidths : (t : List Submission) → All IsEntry t → LeafWidths t
    entries-LeafWidths [] h = tt
    entries-LeafWidths (x ∷ t) h = (h.0.2, entries-LeafWidths t h.1)
