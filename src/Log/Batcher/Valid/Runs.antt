-- ===== src/Log/Batcher/Valid/Runs.antt =====
-- Runs of identifiers: appended to, cut, and never repeating.
use Prim.Native.Nat.{◌≤◌}
use potash.Common.{ℕ, ◌+◌, ◌^◌, ◌<◌, ◌≡◌, ◌≢◌, sym, ap, ◌∙◌, arith, List, [], ◌∷◌, ◌++◌}
use potash.Common.{length, All, Bytes, IsU64, le_bytes, length-le_bytes, length-append}
use potash.Common.{replicate, take, take-append_exact, from_le_bytes, from_le_bytes-le_bytes}
use potash.Log.Tree.{Submission}
use potash.Log.Tree.Slots.{IsSubmission}
use potash.Log.Tree.Order.Distinct.{Distinct}
use potash.Log.Batcher.{id_of}
use potash.Log.Batcher.Valid.{Run, LeafWidths}

pub length-id_of : (n : ℕ) → length (id_of n) ≡ 16
length-id_of n = omega (arith, length-append (le_bytes 8 n) (replicate 8 0), length-le_bytes 8 n)

pub id_of-injective : (n m : ℕ) → IsU64 n → IsU64 m → id_of n ≡ id_of m → n ≡ m
id_of-injective n m hn hm e =
    let low : le_bytes 8 n ≡ le_bytes 8 m =
      sym (take-append_exact (le_bytes 8 n) _ 8 (length-le_bytes 8 n))
      ∙ ap (take 8) e
      ∙ take-append_exact (le_bytes 8 m) _ 8 (length-le_bytes 8 m) in
    sym (from_le_bytes-le_bytes 8 n (omega arith))
    ∙ ap from_le_bytes low
    ∙ from_le_bytes-le_bytes 8 m (omega arith)

pub Run-snoc :
    (n m : ℕ) (s : List Submission) (leaf : Bytes)
    → n + length s ≡ m
    → Run n s
    → Run n (s ++ ((id_of m, leaf) ∷ []))
Run-snoc n m [] leaf e run = (ap id_of (omega arith), tt)
Run-snoc n m (x ∷ s) leaf e run = (run.0, Run-snoc (n + 1) m s leaf (omega arith) run.1)

pub Run-front : (n : ℕ) (s t : List Submission) → Run n (s ++ t) → Run n s
Run-front n [] t run = tt
Run-front n (x ∷ s) t run = (run.0, Run-front (n + 1) s t run.1)

pub Run-back : (n m : ℕ) (s t : List Submission) → n + length s ≡ m → Run n (s ++ t) → Run m t
Run-back n m [] t e run = rw (← same) run
  where
    same : n ≡ m
    same = omega arith
Run-back n m (x ∷ s) t e run = Run-back (n + 1) m s t (omega arith) run.1

pub All-front {ℓ} : {A : Type ℓ} (P : A → Type 0) (s t : List A) → All P (s ++ t) → All P s
All-front P [] t h = tt
All-front P (x ∷ s) t h = (h.0, All-front P s t h.1)

pub All-back {ℓ} : {A : Type ℓ} (P : A → Type 0) (s t : List A) → All P (s ++ t) → All P t
All-back P [] t h = h
All-back P (x ∷ s) t h = All-back P s t h.1

pub All-append {ℓ} :
    {A : Type ℓ} (P : A → Type 0) (s t : List A) → All P s → All P t → All P (s ++ t)
All-append P [] t hs ht = ht
All-append P (x ∷ s) t hs ht = (hs.0, All-append P s t hs.1 ht)

Run-fresh :
    (n m : ℕ) (s : List Submission)
    → n < m
    → m + length s ≤ 2 ^ 64
    → Run m s
    → All (λ f. f.0 ≢ id_of n) s
Run-fresh n m [] lt fits run = tt
Run-fresh n m (x ∷ s) lt fits run = (
  λ same.
      absurd (omega (arith, id_of-injective m n (omega arith) (omega arith) (sym run.0 ∙ same))),
  Run-fresh n (m + 1) s (omega arith) (omega arith) run.1,
)

pub Run-Distinct : (n : ℕ) (s : List Submission) → n + length s ≤ 2 ^ 64 → Run n s → Distinct s
Run-Distinct n [] fits run = tt
Run-Distinct n (x ∷ s) fits run = (
  rw run.0 (Run-fresh n (n + 1) s (omega arith) (omega arith) run.1),
  Run-Distinct (n + 1) s (omega arith) run.1,
)

pub Run-IsSubmission : (n : ℕ) (s : List Submission) → Run n s → LeafWidths s → All IsSubmission s
Run-IsSubmission n [] run w = tt
Run-IsSubmission n (x ∷ s) run w =
    ((rw run.0 (length-id_of n), w.0), Run-IsSubmission (n + 1) s run.1 w.1)
