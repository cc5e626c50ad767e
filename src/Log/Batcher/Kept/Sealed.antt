-- ===== src/Log/Batcher/Kept/Sealed.antt =====
-- A promised submission is in the epoch that is sealed for it.
use Prim.Native.Nat.{◌≤◌}
use mathlib.Core.Path.{subst}
use potash.Common.{ℕ, zero, suc, ◌+◌, ◌^◌, ◌<◌, ◌≡◌, sym, ap, ◌∙◌, arith, List, [], ◌∷◌}
use potash.Common.{some, Bytes, length, get_elem?, inl, inr, Bool-cases}
use potash.Common.{lt-get_elem?, bytes_eq, bytes_eq_refl, bytes_eq→eq}
use potash.Core.Error.{ok}
use potash.Core.Hash.{Hasher, Signer, Digest}
use potash.Log.Tree.{Submission, BuiltEpoch, InclusionProof, proof}
use potash.Log.Tree.Order.{leaf_of_id}
use potash.Log.Promise.{SignedPromise}
use potash.Log.Proof.{verify_for_height}
use potash.Log.Proof.Included.{IsTree-proof}
use potash.Log.Batcher.{EpochBatcher, submit, seal, id_of}
use potash.Log.Batcher.Valid.{IsBatcher, Run, submit-Accepted}
use potash.Log.Batcher.Valid.Runs.{Run-front, id_of-injective}
use potash.Log.Batcher.Valid.Steps.{submit-IsBatcher}
use potash.Log.Batcher.Valid.Sealing.{after_seal, seal-ok}
use potash.Log.Batcher.Kept.{Steps, Placed, Steps-keep, submit-Placed}

Run-id :
    (n : ℕ) (s : List Submission) (k : ℕ) (e : Submission)
    → Run n s
    → get_elem? s k ≡ some e
    → e.0 ≡ id_of (n + k)
Run-id n [] k e run found = absurd (ground arith)
Run-id n (x ∷ s) zero e run found = ground (arith, run.0)
Run-id n (x ∷ s) (suc k) e run found = Run-id (n + 1) s k e run.1 found ∙ ap id_of (omega arith)

-- In a run of identifiers the leaf at a place is found by its identifier.
leaf_of_id-Run :
    (n : ℕ) (s : List Submission) (k : ℕ) (id : Bytes) (leaf : Digest)
    → n + length s ≤ 2 ^ 64
    → Run n s
    → get_elem? s k ≡ some (id, leaf)
    → leaf_of_id id s ≡ some leaf
unfolding leaf_of_id
leaf_of_id-Run n [] k id leaf fits run found = absurd (ground arith)
leaf_of_id-Run n (x ∷ s) zero id leaf fits run found = ground (arith, bytes_eq_refl id)
leaf_of_id-Run n (x ∷ s) (suc k) id leaf fits run found =
    let inside : k < length s = lt-get_elem? s k _ found in
    let named : id ≡ id_of (n + 1 + k) = Run-id (n + 1) s k (id, leaf) run.1 found in
    elim (Bool-cases (bytes_eq x.0 id)) [
      | inl same ↦ absurd (
          omega (
            arith,
            id_of-injective n (n + 1 + k) (omega arith) (omega arith)
                (sym run.0 ∙ bytes_eq→eq x.0 id same ∙ named),
          ))
      | inr other ↦ rw other (leaf_of_id-Run (n + 1) s k id leaf (omega arith) run.1 found)
    ]

-- A promise is kept: take any valid batcher that accepts a submission, and then any submissions and
-- seals, accepted or refused, until it has come to the promised epoch, which is not the last of 64
-- bits. Sealing that epoch succeeds, and its tree answers the promised identifier with a proof, for that epoch, which verifies for the
-- promised leaf against the sealed root.
pub submit-promise-kept :
    (h : Hasher) (signer : Signer) (leaf : Digest) (b : EpochBatcher) (p : SignedPromise)
    → IsBatcher b
    → length leaf ≡ 32
    → (submit h signer leaf b).1 ≡ ok p
    → (c : EpochBatcher) → Steps h signer (submit h signer leaf b).0 c
    → c.epoch ≡ p.promised_epoch
    → c.epoch + 1 < 2 ^ 64
    → (built : BuiltEpoch) × (i : InclusionProof) × (seal h c.epoch c ≡ (after_seal c, ok built))
      × (proof built p.submission_id ≡ ok i)
      × (verify_for_height h p.leaf i built.root c.height ≡ ok tt)
      × (i.epoch ≡ p.promised_epoch)
submit-promise-kept h signer leaf b p valid width accepted c steps now clock =
    let a = submit-Accepted h signer leaf b p valid.highest accepted in
    let placed : Placed (submit h signer leaf b).0 (id_of b.next_submission, leaf)
        p.promised_epoch =
      subst (λ d. Placed d (id_of b.next_submission, leaf) p.promised_epoch) (sym a.state)
        (submit-Placed b leaf p.promised_epoch valid.highest a.promised) in
    let (valid', kept) =
      Steps-keep h signer steps (submit-IsBatcher h signer leaf b valid width) placed in
    let found : leaf_of_id (id_of b.next_submission) c.pending ≡ some leaf =
      pending_leaf c valid' now (kept (omega arith)) in
    let (built, done, tree) = seal-ok h valid' clock in
    let (i, given, verified, at) =
      IsTree-proof h built valid'.lowest valid'.highest tree (id_of b.next_submission) leaf width
        found in
    (
      built,
      i,
      done,
      ap (proof built) a.identifier ∙ given,
      ap (λ l. verify_for_height h l i built.root c.height) a.leaf_bound ∙ verified,
      at ∙ now,
    )
  where
    pending_leaf :
        (c : EpochBatcher)
        → IsBatcher c
        → c.epoch ≡ p.promised_epoch
        → Placed c (id_of b.next_submission, leaf) p.promised_epoch
        → leaf_of_id (id_of b.next_submission) c.pending ≡ some leaf
    pending_leaf c valid current (inl (now, k, found)) =
        leaf_of_id-Run valid.first c.pending k (id_of b.next_submission) leaf
          (omega (arith, valid.count, valid.counter_fits))
          (Run-front valid.first c.pending c.overflow valid.run) found
    pending_leaf c valid current (inr (k, found, later)) = absurd (omega arith)
