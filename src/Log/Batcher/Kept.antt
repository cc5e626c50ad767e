-- ===== src/Log/Batcher/Kept.antt =====
-- What waits for an epoch goes on waiting for it, whatever is submitted and sealed before.
pub mod Sealed
use Prim.Native.Nat.{◌≤◌}
use mathlib.Core.Path.{subst}
use native.Mathlib.Nat.{div-eq_of_lt, div-eq-sub-div}
use potash.Common.{
  ℕ, zero, suc, ◌+◌, ◌-◌, ◌/◌, ◌^◌, ◌<◌, ◌≡◌, sym, ap, ◌∙◌, arith, List, [], ◌∷◌, ◌++◌,
}
use potash.Common.{some, Bytes, length, get_elem?, ltb, ◌⊎◌, inl, inr, Bool-cases}
use potash.Common.{get_elem?-take, get_elem?-drop, get_elem?-append_left}
use potash.Common.{
  get_elem?-append_right, lt-get_elem?, pow2-pos, bytes_eq, bytes_eq_refl, bytes_eq→eq,
}
use potash.Core.Error.{Result-cases, ok}
use potash.Core.Hash.{Hasher, Signer, Digest}
use potash.Log.Tree.{Submission, BuiltEpoch, InclusionProof, proof, max_height}
use potash.Log.Tree.Order.{leaf_of_id}
use potash.Log.Promise.{SignedPromise}
use potash.Log.Proof.{verify_for_height}
use potash.Log.Proof.Included.{IsTree-proof}
use potash.Log.Batcher.{EpochBatcher, submit, seal, promised_epoch, id_of, next_identifier}
use potash.Log.Batcher.Refused.{submit-refused, seal-refused}
use potash.Log.Batcher.Valid.{IsBatcher, Run, submit-Accepted, with_submission}
use potash.Log.Batcher.Valid.Runs.{Run-front, id_of-injective}
use potash.Log.Batcher.Valid.Steps.{submit-IsBatcher, promised-queue, promised-now}
use potash.Log.Batcher.Valid.Sealing.{moving, after_seal, sealed_at, seal-ok, seal-IsBatcher}

-- A submission waits for an epoch: it is pending for the current one, or queued behind it.
abbrev pub Placed : EpochBatcher → Submission → ℕ → Type 0
Placed b s e =
    ((e ≡ b.epoch) × (k : ℕ) × (get_elem? b.pending k ≡ some s))
    ⊎ ((k : ℕ) × (get_elem? b.overflow k ≡ some s) × (e ≡ b.epoch + (k / 2 ^ b.height + 1)))

get_elem?-snoc {ℓ} :
    {A : Type ℓ} (xs : List A) (a : A) → get_elem? (xs ++ (a ∷ [])) (length xs) ≡ some a
get_elem?-snoc xs a = get_elem?-append_right xs (a ∷ []) (length xs) 0 (omega arith)

get_elem?-kept {ℓ} :
    {A : Type ℓ} (xs ys : List A) (k : ℕ) {a : A}
    → get_elem? xs k ≡ some a
    → get_elem? (xs ++ ys) k ≡ some a
get_elem?-kept xs ys k {a} e = get_elem?-append_left xs ys k (lt-get_elem? xs k a e) ∙ e

-- An accepted submission waits for the epoch that its promise names.
pub submit-Placed :
    (b : EpochBatcher) (leaf : Digest) (e : ℕ)
    → b.height ≤ max_height
    → promised_epoch b ≡ ok e
    → Placed (with_submission b leaf) (id_of b.next_submission, leaf) e
submit-Placed b leaf e hi promised = elim (Bool-cases (ltb (length b.pending) (2 ^ b.height))) [
  | inl room ↦ rw room (
      inl
        (promised-now b e hi (ground arith) promised, length b.pending, get_elem?-snoc b.pending _))
  | inr full ↦ rw full (
      inr (
        length b.overflow,
        get_elem?-snoc b.overflow _,
        (promised-queue b e hi (ground arith) promised).0,
      ))
]

-- Another submission leaves it there.
with_submission-Placed :
    (b : EpochBatcher) (leaf : Digest) {s : Submission} {e : ℕ}
    → Placed b s e
    → Placed (with_submission b leaf) s e
with_submission-Placed b leaf (inl (now, k, found)) =
    elim (Bool-cases (ltb (length b.pending) (2 ^ b.height))) [
      | inl room ↦ rw room (inl (now, k, get_elem?-kept b.pending _ k found))
      | inr full ↦ rw full (inl (now, k, found))
    ]
with_submission-Placed b leaf (inr (k, found, later)) =
    elim (Bool-cases (ltb (length b.pending) (2 ^ b.height))) [
      | inl room ↦ rw room (inr (k, found, later))
      | inr full ↦ rw full (inr (k, get_elem?-kept b.overflow _ k found, later))
    ]

-- Sealing moves a later submission one epoch closer.
after_seal-Placed :
    (b : EpochBatcher) {s : Submission} {e : ℕ}
    → b.epoch < e
    → Placed b s e
    → Placed (after_seal b) s e
after_seal-Placed b late (inl (now, k, found)) = absurd (omega arith)
after_seal-Placed b {s} late (inr (k, found, later)) = elim (Bool-cases (ltb k (2 ^ b.height))) [
  | inl near ↦
      let inside : k < length b.overflow = lt-get_elem? b.overflow k s found in
      let close : k < 2 ^ b.height = ground arith in
      inl (
        omega (arith, later, div-eq_of_lt close),
        k,
        get_elem?-take (moving b) b.overflow k (omega arith) ∙ found,
      )
  | inr far ↦
      let inside : k < length b.overflow = lt-get_elem? b.overflow k s found in
      let beyond : 2 ^ b.height ≤ k = ground arith in
      inr (
        k - 2 ^ b.height,
        get_elem?-drop (moving b) b.overflow (k - 2 ^ b.height)
            ∙ ap (λ (i : ℕ). get_elem? b.overflow i) (omega arith)
            ∙ found,
        omega (arith, later, div-eq-sub-div (pow2-pos b.height) beyond),
      )
]

-- Any submissions and seals, accepted or refused, one after another.
pub data Steps (h : Hasher) (signer : Signer) : EpochBatcher → EpochBatcher → Type 0 where
  here : (b : EpochBatcher) → Steps h signer b b
  submitted :
      {b c : EpochBatcher}
      → Steps h signer b c
      → (leaf : Digest) → length leaf ≡ 32
      → Steps h signer b (submit h signer leaf c).0
  sealed :
      {b c : EpochBatcher} → Steps h signer b c → (epoch : ℕ) → Steps h signer b (seal h epoch c).0

submit-keeps :
    (h : Hasher) (signer : Signer) (leaf : Digest) (b : EpochBatcher) {s : Submission} {e : ℕ}
    → b.height ≤ max_height
    → Placed b s e
    → Placed (submit h signer leaf b).0 s e
submit-keeps h signer leaf b {s} {e} hi placed = elim (Result-cases (submit h signer leaf b).1) [
  | inr (refusal, refused) ↦ rw (submit-refused h signer leaf b refusal refused) placed
  | inl (p, accepted) ↦
      let a = submit-Accepted h signer leaf b p hi accepted in
      subst (λ c. Placed c s e) (sym a.state) (with_submission-Placed b leaf placed)
]

sealed_state :
    (h : Hasher) (b : EpochBatcher) (epoch : ℕ) (built : BuiltEpoch)
    → IsBatcher b
    → (seal h epoch b).1 ≡ ok built
    → (seal h epoch b).0 ≡ after_seal b
sealed_state h b epoch built valid accepted =
    let (current, clock) = sealed_at h b epoch built valid.highest accepted in
    ap (λ n. (seal h n b).0) current
    ∙ ap (λ r. r.0) (let (_, done, _) = seal-ok h valid clock in done)

submit-epoch :
    (h : Hasher) (signer : Signer) (leaf : Digest) (b : EpochBatcher)
    → (submit h signer leaf b).0.epoch ≡ b.epoch
unfolding submit next_identifier
submit-epoch h signer leaf b = ground arith

-- A seal leaves what waits for a later epoch, and never goes back.
seal-keeps :
    (h : Hasher) (b : EpochBatcher) (epoch : ℕ) {s : Submission} {e : ℕ}
    → IsBatcher b
    → (seal h epoch b).0.epoch ≤ e
    → (b.epoch ≤ e) × (Placed b s e → Placed (seal h epoch b).0 s e)
seal-keeps h b epoch {s} {e} valid before = elim (Result-cases (seal h epoch b).1) [
  | inr (refusal, refused) ↦
      let same : (seal h epoch b).0 ≡ b = seal-refused h epoch b refusal refused in
      (omega (arith, ap (λ c. c.epoch) same), subst (λ c. Placed c s e) (sym same))
  | inl (built, accepted) ↦
      let same : (seal h epoch b).0 ≡ after_seal b = sealed_state h b epoch built valid accepted in
      let late : b.epoch < e = omega (arith, ap (λ c. c.epoch) same) in
      (
        omega (arith, late),
        λ placed. subst (λ c. Placed c s e) (sym same) (after_seal-Placed b late placed),
      )
]

-- What waits for an epoch that is not sealed yet goes on waiting for it, in a valid batcher.
pub Steps-keep :
    (h : Hasher) (signer : Signer) {b c : EpochBatcher}
    → Steps h signer b c
    → IsBatcher b
    → {s : Submission} {e : ℕ} → Placed b s e
    → IsBatcher c × (c.epoch ≤ e → Placed c s e)
Steps-keep h signer (here b) valid placed = (valid, λ before. placed)
Steps-keep h signer (submitted {b} {c} steps leaf width) valid {s} {e} placed =
    let (valid', kept) = Steps-keep h signer steps valid placed in
    (
      submit-IsBatcher h signer leaf c valid' width,
      λ before.
          submit-keeps h signer leaf c valid'.highest
            (kept (omega (arith, submit-epoch h signer leaf c))),
    )
Steps-keep h signer (sealed {b} {c} steps epoch) valid {s} {e} placed =
    let (valid', kept) = Steps-keep h signer steps valid placed in
    (
      seal-IsBatcher h valid' epoch,
      λ before. (let (earlier, keeps) = seal-keeps h c epoch valid' before in keeps (kept earlier)),
    )
