-- ===== src/Log/Promise/Policy.antt =====
-- What an accepted promise and a kept promise establish, and what the refusals mean.
use Prim.Native.Nat.{◌≤◌}
use potash.Common.{ℕ, ◌+◌, ◌<◌, ◌≡◌, ◌↔◌, arith, Bytes, bytes_eq→eq}
use potash.Common.{bytes_eq_iff, ◌⊎◌}
use potash.Core.Error.{ok, err, merge_delay_exceeded}
use potash.Core.Hash.{Hasher, Verifier, hash}
use potash.Core.Preimage.{spi, encode, IsWellFormed}
use potash.Core.Preimage.Write.{digest-encode}
use potash.Log.Tree.{InclusionProof}
use potash.Log.Proof.{verify}
use potash.Log.Promise.{
  SignedPromise, PublishedRoot, spi_of, promise_digest, verify_promise, promise_kept,
  max_merge_delay,
}
use potash.Log.Promise.Encoding.{IsPromise}

-- The policy of an acceptable promise, for a reader who observed an epoch when it arrived.
pub record IsAcceptable (v : Verifier) (h : Hasher) (p : SignedPromise) (key : Bytes) (observed : ℕ)
    : Type 0 where
  pub expected : p.batcher_key ≡ key
  pub delay : p.max_merge_delay ≡ max_merge_delay
  pub not_backwards : p.accepted_epoch ≤ p.promised_epoch
  pub not_deferred : p.promised_epoch ≤ p.accepted_epoch + max_merge_delay
  pub not_ahead : p.accepted_epoch ≤ observed
  pub recent : observed ≤ p.accepted_epoch + 1
  pub signed : v.verify key (hash h (encode (spi (spi_of p)))) p.signature ≡ ok tt

promise_digest-ok :
    (h : Hasher) (p : SignedPromise)
    → IsPromise p
    → promise_digest h p ≡ ok (hash h (encode (spi (spi_of p))))
unfolding promise_digest
promise_digest-ok h p w =
    digest-encode h (spi (spi_of p))
      (unfold IsWellFormed in (w.leaf, w.submission, w.accepted, w.promised))

-- A promise is accepted exactly when it is acceptable: the expected key, the fixed delay, a promised
-- epoch within it, an acceptance epoch at most one behind the observed one and never ahead, and a
-- signature over the promise's digest.
pub verify_promise-accepts_iff :
    (h : Hasher) (v : Verifier) (p : SignedPromise) (key : Bytes) (observed : ℕ)
    → IsPromise p
    → (verify_promise h v p key observed ≡ ok tt) ↔ IsAcceptable v h p key observed
unfolding verify_promise
verify_promise-accepts_iff h v p key observed w = (
  λ e. record {
    expected = bytes_eq→eq _ _ (ground arith);
    delay = ground arith;
    not_backwards = ground arith;
    not_deferred = ground arith;
    not_ahead = ground arith;
    recent = ground arith;
    signed = ground (arith, promise_digest-ok h p w);
  },
  λ a.
      ground (arith, a.expected, bytes_eq_iff p.batcher_key key, promise_digest-ok h p w, a.signed),
)

-- A promise is kept exactly by a proof for the published epoch, with that epoch in the window from
-- the promised epoch to the delay after it, that verifies for the promise's own leaf.
pub promise_kept_iff :
    (h : Hasher) (p : SignedPromise) (proof : InclusionProof) (published : PublishedRoot)
    → (promise_kept h p proof published ≡ ok tt) ↔ (
        (proof.epoch ≡ published.epoch)
        × (p.promised_epoch ≤ published.epoch)
        × (published.epoch ≤ p.promised_epoch + p.max_merge_delay)
        × (verify h p.leaf proof published.root ≡ ok tt))
unfolding promise_kept
promise_kept_iff h p proof published = (λ e. ground arith, λ a. ground arith)

-- A root published outside the window, before it or after it, never keeps a promise.
pub promise_kept-outside :
    (h : Hasher) (p : SignedPromise) (proof : InclusionProof) (published : PublishedRoot)
    → proof.epoch ≡ published.epoch
    → (published.epoch < p.promised_epoch)
      ⊎ (p.promised_epoch + p.max_merge_delay < published.epoch)
    → promise_kept h p proof published ≡ err merge_delay_exceeded
unfolding promise_kept
promise_kept-outside h p proof published same outside = ground arith
