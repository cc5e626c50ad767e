-- ===== src/Log/Promise.antt =====
-- crates/certimining-log/src/promise.rs: signed inclusion promises.
pub mod Policy
pub mod Encoding
use potash.Common.{
  ℕ, ◌≡◌, not, List, [], ◌∷◌, ◌++◌, Bytes, bytes_eq, le_bytes, leb, ◌==◌, checked_sub,
}
use potash.Core.Error.{
  Result, ok, err, ◌>>=◌, ◌>>◌, guard, ok_or, attestation_key_mismatch, promise_policy_invalid,
  inclusion_proof_invalid, merge_delay_exceeded,
}
use potash.Core.Hash.{Hasher, Verifier, Digest}
use potash.Core.Preimage.{SpiPreimage, spi, digest}
use potash.Log.Tree.{InclusionProof}
use potash.Log.Proof.{verify}

abbrev pub max_merge_delay : ℕ
max_merge_delay = 2

abbrev pub promise_encoded_len : ℕ
promise_encoded_len = 161

pub record PublishedRoot : Type 0 where
  pub epoch : ℕ
  pub root : Digest

pub record SignedPromise : Type 0 where
  pub leaf : Digest
  pub submission_id : Bytes
  pub accepted_epoch : ℕ
  pub promised_epoch : ℕ
  pub max_merge_delay : ℕ
  pub batcher_key : Bytes
  pub signature : Bytes

unfoldable pub encode_promise : SignedPromise → Bytes
encode_promise p =
    p.leaf
    ++ (p.submission_id
        ++ (le_bytes 8 p.accepted_epoch
            ++ (le_bytes 8 p.promised_epoch
                ++ ((p.max_merge_delay ∷ []) ++ (p.batcher_key ++ p.signature)))))

abbrev pub spi_of : SignedPromise → SpiPreimage
spi_of p = record {
  leaf = p.leaf;
  submission_id = p.submission_id;
  accepted_epoch = p.accepted_epoch;
  promised_epoch = p.promised_epoch;
  max_merge_delay = p.max_merge_delay;
}

unfoldable pub promise_digest : Hasher → SignedPromise → Result Digest
promise_digest h p = digest h (spi (spi_of p))

unfoldable pub verify_promise : Hasher → Verifier → SignedPromise → Bytes → ℕ → Result (Unit {0})
verify_promise h v p expected_batcher_key observed_epoch = do
  guard (bytes_eq p.batcher_key expected_batcher_key) attestation_key_mismatch
  guard (p.max_merge_delay == max_merge_delay) promise_policy_invalid
  deferred ← ok_or (checked_sub p.promised_epoch p.accepted_epoch) promise_policy_invalid
  guard (leb deferred max_merge_delay) promise_policy_invalid
  behind ← ok_or (checked_sub observed_epoch p.accepted_epoch) promise_policy_invalid
  guard (leb behind 1) promise_policy_invalid
  signed ← promise_digest h p
  v.verify expected_batcher_key signed p.signature

unfoldable pub promise_kept :
    Hasher → SignedPromise → InclusionProof → PublishedRoot → Result (Unit {0})
promise_kept h p proof published = do
  guard (proof.epoch == published.epoch) inclusion_proof_invalid
  elapsed ← ok_or (checked_sub published.epoch p.promised_epoch) merge_delay_exceeded
  guard (leb elapsed p.max_merge_delay) merge_delay_exceeded
  verify h p.leaf proof published.root
