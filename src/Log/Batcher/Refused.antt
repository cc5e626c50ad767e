-- ===== src/Log/Batcher/Refused.antt =====
-- A refusal moves nothing.
use potash.Common.{ℕ, ◌≡◌, arith}
use potash.Core.Error.{RegistryError, err}
use potash.Core.Hash.{Hasher, Signer, Digest}
use potash.Log.Batcher.{EpochBatcher, submit, seal, next_identifier}

-- A submission that is refused, be it that no epoch has room, that the counter is at its end or that
-- the signer fails, leaves the batcher as it was.
pub submit-refused :
    (h : Hasher) (signer : Signer) (leaf : Digest) (b : EpochBatcher) (e : RegistryError)
    → (submit h signer leaf b).1 ≡ err e
    → (submit h signer leaf b).0 ≡ b
unfolding submit next_identifier
submit-refused h signer leaf b e refused = ground arith

-- A refused seal leaves the batcher as it was.
pub seal-refused :
    (h : Hasher) (epoch : ℕ) (b : EpochBatcher) (e : RegistryError)
    → (seal h epoch b).1 ≡ err e
    → (seal h epoch b).0 ≡ b
unfolding seal
seal-refused h epoch b e refused = ground arith
