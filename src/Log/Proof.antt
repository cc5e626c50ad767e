-- ===== src/Log/Proof.antt =====
-- crates/certimining-log/src/proof.rs: the pure verifier of inclusion proofs.
pub mod Complete
pub mod Binding
pub mod Included
use potash.Common.{
  ℕ, ◌+◌, ◌/◌, ◌%◌, ◌^◌, ◌≡◌, Bool, true, false, not, List, [], ◌∷◌, Bytes, bytes_eq,
}
use potash.Common.{length, ltb, ◌==◌, in_range, if◌then◌else◌}
use potash.Core.Error.{Result, ok, err, ◌>>=◌, ◌>>◌, guard, inclusion_proof_invalid}
use potash.Core.Hash.{Hasher, Digest}
use potash.Core.Preimage.{NodePreimage, real_leaf, node, digest}
use potash.Log.Tree.{InclusionProof, min_height, max_height}

-- The two children, the side taken from the lowest bit.
abbrev pub children : ℕ → Digest → Digest → NodePreimage
children index current sibling =
    if index % 2 == 0
    then record { left = current; right = sibling }
    else record { left = sibling; right = current }

-- The loop over the siblings; `index.checked_shr(1)` of a `u32` is `index / 2`.
unfoldable pub climb : Hasher → Digest → ℕ → List Digest → Result Digest
climb h current index [] = ok current
climb h current index (sibling ∷ siblings) = do
  parent ← digest h (node (children index current sibling))
  climb h parent (index / 2) siblings

unfoldable pub verify : Hasher → Digest → InclusionProof → Digest → Result (Unit {0})
verify h leaf proof root = do
  guard (in_range min_height max_height proof.height) inclusion_proof_invalid
  guard (length proof.siblings == proof.height) inclusion_proof_invalid
  guard (ltb proof.slot_index (2 ^ proof.height)) inclusion_proof_invalid
  entered ← digest h (real_leaf leaf)
  top ← climb h entered proof.slot_index proof.siblings
  guard (bytes_eq top root) inclusion_proof_invalid

unfoldable pub verify_for_height : Hasher → Digest → InclusionProof → Digest → ℕ → Result (Unit {0})
unfolding verify
verify_for_height h leaf proof root configured_height = do
  guard (proof.height == configured_height) inclusion_proof_invalid
  verify h leaf proof root
