-- ===== src/Log/Proof/Included.antt =====
-- The builder and the verifier together: every submission of a sealed epoch has a proof that
-- verifies against the epoch's root.
use Prim.Native.Nat.{◌≤◌}
use potash.Common.{ℕ, ◌^◌, ◌<◌, ◌≡◌, sym, ap, ◌∙◌, arith, List, [], some, length, Bytes}
use potash.Common.{lt→ltb, lt-get_elem?, bytes_eq_refl}
use potash.Core.Error.{ok}
use potash.Core.Hash.{Hasher, Digest}
use potash.Log.Tree.{
  Submission, BuiltEpoch, InclusionProof, build, proof, slot_of, proof_loop, min_height, max_height,
}
use potash.Log.Tree.Order.{leaf_of_id}
use potash.Log.Tree.Order.Distinct.{Distinct}
use potash.Log.Tree.Slots.{real_digest, real_leaf-digest}
use potash.Log.Tree.Build.{IsTree, IsInput, build-Distinct}
use potash.Log.Tree.Levels.Siblings.{siblings_of, length-siblings_of, proof_loop-ok}
use potash.Log.Proof.{climb, verify, verify_for_height}
use potash.Log.Proof.Complete.{climb-root}

-- A proof whose parts are in range and whose climb ends at the root verifies.
verify-climb :
    (h : Hasher) (leaf : Digest) (p : InclusionProof) (root : Digest)
    → length leaf ≡ 32
    → min_height ≤ p.height
    → p.height ≤ max_height
    → length p.siblings ≡ p.height
    → p.slot_index < 2 ^ p.height
    → climb h (real_digest h leaf) p.slot_index p.siblings ≡ ok root
    → verify h leaf p root ≡ ok tt
unfolding verify
verify-climb h leaf p root len lo hi size slot top = ground (
  arith,
  lt→ltb p.slot_index (2 ^ p.height) slot,
  real_leaf-digest h leaf len,
  bytes_eq_refl root,
)

-- `proof` on a tree: the slot of the identifier and its siblings.
proof_run :
    (b : BuiltEpoch) (id : Bytes) {slot : ℕ} {siblings : List Digest}
    → slot_of id b.assignment ≡ some slot
    → proof_loop b 0 b.height slot [] ≡ ok siblings
    → proof b id
      ≡ ok (record { height = b.height; siblings = siblings; slot_index = slot; epoch = b.epoch })
unfolding proof
proof_run b id e f = rw (e, f)

pub IsTree-proof :
    (h : Hasher) {epoch height : ℕ} {real : List Submission} (b : BuiltEpoch)
    → min_height ≤ height
    → height ≤ max_height
    → IsTree h epoch height real b
    → (id : Bytes) (leaf : Digest) → length leaf ≡ 32
    → leaf_of_id id real ≡ some leaf
    → (p : InclusionProof) × (proof b id ≡ ok p)
      × (verify_for_height h leaf p b.root height ≡ ok tt)
      × (p.epoch ≡ epoch)
unfolding verify_for_height
IsTree-proof h {epoch} {height} b lo hi tree id leaf len found =
    let (slot, named, held) = tree.placed id leaf found in
    let inside : slot < length b.leaves = lt-get_elem? b.leaves slot (real_digest h leaf) held in
    let siblings : List Digest = siblings_of h b.height b.leaves slot in
    let p : InclusionProof = record {
      height = b.height;
      siblings = siblings;
      slot_index = slot;
      epoch = b.epoch;
    } in
    let top : climb h (real_digest h leaf) slot siblings ≡ ok b.root =
      climb-root h b.height b.leaves slot (real_digest h leaf) tree.size tree.widths held
        (omega arith)
      ∙ ap ok (sym tree.root) in
    let verified : verify h leaf p b.root ≡ ok tt =
      verify-climb h leaf p b.root len (omega arith) (omega arith)
        (length-siblings_of h b.height b.leaves slot) (omega arith) top in
    (
      p,
      proof_run b id named
          (proof_loop-ok h b b.height slot tree.size (omega arith) tree.nodes inside),
      ground (arith, verified, tree.at_height),
      tree.at_epoch,
    )

-- In an epoch of distinct submissions every one can be proved: `build` succeeds, and `proof` answers
-- each identifier with a proof for the epoch that verifies for its leaf against the root.
pub build-proof-verify :
    (h : Hasher) (epoch height : ℕ) (key : Digest) (real : List Submission)
    → IsInput epoch key real
    → min_height ≤ height
    → height ≤ max_height
    → length real ≤ 2 ^ height
    → Distinct real
    → (id : Bytes) (leaf : Digest) → length leaf ≡ 32
    → leaf_of_id id real ≡ some leaf
    → (b : BuiltEpoch) × (p : InclusionProof) × (build h epoch height key real ≡ ok b)
      × (proof b id ≡ ok p)
      × (verify_for_height h leaf p b.root height ≡ ok tt)
      × (p.epoch ≡ epoch)
build-proof-verify h epoch height key real input lo hi fits distinct id leaf len found =
    let (b, built, tree) = build-Distinct h input lo hi fits distinct in
    let (p, proved, verified, at) = IsTree-proof h b lo hi tree id leaf len found in
    (b, p, built, proved, verified, at)
