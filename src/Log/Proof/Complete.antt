-- ===== src/Log/Proof/Complete.antt =====
-- `verify` accepts the siblings of a leaf, on every complete tree.
use potash.Common.{ℕ, zero, suc, ◌*◌, ◌/◌, ◌%◌, ◌^◌, ◌<◌, ◌≡◌, ◌∙◌, arith}
use potash.Common.{List, [], ◌∷◌, some, length, get_elem?, get_elem?-lt, Bool-cases}
use potash.Common.{◌==◌, if◌then◌else◌, inl, inr}
use potash.Core.Error.{ok}
use potash.Core.Hash.{Hasher, Digest}
use potash.Core.Preimage.{node, digest}
use potash.Log.Tree.{sibling_of}
use potash.Log.Tree.Levels.{
  parents, root_of, node_digest, node-digest, Widths, parents-Widths, length-parents, pow2-suc,
}
use potash.Log.Tree.Levels.Siblings.{siblings_of, parent_of, sibling_of-lt}
use potash.Log.Proof.{climb, children}

pub width_at :
    (xs : List Digest) (i : ℕ) (d : Digest) → Widths xs → get_elem? xs i ≡ some d → length d ≡ 32
width_at [] i d w e = cc
width_at (x ∷ xs) zero d w e = ground (arith, w.0)
width_at (x ∷ xs) (suc i) d w e = width_at xs i d w.1 e

module _ (h : Hasher) where
  children-digest :
      (index : ℕ) (x y : Digest)
      → length x ≡ 32
      → length y ≡ 32
      → digest h (node (children index x y))
        ≡ ok (if index % 2 == 0 then node_digest h x y else node_digest h y x)
  children-digest index x y hx hy = elim (Bool-cases (index % 2 == 0)) [
    | inl left ↦ rw left (node-digest h x y hx hy)
    | inr right ↦ rw right (node-digest h y x hy hx)
  ]

  -- Climbing from a node of a level of 2 ^ n nodes by its siblings ends at the root.
  pub climb-root :
      (n : ℕ) (xs : List Digest) (i : ℕ) (x : Digest)
      → length xs ≡ 2 ^ n
      → Widths xs
      → get_elem? xs i ≡ some x
      → i < 2 ^ n
      → climb h x i (siblings_of h n xs i) ≡ ok (root_of h n xs)
  unfolding climb siblings_of root_of
  climb-root zero [] i x len w at lt = absurd (omega arith)
  climb-root zero (y ∷ xs) zero x len w at lt = cc
  climb-root zero (y ∷ xs) (suc i) x len w at lt = absurd (omega arith)
  climb-root (suc n) xs i x len w at lt =
      let even : length xs ≡ 2 * 2 ^ n = len ∙ pow2-suc n in
      let inside : sibling_of i < length xs =
        rw even (sibling_of-lt i (2 ^ n) (omega (arith, pow2-suc n))) in
      let (y, found) = get_elem?-lt xs (sibling_of i) inside in
      rw
        (found, children-digest i x y (width_at xs i x w at) (width_at xs (sibling_of i) y w found))
        (climb-root n (parents h xs) (i / 2) _ (length-parents h (2 ^ n) xs even)
          (parents-Widths h xs) (parent_of h xs i x y at found) (omega (arith, pow2-suc n)))
