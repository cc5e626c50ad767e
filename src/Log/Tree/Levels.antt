-- ===== src/Log/Tree/Levels.antt =====
-- The levels of a complete tree as plain functions of its leaves, and the loops that compute them.
pub mod Siblings
use Prim.Native.Nat.{◌≤◌}
use native.Mathlib.Nat.{pow-suc}
use potash.Common.{ℕ, zero, suc, ◌+◌, ◌*◌, ◌^◌, ◌<◌, ◌≡◌, refl, ap, ◌∙◌, List, [], ◌∷◌, ◌++◌, arith}
use potash.Common.{
  length, All, ltb, if◌then◌else◌, append_assoc, append-nil, pow2-pos, lt→ltb, true,
}
use potash.Core.Error.{Result, ok, err, ◌>>=◌}
use potash.Core.Hash.{Hasher, Digest, hash}
use potash.Core.Preimage.{node, digest, encode, IsWellFormed}
use potash.Core.Preimage.Write.{digest-encode}
use potash.Log.Tree.{parents_of, levels_loop, levels_above, first}

abbrev pub node_digest : Hasher → Digest → Digest → Digest
node_digest h l r = hash h (encode (node (record { left = l; right = r })))

unfoldable pub parents : Hasher → List Digest → List Digest
parents h [] = []
parents h (l ∷ []) = []
parents h (l ∷ r ∷ rest) = node_digest h l r ∷ parents h rest

-- The levels above a level of 2 ^ n nodes, one after the other, and the root.
unfoldable pub above : Hasher → ℕ → List Digest → List Digest
above h zero xs = []
above h (suc n) xs = parents h xs ++ above h n (parents h xs)

unfoldable pub root_of : Hasher → ℕ → List Digest → Digest
root_of h zero [] = []
root_of h zero (x ∷ xs) = x
root_of h (suc n) xs = root_of h n (parents h xs)

abbrev pub Widths : List Digest → Type 0
Widths xs = All (λ d. length d ≡ 32) xs

pub pow2-suc : (n : ℕ) → 2 ^ suc n ≡ 2 * 2 ^ n
pow2-suc n = rw (pow-suc 2 n) (omega arith)

module _ (h : Hasher) where
  pub node-digest :
      (l r : Digest)
      → length l ≡ 32
      → length r ≡ 32
      → digest h (node (record { left = l; right = r })) ≡ ok (node_digest h l r)
  node-digest l r hl hr = digest-encode h _ (unfold IsWellFormed in (hl, hr))

  parents_of-ok :
      (n : ℕ) (xs : List Digest)
      → length xs ≡ 2 * n
      → Widths xs
      → parents_of h xs ≡ ok (parents h xs)
  unfolding parents_of parents
  parents_of-ok n [] len w = refl
  parents_of-ok n (l ∷ []) len w = absurd (omega arith)
  parents_of-ok zero (l ∷ r ∷ rest) len w = absurd (omega arith)
  parents_of-ok (suc n) (l ∷ r ∷ rest) len w =
      rw (node-digest l r w.0 w.1.0, parents_of-ok n rest (omega arith) w.1.1)

  pub length-parents : (n : ℕ) (xs : List Digest) → length xs ≡ 2 * n → length (parents h xs) ≡ n
  unfolding parents
  length-parents n [] len = omega arith
  length-parents n (l ∷ []) len = absurd (omega arith)
  length-parents zero (l ∷ r ∷ rest) len = absurd (omega arith)
  length-parents (suc n) (l ∷ r ∷ rest) len = ap suc (length-parents n rest (omega arith))

  pub parents-Widths : (xs : List Digest) → Widths (parents h xs)
  unfolding parents
  parents-Widths [] = tt
  parents-Widths (l ∷ []) = tt
  parents-Widths (l ∷ r ∷ rest) = ((h.hashv-IsDigest _).0, parents-Widths rest)

  levels_loop-ok :
      (n fuel : ℕ) (nodes xs : List Digest)
      → length xs ≡ 2 ^ n
      → n ≤ fuel
      → Widths xs
      → levels_loop h fuel nodes xs ≡ ok (nodes ++ above h n xs, root_of h n xs)
  unfolding levels_loop above root_of
  levels_loop-ok zero fuel nodes [] len enough w = absurd (omega arith)
  levels_loop-ok zero zero nodes (x ∷ []) len enough w = rw append-nil
  levels_loop-ok zero (suc fuel) nodes (x ∷ []) len enough w = rw append-nil
  levels_loop-ok zero fuel nodes (x ∷ y ∷ xs) len enough w = absurd (omega arith)
  levels_loop-ok (suc n) zero nodes xs len enough w = absurd (omega arith)
  levels_loop-ok (suc n) (suc fuel) nodes xs len enough w =
      let even : length xs ≡ 2 * 2 ^ n = len ∙ pow2-suc n in
      let many : 1 < length xs = omega (arith, pow2-pos n) in
      rw (
        lt→ltb 1 (length xs) many,
        parents_of-ok (2 ^ n) xs even w,
        levels_loop-ok n fuel (nodes ++ parents h xs) (parents h xs)
            (length-parents (2 ^ n) xs even) (omega arith) (parents-Widths xs),
        append_assoc,
      )

  le-pow2 : (n : ℕ) → n ≤ 2 ^ n
  le-pow2 zero = omega arith
  le-pow2 (suc n) = omega (arith, le-pow2 n, pow2-suc n, pow2-pos n)

  -- The loop runs over every level and ends: `nodes` holds them all and the root is the top.
  pub levels_above-ok :
      (n : ℕ) (leaves : List Digest)
      → length leaves ≡ 2 ^ n
      → Widths leaves
      → levels_above h leaves ≡ ok (above h n leaves, root_of h n leaves)
  unfolding levels_above
  levels_above-ok n leaves len w =
      levels_loop-ok n (length leaves) [] leaves len (omega (arith, le-pow2 n)) w

  pub root_of-width :
      (n : ℕ) (xs : List Digest) → length xs ≡ 2 ^ n → Widths xs → length (root_of h n xs) ≡ 32
  unfolding root_of
  root_of-width zero [] size w = absurd (omega arith)
  root_of-width zero (x ∷ xs) size w = w.0
  root_of-width (suc n) xs size w =
      let even : length xs ≡ 2 * 2 ^ n = size ∙ pow2-suc n in
      root_of-width n (parents h xs) (length-parents (2 ^ n) xs even) (parents-Widths xs)
