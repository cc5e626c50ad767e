-- ===== src/Log/Tree/Levels/Siblings.antt =====
-- The siblings on the way from a leaf to the root, and that `proof` finds them in its store.
use Prim.Native.Nat.{◌≤◌}
use potash.Common.{ℕ, zero, suc, ◌+◌, ◌-◌, ◌*◌, ◌/◌, ◌%◌, ◌^◌, ◌<◌, ◌≡◌, refl, sym, ap, ◌∙◌}
use potash.Common.{List, [], ◌∷◌, ◌++◌, Option, none, some, append_assoc, append-nil, arith, false}
use potash.Common.{
  length, length-append, get_elem?, get_elem?-lt, get_elem?-append_left, get_elem?-append_right,
}
use potash.Common.{le→leb, ◌==◌, if◌then◌else◌, lt→ltb, pow2-shift, pow2_mono}
use potash.Core.Error.{ok}
use potash.Core.Hash.{Hasher, Digest}
use potash.Log.Tree.{BuiltEpoch, sibling_of, sibling_at, level_offset, proof_loop, max_siblings}
use potash.Log.Tree.Levels.{parents, above, node_digest, length-parents, pow2-suc}

-- A node's sibling in its level, and the siblings of the levels above.
abbrev pub or_empty : Option Digest → Digest
or_empty none = []
or_empty (some d) = d

unfoldable pub siblings_of : Hasher → ℕ → List Digest → ℕ → List Digest
siblings_of h zero xs i = []
siblings_of h (suc n) xs i =
    or_empty (get_elem? xs (sibling_of i)) ∷ siblings_of h n (parents h xs) (i / 2)

-- The sibling is in the level too.
pub sibling_of-lt : (i m : ℕ) → i < 2 * m → sibling_of i < 2 * m
sibling_of-lt i m h = ground arith

pub length-siblings_of :
    (h : Hasher) (n : ℕ) (xs : List Digest) (i : ℕ) → length (siblings_of h n xs i) ≡ n
unfolding siblings_of
length-siblings_of h zero xs i = refl
length-siblings_of h (suc n) xs i = ap suc (length-siblings_of h n (parents h xs) (i / 2))

-- The parent of a node and its sibling, the even one on the left.
pub parent_of :
    (h : Hasher) (xs : List Digest) (i : ℕ) (x y : Digest)
    → get_elem? xs i ≡ some x
    → get_elem? xs (sibling_of i) ≡ some y
    → get_elem? (parents h xs) (i / 2)
      ≡ some (if i % 2 == 0 then node_digest h x y else node_digest h y x)
unfolding parents
parent_of h [] i x y hx hy = cc
parent_of h (l ∷ []) zero x y hx hy = cc
parent_of h (l ∷ []) (suc i) x y hx hy = cc
parent_of h (l ∷ r ∷ rest) zero x y hx hy = cc
parent_of h (l ∷ r ∷ rest) (suc zero) x y hx hy = cc
parent_of h (l ∷ r ∷ rest) (suc (suc i)) x y hx hy =
    let half : suc (suc i) / 2 ≡ suc (i / 2) = omega arith in
    let parity : suc (suc i) % 2 ≡ i % 2 = omega arith in
    let place : sibling_of (suc (suc i)) ≡ suc (suc (sibling_of i)) = ground arith in
    rw (half, parity) (parent_of h rest i x y hx (rw place at hy))

level_offset-ok :
    (l n capacity : ℕ)
    → capacity ≡ 2 ^ (l + n)
    → level_offset (l + 1) capacity ≡ ok (capacity - 2 ^ n)
unfolding level_offset
level_offset-ok l n capacity e =
    let below : l + 1 - 1 ≡ l = omega arith in
    let shifted : capacity / 2 ^ l ≡ 2 ^ n = rw e (pow2-shift l n) in
    let small : 2 ^ n ≤ capacity = rw e (pow2_mono n (l + n) (omega arith)) in
    rw (le→leb 1 (l + 1) (omega arith), below, shifted, le→leb (2 ^ n) capacity small)

module _ (h : Hasher) (b : BuiltEpoch) where
  -- One round of the loop.
  proof_loop_step :
      (level remaining index : ℕ) (siblings : List Digest) (d : Digest)
      → sibling_at b level index ≡ ok (some d)
      → length siblings < max_siblings
      → proof_loop b level (suc remaining) index siblings
        ≡ proof_loop b (level + 1) remaining (index / 2) (siblings ++ (d ∷ []))
  unfolding proof_loop
  proof_loop_step level remaining index siblings d e room = rw (e, lt→ltb (length siblings) 16 room)

  -- Above the leaves the sibling is looked up in the store, behind the levels below.
  upper_sibling :
      (l r index : ℕ) (pre xs rest : List Digest)
      → length b.leaves ≡ 2 ^ (l + suc r)
      → length b.leaves ≤ 2 ^ 16
      → b.nodes ≡ pre ++ (xs ++ rest)
      → length pre ≡ length b.leaves - 2 ^ suc r
      → length xs ≡ 2 ^ r
      → sibling_of index < length xs
      → sibling_at b (l + 1) index ≡ ok (get_elem? xs (sibling_of index))
  unfolding sibling_at
  upper_sibling l r index pre xs rest size small store before len inside =
      let position : ℕ = length b.leaves - 2 ^ suc r + sibling_of index in
      let not_zero : (l + 1 == 0) ≡ false = ground arith in
      let offset_small : position < 2 ^ 64 = omega (arith, pow2_mono r (l + suc r) (omega arith)) in
      let found : get_elem? b.nodes position ≡ get_elem? xs (sibling_of index) = rw store (
        get_elem?-append_right pre (xs ++ rest) position (sibling_of index) (omega arith)
        ∙ get_elem?-append_left xs rest (sibling_of index) inside) in
      rw (
        not_zero,
        level_offset-ok l (suc r) (length b.leaves) size,
        lt→ltb position (2 ^ 64) offset_small,
        found,
      )

  upper-ok :
      (r l index : ℕ) (siblings pre xs : List Digest)
      → length b.leaves ≡ 2 ^ (l + suc r)
      → length b.leaves ≤ 2 ^ 16
      → b.nodes ≡ pre ++ (xs ++ above h r xs)
      → length pre ≡ length b.leaves - 2 ^ suc r
      → length xs ≡ 2 ^ r
      → index < 2 ^ r
      → length siblings + r ≤ max_siblings
      → proof_loop b (l + 1) r index siblings ≡ ok (siblings ++ siblings_of h r xs index)
  unfolding siblings_of above
  upper-ok zero l index siblings pre xs size small store before len lt room =
      unfold proof_loop in rw append-nil
  upper-ok (suc m) l index siblings pre xs size small store before len lt room =
      let even : length xs ≡ 2 * 2 ^ m = len ∙ pow2-suc m in
      let inside : sibling_of index < length xs =
        rw even (sibling_of-lt index (2 ^ m) (omega (arith, pow2-suc m))) in
      let (d, found) = get_elem?-lt xs (sibling_of index) inside in
      let size' : length b.leaves ≡ 2 ^ (l + 1 + suc m) =
        size ∙ ap (λ (t : ℕ). 2 ^ t) (omega arith) in
      let larger : 2 ^ suc (suc m) ≤ length b.leaves =
        rw size (pow2_mono (suc (suc m)) (l + suc (suc m)) (omega arith)) in
      proof_loop_step (l + 1) m index siblings d
        (upper_sibling l (suc m) index pre xs _ size small store before len inside ∙ ap ok found)
        (omega arith)
      ∙ upper-ok m (l + 1) (index / 2) (siblings ++ (d ∷ [])) (pre ++ xs) (parents h xs) size' small
          (store ∙ sym (append_assoc pre xs (parents h xs ++ above h m (parents h xs))))
          (omega (arith, length-append pre xs, pow2-suc (suc m))) (length-parents h (2 ^ m) xs even)
          (omega (arith, pow2-suc m)) (omega (arith, length-append siblings (d ∷ [])))
      ∙ ap ok (
          append_assoc siblings (d ∷ []) (siblings_of h m (parents h xs) (index / 2))
          ∙ ap
              (λ (e : Option Digest).
                siblings ++ (or_empty e ∷ siblings_of h m (parents h xs) (index / 2)))
              (sym found))

  leaf_sibling : (index : ℕ) → sibling_at b 0 index ≡ ok (get_elem? b.leaves (sibling_of index))
  unfolding sibling_at
  leaf_sibling index = refl

  -- On a tree with its levels in store, the loop of `proof` collects the siblings of the slot.
  pub proof_loop-ok :
      (n slot : ℕ)
      → length b.leaves ≡ 2 ^ n
      → n ≤ max_siblings
      → b.nodes ≡ above h n b.leaves
      → slot < length b.leaves
      → proof_loop b 0 n slot [] ≡ ok (siblings_of h n b.leaves slot)
  unfolding above siblings_of
  proof_loop-ok zero slot size bound store lt = unfold proof_loop in refl
  proof_loop-ok (suc r) slot size bound store lt =
      let even : length b.leaves ≡ 2 * 2 ^ r = size ∙ pow2-suc r in
      let inside : sibling_of slot < length b.leaves =
        rw even (sibling_of-lt slot (2 ^ r) (omega arith)) in
      let (d, found) = get_elem?-lt b.leaves (sibling_of slot) inside in
      proof_loop_step 0 r slot [] d (leaf_sibling slot ∙ ap ok found) (omega arith)
      ∙ upper-ok r 0 (slot / 2) (d ∷ []) [] (parents h b.leaves)
          (size ∙ ap (λ (t : ℕ). 2 ^ t) (omega arith)) (rw size (pow2_mono (suc r) 16 bound)) store
          (omega arith) (length-parents h (2 ^ r) b.leaves even) (omega (arith, pow2-suc r))
          (omega arith)
      ∙ ap ok (
          ap (λ (e : Option Digest). or_empty e ∷ siblings_of h r (parents h b.leaves) (slot / 2))
            (sym found))
