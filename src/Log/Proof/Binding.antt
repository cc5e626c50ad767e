-- ===== src/Log/Proof/Binding.antt =====
-- One slot of one root holds one leaf: what the digests of two accepted proofs determine.
use potash.Common.{ℕ, ◌/◌, ◌≡◌, refl, sym, ◌∙◌, arith, inl}
use potash.Common.{List, [], ◌∷◌, ◌++◌, Bytes, length, bytes_eq→eq}
use potash.Core.Error.{ok}
use potash.Core.Hash.{Hasher, Digest, hash, CollisionFree}
use potash.Core.Hash.Collisions.{In-append_right, CollisionFree-shorter}
use potash.Core.Preimage.{Preimage, node, real_leaf, encode, IsWellFormed}
use potash.Core.Preimage.Binding.{hash-injective}
use potash.Core.Preimage.Write.{digest-encode}
use potash.Log.Tree.{InclusionProof}
use potash.Log.Tree.Slots.{real_digest, real_leaf-digest}
use potash.Log.Tree.Levels.{Widths}
use potash.Log.Proof.{climb, children, verify}

-- The digest of a node with its sibling.
abbrev parent_digest : Hasher → ℕ → Digest → Digest → Digest
parent_digest h i x s = hash h (encode (node (children i x s)))

abbrev top_of : Hasher → Digest → ℕ → List Digest → Digest
top_of h x i [] = x
top_of h x i (s ∷ ss) = top_of h (parent_digest h i x s) (i / 2) ss

-- The messages that a climb hashes, and those that a verification hashes.
abbrev climbed : Hasher → Digest → ℕ → List Digest → List Bytes
climbed h x i [] = []
climbed h x i (s ∷ ss) =
    encode (node (children i x s)) ∷ climbed h (parent_digest h i x s) (i / 2) ss

abbrev pub verified_messages : Hasher → Digest → InclusionProof → List Bytes
verified_messages h leaf p =
    encode (real_leaf leaf) ∷ climbed h (real_digest h leaf) p.slot_index p.siblings

module _ (h : Hasher) where
  children-IsWellFormed :
      (i : ℕ) (x s : Digest) → length x ≡ 32 → length s ≡ 32 → IsWellFormed (node (children i x s))
  unfolding IsWellFormed
  children-IsWellFormed i x s hx hs = ground arith

  climb-top :
      (x : Digest) (i : ℕ) (ss : List Digest)
      → length x ≡ 32
      → Widths ss
      → climb h x i ss ≡ ok (top_of h x i ss)
  unfolding climb
  climb-top x i [] hx w = refl
  climb-top x i (s ∷ ss) hx w =
      rw (digest-encode h (node (children i x s)) (children-IsWellFormed i x s hx w.0))
        (climb-top (parent_digest h i x s) (i / 2) ss (h.hashv-IsDigest _).0 w.1)

  children-injective :
      (i : ℕ) (x y s t : Digest) → node (children i x s) ≡ node (children i y t) → (x ≡ y) × (s ≡ t)
  children-injective i x y s t e = ground arith

  climb-binds :
      (x y : Digest) (i : ℕ) (ss ts : List Digest)
      → length x ≡ 32
      → length y ≡ 32
      → Widths ss
      → Widths ts
      → length ss ≡ length ts
      → CollisionFree h (climbed h x i ss ++ climbed h y i ts)
      → top_of h x i ss ≡ top_of h y i ts
      → (x ≡ y) × (ss ≡ ts)
  climb-binds x y i [] [] hx hy ws wt len free e = (e, refl)
  climb-binds x y i [] (t ∷ ts) hx hy ws wt len free e = absurd (omega arith)
  climb-binds x y i (s ∷ ss) [] hx hy ws wt len free e = absurd (omega arith)
  climb-binds x y i (s ∷ ss) (t ∷ ts) hx hy ws wt len free e =
      let p : Preimage = node (children i x s) in
      let q : Preimage = node (children i y t) in
      let (parents, rest) =
        climb-binds (parent_digest h i x s) (parent_digest h i y t) (i / 2) ss ts
          (h.hashv-IsDigest _).0 (h.hashv-IsDigest _).0 ws.1 wt.1 (omega arith)
          (CollisionFree-shorter h (encode p ∷ []) (climbed h (parent_digest h i x s) (i / 2) ss)
            (encode q ∷ []) (climbed h (parent_digest h i y t) (i / 2) ts) free)
          e in
      let same : p ≡ q =
        hash-injective h (climbed h x i (s ∷ ss) ++ climbed h y i (t ∷ ts)) p q free
          (children-IsWellFormed i x s hx ws.0) (children-IsWellFormed i y t hy wt.0) (inl refl)
          (In-append_right _ (climbed h x i (s ∷ ss)) (climbed h y i (t ∷ ts)) (inl refl))
          parents in
      let (below, beside) = children-injective i x y s t same in (below, cc (beside, rest))

  -- An accepted proof has one sibling for each level, and its climb ends at the root.
  verify-ok :
      (leaf : Digest) (p : InclusionProof) (root : Digest)
      → length leaf ≡ 32
      → Widths p.siblings
      → verify h leaf p root ≡ ok tt
      → (length p.siblings ≡ p.height)
        × (top_of h (real_digest h leaf) p.slot_index p.siblings ≡ root)
  unfolding verify
  verify-ok leaf p root len w accepted =
      let entered = real_leaf-digest h leaf len in
      let top = climb-top (real_digest h leaf) p.slot_index p.siblings (h.hashv-IsDigest _).0 w in
      (ground (arith, entered, top), bytes_eq→eq _ _ (ground (arith, entered, top)))

  leaves-bind :
      (leaf other : Digest) (i : ℕ) (ss ts : List Digest)
      → length leaf ≡ 32
      → length other ≡ 32
      → Widths ss
      → Widths ts
      → length ss ≡ length ts
      → CollisionFree h (
          (encode (real_leaf leaf) ∷ climbed h (real_digest h leaf) i ss)
          ++ (encode (real_leaf other) ∷ climbed h (real_digest h other) i ts))
      → top_of h (real_digest h leaf) i ss ≡ top_of h (real_digest h other) i ts
      → (leaf ≡ other) × (ss ≡ ts)
  leaves-bind leaf other i ss ts hl ho ws wt len free e =
      let front : List Bytes = encode (real_leaf leaf) ∷ climbed h (real_digest h leaf) i ss in
      let back : List Bytes = encode (real_leaf other) ∷ climbed h (real_digest h other) i ts in
      let (entered, siblings) =
        climb-binds (real_digest h leaf) (real_digest h other) i ss ts (h.hashv-IsDigest _).0
          (h.hashv-IsDigest _).0 ws wt len
          (CollisionFree-shorter h (encode (real_leaf leaf) ∷ [])
            (climbed h (real_digest h leaf) i ss) (encode (real_leaf other) ∷ [])
            (climbed h (real_digest h other) i ts) free)
          e in
      let same : real_leaf leaf ≡ real_leaf other =
        hash-injective h (front ++ back) (real_leaf leaf) (real_leaf other) free
          (unfold IsWellFormed in hl) (unfold IsWellFormed in ho) (inl refl)
          (In-append_right _ front back (inl refl)) entered in
      (cc, siblings)

  -- Two accepted proofs for one slot at one height against one root are for one leaf, with the same
  -- siblings, when no two messages that the verifications hash collide.
  pub verify-binds :
      (leaf other : Digest) (p q : InclusionProof) (root : Digest)
      → length leaf ≡ 32
      → length other ≡ 32
      → Widths p.siblings
      → Widths q.siblings
      → p.height ≡ q.height
      → p.slot_index ≡ q.slot_index
      → CollisionFree h (verified_messages h leaf p ++ verified_messages h other q)
      → verify h leaf p root ≡ ok tt
      → verify h other q root ≡ ok tt
      → (leaf ≡ other) × (p.siblings ≡ q.siblings)
  verify-binds leaf other p q root hl ho wp wq heights slots free accepted accepted' =
      let (lp, tp) = verify-ok leaf p root hl wp accepted in
      let (lq, tq) = verify-ok other q root ho wq accepted' in
      leaves-bind leaf other p.slot_index p.siblings q.siblings hl ho wp wq (omega arith)
        (rw slots (rw slots at free)) (tp ∙ sym (rw slots tq))
