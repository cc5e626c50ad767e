-- ===== src/Core/State/Head.antt =====
-- A head commits to the whole chain: what was hashed, and what one head therefore determines.
use potash.Common.{◌≡◌, refl, List, [], ◌∷◌, ◌++◌, inl, inr, arith}
use potash.Common.{Bytes, length, All}
use potash.Core.Hash.{Hasher, Digest, hash, CollisionFree}
use potash.Core.Hash.Collisions.{In-append_right, CollisionFree-shorter}
use potash.Core.Preimage.{
  Preimage, LeafPreimage, genesis_head, leaf, step_head, encode, IsWellFormed,
}
use potash.Core.Preimage.Binding.{hash-injective}
use potash.Core.State.{schema_version_1}

abbrev pub genesis_preimage : Digest → Preimage
genesis_preimage c =
    genesis_head (record { asset_commitment = c; schema_version = schema_version_1 })

-- The head after the given leaves, the newest first.
unfoldable pub head_of : Hasher → Digest → List LeafPreimage → Digest
head_of h c [] = hash h (encode (genesis_preimage c))
head_of h c (p ∷ ps) =
    hash h
      (encode (step_head (record { prev_head = head_of h c ps; leaf = hash h (encode (leaf p)) })))

abbrev step_preimage : Hasher → Digest → LeafPreimage → List LeafPreimage → Preimage
step_preimage h c p ps =
    step_head (record { prev_head = head_of h c ps; leaf = hash h (encode (leaf p)) })

-- Every message that is hashed on the way to that head.
unfoldable pub hashed : Hasher → Digest → List LeafPreimage → List Bytes
hashed h c [] = encode (genesis_preimage c) ∷ []
hashed h c (p ∷ ps) = encode (step_preimage h c p ps) ∷ encode (leaf p) ∷ hashed h c ps

abbrev pub IsLeafList : List LeafPreimage → Type 0
IsLeafList ps = All (λ p. IsWellFormed (leaf p)) ps

module _ (h : Hasher) where
  length-head_of : (c : Digest) (ps : List LeafPreimage) → length (head_of h c ps) ≡ 32
  unfolding head_of
  length-head_of c [] = (h.hashv-IsDigest _).0
  length-head_of c (p ∷ ps) = (h.hashv-IsDigest _).0

  pub genesis-IsWellFormed : (c : Digest) → length c ≡ 32 → IsWellFormed (genesis_preimage c)
  unfolding IsWellFormed
  genesis-IsWellFormed c hc = omega arith

  step-IsWellFormed :
      (c : Digest) (p : LeafPreimage) (ps : List LeafPreimage)
      → IsWellFormed (step_preimage h c p ps)
  unfolding IsWellFormed
  step-IsWellFormed c p ps = (length-head_of c ps, (h.hashv-IsDigest _).0)

  -- One head comes from one commitment and one list of leaves, when no two of the messages hashed
  -- on the two ways collide.
  pub head_of-injective :
      (c d : Digest) (ps qs : List LeafPreimage)
      → length c ≡ 32
      → length d ≡ 32
      → IsLeafList ps
      → IsLeafList qs
      → CollisionFree h (hashed h c ps ++ hashed h d qs)
      → head_of h c ps ≡ head_of h d qs
      → (c ≡ d) × (ps ≡ qs)
  unfolding head_of hashed
  head_of-injective c d [] [] hc hd hp hq free e =
      let same : genesis_preimage c ≡ genesis_preimage d =
        hash-injective h (hashed h c [] ++ hashed h d []) (genesis_preimage c) (genesis_preimage d)
          free (genesis-IsWellFormed c hc) (genesis-IsWellFormed d hd) (inl refl) (inr (inl refl))
          e in
      (cc, refl)
  head_of-injective c d [] (q ∷ qs) hc hd hp hq free e =
      let same : genesis_preimage c ≡ step_preimage h d q qs =
        hash-injective h (hashed h c [] ++ hashed h d (q ∷ qs)) (genesis_preimage c)
          (step_preimage h d q qs) free (genesis-IsWellFormed c hc) (step-IsWellFormed d q qs)
          (inl refl) (inr (inl refl)) e in
      cc
  head_of-injective c d (p ∷ ps) [] hc hd hp hq free e =
      let same : step_preimage h c p ps ≡ genesis_preimage d =
        hash-injective h (hashed h c (p ∷ ps) ++ hashed h d []) (step_preimage h c p ps)
          (genesis_preimage d) free (step-IsWellFormed c p ps) (genesis-IsWellFormed d hd)
          (inl refl) (In-append_right _ (hashed h c (p ∷ ps)) (hashed h d []) (inl refl)) e in
      cc
  head_of-injective c d (p ∷ ps) (q ∷ qs) hc hd hp hq free e =
      let all : List Bytes = hashed h c (p ∷ ps) ++ hashed h d (q ∷ qs) in
      let same : step_preimage h c p ps ≡ step_preimage h d q qs =
        hash-injective h all (step_preimage h c p ps) (step_preimage h d q qs) free
          (step-IsWellFormed c p ps) (step-IsWellFormed d q qs) (inl refl)
          (In-append_right _ (hashed h c (p ∷ ps)) (hashed h d (q ∷ qs)) (inl refl)) e in
      let leaves : leaf p ≡ leaf q =
        hash-injective h all (leaf p) (leaf q) free hp.0 hq.0 (inr (inl refl))
          (In-append_right _ (hashed h c (p ∷ ps)) (hashed h d (q ∷ qs)) (inr (inl refl))) (cc) in
      let earlier : (c ≡ d) × (ps ≡ qs) =
        head_of-injective c d ps qs hc hd hp.1 hq.1
          (CollisionFree-shorter h (encode (step_preimage h c p ps) ∷ encode (leaf p) ∷ [])
            (hashed h c ps) (encode (step_preimage h d q qs) ∷ encode (leaf q) ∷ []) (hashed h d qs)
            free)
          (cc) in
      (earlier.0, cc (earlier.1))
