-- ===== src/Client/Bitcoin/Verified.antt =====
-- crates/certimining-client/src/bitcoin.rs: what a verified range of headers is.
use potash.Common.{
  ℕ, ◌+◌, ◌≡◌, ap, ◌∙◌, arith, true, Option, some, List, [], ◌∷◌, Option-cases, min, inl, inr,
  Bytes, bytes_eq, bytes_eq→eq,
}
use potash.Common.Early.{Early, go, Early-cases}
use potash.Core.Hash.{Digest}
use potash.Client.Bitcoin.Target.{target_from_bits, bits_from_target}
use potash.Client.Bitcoin.Retarget.{Network, lex_le}
use potash.Client.Bitcoin.Header.{
  saturating_add_32, u32_max, Header, HeaderRefused, Checkpoint, prev_hash, bits,
  less_than_or_equal_reversed,
}
use potash.Client.Bitcoin.Chain.{Periods, check_header, walk, periods_of, verify_chain_in}

-- The difficulty of a header under a limit: its bits are the canonical ones of a target no easier
-- than the limit, and its hash meets that target.
unfoldable pub Worked : Network → Header → Digest → Type 0
Worked rules header hash =
    (target : Bytes) × (target_from_bits (bits header) ≡ some target)
    × (bits_from_target target ≡ some (bits header))
    × (lex_le target rules.pow_limit ≡ true)
    × (less_than_or_equal_reversed hash target ≡ true)

-- Each header names the hash of the one before, the first one the checkpoint's.
unfoldable pub Chained : (Bytes → Digest) → Network → Digest → List Header → List Digest → Type 0
Chained sha256d rules previous [] [] = Unit
Chained sha256d rules previous [] (x ∷ xs) = ⊥
Chained sha256d rules previous (h ∷ hs) [] = ⊥
Chained sha256d rules previous (h ∷ hs) (x ∷ xs) =
    (prev_hash h ≡ previous) × (x ≡ sha256d h) × Worked rules h x × Chained sha256d rules x hs xs

module _ (sha256d : Bytes → Digest) (rules : Network) (periods : Periods)
    (headers : List Header) where
  check_header-go :
      (offset height : ℕ) (previous : Digest) (in_force : Bytes) (began : Option ℕ)
      (header : Header) (hash : Digest) (next : Bytes) (next_began : Option ℕ)
      → check_header sha256d rules periods headers offset height previous in_force began header
        ≡ go (hash, next, next_began)
      → (prev_hash header ≡ previous) × (hash ≡ sha256d header) × Worked rules header hash
  unfolding check_header Worked
  check_header-go offset height previous in_force began header hash next next_began h =
      elim (Option-cases (target_from_bits (bits header))) [
        | inl e ↦ absurd (ground (arith, h, e))
        | inr (target, e) ↦ elim (Option-cases (bits_from_target target)) [
          | inl c ↦ absurd (ground (arith, h, e, c))
          | inr (own, c) ↦
              let linked : bytes_eq (prev_hash header) previous ≡ true = ground (arith, h, e, c) in
              let canonical : own ≡ bits header = ground (arith, h, e, c) in
              let limited : lex_le target rules.pow_limit ≡ true = ground (arith, h, e, c) in
              let worked : less_than_or_equal_reversed (sha256d header) target ≡ true =
                ground (arith, h, e, c) in
              let same : hash ≡ sha256d header = ground (arith, h, e, c) in
              (
                bytes_eq→eq (prev_hash header) previous linked,
                same,
                (target, e, c ∙ ap some canonical, limited, rw same worked),
              )
        ]
      ]

  walk-Chained :
      (start offset : ℕ) (previous : Digest) (in_force : Bytes) (began : Option ℕ)
      (rest : List Header) (hashes : List Digest)
      → walk sha256d rules periods start headers offset previous in_force began rest ≡ go hashes
      → Chained sha256d rules previous rest hashes
  unfolding walk Chained
  walk-Chained start offset previous in_force began [] [] h = tt
  walk-Chained start offset previous in_force began [] (x ∷ xs) h = absurd (cc h)
  walk-Chained start offset previous in_force began (header ∷ rest) hashes h =
      elim (Early-cases (step header)) [
        | inl (r, e) ↦ absurd (ground (arith, h, e))
        | inr ((hash, next, next_began), e) ↦
            elim (Early-cases
              (walk sha256d rules periods start headers (offset + 1) hash next next_began rest)) [
                | inl (r, w) ↦ absurd (ground (arith, h, e, w))
                | inr (xs, w) ↦
                    let (linked, same, worked) =
                      check_header-go offset (height_of offset) previous in_force began header hash
                        next next_began e in
                    let all : hashes ≡ hash ∷ xs = ground (arith, h, e, w) in
                    rw all (
                      linked,
                      same,
                      worked,
                      walk-Chained start (offset + 1) hash next next_began rest xs w,
                    )
              ]
      ]
    where
      height_of : ℕ → ℕ
      height_of o = saturating_add_32 (saturating_add_32 start (min o u32_max)) 1

      step : Header → Early HeaderRefused (Digest × Bytes × Option ℕ)
      step =
          check_header sha256d rules periods headers offset (height_of offset) previous in_force
            began

-- A range that is accepted links from the checkpoint's hash on, and every header of it has done the
-- work of its own canonical target, which is within the network's limit; the hashes are the headers'.
pub verify_chain_in-Chained :
    (sha256d : Bytes → Digest) (rules : Network) (checkpoint : Checkpoint) (headers : List Header)
    (hashes : List Digest)
    → verify_chain_in sha256d rules checkpoint headers ≡ go hashes
    → (lex_le checkpoint.target rules.pow_limit ≡ true)
      × Chained sha256d rules checkpoint.hash headers hashes
unfolding verify_chain_in
verify_chain_in-Chained sha256d rules checkpoint headers hashes h = (
  ground (arith, h),
  walk-Chained sha256d rules (periods_of rules checkpoint.height headers) headers checkpoint.height
      0 checkpoint.hash checkpoint.target checkpoint.began headers hashes (ground (arith, h)),
)
