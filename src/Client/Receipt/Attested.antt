-- ===== src/Client/Receipt/Attested.antt =====
-- crates/certimining-client/src/ots.rs: what a verified receipt attests.
use potash.Common.{
  ℕ, ◌^◌, ◌<◌, ◌≡◌, ◌↔◌, refl, sym, ap, ◌∙◌, arith, true, Option, none, some, List, [], ◌∷◌, ◌++◌,
  Bytes, bytes_eq, bytes_eq→eq, bytes_eq_refl, Option-cases, inl, inr, length,
}
use potash.Common.Early.{go}
use potash.Core.Hash.{Digest}
use potash.Client.Bitcoin.Confirm.{BitcoinClaim}
use potash.Client.Receipt.{
  bitcoin, another, Step, Steps, step, done, then_also, Timestamp, first_confirmed,
  first_confirmed_in, or_else, verify_receipt,
}

-- The Bitcoin attestations of a tree, from the first branch to the last. A step with one has no
-- operation, so what would come after it is not looked at.
unfoldable mutual
  pub attestations : Step → List (ℕ × Bytes)
  attestations (step (bitcoin height) output next) = (height, output) ∷ []
  attestations (step another output next) = attestations_in next

  pub attestations_in : Steps → List (ℕ × Bytes)
  attestations_in done = []
  attestations_in (then_also s rest) = attestations s ++ attestations_in rest

abbrev pub head? : List (ℕ × Bytes) → Option (ℕ × Bytes)
head? [] = none
head? (x ∷ xs) = some x

head?-append : (xs ys : List (ℕ × Bytes)) → head? (xs ++ ys) ≡ or_else (head? xs) (head? ys)
head?-append [] ys = refl
head?-append (x ∷ xs) ys = refl

-- The search finds the first attestation of the tree.
mutual
  unfolding first_confirmed attestations

  first_confirmed_lem : (s : Step) → first_confirmed s ≡ head? (attestations s)
  first_confirmed_lem (step (bitcoin height) output next) = refl
  first_confirmed_lem (step another output next) = first_confirmed_in_lem next

  first_confirmed_in_lem : (ss : Steps) → first_confirmed_in ss ≡ head? (attestations_in ss)
  first_confirmed_in_lem done = refl
  first_confirmed_in_lem (then_also s rest) =
      ap (λ (o : Option (ℕ × Bytes)). or_else o (first_confirmed_in rest)) (first_confirmed_lem s)
      ∙ ap (or_else (head? (attestations s))) (first_confirmed_in_lem rest)
      ∙ sym (head?-append (attestations s) (attestations_in rest))

-- A receipt is accepted with a claim exactly when it parses, starts from the hash of what was
-- stamped, and its first Bitcoin attestation is the claim's, at a 32-bit height over 32 bytes.
pub verify_receipt_iff :
    (parse : Bytes → Option Timestamp) (sha256 : Bytes → Digest) (receipt stamped : Bytes)
    (claim : BitcoinClaim)
    → (verify_receipt parse sha256 receipt stamped ≡ go claim) ↔ (
        (t : Timestamp) × (parse receipt ≡ some t)
        × (t.start_digest ≡ sha256 stamped)
        × (head? (attestations t.first_step) ≡ some (claim.height, claim.attested_digest))
        × (claim.height < 2 ^ 32)
        × (length claim.attested_digest ≡ 32))
unfolding verify_receipt
verify_receipt_iff parse sha256 receipt stamped claim = (accepted, accepts)
  where
    accepted :
        verify_receipt parse sha256 receipt stamped ≡ go claim
        → (t : Timestamp) × (parse receipt ≡ some t)
          × (t.start_digest ≡ sha256 stamped)
          × (head? (attestations t.first_step) ≡ some (claim.height, claim.attested_digest))
          × (claim.height < 2 ^ 32)
          × (length claim.attested_digest ≡ 32)
    accepted h = elim (Option-cases (parse receipt)) [
      | inl e ↦ absurd (ground (arith, h, e))
      | inr (t, e) ↦ elim (Option-cases (first_confirmed t.first_step)) [
        | inl f ↦ absurd (ground (arith, h, e, f))
        | inr ((height, output), f) ↦
            let started : bytes_eq t.start_digest (sha256 stamped) ≡ true =
              ground (arith, h, e, f) in
            let high : height < 2 ^ 32 = ground (arith, h, e, f) in
            let wide : length output ≡ 32 = ground (arith, h, e, f) in
            let same : ◌≡◌ {A = BitcoinClaim} record { height = height; attested_digest = output }
                claim =
              ground (arith, h, e, f) in
            (
              t,
              e,
              bytes_eq→eq t.start_digest (sha256 stamped) started,
              sym (first_confirmed_lem t.first_step)
                  ∙ f
                  ∙ ap (λ (c : BitcoinClaim). some (c.height, c.attested_digest)) same,
              omega (arith, high, ap (λ (c : BitcoinClaim). c.height) same),
              omega (arith, wide, ap (λ (c : BitcoinClaim). length c.attested_digest) same),
            )
      ]
    ]

    accepts :
        (t : Timestamp) × (parse receipt ≡ some t)
          × (t.start_digest ≡ sha256 stamped)
          × (head? (attestations t.first_step) ≡ some (claim.height, claim.attested_digest))
          × (claim.height < 2 ^ 32)
          × (length claim.attested_digest ≡ 32)
        → verify_receipt parse sha256 receipt stamped ≡ go claim
    accepts (t, e, started, first, high, wide) =
        let f = first_confirmed_lem t.first_step ∙ first in
        rw (e, started, bytes_eq_refl (sha256 stamped), f) (ground (arith, high, wide))
