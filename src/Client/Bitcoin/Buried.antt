-- ===== src/Client/Bitcoin/Buried.antt =====
-- crates/certimining-client/src/bitcoin.rs: what a confirmation establishes.
use potash.Common.{
  ℕ, ◌+◌, ◌≤◌, ◌≡◌, sym, ap, ◌∙◌, arith, true, some, List, Option-cases, inl, inr, length,
  get_elem?, Bytes, bytes_eq, bytes_eq→eq,
}
use potash.Common.Early.{go, Early-cases}
use potash.Core.Hash.{Digest}
use potash.Client.Bitcoin.Retarget.{Network}
use potash.Client.Bitcoin.Header.{Header, Checkpoint, merkle_root, time}
use potash.Client.Bitcoin.Chain.{verify_chain_in}
use potash.Client.Bitcoin.Confirm.{
  BitcoinClaim, Confirmed, confirmed, offset_of, header_at_in, by_depth, confirmed_at, confirm_in,
}
use potash.Client.Bitcoin.Verified.{Chained, verify_chain_in-Chained}

-- The claim's digest is the Merkle root of a header of the verified range, and six or more verified
-- headers lie above that one.
pub record Buried (sha256d : Bytes → Digest) (rules : Network) (claim : BitcoinClaim)
    (checkpoint : Checkpoint) (headers : List Header) (c : Confirmed) : Type 0 where
  pub at : Header
  pub offset : ℕ
  pub hashes : List Digest
  pub chained : Chained sha256d rules checkpoint.hash headers hashes
  pub found : get_elem? headers offset ≡ some at
  pub placed : claim.height ≡ checkpoint.height + offset + 1
  pub deep : offset + 1 + 6 ≤ length headers
  pub attested : merkle_root at ≡ claim.attested_digest
  pub confirmed_root : c.root ≡ claim.attested_digest
  pub confirmed_height : c.height ≡ claim.height
  pub confirmed_time : c.at_time ≡ time at

offset_of-go :
    (checkpoint : Checkpoint) (headers : List Header) (height offset : ℕ)
    → offset_of checkpoint headers height ≡ go offset
    → height ≡ checkpoint.height + offset + 1
unfolding offset_of
offset_of-go checkpoint headers height offset h = ground (arith, h)

by_depth-confirmed :
    (headers : List Header) (offset height : ℕ) (at : Header) (c : Confirmed)
    → by_depth headers offset height at ≡ confirmed c
    → (offset + 1 + 6 ≤ length headers)
      × (c.height ≡ height)
      × (c.root ≡ merkle_root at)
      × (c.at_time ≡ time at)
unfolding by_depth
by_depth-confirmed headers offset height at c h =
    let same : confirmed_at headers offset height at ≡ c = ground (arith, h) in
    (
      ground (arith, h),
      sym (ap (λ (x : Confirmed). x.height) same),
      sym (ap (λ (x : Confirmed). x.root) same),
      sym (ap (λ (x : Confirmed). x.at_time) same),
    )

-- A claim that is confirmed is buried: its block is at the claimed height in the verified range, has
-- the attested digest as its Merkle root, and six verified headers or more above it.
pub confirm_in-Buried :
    (sha256d : Bytes → Digest) (rules : Network) (claim : BitcoinClaim) (checkpoint : Checkpoint)
    (headers : List Header) (c : Confirmed)
    → confirm_in sha256d rules claim checkpoint headers ≡ go (confirmed c)
    → Buried sha256d rules claim checkpoint headers c
unfolding confirm_in header_at_in
confirm_in-Buried sha256d rules claim checkpoint headers c h =
    elim (Early-cases (verify_chain_in sha256d rules checkpoint headers)) [
      | inl (r, e) ↦ absurd (ground (arith, h, e))
      | inr (hashes, e) ↦ elim (Early-cases (offset_of checkpoint headers claim.height)) [
        | inl (r, o) ↦ absurd (ground (arith, h, e, o))
        | inr (offset, o) ↦ elim (Option-cases (get_elem? headers offset)) [
          | inl g ↦ absurd (ground (arith, h, e, o, g))
          | inr (at, g) ↦
              let root : bytes_eq (merkle_root at) claim.attested_digest ≡ true =
                ground (arith, h, e, o, g) in
              let depth : by_depth headers offset claim.height at ≡ confirmed c =
                ground (arith, h, e, o, g) in
              let (deep, height, own_root, own_time) =
                by_depth-confirmed headers offset claim.height at c depth in
              let attested = bytes_eq→eq (merkle_root at) claim.attested_digest root in
              record {
                at = at;
                offset = offset;
                hashes = hashes;
                chained = (verify_chain_in-Chained sha256d rules checkpoint headers hashes e).1;
                found = g;
                placed = offset_of-go checkpoint headers claim.height offset o;
                deep = deep;
                attested = attested;
                confirmed_root = own_root ∙ attested;
                confirmed_height = height;
                confirmed_time = own_time;
              }
        ]
      ]
    ]
