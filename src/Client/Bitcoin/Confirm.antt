-- ===== src/Client/Bitcoin/Confirm.antt =====
-- crates/certimining-client/src/bitcoin.rs: the header at a height, and whether a claim is confirmed.
use potash.Common.{
  ℕ, ◌-◌, min, not, Option, none, some, List, ◌∷◌, [], ltb, if◌then◌else◌, Bytes, bytes_eq, length,
  get_elem?, checked_sub, Bool,
}
use potash.Common.Early.{Early, go, ◌>>=◌, ◌>>◌, stop_if, or_stop}
use potash.Common.Maybe.{is_some}
use potash.Core.Hash.{Digest}
use potash.Client.Bitcoin.Retarget.{Network, mainnet, pow_limit_bytes}
use potash.Client.Bitcoin.Header.{
  Header, HeaderRefused, Checkpoint, merkle_root, time, median_time_past, u32_max,
  saturating_add_32, height_not_covered, digest_not_in_the_block,
}
use potash.Client.Bitcoin.Chain.{verify_chain_in}

-- What a receipt claims: a digest in the block at a height.
pub record BitcoinClaim : Type 0 where
  pub height : ℕ
  pub attested_digest : Digest

abbrev pub covered : Checkpoint → List Header → ℕ
covered checkpoint headers = saturating_add_32 checkpoint.height (min (length headers) u32_max)

abbrev one_less : Option ℕ → Option ℕ
one_less none = none
one_less (some d) = checked_sub d 1

unfoldable pub offset_of : Checkpoint → List Header → ℕ → Early HeaderRefused ℕ
offset_of checkpoint headers height =
    or_stop (one_less (checked_sub height checkpoint.height))
      (height_not_covered height (covered checkpoint headers))

unfoldable pub header_at_in :
    (Bytes → Digest) → Network → Checkpoint → List Header → ℕ → Early HeaderRefused Header
header_at_in sha256d rules checkpoint headers height = do
  hashes ← verify_chain_in sha256d rules checkpoint headers
  offset ← offset_of checkpoint headers height
  or_stop (get_elem? headers offset) (height_not_covered height (covered checkpoint headers))

unfoldable pub header_at :
    (Bytes → Digest) → Checkpoint → List Header → ℕ → Early HeaderRefused Header
header_at sha256d = header_at_in sha256d mainnet

unfoldable pub merkle_root_at_in :
    (Bytes → Digest) → Network → Checkpoint → List Header → ℕ → Early HeaderRefused Digest
merkle_root_at_in sha256d rules checkpoint headers height = do
  at ← header_at_in sha256d rules checkpoint headers height
  go (merkle_root at)

unfoldable pub merkle_root_at :
    (Bytes → Digest) → Checkpoint → List Header → ℕ → Early HeaderRefused Digest
merkle_root_at sha256d = merkle_root_at_in sha256d mainnet

abbrev pub genesis_block : Checkpoint
genesis_block = record {
  height = 0;
  hash =
      0x6f ∷ 0xe2 ∷ 0x8c ∷ 0x0a ∷ 0xb6 ∷ 0xf1 ∷ 0xb3 ∷ 0x72 ∷ 0xc1 ∷ 0xa6 ∷ 0xa2 ∷ 0x46 ∷ 0xae
      ∷ 0x63 ∷ 0xf7 ∷ 0x4f ∷ 0x93 ∷ 0x1e ∷ 0x83 ∷ 0x65 ∷ 0xe1 ∷ 0x5a ∷ 0x08 ∷ 0x9c ∷ 0x68 ∷ 0xd6
      ∷ 0x19 ∷ 0x00 ∷ 0x00 ∷ 0x00 ∷ 0x00 ∷ 0x00 ∷ [];
  target = pow_limit_bytes;
  began = some 1231006505;
}

pub record Confirmed : Type 0 where
  pub height : ℕ
  pub root : Digest
  pub at_time : ℕ
  pub checked_against_median_time_past : Bool

abbrev pub confirmation_depth : ℕ
confirmation_depth = 6

pub data Confirmation : Type 0 where
  confirmed : Confirmed → Confirmation
  pending : (height depth required : ℕ) → Confirmation

abbrev pub confirmed_at : List Header → ℕ → ℕ → Header → Confirmed
confirmed_at headers offset height at = record {
  height = height;
  root = merkle_root at;
  at_time = time at;
  checked_against_median_time_past = is_some (median_time_past headers offset);
}

-- The depth is the number of verified headers above the one at `offset`.
unfoldable pub by_depth : List Header → ℕ → ℕ → Header → Confirmation
by_depth headers offset height at =
    let depth = length headers - offset - 1 in
    if ltb depth confirmation_depth
    then pending height depth confirmation_depth
    else confirmed (confirmed_at headers offset height at)

unfoldable pub confirm_in :
    (Bytes → Digest)
    → Network
    → BitcoinClaim
    → Checkpoint
    → List Header
    → Early HeaderRefused Confirmation
confirm_in sha256d rules claim checkpoint headers = do
  at ← header_at_in sha256d rules checkpoint headers claim.height
  offset ← offset_of checkpoint headers claim.height
  stop_if (not (bytes_eq (merkle_root at) claim.attested_digest))
      (digest_not_in_the_block claim.height claim.attested_digest (merkle_root at))
  go (by_depth headers offset claim.height at)

unfoldable pub confirm :
    (Bytes → Digest) → BitcoinClaim → Checkpoint → List Header → Early HeaderRefused Confirmation
confirm sha256d = confirm_in sha256d mainnet
