-- ===== src/Examples/Headers.antt =====
-- Headers, receipts and observations that the client reads.
use potash.Common.{
  ◌≡◌, refl, true, none, List, [], ◌∷◌, ◌++◌, Bytes, replicate, false, from_le_bytes, be_bytes,
  le_bytes, bytes_eq,
}
use potash.Common.Early.{go}
use potash.Core.Hash.{Digest}
use potash.Client.Bitcoin.Target.{target_from_bits, bits_from_target, position, top_three, compact}
use potash.Client.Bitcoin.Retarget.{mainnet, pow_limit_bytes, lex_le}
use potash.Client.Bitcoin.Header.{
  Header, Checkpoint, less_than_or_equal_reversed, le_reversed, by_byte, version, prev_hash,
  merkle_root, time, bits, median_time_past,
}
use potash.Client.Bitcoin.Chain.{check_median, in_force_at, check_header, walk, verify_chain_in}
use potash.Client.Bitcoin.Verified.{Chained, verify_chain_in-Chained}
use potash.Client.Bitcoin.Confirm.{
  BitcoinClaim, Confirmed, confirmed, offset_of, header_at_in, by_depth, confirm_in,
}
use potash.Client.Bitcoin.Buried.{Buried, confirm_in-Buried}

abbrev limit : Bytes
limit = pow_limit_bytes

abbrev no_hash : Digest
no_hash = replicate 32 0

-- A hash that meets every target.
abbrev pub easy : Bytes → Digest
easy message = no_hash

abbrev pub block : Header
block =
    le_bytes 4 4
    ++ (no_hash
        ++ (replicate 32 9 ++ (le_bytes 4 1700000000 ++ (le_bytes 4 0x1d00ffff ++ replicate 4 0))))

abbrev pub blocks : List Header
blocks = block ∷ block ∷ block ∷ block ∷ block ∷ block ∷ block ∷ block ∷ []

abbrev pub start : Checkpoint
start = record { height = 400000; hash = no_hash; target = limit; began = none }

blocks_verified : verify_chain_in easy mainnet start blocks ≡ go (replicate 8 no_hash)
unfolding verify_chain_in walk check_header in_force_at check_median median_time_past version
    prev_hash time bits le_bytes from_le_bytes bytes_eq target_from_bits bits_from_target position
    top_three compact be_bytes lex_le less_than_or_equal_reversed le_reversed by_byte
blocks_verified = refl

verify_chain_in-Chained_example :
    (lex_le limit limit ≡ true) × Chained easy mainnet no_hash blocks (replicate 8 no_hash)
verify_chain_in-Chained_example =
    verify_chain_in-Chained easy mainnet start blocks (replicate 8 no_hash) blocks_verified

abbrev pub claim : BitcoinClaim
claim = record { height = 400002; attested_digest = replicate 32 9 }

abbrev pub deep : Confirmed
deep = record {
  height = 400002;
  root = replicate 32 9;
  at_time = 1700000000;
  checked_against_median_time_past = false;
}

pub claim_confirmed : confirm_in easy mainnet claim start blocks ≡ go (confirmed deep)
unfolding confirm_in header_at_in offset_of by_depth merkle_root verify_chain_in walk check_header
    in_force_at check_median median_time_past version prev_hash time bits le_bytes from_le_bytes
    bytes_eq target_from_bits bits_from_target position top_three compact be_bytes lex_le
    less_than_or_equal_reversed le_reversed by_byte
claim_confirmed = refl

confirm_in-Buried_example : Buried easy mainnet claim start blocks deep
confirm_in-Buried_example = confirm_in-Buried easy mainnet claim start blocks deep claim_confirmed
