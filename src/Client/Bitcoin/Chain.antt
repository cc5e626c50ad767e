-- ===== src/Client/Bitcoin/Chain.antt =====
-- crates/certimining-client/src/bitcoin.rs: the walk along the headers above a checkpoint.
use potash.Common.{
  ℕ, Bool, ◌+◌, ◌-◌, min, not, ◌&&◌, Option, none, some, List, [], ◌∷◌, leb, ◌==◌, if◌then◌else◌,
  Bytes, bytes_eq, length, get_elem?,
}
use potash.Common.Int.{ltb_ℤ, minus}
use potash.Common.Early.{Early, go, ◌>>=◌, ◌>>◌, stop_if, or_stop}
use potash.Common.Maybe.{is_some}
use potash.Core.Hash.{Digest}
use potash.Client.Bitcoin.Target.{target_from_bits, bits_from_target}
use potash.Client.Bitcoin.Retarget.{Network, mainnet, retarget_in, lex_le}
use potash.Client.Bitcoin.Header.{
  Header, HeaderRefused, Checkpoint, version, prev_hash, time, bits, median_time_past,
  less_than_or_equal_reversed, u32_max, saturating_add_32, period, is_boundary,
  not_from_the_checkpoint, broken, insufficient_work, malformed_target, easier_than_the_pow_limit,
  difficulty_not_canonical, target_not_the_one_in_force, crosses_a_retarget_boundary,
  timestamp_not_after_median_time_past, version_too_old,
}

-- The first and last periods that a range spans, as its refusal names them.
pub record Periods : Type 0 where
  pub checkpoint_period : ℕ
  pub tip_period : ℕ

abbrev crossing : Periods → HeaderRefused
crossing p = crosses_a_retarget_boundary p.checkpoint_period p.tip_period

abbrev before : List Header → ℕ → Option Header
before headers offset = if offset == 0 then none else get_elem? headers (offset - 1)

-- The time of the header below must be after the median of the eleven below, where there are so many.
unfoldable pub check_median : ℕ → Header → Option ℕ → Early HeaderRefused (Unit {0})
check_median height header none = go tt
check_median height header (some median) =
    stop_if (leb (time header) median)
      (timestamp_not_after_median_time_past height (time header) median)

-- The target in force and the begin of the period, after the retarget at a boundary.
unfoldable pub in_force_at :
    Network
    → Periods
    → List Header
    → ℕ
    → ℕ
    → Header
    → Bytes
    → Option ℕ
    → Early HeaderRefused (Bytes × Option ℕ)
in_force_at rules periods headers offset height header in_force period_began =
    if not (is_boundary rules height) then go (in_force, period_began) else do
      began ← or_stop period_began (crossing periods)
      closed ← or_stop (before headers offset) (crossing periods)
      next ←
          or_stop (retarget_in in_force (minus (time closed) began) rules)
            (malformed_target height (bits header))
      go (next, some (time header))

abbrev unlinked : ℕ → ℕ → Digest → Digest → HeaderRefused
unlinked offset height previous named =
    if offset == 0 then not_from_the_checkpoint previous named else broken height previous named

-- One header: its link, version, time, target and work. The result is its hash, and the target in
-- force and the begin of the period from it on.
unfoldable pub check_header :
    (Bytes → Digest)
    → Network
    → Periods
    → List Header
    → ℕ
    → ℕ
    → Digest
    → Bytes
    → Option ℕ
    → Header
    → Early HeaderRefused (Digest × Bytes × Option ℕ)
check_header sha256d rules periods headers offset height previous in_force began header =
    let own = bits header in
    do
      stop_if (not (bytes_eq (prev_hash header) previous))
          (unlinked offset height previous (prev_hash header))
      stop_if (leb rules.version_floor_from height && ltb_ℤ (version header) rules.version_floor)
          (version_too_old height (version header) rules.version_floor)
      check_median height header (median_time_past headers offset)
      target ← or_stop (target_from_bits own) (malformed_target height own)
      stop_if (not (lex_le target rules.pow_limit))
          (easier_than_the_pow_limit height target rules.pow_limit)
      (now_in_force, now_began) ←
          in_force_at rules periods headers offset height header in_force began
      canonical ← or_stop (bits_from_target target) (malformed_target height own)
      stop_if (not (canonical == own)) (difficulty_not_canonical height own canonical)
      stop_if (not (bytes_eq target now_in_force))
          (target_not_the_one_in_force height own now_in_force)
      stop_if (not (less_than_or_equal_reversed (sha256d header) target))
          (insufficient_work height (sha256d header))
      go (sha256d header, now_in_force, now_began)

unfoldable pub walk :
    (Bytes → Digest)
    → Network
    → Periods
    → ℕ
    → List Header
    → ℕ
    → Digest
    → Bytes
    → Option ℕ
    → List Header
    → Early HeaderRefused (List Digest)
walk sha256d rules periods start headers offset previous in_force began [] = go []
walk sha256d rules periods start headers offset previous in_force began (header ∷ rest) = do
  let height = saturating_add_32 (saturating_add_32 start (min offset u32_max)) 1
  (hash, now_in_force, now_began) ←
      check_header sha256d rules periods headers offset height previous in_force began header
  hashes ← walk sha256d rules periods start headers (offset + 1) hash now_in_force now_began rest
  go (hash ∷ hashes)

abbrev pub periods_of : Network → ℕ → List Header → Periods
periods_of rules height headers = record {
  checkpoint_period = period rules height;
  tip_period = period rules (saturating_add_32 height (min (length headers) u32_max));
}

unfoldable pub verify_chain_in :
    (Bytes → Digest) → Network → Checkpoint → List Header → Early HeaderRefused (List Digest)
verify_chain_in sha256d rules checkpoint headers =
    let periods = periods_of rules checkpoint.height headers in
    do
      stop_if (not (lex_le checkpoint.target rules.pow_limit))
          (easier_than_the_pow_limit checkpoint.height checkpoint.target rules.pow_limit)
      stop_if
          (not (periods.tip_period == periods.checkpoint_period)
            && not (is_boundary rules checkpoint.height && is_some checkpoint.began))
          (crossing periods)
      walk sha256d rules periods checkpoint.height headers 0 checkpoint.hash checkpoint.target
          checkpoint.began headers

unfoldable pub verify_chain :
    (Bytes → Digest) → Checkpoint → List Header → Early HeaderRefused (List Digest)
verify_chain sha256d = verify_chain_in sha256d mainnet

-- `Header::meets_its_target`
unfoldable pub meets_its_target : (Bytes → Digest) → Header → Early HeaderRefused Bool
meets_its_target sha256d header = do
  target ← or_stop (target_from_bits (bits header)) (malformed_target 0 (bits header))
  go (less_than_or_equal_reversed (sha256d header) target)
