-- ===== src/Client/Bitcoin/Header.antt =====
-- crates/certimining-client/src/bitcoin.rs: the fields of a header and the walk from a checkpoint.
-- The double SHA-256 of the `bitcoin_hashes` crate is the parameter `sha256d`. A refusal carries
-- bytes where the source's carries their hexadecimal, and leaves out the network's name.
use potash.Common.{
  ℕ, zero, suc, ◌+◌, ◌-◌, ◌/◌, ◌%◌, ◌^◌, min, Bool, true, false, not, ◌&&◌, Option, none, some,
  List, [], ◌∷◌, ltb, leb, ◌==◌, if◌then◌else◌, Bytes, from_le_bytes, take, drop, replicate, length,
  map, get_elem?, range,
}
use potash.Common.Int.{ℤ, pos, negsuc}
use potash.Common.Maybe.{unwrap_or}
use potash.Core.Hash.{Digest}
use potash.Client.Bitcoin.Retarget.{Network}

-- `[u8; 80]`
abbrev pub Header : Type 0
Header = Bytes

-- An array of zeros with the range copied into it.
abbrev field : Header → ℕ → ℕ → Bytes
field header from to = unwrap_or (range header from to) (replicate (to - from) 0)

-- An `i32` of its bit pattern.
abbrev pub signed_32 : ℕ → ℤ
signed_32 n = if ltb n (2 ^ 31) then pos n else negsuc (2 ^ 32 - 1 - n)

unfoldable pub version : Header → ℤ
version header = signed_32 (from_le_bytes (field header 0 4))

unfoldable pub prev_hash : Header → Digest
prev_hash header = field header 4 36

unfoldable pub merkle_root : Header → Digest
merkle_root header = field header 36 68

unfoldable pub time : Header → ℕ
time header = from_le_bytes (field header 68 72)

unfoldable pub bits : Header → ℕ
bits header = from_le_bytes (field header 72 76)

pub data HeaderRefused : Type 0 where
  not_from_the_checkpoint : (expected found : Digest) → HeaderRefused
  broken : (at : ℕ) (expected found : Digest) → HeaderRefused
  insufficient_work : (at : ℕ) (hash : Digest) → HeaderRefused
  malformed_target : (at bits : ℕ) → HeaderRefused
  easier_than_the_pow_limit : (at : ℕ) (target limit : Bytes) → HeaderRefused
  difficulty_not_canonical : (at bits canonical : ℕ) → HeaderRefused
  target_not_the_one_in_force : (at bits : ℕ) (expected : Bytes) → HeaderRefused
  crosses_a_retarget_boundary : (checkpoint_period tip_period : ℕ) → HeaderRefused
  timestamp_not_after_median_time_past : (at time median : ℕ) → HeaderRefused
  version_too_old : (at : ℕ) (version floor : ℤ) → HeaderRefused
  height_not_covered : (wanted covered : ℕ) → HeaderRefused
  digest_not_in_the_block : (at : ℕ) (attested root : Digest) → HeaderRefused

-- Two bytes decide where they differ.
unfoldable pub by_byte : Option ℕ → Option ℕ → Bool → Bool
by_byte none t rest = false
by_byte (some h) none rest = false
by_byte (some h) (some t) rest = if h == t then rest else ltb h t

-- From the most significant byte of the hash, its last one, down: `n` bytes are still to be compared.
unfoldable pub le_reversed : Bytes → Bytes → ℕ → ℕ → Bool
le_reversed hash target i zero = true
le_reversed hash target i (suc n) =
    by_byte (get_elem? hash (31 - i)) (get_elem? target i) (le_reversed hash target (i + 1) n)

unfoldable pub less_than_or_equal_reversed : Digest → Bytes → Bool
less_than_or_equal_reversed hash_le target_be = le_reversed hash_le target_be 0 32

unfoldable pub insert : ℕ → List ℕ → List ℕ
insert t [] = t ∷ []
insert t (u ∷ us) = let rest = insert t us in if leb t u then t ∷ (u ∷ us) else u ∷ rest

unfoldable pub sorted : List ℕ → List ℕ
sorted [] = []
sorted (t ∷ ts) = insert t (sorted ts)

abbrev pub median_time_span : ℕ
median_time_span = 11

-- `headers.get(from..offset)`
abbrev window : List Header → ℕ → ℕ → Option (List Header)
window headers from offset =
    if leb offset (length headers) then some (take (offset - from) (drop from headers)) else none

abbrev median_of : Option (List Header) → Option ℕ
median_of none = none
median_of (some headers) =
    if not (length headers == median_time_span)
    then none
    else get_elem? (sorted (map time headers)) (median_time_span / 2)

-- The median time of the eleven headers below `offset`, where the range has them.
unfoldable pub median_time_past : List Header → ℕ → Option ℕ
median_time_past headers offset =
    if ltb offset median_time_span
    then none
    else median_of (window headers (offset - median_time_span) offset)

-- `began` is the source's `time`: of the first block of the period.
pub record Checkpoint : Type 0 where
  pub height : ℕ
  pub hash : Digest
  pub target : Bytes
  pub began : Option ℕ

abbrev pub u32_max : ℕ
u32_max = 2 ^ 32 - 1

abbrev pub saturating_add_32 : ℕ → ℕ → ℕ
saturating_add_32 a b = min (a + b) u32_max

-- `checked_div(..).unwrap_or(0)`
abbrev pub period : Network → ℕ → ℕ
period rules height = if rules.interval == 0 then 0 else height / rules.interval

abbrev pub is_boundary : Network → ℕ → Bool
is_boundary rules height = not (rules.interval == 0) && (height % rules.interval == 0)
