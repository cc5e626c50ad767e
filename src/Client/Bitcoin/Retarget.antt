-- ===== src/Client/Bitcoin/Retarget.antt =====
-- crates/certimining-client/src/bitcoin.rs: scaling a target, and the retarget at the end of a period.
use potash.Common.{
  ℕ, ◌+◌, ◌*◌, ◌/◌, ◌%◌, ◌^◌, Bool, true, false, not, ◌&&◌, Option, none, some, [], ◌∷◌, ◌++◌, ltb,
  ◌==◌, if◌then◌else◌, Bytes, be_bytes, take, drop, replicate,
}
use potash.Common.Int.{ℤ, pos, negsuc, ltb_ℤ}
use potash.Common.Maybe.{◌>>=◌}
use potash.Client.Bitcoin.Target.{target_from_bits, bits_from_target}

-- Arrays compare byte by byte, from the first.
unfoldable pub lex_le : Bytes → Bytes → Bool
lex_le [] ys = true
lex_le (x ∷ xs) [] = false
lex_le (x ∷ xs) (y ∷ ys) = let rest = lex_le xs ys in if x == y then rest else ltb x y

-- The product byte by byte from the last one, with its carry.
unfoldable pub mul_bytes : ℕ → Bytes → Bytes × ℕ
mul_bytes mul [] = ([], 0)
mul_bytes mul (b ∷ bs) =
    let (low, carry) = mul_bytes mul bs in let v = b * mul + carry in (v % 256 ∷ low, v / 256)

-- The quotient byte by byte from the first one, with the remainder so far.
unfoldable pub div_bytes : ℕ → ℕ → Bytes → Bytes
div_bytes div remainder [] = []
div_bytes div remainder (b ∷ bs) =
    let current = remainder * 256 + b in current / div % 256 ∷ div_bytes div (current % div) bs

unfoldable pub all_zero : Bytes → Bool
all_zero [] = true
all_zero (b ∷ bs) = b == 0 && all_zero bs

-- The factors are `u64`s, so that the 128-bit sums do not overflow.
unfoldable pub mul_div : Bytes → ℕ → ℕ → Option Bytes
mul_div value mul div =
    if div == 0
    then none
    else let (low, carry) = mul_bytes mul value in
      let quotient = div_bytes div 0 (be_bytes 8 carry ++ low) in
      if not (carry / 2 ^ 64 == 0)
      then none
      else if not (all_zero (take 8 quotient))
      then none
      else some (drop 8 quotient)

abbrev pub retarget_interval : ℕ
retarget_interval = 2016

abbrev pub target_timespan : ℕ
target_timespan = 14 * 24 * 60 * 60

abbrev pub pow_limit_bytes : Bytes
pow_limit_bytes = replicate 4 0 ++ (0xff ∷ 0xff ∷ replicate 26 0)

pub record Network : Type 0 where
  pub interval : ℕ
  pub pow_limit : Bytes
  pub version_floor : ℤ
  pub version_floor_from : ℕ

abbrev pub mainnet : Network
mainnet = record {
  interval = retarget_interval;
  pow_limit = pow_limit_bytes;
  version_floor = pos 4;
  version_floor_from = 388381;
}

-- `Ord::clamp`
unfoldable pub clamp : ℤ → ℤ → ℤ → ℤ
clamp lo hi a = if ltb_ℤ a lo then lo else if ltb_ℤ hi a then hi else a

abbrev pub to_u64 : ℤ → Option ℕ
to_u64 (pos n) = some n
to_u64 (negsuc n) = none

-- An overflow and a target above the limit both give the limit.
unfoldable pub limited : Bytes → Option Bytes → Bytes
limited limit none = limit
limited limit (some target) = if lex_le target limit then target else limit

unfoldable pub retarget_in : Bytes → ℤ → Network → Option Bytes
retarget_in previous actual_timespan rules = do
  scaled ← to_u64 (clamp (pos (target_timespan / 4)) (pos (target_timespan * 4)) actual_timespan)
  bits ← bits_from_target (limited rules.pow_limit (mul_div previous scaled target_timespan))
  target_from_bits bits

unfoldable pub retarget : Bytes → ℤ → Option Bytes
retarget previous actual_timespan = retarget_in previous actual_timespan mainnet
