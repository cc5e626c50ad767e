-- ===== src/Client/Bitcoin/Target.antt =====
-- crates/certimining-client/src/bitcoin.rs: the compact form of a target. A target is 32 bytes, the
-- most significant first.
use potash.Common.{
  ℕ, suc, ◌+◌, ◌-◌, ◌*◌, ◌/◌, ◌%◌, ◌^◌, not, ◌||◌, Option, none, some, [], ◌∷◌, ltb, leb, ◌==◌,
  if◌then◌else◌, Bytes, be_bytes, copy_at, replicate, get_elem?, drop, checked_sub,
}
use potash.Common.Maybe.{◌>>=◌, unwrap_or}

abbrev pub zeros : Bytes
zeros = replicate 32 0

unfoldable pub target_from_bits : ℕ → Option Bytes
target_from_bits bits =
    let exponent = bits / 2 ^ 24 in
    let mantissa = bits % 2 ^ 23 in
    if not (bits / 2 ^ 23 % 2 == 0) || mantissa == 0
    then none
    else if leb exponent 3
    then some (copy_at zeros 28 (be_bytes 4 (mantissa / 2 ^ (8 * (3 - exponent)))))
    else if ltb 32 exponent
    then none
    else some (copy_at zeros (32 - (exponent - 3) - 3) (drop 1 (be_bytes 4 mantissa)))

-- `target.iter().position(|b| *b != 0)`
unfoldable pub position : Bytes → Option ℕ
position [] = none
position (b ∷ bs) =
    let rest = position bs in if b == 0 then rest >>= (λ i. some (suc i)) else some 0

-- The byte at `first + i`, or zero past the end.
abbrev byte_or_zero : Bytes → ℕ → ℕ
byte_or_zero target i = unwrap_or (get_elem? target i) 0

unfoldable pub top_three : Bytes → ℕ → ℕ
top_three target first =
    (byte_or_zero target first * 256 + byte_or_zero target (first + 1)) * 256
    + byte_or_zero target (first + 2)

-- The mantissa's top bit is a sign, so a mantissa that sets it moves down by a byte.
unfoldable pub compact : ℕ → ℕ → ℕ
compact size mantissa =
    if mantissa / 2 ^ 23 % 2 == 0
    then size * 2 ^ 24 + mantissa
    else (size + 1) * 2 ^ 24 + mantissa / 2 ^ 8

unfoldable pub bits_from_target : Bytes → Option ℕ
bits_from_target target = do
  first ← position target
  size ← checked_sub 32 first
  some (compact size (top_three target first))
