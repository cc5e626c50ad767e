-- ===== src/Examples/Targets.antt =====
-- Compact targets and a retarget of the network's limit after half the time.
use potash.Common.{
  ◌+◌, ◌*◌, ◌/◌, ◌^◌, ◌≤◌, ◌≡◌, ◌⊎◌, refl, some, ◌∷◌, ◌++◌, Bytes, from_be_bytes, be_bytes,
  replicate, arith,
}
use potash.Common.Int.{pos}
use potash.Client.Bitcoin.Target.{target_from_bits, bits_from_target, position, top_three, compact}
use potash.Client.Bitcoin.Retarget.{
  mainnet, pow_limit_bytes, retarget_in, mul_div, mul_bytes, div_bytes, all_zero, limited, lex_le,
  clamp,
}
use potash.Client.Bitcoin.Retargeted.{IsTarget, retarget_in-Bounded}

abbrev half : Bytes
half = replicate 4 0 ++ (0x7f ∷ 0xff ∷ 0x80 ∷ replicate 25 0)

encoded : bits_from_target half ≡ some 0x1c7fff80
unfolding bits_from_target position top_three compact
encoded = refl

decoded : target_from_bits 0x1c7fff80 ≡ some half
unfolding target_from_bits be_bytes
decoded = refl

retargeted : retarget_in pow_limit_bytes (pos 604800) mainnet ≡ some half
unfolding retarget_in clamp mul_div mul_bytes div_bytes all_zero limited lex_le be_bytes
    bits_from_target position top_three compact target_from_bits
retargeted = refl

limit-IsTarget : IsTarget pow_limit_bytes
limit-IsTarget = (refl, omega arith)

retarget_in-Bounded_example :
    IsTarget half
    × (from_be_bytes half ≤ from_be_bytes mainnet.pow_limit)
    × (from_be_bytes half ≤ from_be_bytes pow_limit_bytes * 4)
    × ((from_be_bytes mainnet.pow_limit * 2 ^ 15 ≤ from_be_bytes half * (2 ^ 15 + 1))
        ⊎ (from_be_bytes pow_limit_bytes / 4 * 2 ^ 15 ≤ from_be_bytes half * (2 ^ 15 + 1)))
retarget_in-Bounded_example =
    retarget_in-Bounded pow_limit_bytes half (pos 604800) mainnet limit-IsTarget limit-IsTarget
      retargeted
