-- ===== src/Client/Bitcoin/Compact.antt =====
-- crates/certimining-client/src/bitcoin.rs: which number the compact form of a target stands for.
use potash.Common.{
  ℕ, zero, suc, ◌+◌, ◌-◌, ◌*◌, ◌/◌, ◌%◌, ◌^◌, ◌≤◌, ◌<◌, ◌≡◌, refl, sym, ap, ◌∙◌, arith, ◌⊎◌, inl,
  inr, Option, none, some, ◌∷◌, ◌++◌, ltb, leb, ◌==◌, Bytes, IsByte, All, length, drop, replicate,
  length-append, length-replicate, be_bytes, from_be_bytes, copy_at, All-append, All-replicate,
  Bool-cases, copy_at_lem,
}
use native.Mathlib.Nat.{mul-div_cancel, div-le_self, mul_assoc, pow-succ'}
use potash.Client.Bitcoin.Target.{zeros, target_from_bits}
use potash.Client.Bitcoin.Arithmetic.{from_be_bytes-append, from_be_bytes-be_bytes, length-be_bytes}
use potash.Client.Bitcoin.Scaling.{be_bytes-IsByte}

-- The number of an exponent and a mantissa.
abbrev pub value_of : ℕ → ℕ → ℕ
value_of exponent mantissa = mantissa * 256 ^ exponent / 2 ^ 24

replicate_add : (a b x : ℕ) → replicate (a + b) x ≡ replicate a x ++ replicate b x
replicate_add zero b x = ap (λ (n : ℕ). replicate n x) (omega arith)
replicate_add (suc a) b x =
    ap (λ (n : ℕ). replicate n x) {y = suc (a + b)} (omega arith)
    ∙ ap (λ t. x ∷ t) (replicate_add a b x)

drop-replicate : (k n x : ℕ) → drop k (replicate n x) ≡ replicate (n - k) x
drop-replicate zero n x = ap (λ (m : ℕ). replicate m x) (omega arith)
drop-replicate (suc k) zero x = ap (λ (m : ℕ). replicate m x) {x = zero} (omega arith)
drop-replicate (suc k) (suc n) x =
    drop-replicate k n x ∙ ap (λ (m : ℕ). replicate m x) (omega arith)

length-zeros : (n : ℕ) → length {A = ℕ} (replicate n 0) ≡ n
length-zeros n = length-replicate {A = ℕ} n 0

from_be_bytes-zeros : (n : ℕ) → from_be_bytes (replicate n 0) ≡ 0
unfolding from_be_bytes
from_be_bytes-zeros zero = refl
from_be_bytes-zeros (suc n) = omega (arith, from_be_bytes-zeros n)

module _ (at : ℕ) (bytes : Bytes) (fits : at + length bytes ≤ 32) where
  -- Bytes that are copied into a zero target.
  placed :
      copy_at zeros at bytes ≡ (replicate at 0 ++ bytes) ++ replicate (32 - at - length bytes) 0
  placed =
      ap (λ out. copy_at out at bytes)
        (ap (λ (n : ℕ). replicate n 0) {x = 32} {y = at + (32 - at)} (omega arith)
          ∙ replicate_add at (32 - at) 0)
      ∙ copy_at_lem (replicate at 0) (replicate (32 - at) 0) bytes at (length-zeros at)
          (omega (arith, length-zeros (32 - at)))
      ∙ ap (λ t. (replicate at 0 ++ bytes) ++ t) (drop-replicate (length bytes) (32 - at) 0)

  placed-value :
      from_be_bytes (copy_at zeros at bytes) ≡ from_be_bytes bytes * 256 ^ (32 - at - length bytes)
  placed-value =
      ap from_be_bytes placed
      ∙ from_be_bytes-append (replicate at 0 ++ bytes) (replicate (32 - at - length bytes) 0)
      ∙ ap
          (λ (n : ℕ).
            from_be_bytes (replicate at 0 ++ bytes) * 256 ^ n
            + from_be_bytes (replicate (32 - at - length bytes) 0))
          (length-zeros (32 - at - length bytes))
      ∙ ap
          (λ (v : ℕ).
            v * 256 ^ (32 - at - length bytes)
            + from_be_bytes (replicate (32 - at - length bytes) 0))
          {y = from_be_bytes bytes}
          (from_be_bytes-append (replicate at 0) bytes
            ∙ ap (λ (v : ℕ). v * 256 ^ length bytes + from_be_bytes bytes) (from_be_bytes-zeros at)
            ∙ omega arith)
      ∙ omega (arith, from_be_bytes-zeros (32 - at - length bytes))

  placed-length : length (copy_at zeros at bytes) ≡ 32
  placed-length =
      ap length placed
      ∙ length-append (replicate at 0 ++ bytes) (replicate (32 - at - length bytes) 0)
      ∙ omega (
        arith,
        length-append (replicate at 0) bytes,
        length-zeros at,
        length-zeros (32 - at - length bytes),
      )

  placed-IsByte : All IsByte bytes → All IsByte (copy_at zeros at bytes)
  placed-IsByte h = rw placed (
      All-append (replicate at 0 ++ bytes) (replicate (32 - at - length bytes) 0)
        (All-append (replicate at 0) bytes (All-replicate at 0 (omega arith)) h)
        (All-replicate (32 - at - length bytes) 0 (omega arith)))

small_value :
    (exponent mantissa : ℕ)
    → exponent ≤ 3
    → mantissa / 2 ^ (8 * (3 - exponent)) ≡ value_of exponent mantissa
small_value zero mantissa h = omega arith
small_value (suc zero) mantissa h = omega arith
small_value (suc (suc zero)) mantissa h = omega arith
small_value (suc (suc (suc zero))) mantissa h = omega arith
small_value (suc (suc (suc (suc e)))) mantissa h = absurd (omega arith)

large_value :
    (exponent mantissa : ℕ)
    → 3 < exponent
    → mantissa * 256 ^ (exponent - 3) ≡ value_of exponent mantissa
large_value zero mantissa h = absurd (omega arith)
large_value (suc zero) mantissa h = absurd (omega arith)
large_value (suc (suc zero)) mantissa h = absurd (omega arith)
large_value (suc (suc (suc e))) mantissa h =
    ap (λ (n : ℕ). mantissa * 256 ^ n) {y = e} (omega arith)
    ∙ sym (mul-div_cancel (mantissa * 256 ^ e) {n = 2 ^ 24} (omega arith))
    ∙ ap (λ (t : ℕ). t / 2 ^ 24)
        (mul_assoc mantissa (256 ^ e) (2 ^ 24)
          ∙ ap (λ (t : ℕ). mantissa * t)
              (omega (arith, pow-succ' 256 e, pow-succ' 256 (suc e), pow-succ' 256 (suc (suc e)))))

-- What a compact form stands for: nothing when it is negative, zero or too large, and otherwise the
-- 32 bytes of its number.
abbrev pub Decodes : ℕ → Option Bytes → Type 0
Decodes bits none = (bits / 2 ^ 23 % 2 ≡ 1) ⊎ (bits % 2 ^ 23 ≡ 0) ⊎ (32 < bits / 2 ^ 24)
Decodes bits (some target) =
    (bits / 2 ^ 23 % 2 ≡ 0)
    × (0 < bits % 2 ^ 23)
    × (bits / 2 ^ 24 ≤ 32)
    × (length target ≡ 32)
    × All IsByte target
    × (from_be_bytes target ≡ value_of (bits / 2 ^ 24) (bits % 2 ^ 23))

small-Decodes :
    (bits : ℕ)
    → bits / 2 ^ 23 % 2 ≡ 0
    → 0 < bits % 2 ^ 23
    → bits / 2 ^ 24 ≤ 3
    → Decodes bits
        (some (copy_at zeros 28 (be_bytes 4 (bits % 2 ^ 23 / 2 ^ (8 * (3 - bits / 2 ^ 24))))))
small-Decodes bits positive some_bit small =
    let x = bits % 2 ^ 23 / 2 ^ (8 * (3 - bits / 2 ^ 24)) in
    let fits : 28 + length (be_bytes 4 x) ≤ 32 = omega (arith, length-be_bytes 4 x) in
    (
      positive,
      some_bit,
      omega arith,
      placed-length 28 (be_bytes 4 x) fits,
      placed-IsByte 28 (be_bytes 4 x) fits (be_bytes-IsByte 4 x),
      placed-value 28 (be_bytes 4 x) fits
          ∙ ap (λ (n : ℕ). from_be_bytes (be_bytes 4 x) * 256 ^ n) {y = 0}
              (omega (arith, length-be_bytes 4 x))
          ∙ omega (
            arith,
            from_be_bytes-be_bytes 4 x,
            div-le_self (bits % 2 ^ 23) (2 ^ (8 * (3 - bits / 2 ^ 24))),
            small_value (bits / 2 ^ 24) (bits % 2 ^ 23) small,
          ),
    )

large-Decodes :
    (bits : ℕ)
    → bits / 2 ^ 23 % 2 ≡ 0
    → 0 < bits % 2 ^ 23
    → 3 < bits / 2 ^ 24
    → bits / 2 ^ 24 ≤ 32
    → Decodes bits
        (some (copy_at zeros (32 - (bits / 2 ^ 24 - 3) - 3) (drop 1 (be_bytes 4 (bits % 2 ^ 23)))))
unfolding be_bytes
large-Decodes bits positive some_bit large fits32 =
    let e = bits / 2 ^ 24 in
    let m = bits % 2 ^ 23 in
    let at = 32 - (e - 3) - 3 in
    let fits : at + length (be_bytes 3 m) ≤ 32 = omega (arith, length-be_bytes 3 m) in
    (
      positive,
      some_bit,
      fits32,
      placed-length at (be_bytes 3 m) fits,
      placed-IsByte at (be_bytes 3 m) fits (be_bytes-IsByte 3 m),
      placed-value at (be_bytes 3 m) fits
          ∙ ap (λ (n : ℕ). from_be_bytes (be_bytes 3 m) * 256 ^ n) {y = e - 3}
              (omega (arith, length-be_bytes 3 m))
          ∙ ap (λ (t : ℕ). t * 256 ^ (e - 3)) {y = m} (from_be_bytes-be_bytes 3 m ∙ omega arith)
          ∙ large_value e m large,
    )

pub target_from_bits-Decodes : (bits : ℕ) → Decodes bits (target_from_bits bits)
unfolding target_from_bits
target_from_bits-Decodes bits = elim (Bool-cases (bits / 2 ^ 23 % 2 == 0)) [
  | inr negative ↦ rw negative (inl (ground (arith, negative)))
  | inl positive ↦ elim (Bool-cases (bits % 2 ^ 23 == 0)) [
    | inl none_set ↦ rw (positive, none_set) (inr (inl (ground (arith, none_set))))
    | inr some_set ↦ elim (Bool-cases (leb (bits / 2 ^ 24) 3)) [
      | inl small ↦
          rw (positive, some_set, small)
            (small-Decodes bits (ground (arith, positive)) (ground (arith, some_set))
              (ground (arith, small)))
      | inr large ↦ elim (Bool-cases (ltb 32 (bits / 2 ^ 24))) [
        | inl too_large ↦
            rw (positive, some_set, large, too_large) (inr (inr (ground (arith, too_large))))
        | inr fits ↦
            rw (positive, some_set, large, fits)
              (large-Decodes bits (ground (arith, positive)) (ground (arith, some_set))
                (ground (arith, large)) (ground (arith, fits)))
      ]
    ]
  ]
]
