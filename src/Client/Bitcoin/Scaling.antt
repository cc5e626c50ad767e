-- ===== src/Client/Bitcoin/Scaling.antt =====
-- crates/certimining-client/src/bitcoin.rs: the multiplication and division of a target.
use potash.Common.{
  All-append, All-drop, ℕ, zero, suc, ◌+◌, ◌*◌, ◌/◌, ◌%◌, ◌^◌, ◌≤◌, ◌<◌, ◌≡◌, refl, sym, ap, ◌∙◌,
  arith, none, some, [], ◌∷◌, ◌++◌, ◌⊎◌, inl, inr, Bytes, IsByte, All, length, length-append,
  from_be_bytes, be_bytes, take, drop, take-append-drop, length-drop, Bool-cases,
}
use native.Mathlib.Nat.{
  mul-le-mul_right, pow-succ', mod-add-div, div-eq_of_lt, mod-lt, mod-eq_of_lt, div-lt_iff_lt-mul,
  mul-add-div_right, div-add-mod',
}
use potash.Client.Bitcoin.Retarget.{mul_bytes, div_bytes, all_zero, mul_div}
use potash.Client.Bitcoin.Arithmetic.{
  from_be_bytes-append, from_be_bytes-be_bytes, all_zero→0, some_digit, length-be_bytes,
}

length-mul_bytes : (mul : ℕ) (bs : Bytes) → length (mul_bytes mul bs).0 ≡ length bs
unfolding mul_bytes
length-mul_bytes mul [] = refl
length-mul_bytes mul (b ∷ bs) = ap suc (length-mul_bytes mul bs)

mul_step :
    (b mul c v low p : ℕ)
    → low + c * p ≡ v * mul
    → (b * mul + c) % 256 * p + low + (b * mul + c) / 256 * (256 * p) ≡ (b * p + v) * mul
mul_step b mul c v low p h = grind (arith, h, ap (λ (t : ℕ). t * p) (mod-add-div (b * mul + c) 256))

mul_bytes_lem :
    (mul : ℕ) (bs : Bytes)
    → from_be_bytes (mul_bytes mul bs).0 + (mul_bytes mul bs).1 * 256 ^ length bs
      ≡ from_be_bytes bs * mul
unfolding mul_bytes from_be_bytes
mul_bytes_lem mul [] = omega arith
mul_bytes_lem mul (b ∷ bs) =
    ap
      (λ (t : ℕ).
        (b * mul + (mul_bytes mul bs).1) % 256 * 256 ^ t
        + from_be_bytes (mul_bytes mul bs).0
        + (b * mul + (mul_bytes mul bs).1) / 256 * 256 ^ suc (length bs))
      (length-mul_bytes mul bs)
    ∙ ap
        (λ (t : ℕ).
          (b * mul + (mul_bytes mul bs).1) % 256 * 256 ^ length bs
          + from_be_bytes (mul_bytes mul bs).0
          + (b * mul + (mul_bytes mul bs).1) / 256 * t)
        (pow-succ' 256 (length bs))
    ∙ mul_step b mul (mul_bytes mul bs).1 (from_be_bytes bs) (from_be_bytes (mul_bytes mul bs).0)
        (256 ^ length bs) (mul_bytes_lem mul bs)

quotient_digit :
    (div r b : ℕ) → 0 < div → r < div → b < 256 → (r * 256 + b) / div % 256 ≡ (r * 256 + b) / div
quotient_digit div r b pos lt hb =
    mod-eq_of_lt ((div-lt_iff_lt-mul {k = div} {x = r * 256 + b} {y = 256} pos).1 (omega arith))

div_step :
    (div r b v p : ℕ)
    → 0 < div
    → r < div
    → b < 256
    → (r * 256 + b) / div % 256 * p + ((r * 256 + b) % div * p + v) / div
      ≡ (r * (256 * p) + (b * p + v)) / div
div_step div r b v p pos lt hb =
    ap (λ (t : ℕ). t * p + ((r * 256 + b) % div * p + v) / div) (quotient_digit div r b pos lt hb)
    ∙ sym (mul-add-div_right pos ((r * 256 + b) / div * p) ((r * 256 + b) % div * p + v))
    ∙ ap (λ (t : ℕ). t / div)
        (grind (arith, ap (λ (t : ℕ). t * p) (div-add-mod' (r * 256 + b) div)))

pub length-div_bytes : (div r : ℕ) (bs : Bytes) → length (div_bytes div r bs) ≡ length bs
unfolding div_bytes
length-div_bytes div r [] = refl
length-div_bytes div r (b ∷ bs) = ap suc (length-div_bytes div ((r * 256 + b) % div) bs)

div_bytes_lem :
    (div r : ℕ) (bs : Bytes)
    → 0 < div
    → r < div
    → All IsByte bs
    → from_be_bytes (div_bytes div r bs) ≡ (r * 256 ^ length bs + from_be_bytes bs) / div
unfolding div_bytes from_be_bytes
div_bytes_lem div r [] pos lt h = sym (div-eq_of_lt lt) ∙ ap (λ (t : ℕ). t / div) (omega arith)
div_bytes_lem div r (b ∷ bs) pos lt h =
    let m = (r * 256 + b) % div in
    ap (λ (t : ℕ). (r * 256 + b) / div % 256 * 256 ^ t + from_be_bytes (div_bytes div m bs))
      (length-div_bytes div m bs)
    ∙ ap (λ (t : ℕ). (r * 256 + b) / div % 256 * 256 ^ length bs + t)
        (div_bytes_lem div m bs pos (mod-lt (r * 256 + b) pos) h.1)
    ∙ div_step div r b (from_be_bytes bs) (256 ^ length bs) pos lt h.0
    ∙ ap (λ (t : ℕ). (r * t + (b * 256 ^ length bs + from_be_bytes bs)) / div)
        (sym (pow-succ' 256 (length bs)))

carry-lt : (mul : ℕ) (bs : Bytes) → 0 < mul → All IsByte bs → (mul_bytes mul bs).1 < mul
unfolding mul_bytes
carry-lt mul [] pos h = pos
carry-lt mul (b ∷ bs) pos h =
    (div-lt_iff_lt-mul {k = 256} {x = b * mul + (mul_bytes mul bs).1} {y = mul} (omega arith)).1 (
      omega (
        arith,
        carry-lt mul bs pos h.1,
        mul-le-mul_right {m = b} {n = 255} mul (omega (arith, h.0)),
      ))

product :
    (value : Bytes) (mul : ℕ)
    → 0 < mul
    → mul < 2 ^ 64
    → All IsByte value
    → length value ≡ 32
    → from_be_bytes (be_bytes 8 (mul_bytes mul value).1 ++ (mul_bytes mul value).0)
      ≡ from_be_bytes value * mul
product value mul pos fits h wide =
    from_be_bytes-append (be_bytes 8 (mul_bytes mul value).1) (mul_bytes mul value).0
    ∙ ap
        (λ (t : ℕ).
          t * 256 ^ length (mul_bytes mul value).0 + from_be_bytes (mul_bytes mul value).0)
        (from_be_bytes-be_bytes 8 (mul_bytes mul value).1
          ∙ mod-eq_of_lt (omega (arith, carry-lt mul value pos h)))
    ∙ ap (λ (t : ℕ). (mul_bytes mul value).1 * 256 ^ t + from_be_bytes (mul_bytes mul value).0)
        (length-mul_bytes mul value)
    ∙ omega (arith, mul_bytes_lem mul value)

mul_bytes-IsByte : (mul : ℕ) (bs : Bytes) → All IsByte (mul_bytes mul bs).0
unfolding mul_bytes
mul_bytes-IsByte mul [] = tt
mul_bytes-IsByte mul (b ∷ bs) = (omega arith, mul_bytes-IsByte mul bs)

pub be_bytes-IsByte : (w v : ℕ) → All IsByte (be_bytes w v)
unfolding be_bytes
be_bytes-IsByte zero v = tt
be_bytes-IsByte (suc w) v = (omega arith, be_bytes-IsByte w v)

pub div_bytes-IsByte : (div r : ℕ) (bs : Bytes) → All IsByte (div_bytes div r bs)
unfolding div_bytes
div_bytes-IsByte div r [] = tt
div_bytes-IsByte div r (b ∷ bs) = (omega arith, div_bytes-IsByte div ((r * 256 + b) % div) bs)

-- The eight bytes above a target, and the target.
split :
    (q : Bytes)
    → length q ≡ 40
    → from_be_bytes q ≡ from_be_bytes (take 8 q) * 256 ^ 32 + from_be_bytes (drop 8 q)
split q long =
    ap from_be_bytes (sym (take-append-drop 8 q))
    ∙ from_be_bytes-append (take 8 q) (drop 8 q)
    ∙ ap (λ (t : ℕ). from_be_bytes (take 8 q) * 256 ^ t + from_be_bytes (drop 8 q)) {y = 32}
        (omega (arith, length-drop 8 q))

abbrev quotient_of : Bytes → ℕ → ℕ → Bytes
quotient_of value mul div =
    div_bytes div 0 (be_bytes 8 (mul_bytes mul value).1 ++ (mul_bytes mul value).0)

length-quotient_of :
    (value : Bytes) (mul div : ℕ) → length value ≡ 32 → length (quotient_of value mul div) ≡ 40
length-quotient_of value mul div wide =
    length-div_bytes div 0 (be_bytes 8 (mul_bytes mul value).1 ++ (mul_bytes mul value).0)
    ∙ length-append (be_bytes 8 (mul_bytes mul value).1) (mul_bytes mul value).0
    ∙ omega (arith, length-be_bytes 8 (mul_bytes mul value).1, length-mul_bytes mul value)

quotient_of_lem :
    (value : Bytes) (mul div : ℕ)
    → All IsByte value
    → length value ≡ 32
    → 0 < mul
    → mul < 2 ^ 64
    → 0 < div
    → from_be_bytes (quotient_of value mul div) ≡ from_be_bytes value * mul / div
quotient_of_lem value mul div h wide pos fits dpos =
    div_bytes_lem div 0 (be_bytes 8 (mul_bytes mul value).1 ++ (mul_bytes mul value).0) dpos dpos (
      All-append (be_bytes 8 (mul_bytes mul value).1) (mul_bytes mul value).0
        (be_bytes-IsByte 8 (mul_bytes mul value).1) (mul_bytes-IsByte mul value))
    ∙ ap (λ (t : ℕ). t / div) (omega (arith, product value mul pos fits h wide))

-- Scaling a target of 32 bytes gives the 32 bytes of the product divided, rounded down, or nothing
-- exactly when those do not suffice.
pub mul_div_lem :
    (value : Bytes) (mul div : ℕ)
    → All IsByte value
    → length value ≡ 32
    → 0 < mul
    → mul < 2 ^ 64
    → 0 < div
    → ((mul_div value mul div ≡ none) × (256 ^ 32 ≤ from_be_bytes value * mul / div))
      ⊎ ((t : Bytes) × (mul_div value mul div ≡ some t)
          × (length t ≡ 32)
          × All IsByte t
          × (from_be_bytes t ≡ from_be_bytes value * mul / div))
unfolding mul_div
mul_div_lem value mul div h wide pos fits dpos =
    let q = quotient_of value mul div in
    let sum : from_be_bytes value * mul / div
        ≡ from_be_bytes (take 8 q) * 256 ^ 32 + from_be_bytes (drop 8 q) =
      sym (quotient_of_lem value mul div h wide pos fits dpos)
      ∙ split q (length-quotient_of value mul div wide) in
    elim (Bool-cases (all_zero (take 8 q))) [
      | inl z ↦ inr (
        drop 8 q,
        ground (arith, z, carry-lt mul value pos h),
        omega (arith, length-drop 8 q, length-quotient_of value mul div wide),
        All-drop 8 q (
            div_bytes-IsByte div 0 (be_bytes 8 (mul_bytes mul value).1 ++ (mul_bytes mul value).0)),
        omega (arith, sum, all_zero→0 (take 8 q) z),
      )
      | inr z ↦ inl (ground (arith, z), omega (arith, sum, some_digit (take 8 q) z))
    ]
