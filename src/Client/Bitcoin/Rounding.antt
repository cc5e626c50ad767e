-- ===== src/Client/Bitcoin/Rounding.antt =====
-- crates/certimining-client/src/bitcoin.rs: a target rounds down to its compact form.
use potash.Common.{
  ℕ, zero, suc, ◌+◌, ◌-◌, ◌*◌, ◌/◌, ◌%◌, ◌^◌, ◌≤◌, ◌<◌, ◌≡◌, refl, sym, ap, ◌∙◌, arith, inl, inr,
  Option, none, some, [], ◌∷◌, ◌==◌, Bytes, IsByte, All, length, get_elem?, from_be_bytes,
  Bool-cases, Option-cases,
}
use mathlib.Core.Path.{subst}
use native.Mathlib.Nat.{mul-div_cancel, mul_assoc, pow-succ', mul-le-mul_right}
use potash.Common.Maybe.{◌>>=◌, some_injective, unwrap_or}
use potash.Client.Bitcoin.Target.{position, top_three, compact, bits_from_target, target_from_bits}
use potash.Client.Bitcoin.Arithmetic.{from_be_bytes-lt}
use potash.Client.Bitcoin.Compact.{value_of, target_from_bits-Decodes}

-- Three digits at the head of a number of `size` digits, of which the first is not zero.
abbrev Leads : ℕ → ℕ → ℕ → Type 0
Leads top size value =
    (top * 256 ^ size ≤ value * 2 ^ 24)
    × (value * 2 ^ 24 < (top + 1) * 256 ^ size)
    × (2 ^ 16 ≤ top)
    × (top < 2 ^ 24)

three_digits :
    (b c d w p : ℕ)
    → w < p
    → (((b * 256 + c) * 256 + d) * (256 * (256 * (256 * p)))
        ≤ (b * (256 * (256 * p)) + (c * (256 * p) + (d * p + w))) * 2 ^ 24)
      × ((b * (256 * (256 * p)) + (c * (256 * p) + (d * p + w))) * 2 ^ 24
          < ((b * 256 + c) * 256 + d + 1) * (256 * (256 * (256 * p))))
three_digits b c d w p h = (grind arith, grind arith)

first_three :
    (b : ℕ) (rest : Bytes)
    → 0 < b
    → b < 256
    → All IsByte rest
    → Leads (top_three (b ∷ rest) 0) (suc (length rest)) (from_be_bytes (b ∷ rest))
unfolding top_three from_be_bytes
first_three b [] some_bit byte h = (omega arith, omega arith, omega arith, omega arith)
first_three b (c ∷ []) some_bit byte h = (omega arith, omega arith, omega arith, omega arith)
first_three b (c ∷ (d ∷ r)) some_bit byte h =
    rw
      (
        pow-succ' 256 (suc (suc (length r))),
        pow-succ' 256 (suc (length r)),
        pow-succ' 256 (length r),
      )
      (
        (three_digits b c d (from_be_bytes r) (256 ^ length r) (from_be_bytes-lt r h.1.1)).0,
        (three_digits b c d (from_be_bytes r) (256 ^ length r) (from_be_bytes-lt r h.1.1)).1,
        omega arith,
        omega (arith, h.0, h.1.0),
      )

-- The number of the first digits is the whole number, but for what its rounding down leaves out.
abbrev pub Rounds : ℕ → ℕ → Type 0
Rounds value rounded = (rounded ≤ value) × (value * 2 ^ 15 ≤ rounded * (2 ^ 15 + 1))

top_three-suc : (b : ℕ) (bs : Bytes) (j : ℕ) → top_three (b ∷ bs) (suc j) ≡ top_three bs j
unfolding top_three
top_three-suc b bs j =
    ap
      (λ (n : ℕ).
        (unwrap_or (get_elem? bs j) 0 * 256 + unwrap_or (get_elem? (b ∷ bs) n) 0) * 256
        + unwrap_or (get_elem? (b ∷ bs) (suc j + 2)) 0)
      {y = suc (j + 1)} (omega arith)
    ∙ ap
        (λ (n : ℕ).
          (unwrap_or (get_elem? bs j) 0 * 256 + unwrap_or (get_elem? bs (j + 1)) 0) * 256
          + unwrap_or (get_elem? (b ∷ bs) n) 0)
        {y = suc (j + 2)} (omega arith)

after_zero :
    (b : ℕ) (bs : Bytes) (i k : ℕ) (o : Option ℕ)
    → b ≡ 0
    → ((j : ℕ) → o ≡ some j → j + k ≡ length bs → Leads (top_three bs j) k (from_be_bytes bs))
    → (o >>= λ j. some (suc j)) ≡ some i
    → i + k ≡ suc (length bs)
    → Leads (top_three (b ∷ bs) i) k (from_be_bytes (b ∷ bs))
unfolding from_be_bytes
after_zero b bs i k none z rest found sum = absurd (cc found)
after_zero b bs i k (some j) z rest found sum =
    let here = some_injective found in
    subst (λ (n : ℕ). Leads (top_three (b ∷ bs) n) k (from_be_bytes (b ∷ bs))) here
      (rw (top_three-suc b bs j) (
        subst (λ (v : ℕ). Leads (top_three bs j) k v) {y = from_be_bytes (b ∷ bs)}
          (omega (arith, ap (λ (t : ℕ). t * 256 ^ length bs) z))
          (rest j refl (omega (arith, here)))))

position-Leads :
    (target : Bytes) (i k : ℕ)
    → All IsByte target
    → position target ≡ some i
    → i + k ≡ length target
    → Leads (top_three target i) k (from_be_bytes target)
unfolding position
position-Leads [] i k h found sum = absurd (cc found)
position-Leads (b ∷ bs) i k h found sum = elim (Bool-cases (b == 0)) [
  | inl zero_first ↦
      after_zero b bs i k (position bs) (ground (arith, zero_first))
        (λ j e count. position-Leads bs j k h.1 e count) (rw zero_first at found) sum
  | inr some_bit ↦
      let here : i ≡ 0 = ground (arith, found, some_bit) in
      subst (λ (n : ℕ). Leads (top_three (b ∷ bs) n) k (from_be_bytes (b ∷ bs))) (sym here)
        (subst (λ (n : ℕ). Leads (top_three (b ∷ bs) 0) n (from_be_bytes (b ∷ bs)))
          {x = suc (length bs)} (omega (arith, here))
          (first_three b bs (ground (arith, some_bit)) h.0 h.1))
]

times_256 : (m p : ℕ) → m * 256 * p ≡ m * p * 256
times_256 m p = grind arith

pow_two : (j m : ℕ) → m * 256 ^ suc (suc j) ≡ m * 256 ^ j * 2 ^ 16
pow_two j m =
    ap (λ (t : ℕ). m * t) (omega (arith, pow-succ' 256 j, pow-succ' 256 (suc j)))
    ∙ sym (mul_assoc m (256 ^ j) (2 ^ 16))

pow_three : (j m : ℕ) → m * 256 ^ suc (suc (suc j)) ≡ m * 256 ^ j * 2 ^ 24
pow_three j m =
    ap (λ (t : ℕ). m * t)
      (omega (arith, pow-succ' 256 j, pow-succ' 256 (suc j), pow-succ' 256 (suc (suc j))))
    ∙ sym (mul_assoc m (256 ^ j) (2 ^ 24))

value_at : (j m : ℕ) → value_of (suc (suc (suc j))) m ≡ m * 256 ^ j
value_at j m =
    ap (λ (t : ℕ). t / 2 ^ 24) (pow_three j m)
    ∙ mul-div_cancel (m * 256 ^ j) {n = 2 ^ 24} (omega arith)

scaled_digits : (m v p : ℕ) → 2 ^ 15 ≤ m → m * p ≤ v → v < (m + 1) * p → Rounds v (m * p)
scaled_digits m v p big low high =
    (low, omega (arith, mul-le-mul_right {m = 2 ^ 15} {n = m} p big, add_one_mul m p))
  where
    add_one_mul : (m p : ℕ) → (m + 1) * p ≡ m * p + p
    add_one_mul m p = grind arith

-- Without and with the sign bit of the first digits.
plain-Rounds : (size top v : ℕ) → Leads top size v → Rounds v (value_of size top)
plain-Rounds zero top v (low, high, big, small) = absurd (omega arith)
plain-Rounds (suc zero) top v (low, high, big, small) = (omega arith, omega arith)
plain-Rounds (suc (suc zero)) top v (low, high, big, small) = (omega arith, omega arith)
plain-Rounds (suc (suc (suc j))) top v (low, high, big, small) = rw (value_at j top) (
    scaled_digits top v (256 ^ j) (omega arith) (omega (arith, pow_three j top))
      (omega (arith, pow_three j (top + 1))))

signed-Rounds :
    (size top v : ℕ)
    → Leads top size v
    → 2 ^ 23 ≤ top
    → Rounds v (value_of (suc size) (top / 2 ^ 8))
signed-Rounds zero top v (low, high, big, small) set = absurd (omega arith)
signed-Rounds (suc zero) top v (low, high, big, small) set = (omega arith, omega arith)
signed-Rounds (suc (suc j)) top v (low, high, big, small) set = rw (value_at j (top / 2 ^ 8)) (
    scaled_digits (top / 2 ^ 8) v (256 ^ j) (omega arith)
      (omega (
        arith,
        pow_two j top,
        mul-le-mul_right {m = top / 256 * 256} {n = top} (256 ^ j) (omega arith),
        times_256 (top / 256) (256 ^ j),
      ))
      (omega (
        arith,
        pow_two j (top + 1),
        mul-le-mul_right {m = top + 1} {n = (top / 256 + 1) * 256} (256 ^ j) (omega arith),
        times_256 (top / 256 + 1) (256 ^ j),
      )))

compact-Rounds :
    (size top v : ℕ)
    → Leads top size v
    → Rounds v (value_of (compact size top / 2 ^ 24) (compact size top % 2 ^ 23))
unfolding compact
compact-Rounds size top v l = elim (Bool-cases (top / 2 ^ 23 % 2 == 0)) [
  | inl clear ↦
      rw
        (
          clear,
          exponent_of size top (ground (arith, l.3)),
          mantissa_of size top (ground (arith, clear, l.3)),
        )
        (plain-Rounds size top v l)
  | inr set ↦
      rw
        (
          set,
          exponent_of (size + 1) (top / 2 ^ 8) (omega (arith, l.3)),
          mantissa_of (size + 1) (top / 2 ^ 8) (omega (arith, l.3)),
        )
        (subst (λ (n : ℕ). Rounds v (value_of n (top / 2 ^ 8))) {x = suc size} (omega arith)
          (signed-Rounds size top v l (ground (arith, set))))
]
  where
    exponent_of : (e m : ℕ) → m < 2 ^ 24 → (e * 2 ^ 24 + m) / 2 ^ 24 ≡ e
    exponent_of e m h = omega arith

    mantissa_of : (e m : ℕ) → m < 2 ^ 23 → (e * 2 ^ 24 + m) % 2 ^ 23 ≡ m
    mantissa_of e m h = omega arith

-- The compact form of a target of 32 bytes stands, where it stands for a target, for one of 32 bytes
-- that is no larger, and smaller by at most one part in 2^15 of itself.
pub bits_from_target-Rounds :
    (target rounded : Bytes) (bits : ℕ)
    → All IsByte target
    → length target ≡ 32
    → bits_from_target target ≡ some bits
    → target_from_bits bits ≡ some rounded
    → (length rounded ≡ 32)
      × All IsByte rounded
      × Rounds (from_be_bytes target) (from_be_bytes rounded)
unfolding bits_from_target
bits_from_target-Rounds target rounded bits h wide encoded decoded =
    elim (Option-cases (position target)) [
      | inl e ↦ absurd (cc (rw e at encoded))
      | inr (first, e) ↦
          let within : (first ≤ 32) × (compact (32 - first) (top_three target first) ≡ bits) =
            ground (arith, rw e at encoded) in
          let (_, _, _, length_32, bytes, value) = rw decoded at (target_from_bits-Decodes bits) in
          let rounds =
            compact-Rounds (32 - first) (top_three target first) (from_be_bytes target)
              (position-Leads target first (32 - first) h e (omega (arith, wide, within.0))) in
          (
            length_32,
            bytes,
            subst (λ (v : ℕ). Rounds (from_be_bytes target) v) (sym value)
                (subst
                  (λ (b : ℕ). Rounds (from_be_bytes target) (value_of (b / 2 ^ 24) (b % 2 ^ 23)))
                  within.1 rounds),
          )
    ]
