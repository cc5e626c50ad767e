-- ===== src/Client/Bitcoin/Retargeted.antt =====
-- crates/certimining-client/src/bitcoin.rs: how far a retarget moves the target.
use potash.Common.{
  ℕ, ◌+◌, ◌*◌, ◌/◌, ◌^◌, ◌≤◌, ◌<◌, ◌≡◌, refl, sym, ap, ◌∙◌, arith, ◌⊎◌, inl, inr, Option, none,
  some, Bytes, IsByte, All, length, from_be_bytes, Bool-cases,
}
use native.Mathlib.Nat.{mul-le-mul_left}
use potash.Common.Int.{ℤ, pos, negsuc}
use potash.Common.Maybe.{◌>>=◌}
use potash.Client.Bitcoin.Target.{bits_from_target, target_from_bits}
use potash.Client.Bitcoin.Retarget.{
  Network, target_timespan, clamp, to_u64, limited, lex_le, mul_div, retarget_in,
}
use potash.Client.Bitcoin.Arithmetic.{lex_le_iff, from_be_bytes-lt}
use potash.Client.Bitcoin.Scaling.{mul_div_lem}
use potash.Client.Bitcoin.Rounding.{bits_from_target-Rounds}

some_bind :
    {A B : Type 0} {b : B} (o : Option A) (f : A → Option B)
    → (o >>= f) ≡ some b
    → (a : A) × (o ≡ some a) × (f a ≡ some b)
some_bind none f h = absurd (cc h)
some_bind (some a) f h = (a, refl, h)

-- A target of 32 bytes.
abbrev pub IsTarget : Bytes → Type 0
IsTarget target = (length target ≡ 32) × All IsByte target

clamped :
    (timespan : ℤ) (scaled : ℕ)
    → to_u64 (clamp (pos (target_timespan / 4)) (pos (target_timespan * 4)) timespan) ≡ some scaled
    → (302400 ≤ scaled) × (scaled ≤ 4838400)
unfolding clamp
clamped (pos n) scaled h = (ground (arith, h), ground (arith, h))
clamped (negsuc n) scaled h = (ground (arith, h), ground (arith, h))

le_or_lt : (a b : ℕ) → (a ≤ b) ⊎ (b < a)
le_or_lt a b = ground arith

-- Between a quarter and four times of it.
scaled_bounds :
    (previous scaled : ℕ)
    → 302400 ≤ scaled
    → scaled ≤ 4838400
    → (previous / 4 ≤ previous * scaled / 1209600) × (previous * scaled / 1209600 ≤ previous * 4)
scaled_bounds previous scaled low high = (
  omega (arith, mul-le-mul_left {m = 302400} {n = scaled} previous low),
  omega (arith, mul-le-mul_left {m = scaled} {n = 4838400} previous high),
)

-- The target in force before rounding.
abbrev Scaled : Bytes → Bytes → Bytes → Type 0
Scaled previous limit target =
    IsTarget target
    × (from_be_bytes target ≤ from_be_bytes limit)
    × (from_be_bytes target ≤ from_be_bytes previous * 4)
    × ((from_be_bytes limit ≤ from_be_bytes target)
        ⊎ (from_be_bytes previous / 4 ≤ from_be_bytes target))

module _ (previous limit : Bytes) (p : IsTarget previous) (l : IsTarget limit) where
  limited-Scaled :
      (scaled : ℕ)
      → 302400 ≤ scaled
      → scaled ≤ 4838400
      → Scaled previous limit (limited limit (mul_div previous scaled 1209600))
  unfolding limited
  limited-Scaled scaled low high =
      let (quarter, four) = scaled_bounds (from_be_bytes previous) scaled low high in
      elim (mul_div_lem previous scaled 1209600 p.1 p.0 (omega arith) (omega arith) (omega arith)) [
        | inl (e, large) ↦ rw e (
          l,
          omega arith,
          omega (arith, large, four, from_be_bytes-lt limit l.1, ap (λ (n : ℕ). 256 ^ n) l.0),
          inl (omega arith),
        )
        | inr (t, e, wide, bytes, value) ↦ elim (Bool-cases (lex_le t limit)) [
          | inl within ↦
              rw (e, within)
                (
                  (wide, bytes),
                  (lex_le_iff t limit (wide ∙ sym l.0) bytes l.1).0 within,
                  omega (arith, value, four),
                  inr (omega (arith, value, quarter)),
                )
          | inr above ↦
              let higher : from_be_bytes limit < from_be_bytes t =
                elim (le_or_lt (from_be_bytes t) (from_be_bytes limit)) [
                  | inl le ↦
                      absurd (cc (above, (lex_le_iff t limit (wide ∙ sym l.0) bytes l.1).1 le))
                  | inr lt ↦ lt
                ] in
              rw (e, above) (l, omega arith, omega (arith, value, four, higher), inl (omega arith))
        ]
      ]

-- A retarget gives a target of 32 bytes that is no easier than the network's limit nor than four
-- times the previous one, and that is, but for the rounding of its compact form, the limit or at
-- least a quarter of the previous one.
pub retarget_in-Bounded :
    (previous next : Bytes) (timespan : ℤ) (rules : Network)
    → IsTarget previous
    → IsTarget rules.pow_limit
    → retarget_in previous timespan rules ≡ some next
    → IsTarget next
      × (from_be_bytes next ≤ from_be_bytes rules.pow_limit)
      × (from_be_bytes next ≤ from_be_bytes previous * 4)
      × ((from_be_bytes rules.pow_limit * 2 ^ 15 ≤ from_be_bytes next * (2 ^ 15 + 1))
          ⊎ (from_be_bytes previous / 4 * 2 ^ 15 ≤ from_be_bytes next * (2 ^ 15 + 1)))
unfolding retarget_in
retarget_in-Bounded previous next timespan rules p l h =
    let (scaled, to, h') =
      some_bind (to_u64 (clamp (pos (target_timespan / 4)) (pos (target_timespan * 4)) timespan)) _
        h in
    let x = limited rules.pow_limit (mul_div previous scaled 1209600) in
    let (bits, encoded, decoded) = some_bind (bits_from_target x) target_from_bits h' in
    let (low, high) = clamped timespan scaled to in
    let (is_target, within, four, far) =
      limited-Scaled previous rules.pow_limit p l scaled low high in
    let (wide, bytes, (below, near)) =
      bits_from_target-Rounds x next bits is_target.1 is_target.0 encoded decoded in
    (
      (wide, bytes),
      omega (arith, below, within),
      omega (arith, below, four),
      elim far [
        | inl at_limit ↦ inl (omega (arith, near, at_limit))
        | inr quarter ↦ inr (omega (arith, near, quarter))
      ],
    )
