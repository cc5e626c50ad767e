-- ===== src/Client/Bitcoin/Arithmetic.antt =====
-- crates/certimining-client/src/bitcoin.rs: what the byte arithmetic computes.
use potash.Common.{
  ℕ, zero, suc, ◌+◌, ◌*◌, ◌/◌, ◌%◌, ◌^◌, ◌≤◌, ◌<◌, ◌≡◌, ◌↔◌, refl, sym, ap, ◌∙◌, arith, true, false,
  Bool, [], ◌∷◌, ◌++◌, ltb, ◌==◌, if◌then◌else◌, ◌⊎◌, inl, inr, Bytes, IsByte, All, length,
  length-append, from_be_bytes, be_bytes,
}
use native.Mathlib.Nat.{
  mul-le-mul_right, pow-succ', mod-lt, mod-eq_of_lt, div-add-mod, mul_assoc, add-mul-mod_self_left,
}
use potash.Client.Bitcoin.Retarget.{lex_le, all_zero}

digit_bound : (b v p : ℕ) → b < 256 → v < p → b * p + v < 256 * p
digit_bound b v p hb hv = omega (arith, mul-le-mul_right {m = b} {n = 255} p (omega arith))

pub from_be_bytes-lt : (bs : Bytes) → All IsByte bs → from_be_bytes bs < 256 ^ length bs
unfolding from_be_bytes
from_be_bytes-lt [] h = omega arith
from_be_bytes-lt (b ∷ bs) h =
    rw (pow-succ' 256 (length bs))
      (digit_bound b (from_be_bytes bs) (256 ^ length bs) h.0 (from_be_bytes-lt bs h.1))

pub first_decides :
    (x y v w p : ℕ) (rest : Bool)
    → v < p
    → w < p
    → (rest ≡ true) ↔ (v ≤ w)
    → ((if x == y then rest else ltb x y) ≡ true) ↔ (x * p + v ≤ y * p + w)
first_decides x y v w p rest hv hw h = elim (order x y) [
  | inl lt ↦
      (λ e. omega (arith, mul-le-mul_right {m = x + 1} {n = y} p (omega arith)), λ e. ground arith)
  | inr (inl same) ↦ (
    λ e. omega (arith, ap (λ (t : ℕ). t * p) same, h.0 (ground (arith, e))),
    λ e. ground (arith, h.1 (omega (arith, ap (λ (t : ℕ). t * p) same))),
  )
  | inr (inr gt) ↦ (
    λ e. absurd (ground (arith, e)),
    λ e. absurd (omega (arith, mul-le-mul_right {m = y + 1} {n = x} p (omega arith))),
  )
]
  where
    order : (a b : ℕ) → (a < b) ⊎ (a ≡ b) ⊎ (b < a)
    order a b = ground arith

-- Byte strings of one length are in order exactly when the numbers are.
pub lex_le_iff :
    (xs ys : Bytes)
    → length xs ≡ length ys
    → All IsByte xs
    → All IsByte ys
    → (lex_le xs ys ≡ true) ↔ (from_be_bytes xs ≤ from_be_bytes ys)
unfolding lex_le from_be_bytes
lex_le_iff [] [] same hx hy = (λ h. omega arith, λ h. refl)
lex_le_iff [] (y ∷ ys) same hx hy = absurd (omega arith)
lex_le_iff (x ∷ xs) [] same hx hy = absurd (omega arith)
lex_le_iff (x ∷ xs) (y ∷ ys) same hx hy =
    rw (ap (λ (t : ℕ). 256 ^ t) {x = length ys} {y = length xs} (omega arith)) (
      first_decides x y (from_be_bytes xs) (from_be_bytes ys) (256 ^ length xs) (lex_le xs ys)
        (from_be_bytes-lt xs hx.1)
        (rw (ap (λ (t : ℕ). 256 ^ t) {x = length xs} {y = length ys} (omega arith))
          (from_be_bytes-lt ys hy.1))
        (lex_le_iff xs ys (omega arith) hx.1 hy.1))

pub pow-pos : (n : ℕ) → 0 < 256 ^ n
pow-pos zero = omega arith
pow-pos (suc n) = rw (pow-succ' 256 n) (omega (arith, pow-pos n))

pow256_add : (m n : ℕ) → 256 ^ (m + n) ≡ 256 ^ m * 256 ^ n
pow256_add zero n = ap (λ (t : ℕ). 256 ^ t) {y = n} (omega arith) ∙ omega arith
pow256_add (suc m) n =
    ap (λ (t : ℕ). 256 ^ t) {y = suc (m + n)} (omega arith)
    ∙ pow-succ' 256 (m + n)
    ∙ ap (λ (t : ℕ). 256 * t) (pow256_add m n)
    ∙ sym (mul_assoc 256 (256 ^ m) (256 ^ n))
    ∙ ap (λ (t : ℕ). t * 256 ^ n) (sym (pow-succ' 256 m))

top_digit : (v p : ℕ) → 0 < p → v / p % 256 * p + v % p ≡ v % (256 * p)
top_digit v p pos =
    sym (
      mod-eq_of_lt
        (digit_bound (v / p % 256) (v % p) p (mod-lt (v / p) (omega arith)) (mod-lt v pos)))
    ∙ sym (add-mul-mod_self_left (v / p % 256 * p + v % p) (256 * p) (v / p / 256))
    ∙ ap (λ (t : ℕ). t % (256 * p))
        (grind (arith, div-add-mod v p, ap (λ (t : ℕ). t * p) (div-add-mod (v / p) 256)))

pub length-be_bytes : (w v : ℕ) → length (be_bytes w v) ≡ w
unfolding be_bytes
length-be_bytes zero v = refl
length-be_bytes (suc w) v = ap suc (length-be_bytes w v)

pub from_be_bytes-append :
    (xs ys : Bytes)
    → from_be_bytes (xs ++ ys) ≡ from_be_bytes xs * 256 ^ length ys + from_be_bytes ys
unfolding from_be_bytes
from_be_bytes-append [] ys = omega arith
from_be_bytes-append (x ∷ xs) ys =
    ap (λ (t : ℕ). x * 256 ^ t + from_be_bytes (xs ++ ys)) (length-append xs ys)
    ∙ ap (λ (t : ℕ). x * t + from_be_bytes (xs ++ ys)) (pow256_add (length xs) (length ys))
    ∙ grind (arith, from_be_bytes-append xs ys)

pub from_be_bytes-be_bytes : (w v : ℕ) → from_be_bytes (be_bytes w v) ≡ v % 256 ^ w
unfolding from_be_bytes be_bytes
from_be_bytes-be_bytes zero v = omega arith
from_be_bytes-be_bytes (suc w) v =
    ap (λ (t : ℕ). v / 256 ^ w % 256 * 256 ^ t + from_be_bytes (be_bytes w v)) (length-be_bytes w v)
    ∙ ap (λ (t : ℕ). v / 256 ^ w % 256 * 256 ^ w + t) (from_be_bytes-be_bytes w v)
    ∙ top_digit v (256 ^ w) (pow-pos w)
    ∙ ap (λ (t : ℕ). v % t) (sym (pow-succ' 256 w))

pub all_zero→0 : (bs : Bytes) → all_zero bs ≡ true → from_be_bytes bs ≡ 0
unfolding all_zero from_be_bytes
all_zero→0 [] h = refl
all_zero→0 (b ∷ bs) h =
    let parts : (b ≡ 0) × (all_zero bs ≡ true) = ground (arith, h) in
    omega (arith, ap (λ (t : ℕ). t * 256 ^ length bs) parts.0, all_zero→0 bs parts.1)

pub some_digit : (bs : Bytes) → all_zero bs ≡ false → 1 ≤ from_be_bytes bs
unfolding all_zero from_be_bytes
some_digit [] h = absurd (cc h)
some_digit (b ∷ bs) h = elim (zero_or b) [
  | inl e ↦ omega (arith, some_digit bs (ground (arith, h, e)))
  | inr positive ↦
      omega
        (arith, mul-le-mul_right {m = 1} {n = b} (256 ^ length bs) positive, pow-pos (length bs))
]
  where
    zero_or : (b : ℕ) → (b ≡ 0) ⊎ (1 ≤ b)
    zero_or b = ground arith
