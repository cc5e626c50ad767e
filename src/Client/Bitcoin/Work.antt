-- ===== src/Client/Bitcoin/Work.antt =====
-- crates/certimining-client/src/bitcoin.rs: the comparison of a hash with a target.
use potash.Common.{
  from_le_bytes-lt, ℕ, zero, suc, ◌+◌, ◌-◌, ◌*◌, ◌^◌, ◌≤◌, ◌<◌, ◌≡◌, ◌↔◌, refl, sym, ap, ◌∙◌, arith,
  true, Option, some, [], ◌∷◌, ◌++◌, Bytes, IsByte, All, length, from_be_bytes, from_le_bytes, take,
  drop, get_elem?, get_elem?-lt, All-take, All-drop, length-take, length-drop, lt-get_elem?, ltb,
  ◌==◌, if◌then◌else◌,
}
use native.Mathlib.Nat.{pow-succ'}
use potash.Client.Bitcoin.Header.{by_byte, le_reversed, less_than_or_equal_reversed}
use potash.Client.Bitcoin.Arithmetic.{first_decides, from_be_bytes-lt}

from_le_bytes-snoc :
    (xs : Bytes) (h : ℕ) → from_le_bytes (xs ++ (h ∷ [])) ≡ h * 256 ^ length xs + from_le_bytes xs
unfolding from_le_bytes
from_le_bytes-snoc [] h = omega arith
from_le_bytes-snoc (x ∷ xs) h =
    ap (λ (t : ℕ). x + 256 * t) (from_le_bytes-snoc xs h)
    ∙ grind (arith, ap (λ (t : ℕ). h * t) (pow-succ' 256 (length xs)))

take_snoc :
    (xs : Bytes) (n h : ℕ) → get_elem? xs n ≡ some h → take (suc n) xs ≡ take n xs ++ (h ∷ [])
take_snoc [] n h at = absurd (cc at)
take_snoc (x ∷ xs) zero h at = grind (arith, at)
take_snoc (x ∷ xs) (suc n) h at = ap (λ (t : Bytes). x ∷ t) (take_snoc xs n h at)

drop_cons : (xs : Bytes) (n h : ℕ) → get_elem? xs n ≡ some h → drop n xs ≡ h ∷ drop (n + 1) xs
drop_cons [] n h at = absurd (cc at)
drop_cons (x ∷ xs) zero h at = grind (arith, at)
drop_cons (x ∷ xs) (suc n) h at =
    drop_cons xs n h at
    ∙ ap (λ (t : Bytes). h ∷ t) (ap (λ (t : ℕ). drop t (x ∷ xs)) {x = suc (n + 1)} (omega arith))

take_all : (n : ℕ) (bytes : Bytes) → length bytes ≡ n → take n bytes ≡ bytes
take_all zero [] h = refl
take_all (suc n) [] h = refl
take_all zero (b ∷ bs) h = absurd (omega arith)
take_all (suc n) (b ∷ bs) h = ap (λ (t : Bytes). b ∷ t) (take_all n bs (omega arith))

module _ (hash target : Bytes) (wide : length hash ≡ 32) (wide' : length target ≡ 32)
    (hh : All IsByte hash) (ht : All IsByte target) where
  hash_top :
      (n h : ℕ)
      → get_elem? hash n ≡ some h
      → from_le_bytes (take (suc n) hash) ≡ h * 256 ^ n + from_le_bytes (take n hash)
  hash_top n h here =
      ap from_le_bytes (take_snoc hash n h here)
      ∙ from_le_bytes-snoc (take n hash) h
      ∙ ap (λ (t : ℕ). h * 256 ^ t + from_le_bytes (take n hash)) {y = n}
          (omega (arith, length-take n hash, lt-get_elem? hash n h here))

  target_top :
      (i n t : ℕ)
      → get_elem? target i ≡ some t
      → i + suc n ≡ 32
      → from_be_bytes (drop i target) ≡ t * 256 ^ n + from_be_bytes (drop (i + 1) target)
  unfolding from_be_bytes
  target_top i n t there at =
      ap from_be_bytes (drop_cons target i t there)
      ∙ ap (λ (l : ℕ). t * 256 ^ l + from_be_bytes (drop (i + 1) target)) {y = n}
          (omega (arith, length-drop (i + 1) target, wide'))

  low_hash : (n : ℕ) → n ≤ 32 → from_le_bytes (take n hash) < 256 ^ n
  low_hash n le = omega (
    arith,
    from_le_bytes-lt (take n hash) (All-take n hash hh),
    ap (λ (t : ℕ). 256 ^ t) {x = length (take n hash)} {y = n}
        (omega (arith, length-take n hash, wide)),
  )

  low_target : (i n : ℕ) → i + suc n ≡ 32 → from_be_bytes (drop (i + 1) target) < 256 ^ n
  low_target i n at = omega (
    arith,
    from_be_bytes-lt (drop (i + 1) target) (All-drop (i + 1) target ht),
    ap (λ (t : ℕ). 256 ^ t) {x = length (drop (i + 1) target)} {y = n}
        (omega (arith, length-drop (i + 1) target, wide')),
  )

  le_reversed_lem :
      (n i : ℕ)
      → i + n ≡ 32
      → (le_reversed hash target i n ≡ true)
        ↔ (from_le_bytes (take n hash) ≤ from_be_bytes (drop i target))
  unfolding le_reversed from_le_bytes by_byte
  le_reversed_lem zero i at = (λ e. omega arith, λ e. refl)
  le_reversed_lem (suc n) i at =
      let (h, here) = get_elem?-lt hash n (omega (arith, wide)) in
      let (t, there) = get_elem?-lt target i (omega (arith, wide')) in
      let first : le_reversed hash target i (suc n)
          ≡ (if h == t then le_reversed hash target (i + 1) n else ltb h t) =
        ap (λ (o : Option ℕ). by_byte o (get_elem? target i) (le_reversed hash target (i + 1) n))
          (ap (get_elem? hash) {x = 31 - i} {y = n} (omega arith) ∙ here)
        ∙ ap (λ (o : Option ℕ). by_byte (some h) o (le_reversed hash target (i + 1) n)) there in
      let left = hash_top n h here in
      let right = target_top i n t there at in
      let both =
        first_decides h t (from_le_bytes (take n hash)) (from_be_bytes (drop (i + 1) target))
          (256 ^ n) (le_reversed hash target (i + 1) n) (low_hash n (omega arith))
          (low_target i n at) (le_reversed_lem n (i + 1) (omega arith)) in
      (
        λ e. omega (arith, left, right, both.0 (sym first ∙ e)),
        λ le. first ∙ both.1 (omega (arith, left, right, le)),
      )

  -- The comparison is that of the numbers.
  pub less_than_or_equal_reversed_iff :
      (less_than_or_equal_reversed hash target ≡ true) ↔ (from_le_bytes hash ≤ from_be_bytes target)
  unfolding less_than_or_equal_reversed
  less_than_or_equal_reversed_iff =
      let same = ap from_le_bytes (take_all 32 hash wide) in
      let by_digits = le_reversed_lem 32 0 refl in
      (λ e. omega (arith, same, by_digits.0 e), λ le. by_digits.1 (omega (arith, same, le)))
