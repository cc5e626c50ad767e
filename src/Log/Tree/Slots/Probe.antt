-- ===== src/Log/Tree/Slots/Probe.antt =====
-- `slot_from_seed` and `probe`.
use Prim.Native.Nat.{◌≤◌}
use native.Mathlib.Nat.{mod-lt, mod-eq_of_lt}
use potash.Common.{ℕ, zero, suc, ◌+◌, ◌-◌, ◌%◌, ◌^◌, ◌<◌, ◌≡◌, refl, ap, ◌∙◌}
use potash.Common.{List, [], ◌∷◌, Option, none, some, arith, Bool-cases, inl, inr, ◌≢◌}
use potash.Common.{Bytes, length, All, take, get_elem?, set, replicate, get_elem?-lt, from_le_bytes}
use native.Mathlib.Nat.{add-mod_right}
use potash.Common.{pow2-pos, leb, ◌==◌, leb→le}
use potash.Core.Error.{ok}
use potash.Core.Hash.{Digest, IsDigest}
use potash.Log.Tree.{slot_from_seed, probe_loop, probe, min_height, max_height}

abbrev pub Slots : Type 0
Slots = List (Option Digest)

-- The digest in a taken slot has its width.
abbrev pub IsSlot : Option Digest → Type 0
IsSlot none = Unit
IsSlot (some d) = length d ≡ 32

abbrev pub IsFree : Slots → ℕ → Type 0
IsFree slots i = get_elem? slots i ≡ some none

abbrev pub count_free : Slots → ℕ
count_free [] = 0
count_free (none ∷ slots) = suc (count_free slots)
count_free (some d ∷ slots) = count_free slots

pub count_free-replicate : (n : ℕ) → count_free (replicate n none) ≡ n
count_free-replicate zero = refl
count_free-replicate (suc n) = ap suc (count_free-replicate n)

pub count_free-set :
    (slots : Slots) (i : ℕ) (d : Digest)
    → IsFree slots i
    → count_free (set slots i (some d)) + 1 ≡ count_free slots
count_free-set [] i d h = cc
count_free-set (none ∷ slots) zero d h = omega arith
count_free-set (some x ∷ slots) zero d h = cc
count_free-set (none ∷ slots) (suc i) d h = omega (arith, count_free-set slots i d h)
count_free-set (some x ∷ slots) (suc i) d h = omega (arith, count_free-set slots i d h)

pub IsFree-slot :
    (slots : Slots) → 0 < count_free slots → (i : ℕ) × (i < length slots) × IsFree slots i
IsFree-slot [] h = absurd (omega arith)
IsFree-slot (none ∷ slots) h = (0, omega arith, refl)
IsFree-slot (some d ∷ slots) h =
    let (i, lt, free) = IsFree-slot slots h in (suc i, omega arith, free)

two_bytes-lt :
    (seed : Bytes)
    → 2 ≤ length seed
    → All (λ b. b < 256) seed
    → from_le_bytes (take 2 seed) < 2 ^ 16
unfolding from_le_bytes
two_bytes-lt [] h bytes = absurd (omega arith)
two_bytes-lt (a ∷ []) h bytes = absurd (omega arith)
two_bytes-lt (a ∷ b ∷ rest) h bytes = omega arith

-- A digest seeds a slot of the tree, at every height the specification allows.
pub slot_from_seed-lt :
    (seed : Digest) (height : ℕ)
    → IsDigest seed
    → min_height ≤ height
    → height ≤ max_height
    → (slot : ℕ) × (slot_from_seed seed height ≡ ok slot) × (slot < 2 ^ height)
unfolding slot_from_seed
slot_from_seed-lt seed height hd lo hi = elim (Bool-cases (height == max_height)) [
  | inl top ↦ (from_le_bytes (take 2 seed), ground arith, ground (arith, two_bytes-lt seed))
  | inr lower ↦ (
    from_le_bytes (take 2 seed) % 2 ^ height,
    ground arith,
    mod-lt (from_le_bytes (take 2 seed)) (pow2-pos height),
  )
]

offset_below : (a b : ℕ) → a ≤ b → a + (b - a) ≡ b
offset_below a b h = omega arith

offset_above : (a b c : ℕ) → a ≤ b + c → a + (b + c - a) ≡ b + c
offset_above a b c h = omega arith

wrap_index :
    (start j capacity : ℕ)
    → start < capacity
    → j < capacity
    → (step : ℕ) × (step < capacity) × ((start + step) % capacity ≡ j)
wrap_index start j capacity hs hj = elim (Bool-cases (leb start j)) [
  | inl below ↦
      (j - start, ground arith, rw (offset_below start j (leb→le _ _ below)) (mod-eq_of_lt hj))
  | inr above ↦ (
    j + capacity - start,
    ground arith,
    rw (offset_above start j capacity (omega arith)) (add-mod_right j capacity ∙ mod-eq_of_lt hj),
  )
]

probe_loop-finds :
    (slots : Slots) (start capacity step remaining s : ℕ)
    → length slots ≡ capacity
    → capacity ≤ 2 ^ 16
    → 0 < capacity
    → step ≤ s
    → s < step + remaining
    → IsFree slots ((start + s) % capacity)
    → (i : ℕ) × (probe_loop slots start capacity step remaining ≡ ok i) × IsFree slots i
unfolding probe_loop
probe_loop-finds slots start capacity step zero s len small some_room lo hi free =
    absurd (omega arith)
probe_loop-finds slots start capacity step (suc remaining) s len small some_room lo hi free =
    let index : ℕ = (start + step) % capacity in
    let inside : index < capacity = mod-lt (start + step) some_room in
    let (slot, found) = get_elem?-lt slots index (omega arith) in
    at_slot slot found inside (λ next.
      probe_loop-finds slots start capacity (step + 1) remaining s len small some_room next
        (omega arith) free)
  where
    at_slot :
        (slot : Option Digest)
        → get_elem? slots ((start + step) % capacity) ≡ some slot
        → (start + step) % capacity < capacity
        → (step + 1 ≤ s
            → (i : ℕ) × (probe_loop slots start capacity (step + 1) remaining ≡ ok i)
              × IsFree slots i)
        → (i : ℕ) × (probe_loop slots start capacity step (suc remaining) ≡ ok i) × IsFree slots i
    at_slot none found inside later = ((start + step) % capacity, ground arith, found)
    at_slot (some d) found inside later =
        let differ : step ≢ s =
          λ e. cc (ap (λ (t : ℕ). get_elem? slots ((start + t) % capacity)) e) in
        let (i, e, is_free) = later (omega arith) in (i, ground arith, is_free)

-- While a slot is free, `probe` finds a free slot.
pub probe-finds :
    (slots : Slots) (start capacity : ℕ)
    → length slots ≡ capacity
    → capacity ≤ 2 ^ 16
    → start < capacity
    → 0 < count_free slots
    → (i : ℕ) × (probe slots start capacity ≡ ok i) × IsFree slots i
unfolding probe
probe-finds slots start capacity len small inside some_free =
    let (j, lt, free) = IsFree-slot slots some_free in
    let (s, bound, wraps) = wrap_index start j capacity inside (omega arith) in
    probe_loop-finds slots start capacity 0 capacity s len small (omega arith) (omega arith)
      (omega arith) (rw wraps free)
