-- ===== src/Core/Prf/Uses.antt =====
-- The three uses of the PRF always succeed and cannot be confused.
use potash.Common.{ℕ, ◌<◌, ◌^◌, ◌≡◌, refl, sym, ap, ◌∙◌, [], ◌∷◌, arith, Bytes, length, le_bytes}
use potash.Common.{length-le_bytes, from_le_bytes, from_le_bytes-le_bytes, IsU64}
use potash.Core.Error.{Result, ok}
use potash.Core.Hash.{Hasher, Digest, hash, CollisionFree}
use potash.Core.Preimage.{Preimage, prf, digest, encode, IsWellFormed}
use potash.Core.Preimage.Write.{digest-encode}
use potash.Core.Preimage.Binding.{digest-injective}
use potash.Core.Prf.{
  epoch_key, slot_seed, padding_prf, prf_use_epoch_key, prf_use_slot, prf_use_padding,
}

pub data Use : Type 0 where
  for_epoch : ℕ → Use
  for_slot : Bytes → Use
  for_padding : ℕ → Use

-- What each use computes.
unfoldable pub prf_of : Hasher → Digest → Use → Result Digest
prf_of h k (for_epoch e) = epoch_key h k e
prf_of h k (for_slot id) = slot_seed h k id
prf_of h k (for_padding i) = padding_prf h k i

abbrev pub input_of : Use → Bytes
input_of (for_epoch e) = prf_use_epoch_key ∷ le_bytes 8 e
input_of (for_slot id) = prf_use_slot ∷ id
input_of (for_padding i) = prf_use_padding ∷ le_bytes 2 i

abbrev pub prf_preimage : Digest → Use → Preimage
prf_preimage k u = prf (record { key = k; input = input_of u })

-- The argument of a use fits the type that the source gives it.
abbrev pub IsUse : Use → Type 0
IsUse (for_epoch e) = IsU64 e
IsUse (for_slot id) = length id ≡ 16
IsUse (for_padding i) = i < 2 ^ 16

prf_preimage-IsWellFormed :
    (k : Digest) (u : Use) → length k ≡ 32 → IsUse u → IsWellFormed (prf_preimage k u)
unfolding IsWellFormed
prf_preimage-IsWellFormed k (for_epoch e) hk hu = omega (arith, length-le_bytes)
prf_preimage-IsWellFormed k (for_slot id) hk hu = omega arith
prf_preimage-IsWellFormed k (for_padding i) hk hu = omega (arith, length-le_bytes)

pub prf_of-digest : (h : Hasher) (k : Digest) (u : Use) → prf_of h k u ≡ digest h (prf_preimage k u)
unfolding prf_of epoch_key slot_seed padding_prf
prf_of-digest h k (for_epoch e) = refl
prf_of-digest h k (for_slot id) = refl
prf_of-digest h k (for_padding i) = refl

-- The PRF never fails on a 32-byte key and an argument of the right width.
pub prf_of-ok :
    (h : Hasher) (k : Digest) (u : Use)
    → length k ≡ 32
    → IsUse u
    → prf_of h k u ≡ ok (hash h (encode (prf_preimage k u)))
prf_of-ok h k u hk hu =
    prf_of-digest h k u ∙ digest-encode h (prf_preimage k u) (prf_preimage-IsWellFormed k u hk hu)

epoch_back : (a b : ℕ) (w : ℕ) → a < 256 ^ w → b < 256 ^ w → le_bytes w a ≡ le_bytes w b → a ≡ b
epoch_back a b w ha hb e =
    cc (from_le_bytes-le_bytes w a ha, from_le_bytes-le_bytes w b hb, ap from_le_bytes e)

input_of-injective : (u w : Use) → IsUse u → IsUse w → input_of u ≡ input_of w → u ≡ w
input_of-injective (for_epoch a) (for_epoch b) ha hb e =
    ap for_epoch (epoch_back a b 8 (omega arith) (omega arith) (cc))
input_of-injective (for_padding a) (for_padding b) ha hb e =
    ap for_padding (epoch_back a b 2 (omega arith) (omega arith) (cc))
input_of-injective (for_slot a) (for_slot b) ha hb e = cc
input_of-injective _ _ ha hb e = ground arith

-- With no collision between the two preimages, one PRF output comes from one key, one use and one
-- argument: an epoch key is no slot seed, and no padding value is either.
pub prf_of-injective :
    (h : Hasher) (k l : Digest) (u w : Use)
    → length k ≡ 32
    → length l ≡ 32
    → IsUse u
    → IsUse w
    → CollisionFree h (encode (prf_preimage k u) ∷ encode (prf_preimage l w) ∷ [])
    → prf_of h k u ≡ prf_of h l w
    → (k ≡ l) × (u ≡ w)
prf_of-injective h k l u w hk hl hu hw free e =
    let same : prf_preimage k u ≡ prf_preimage l w =
      digest-injective h (prf_preimage k u) (prf_preimage l w) (prf_preimage-IsWellFormed k u hk hu)
        (prf_preimage-IsWellFormed l w hl hw) free
        (sym (prf_of-digest h k u) ∙ e ∙ prf_of-digest h l w) in
    let inputs : input_of u ≡ input_of w = cc in (cc, input_of-injective u w hu hw inputs)

module _ (h : Hasher) (k : Digest) (key : length k ≡ 32) where
  pub epoch_key-ok :
      (e : ℕ) → IsU64 e → epoch_key h k e ≡ ok (hash h (encode (prf_preimage k (for_epoch e))))
  unfolding prf_of
  epoch_key-ok e he = prf_of-ok h k (for_epoch e) key he

  pub slot_seed-ok :
      (id : Bytes)
      → length id ≡ 16
      → slot_seed h k id ≡ ok (hash h (encode (prf_preimage k (for_slot id))))
  unfolding prf_of
  slot_seed-ok id hid = prf_of-ok h k (for_slot id) key hid

  pub padding_prf-ok :
      (i : ℕ)
      → i < 2 ^ 16
      → padding_prf h k i ≡ ok (hash h (encode (prf_preimage k (for_padding i))))
  unfolding prf_of
  padding_prf-ok i hi = prf_of-ok h k (for_padding i) key hi
