-- ===== src/Log/Tree/Slots/Fill.antt =====
-- The padding loop: a leaf for every slot, the assigned ones unchanged.
use Prim.Native.Nat.{◌≤◌}
use potash.Common.{
  ℕ, zero, suc, ◌+◌, ◌^◌, ◌<◌, ◌≡◌, refl, ap, List, [], ◌∷◌, Option, none, some, arith,
}
use potash.Common.{length, All, get_elem?, lt→ltb}
use potash.Core.Error.{ok}
use potash.Core.Hash.{Hasher, Digest, hash}
use potash.Core.Preimage.{padding, encode, IsWellFormed}
use potash.Core.Preimage.Write.{digest-encode}
use potash.Core.Prf.Uses.{padding_prf-ok, prf_preimage, for_padding}
use potash.Log.Tree.{leaf_at, fill}
use potash.Log.Tree.Slots.Probe.{Slots, IsSlot}

-- The padding leaf of a slot.
abbrev pub padding_digest : Hasher → Digest → ℕ → Digest
padding_digest h k_e i =
    hash h (encode (padding (hash h (encode (prf_preimage k_e (for_padding i))))))

abbrev pub slot_leaf : Hasher → Digest → ℕ → Option Digest → Digest
slot_leaf h k_e i none = padding_digest h k_e i
slot_leaf h k_e i (some d) = d

-- The leaves of a tree: a slot's digest where it has one, and the slot's padding where it has none.
abbrev pub slot_leaves : Hasher → Digest → ℕ → Slots → List Digest
slot_leaves h k_e i [] = []
slot_leaves h k_e i (slot ∷ slots) = slot_leaf h k_e i slot ∷ slot_leaves h k_e (i + 1) slots

module _ (h : Hasher) (k_e : Digest) (key : length k_e ≡ 32) where
  leaf_at-ok :
      (i : ℕ) (slot : Option Digest)
      → i < 2 ^ 16
      → leaf_at h k_e i slot ≡ ok (slot_leaf h k_e i slot)
  unfolding leaf_at
  leaf_at-ok i (some d) small = refl
  leaf_at-ok i none small = rw (
    lt→ltb i (2 ^ 16) small,
    padding_prf-ok h k_e key i small,
    digest-encode h (padding (hash h (encode (prf_preimage k_e (for_padding i)))))
        (unfold IsWellFormed in (h.hashv-IsDigest _).0),
  )

  pub fill-ok :
      (i : ℕ) (slots : Slots)
      → i + length slots ≤ 2 ^ 16
      → fill h k_e i slots ≡ ok (slot_leaves h k_e i slots)
  unfolding fill
  fill-ok i [] small = refl
  fill-ok i (slot ∷ slots) small =
      rw (leaf_at-ok i slot (omega arith), fill-ok (i + 1) slots (omega arith))

  pub length-slot_leaves :
      (i : ℕ) (slots : Slots) → length (slot_leaves h k_e i slots) ≡ length slots
  length-slot_leaves i [] = refl
  length-slot_leaves i (slot ∷ slots) = ap suc (length-slot_leaves (i + 1) slots)

  -- A taken slot's digest is the leaf of its place.
  pub slot_leaves-taken :
      (i j : ℕ) (slots : Slots) (d : Digest)
      → get_elem? slots j ≡ some (some d)
      → get_elem? (slot_leaves h k_e i slots) j ≡ some d
  slot_leaves-taken i j [] d taken = cc
  slot_leaves-taken i zero (slot ∷ slots) d taken =
      ap
        (λ (s : Option (Option Digest)). elim s [
          | none ↦ none
          | some o ↦ some (slot_leaf h k_e i o)
        ])
        taken
  slot_leaves-taken i (suc j) (slot ∷ slots) d taken = slot_leaves-taken (i + 1) j slots d taken

  pub slot_leaves-width :
      (i : ℕ) (slots : Slots)
      → All IsSlot slots
      → All (λ d. length d ≡ 32) (slot_leaves h k_e i slots)
  slot_leaves-width i [] w = tt
  slot_leaves-width i (none ∷ slots) w =
      ((h.hashv-IsDigest _).0, slot_leaves-width (i + 1) slots w.1)
  slot_leaves-width i (some d ∷ slots) w = (w.0, slot_leaves-width (i + 1) slots w.1)
