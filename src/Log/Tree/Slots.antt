-- ===== src/Log/Tree/Slots.antt =====
-- The slot loop: every submission gets a slot of its own, and what is written in a slot stays there.
pub mod Probe
pub mod Fill
use Prim.Native.Nat.{◌≤◌}
use potash.Common.{ℕ, zero, suc, ◌+◌, ◌^◌, ◌<◌, ◌≡◌, refl, sym, ap, ◌∙◌, true, false}
use potash.Common.{List, [], ◌∷◌, ◌++◌, append_assoc, append-nil, Option, none, some, arith}
use potash.Common.{
  Bytes, length, All, get_elem?, set, length-set, get_elem?-set_self, get_elem?-set_ne,
}
use potash.Common.{
  lt-get_elem?, lt→ltb, if◌then◌else◌, Bool-cases, inl, inr, ◌≢◌, pow2_mono, bytes_eq,
}
use potash.Core.Error.{Result, ok, err, ◌>>=◌}
use potash.Core.Hash.{Hasher, Digest, hash}
use potash.Core.Preimage.{real_leaf, digest, encode, IsWellFormed}
use potash.Core.Preimage.Write.{digest-encode}
use potash.Core.Prf.{slot_seed}
use potash.Core.Prf.Uses.{slot_seed-ok, prf_preimage, for_slot}
use potash.Log.Tree.{
  Submission, assign, slot_from_seed, probe, write_slot, slot_of, min_height, max_height,
}
use potash.Log.Tree.Order.{leaf_of_id}
use potash.Log.Tree.Slots.Probe.{
  Slots, IsSlot, IsFree, count_free, count_free-set, probe-finds, slot_from_seed-lt,
}

abbrev pub IsSubmission : Submission → Type 0
IsSubmission s = (length s.0 ≡ 16) × (length s.1 ≡ 32)

-- The digest under which a chain leaf enters the tree.
abbrev pub real_digest : Hasher → Digest → Digest
real_digest h leaf = hash h (encode (real_leaf leaf))

-- Each submission stands in its slot, in the order of the list.
abbrev pub Holds : Hasher → Slots → List Submission → List (Bytes × ℕ) → Type 0
Holds h slots [] [] = Unit
Holds h slots [] (a ∷ rest) = ⊥
Holds h slots (s ∷ ss) [] = ⊥
Holds h slots (s ∷ ss) (a ∷ rest) =
    (a.0 ≡ s.0) × (get_elem? slots a.1 ≡ some (some (real_digest h s.1))) × Holds h slots ss rest

All-set {ℓ} :
    {A : Type ℓ} (P : A → Type 0) (xs : List A) (i : ℕ) (v : A)
    → P v
    → All P xs
    → All P (set xs i v)
All-set P [] i v hv h = tt
All-set P (x ∷ xs) zero v hv h = (hv, h.1)
All-set P (x ∷ xs) (suc i) v hv h = (h.0, All-set P xs i v hv h.1)

pub record Assigned (h : Hasher) (before after : Slots) (ordered : List Submission)
    (given : List (Bytes × ℕ)) : Type 0 where
  pub size : length after ≡ length before
  pub held : Holds h after ordered given
  pub kept :
      (i : ℕ) (d : Digest) → get_elem? before i ≡ some (some d) → get_elem? after i ≡ some (some d)
  pub digests : All IsSlot after

-- A write to a free slot keeps the others.
kept_by_write :
    (slots : Slots) (slot i : ℕ) (d e : Digest)
    → IsFree slots slot
    → get_elem? slots i ≡ some (some d)
    → get_elem? (set slots slot (some e)) i ≡ some (some d)
kept_by_write slots slot i d e free taken =
    let differ : slot ≢ i = λ same. cc (ap (λ (t : ℕ). get_elem? slots t) same) in
    get_elem?-set_ne slots slot i (some e) differ ∙ taken

-- One round of the loop, when none of its calls fails.
assign_step :
    (h : Hasher) (k_e : Digest) (height capacity : ℕ) (s : Submission) (ordered : List Submission)
    (slots : Slots) (assignment : List (Bytes × ℕ)) {seed real : Digest} {start slot : ℕ}
    → slot_seed h k_e s.0 ≡ ok seed
    → slot_from_seed seed height ≡ ok start
    → probe slots start capacity ≡ ok slot
    → digest h (real_leaf s.1) ≡ ok real
    → slot < length slots
    → assign h k_e height capacity (s ∷ ordered) slots assignment
      ≡ assign h k_e height capacity ordered
          (set slots slot (some real))
          (assignment ++ ((s.0, slot) ∷ []))
unfolding assign
assign_step h k_e height capacity s ordered slots assignment a b c d inside =
    rw (a, b, c, d, lt→ltb _ _ inside)

pub real_leaf-digest :
    (h : Hasher) (leaf : Digest)
    → length leaf ≡ 32
    → digest h (real_leaf leaf) ≡ ok (real_digest h leaf)
real_leaf-digest h leaf len = digest-encode h (real_leaf leaf) (unfold IsWellFormed in len)

module _ (h : Hasher) (k_e : Digest) (key : length k_e ≡ 32) {height : ℕ} (lo : min_height ≤ height)
    (hi : height ≤ max_height) where
  -- While there are as many free slots as submissions, every submission gets one.
  pub assign-ok :
      (ordered : List Submission) (slots : Slots) (assignment : List (Bytes × ℕ))
      → All IsSubmission ordered
      → length slots ≡ 2 ^ height
      → length ordered ≤ count_free slots
      → All IsSlot slots
      → (after : Slots) × (given : List (Bytes × ℕ)) × (assign h k_e height
            (2 ^ height)
            ordered
            slots
            assignment
          ≡ ok (after, assignment ++ given))
        × Assigned h slots after ordered given
  unfolding assign
  assign-ok [] slots assignment subs len room digests = (
    slots,
    [],
    rw append-nil,
    record { size = refl; held = tt; kept = λ i d e. e; digests = digests },
  )
  assign-ok (s ∷ ordered) slots assignment subs len room digests =
      let seed : Digest = hash h (encode (prf_preimage k_e (for_slot s.0))) in
      let (start, started, start_lt) = slot_from_seed-lt seed height (h.hashv-IsDigest _) lo hi in
      let (slot, found, free) =
        probe-finds slots start (2 ^ height) len (pow2_mono height 16 hi) start_lt (omega arith) in
      let inside : slot < length slots = lt-get_elem? slots slot none free in
      let written : Slots = set slots slot (some (real_digest h s.1)) in
      let (after, given, run, rest) =
        assign-ok ordered written (assignment ++ ((s.0, slot) ∷ [])) subs.1
          (length-set slots slot _ ∙ len)
          (omega (arith, count_free-set slots slot (real_digest h s.1) free))
          (All-set IsSlot slots slot _ (h.hashv-IsDigest _).0 digests) in
      (
        after,
        (s.0, slot) ∷ given,
        assign_step h k_e height (2 ^ height) s ordered slots assignment
              (slot_seed-ok h k_e key s.0 subs.0.0) started found (real_leaf-digest h s.1 subs.0.1)
              inside
            ∙ run
            ∙ ap (λ (g : List (Bytes × ℕ)). ok (after, g))
                (append_assoc assignment ((s.0, slot) ∷ []) given),
        record {
          size = rest.size ∙ length-set slots slot _;
          held = (refl, rest.kept slot _ (get_elem?-set_self slots slot _ inside), rest.held);
          kept = λ i d taken. rest.kept i d (kept_by_write slots slot i d _ free taken);
          digests = rest.digests;
        },
      )

-- The slot that the assignment gives an identifier holds the digest of its leaf.
pub slot_of-held :
    (h : Hasher) (slots : Slots) (ordered : List Submission) (given : List (Bytes × ℕ)) (id : Bytes)
    (leaf : Digest)
    → Holds h slots ordered given
    → leaf_of_id id ordered ≡ some leaf
    → (slot : ℕ) × (slot_of id given ≡ some slot)
      × (get_elem? slots slot ≡ some (some (real_digest h leaf)))
unfolding slot_of leaf_of_id
slot_of-held h slots [] given id leaf held found = cc
slot_of-held h slots (s ∷ ordered) [] id leaf held found = absurd held
slot_of-held h slots (s ∷ ordered) (a ∷ given) id leaf held found =
    elim (Bool-cases (bytes_eq s.0 id)) [
      | inl same ↦ (
        a.1,
        rw (held.0, same),
        held.1 ∙ ap (λ (l : Digest). some (some (real_digest h l))) (ground arith),
      )
      | inr differ ↦
          rw (held.0, differ) (slot_of-held h slots ordered given id leaf held.2 (ground arith))
    ]
