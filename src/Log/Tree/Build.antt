-- ===== src/Log/Tree/Build.antt =====
-- `build` on every input: what it refuses, and the tree it returns otherwise.
use Prim.Native.Nat.{◌≤◌}
use mathlib.Core.List.{Permᴰ}
use potash.Common.{ℕ, zero, suc, ◌^◌, ◌≡◌, refl, ◌∙◌, true, false, arith, not, Option-cases, ◌⊎◌}
use potash.Common.{
  List, [], Option, none, some, length, All, get_elem?, replicate, length-replicate,
}
use potash.Common.{Bytes, leb, in_range, if◌then◌else◌, le→leb, IsU64, pow2_mono, inl, inr}
use potash.Core.Error.{RegistryError, ok, err, epoch_capacity_exceeded, malformed_payload}
use potash.Core.Hash.{Hasher, Digest, hash}
use potash.Core.Preimage.{encode}
use potash.Core.Prf.{epoch_key}
use potash.Core.Prf.Uses.{epoch_key-ok, prf_preimage, for_epoch}
use potash.Log.Tree.{
  Submission, BuiltEpoch, build, capacity_of, assign, fill, levels_above, slot_of, min_height,
  max_height,
}
use potash.Log.Tree.Order.{
  sort_by_id, any_adjacent_equal, leaf_of_id, leaf_of_id-sort, length-sort_by_id,
}
use potash.Log.Tree.Order.Distinct.{
  Distinct, All-sort, any_adjacent_equal-sort, sort-perm, length-perm,
}
use potash.Log.Tree.Slots.{IsSubmission, assign-ok, slot_of-held, real_digest}
use potash.Log.Tree.Slots.Probe.{Slots, IsSlot, count_free-replicate}
use potash.Log.Tree.Slots.Fill.{
  fill-ok, slot_leaves, length-slot_leaves, slot_leaves-taken, slot_leaves-width,
}
use potash.Log.Tree.Levels.{above, root_of, Widths, levels_above-ok}

-- A tree for some submissions: complete, with its levels and its root, and with every submission's
-- leaf in the slot that the assignment names.
pub record IsTree (h : Hasher) (epoch height : ℕ) (real : List Submission) (b : BuiltEpoch)
    : Type 0 where
  pub at_epoch : b.epoch ≡ epoch
  pub at_height : b.height ≡ height
  pub size : length b.leaves ≡ 2 ^ b.height
  pub widths : Widths b.leaves
  pub nodes : b.nodes ≡ above h b.height b.leaves
  pub root : b.root ≡ root_of h b.height b.leaves
  pub placed :
      (id : Bytes) (leaf : Digest)
      → leaf_of_id id real ≡ some leaf
      → (slot : ℕ) × (slot_of id b.assignment ≡ some slot)
        × (get_elem? b.leaves slot ≡ some (real_digest h leaf))

-- What the types and the caller give `build`.
pub record IsInput (epoch : ℕ) (key : Digest) (real : List Submission) : Type 0 where
  pub epoch_fits : IsU64 epoch
  pub key_width : length key ≡ 32
  pub submissions : All IsSubmission real

replicate-free : (n : ℕ) → All IsSlot (replicate n none)
replicate-free zero = tt
replicate-free (suc n) = (tt, replicate-free n)

-- One run of `build`, when none of its calls fails.
build_run :
    (h : Hasher) (epoch height : ℕ) (key : Digest) (real : List Submission) {k_e : Digest}
    {after : Slots} {given : List (Bytes × ℕ)} {leaves nodes : List Digest} {root : Digest}
    → capacity_of height ≡ ok (2 ^ height)
    → leb (length real) (2 ^ height) ≡ true
    → epoch_key h key epoch ≡ ok k_e
    → any_adjacent_equal (sort_by_id real) ≡ false
    → assign h k_e height (2 ^ height) (sort_by_id real) (replicate (2 ^ height) none) []
      ≡ ok (after, given)
    → fill h k_e 0 after ≡ ok leaves
    → levels_above h leaves ≡ ok (nodes, root)
    → build h epoch height key real
      ≡ ok (record {
        epoch = epoch;
        height = height;
        root = root;
        leaves = leaves;
        assignment = given;
        nodes = nodes;
      })
unfolding build
build_run h epoch height key real a b c d e f g = rw (a, b, c, d, e, f, g)

module _ (h : Hasher) {epoch height : ℕ} {key : Digest} {real : List Submission}
    (input : IsInput epoch key real) where
  -- At an allowed height, with at most as many submissions as slots and no two neighbours of one
  -- identifier in sorted order, `build` returns a tree of those submissions.
  pub build-ok :
      min_height ≤ height
      → height ≤ max_height
      → length real ≤ 2 ^ height
      → any_adjacent_equal (sort_by_id real) ≡ false
      → (b : BuiltEpoch) × (build h epoch height key real ≡ ok b) × IsTree h epoch height real b
  build-ok lo hi fits unique =
      let k_e : Digest = hash h (encode (prf_preimage key (for_epoch epoch))) in
      let width : length k_e ≡ 32 = (h.hashv-IsDigest _).0 in
      let (after, given, assigned, facts) =
        assign-ok h k_e width lo hi (sort_by_id real) (replicate (2 ^ height) none) []
          (All-sort IsSubmission real input.submissions) (length-replicate (2 ^ height) none)
          (omega (arith, length-sort_by_id real, count_free-replicate (2 ^ height)))
          (replicate-free (2 ^ height)) in
      let leaves : List Digest = slot_leaves h k_e 0 after in
      let slots_len : length after ≡ 2 ^ height = facts.size ∙ length-replicate (2 ^ height) none in
      let size : length leaves ≡ 2 ^ height = length-slot_leaves h k_e width 0 after ∙ slots_len in
      let widths : Widths leaves = slot_leaves-width h k_e width 0 after facts.digests in
      (
        _,
        build_run h epoch height key real (unfold capacity_of in ground arith)
            (le→leb (length real) (2 ^ height) fits)
            (epoch_key-ok h key input.key_width epoch input.epoch_fits) unique assigned
            (fill-ok h k_e width 0 after (omega (arith, slots_len, pow2_mono height 16 hi)))
            (levels_above-ok h height leaves size widths),
        record {
          at_epoch = refl;
          at_height = refl;
          size = size;
          widths = widths;
          nodes = refl;
          root = refl;
          placed = λ id leaf found.
              let (slot, named, held) =
                slot_of-held h after (sort_by_id real) given id leaf facts.held
                  (leaf_of_id-sort id real ∙ found) in
              (slot, named, slot_leaves-taken h k_e width 0 slot after _ held);
        },
      )

  -- Distinct identifiers are enough.
  pub build-Distinct :
      min_height ≤ height
      → height ≤ max_height
      → length real ≤ 2 ^ height
      → Distinct real
      → (b : BuiltEpoch) × (build h epoch height key real ≡ ok b) × IsTree h epoch height real b
  build-Distinct lo hi fits distinct = build-ok lo hi fits (any_adjacent_equal-sort real distinct)

-- What a set of submissions is refused for, in order: a height out of range, more submissions than
-- slots, and two submissions of one identifier that are neighbours once sorted.
abbrev pub refusal : ℕ → List Submission → Option RegistryError
refusal height real =
    if not (in_range min_height max_height height)
    then some malformed_payload
    else if not (leb (length real) (2 ^ height))
    then some epoch_capacity_exceeded
    else if any_adjacent_equal (sort_by_id real)
    then some malformed_payload
    else none

-- `build` returns the refusal where there is one, and a tree of the submissions where there is none.
pub build-outcome :
    (h : Hasher) (epoch height : ℕ) (key : Digest) (real : List Submission)
    → IsInput epoch key real
    → ((e : RegistryError) × (refusal height real ≡ some e)
        × (build h epoch height key real ≡ err e))
      ⊎ ((b : BuiltEpoch) × (refusal height real ≡ none)
          × (build h epoch height key real ≡ ok b)
          × IsTree h epoch height real b)
build-outcome h epoch height key real input = elim (Option-cases (refusal height real)) [
  | inl accepted ↦
      let (b, built, tree) =
        build-ok h input (ground arith) (ground arith) (ground arith) (ground arith) in
      inr (b, accepted, built, tree)
  | inr (e, refused) ↦ inl (e, refused, build_refused e refused)
]
  where
    derived : epoch_key h key epoch ≡ ok (hash h (encode (prf_preimage key (for_epoch epoch))))
    derived = epoch_key-ok h key input.key_width epoch input.epoch_fits

    build_refused :
        (e : RegistryError) → refusal height real ≡ some e → build h epoch height key real ≡ err e
    build_refused e refused = unfold build capacity_of in ground (arith, derived)

-- One set of submissions with distinct identifiers gives one epoch, whatever order they came in.
pub build-perm :
    (h : Hasher) (epoch height : ℕ) (key : Digest) {real other : List Submission}
    → Permᴰ real other
    → Distinct real
    → build h epoch height key real ≡ build h epoch height key other
unfolding build
build-perm h epoch height key same distinct = rw (length-perm same, sort-perm same distinct)
