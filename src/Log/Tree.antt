-- ===== src/Log/Tree.antt =====
-- crates/certimining-log/src/tree.rs: the fixed-capacity epoch tree and its proofs.
pub mod Order
pub mod Slots
pub mod Levels
pub mod Build
use potash.Common.{ℕ, zero, suc, ◌+◌, ◌-◌, ◌/◌, ◌%◌, ◌^◌, ◌≡◌, Bool, true, false, ◌&&◌, ◌||◌, not}
use potash.Common.{
  List, [], ◌∷◌, ◌++◌, Option, none, some, Bytes, bytes_eq, from_le_bytes, length, take,
}
use potash.Common.{
  get_elem?, set, replicate, ltb, leb, ◌==◌, in_range, if◌then◌else◌, checked_add, checked_sub,
}
use potash.Core.Error.{
  Result, ok, err, ◌>>=◌, ◌>>◌, guard, ok_or, malformed_payload, arithmetic_overflow,
  epoch_capacity_exceeded, inclusion_proof_invalid, submission_not_in_epoch,
}
use potash.Core.Hash.{Hasher, Digest}
use potash.Core.Preimage.{real_leaf, padding, node, digest}
use potash.Core.Prf.{epoch_key, slot_seed, padding_prf}
use potash.Log.Tree.Order.{sort_by_id, any_adjacent_equal}

abbrev pub min_height : ℕ
min_height = 4

abbrev pub max_height : ℕ
max_height = 16

abbrev pub max_siblings : ℕ
max_siblings = 16

-- A submission's identifier and its chain leaf.
abbrev pub Submission : Type 0
Submission = Bytes × Digest

pub record BuiltEpoch : Type 0 where
  pub epoch : ℕ
  pub height : ℕ
  pub root : Digest
  pub leaves : List Digest
  pub assignment : List (Bytes × ℕ)
  pub nodes : List Digest

pub record InclusionProof : Type 0 where
  pub height : ℕ
  pub siblings : List Digest
  pub slot_index : ℕ
  pub epoch : ℕ

-- `u16::try_from(n)`
abbrev pub to_u16 : ℕ → Result ℕ
to_u16 n = if ltb n (2 ^ 16) then ok n else err arithmetic_overflow

unfoldable pub capacity_of : ℕ → Result ℕ
capacity_of height =
    if in_range min_height max_height height then ok (2 ^ height) else err malformed_payload

-- `value & mask` with `mask = (1 << height) - 1` is `value % 2 ^ height`.
unfoldable pub slot_from_seed : Digest → ℕ → Result ℕ
slot_from_seed seed height =
    if not (in_range min_height max_height height)
    then err malformed_payload
    else if ltb (length seed) 2
    then err malformed_payload
    else if height == max_height
    then ok (from_le_bytes (take 2 seed))
    else ok (from_le_bytes (take 2 seed) % 2 ^ height)

-- `step` runs up to `capacity`, with `remaining` rounds to go.
unfoldable pub probe_loop : List (Option Digest) → ℕ → ℕ → ℕ → ℕ → Result ℕ
probe_loop slots start capacity step zero = err epoch_capacity_exceeded
probe_loop slots start capacity step (suc remaining) =
    let index = (start + step) % capacity in
    let rest = probe_loop slots start capacity (step + 1) remaining in
    elim (get_elem? slots index) [
      | none ↦ err arithmetic_overflow
      | some slot ↦ elim slot [ none ↦ to_u16 index | some taken ↦ rest ]
    ]

unfoldable pub probe : List (Option Digest) → ℕ → ℕ → Result ℕ
probe slots start capacity = probe_loop slots start capacity 0 capacity

-- `slots.get_mut(slot).ok_or(..)?` and the write through it.
abbrev pub write_slot : List (Option Digest) → ℕ → Digest → Result (List (Option Digest))
write_slot slots slot digest =
    if ltb slot (length slots) then ok (set slots slot (some digest)) else err arithmetic_overflow

-- The loop that gives every submission its slot.
unfoldable pub assign :
    Hasher
    → Digest
    → ℕ
    → ℕ
    → List Submission
    → List (Option Digest)
    → List (Bytes × ℕ)
    → Result (List (Option Digest) × List (Bytes × ℕ))
assign h k_e height capacity [] slots assignment = ok (slots, assignment)
assign h k_e height capacity ((id, leaf) ∷ rest) slots assignment = do
  seed ← slot_seed h k_e id
  start ← slot_from_seed seed height
  slot ← probe slots start capacity
  real ← digest h (real_leaf leaf)
  slots' ← write_slot slots slot real
  assign h k_e height capacity rest slots' (assignment ++ ((id, slot) ∷ []))

-- One leaf of the tree: the real one, or padding for its index.
unfoldable pub leaf_at : Hasher → Digest → ℕ → Option Digest → Result Digest
leaf_at h k_e index (some real) = ok real
leaf_at h k_e index none = do
  slot_index ← to_u16 index
  prf_output ← padding_prf h k_e slot_index
  digest h (padding prf_output)

unfoldable pub fill : Hasher → Digest → ℕ → List (Option Digest) → Result (List Digest)
fill h k_e index [] = ok []
fill h k_e index (slot ∷ slots) = do
  leaf ← leaf_at h k_e index slot
  leaves ← fill h k_e (index + 1) slots
  ok (leaf ∷ leaves)

-- One level's parents, pair by pair.
unfoldable pub parents_of : Hasher → List Digest → Result (List Digest)
parents_of h [] = ok []
parents_of h (left ∷ []) = err malformed_payload
parents_of h (left ∷ right ∷ rest) = do
  parent ← digest h (node (record { left = left; right = right }))
  parents ← parents_of h rest
  ok (parent ∷ parents)

abbrev pub first : List Digest → Result Digest
first [] = err malformed_payload
first (d ∷ ds) = ok d

-- The `while current.len() > 1` loop. Each round halves `current`, so its length is fuel enough.
unfoldable pub levels_loop : Hasher → ℕ → List Digest → List Digest → Result (List Digest × Digest)
levels_loop h zero nodes current = do root ← first current; ok (nodes, root)
levels_loop h (suc fuel) nodes current =
    let round =
      (parents_of h current >>= λ parents. levels_loop h fuel (nodes ++ parents) parents) in
    let done = (first current >>= λ root. ok (nodes, root)) in
    if ltb 1 (length current) then round else done

unfoldable pub levels_above : Hasher → List Digest → Result (List Digest × Digest)
levels_above h leaves = levels_loop h (length leaves) [] leaves

unfoldable pub build : Hasher → ℕ → ℕ → Digest → List Submission → Result BuiltEpoch
build h epoch height key real = do
  capacity ← capacity_of height
  guard (leb (length real) capacity) epoch_capacity_exceeded
  k_e ← epoch_key h key epoch
  let ordered = sort_by_id real
  guard (not (any_adjacent_equal ordered)) malformed_payload
  (slots, assignment) ← assign h k_e height capacity ordered (replicate capacity none) []
  leaves ← fill h k_e 0 slots
  (nodes, root) ← levels_above h leaves
  ok (record {
    epoch = epoch;
    height = height;
    root = root;
    leaves = leaves;
    assignment = assignment;
    nodes = nodes;
  })

-- `iter().find(..)` over the assignment.
unfoldable pub slot_of : Bytes → List (Bytes × ℕ) → Option ℕ
slot_of id [] = none
slot_of id ((candidate, slot) ∷ rest) = if bytes_eq candidate id then some slot else slot_of id rest

-- `index ^ 1`
abbrev pub sibling_of : ℕ → ℕ
sibling_of index = if index % 2 == 0 then index + 1 else index - 1

unfoldable pub level_offset : ℕ → ℕ → Result ℕ
level_offset level capacity = do
  shift ← ok_or (checked_sub level 1) arithmetic_overflow
  ok_or (checked_sub capacity (capacity / 2 ^ shift)) arithmetic_overflow

-- The sibling of `index` at a level.
unfoldable pub sibling_at : BuiltEpoch → ℕ → ℕ → Result (Option Digest)
sibling_at b level index = if level == 0 then ok (get_elem? b.leaves (sibling_of index)) else do
  offset ← level_offset level (length b.leaves)
  position ← ok_or (checked_add offset (sibling_of index)) arithmetic_overflow
  ok (get_elem? b.nodes position)

-- `heapless::Vec::push`
abbrev pub push_sibling : List Digest → Digest → Result (List Digest)
push_sibling siblings d =
    if ltb (length siblings) max_siblings
    then ok (siblings ++ (d ∷ []))
    else err inclusion_proof_invalid

-- `level` runs up to the height, with `remaining` levels to go.
unfoldable pub proof_loop : BuiltEpoch → ℕ → ℕ → ℕ → List Digest → Result (List Digest)
proof_loop b level zero index siblings = ok siblings
proof_loop b level (suc remaining) index siblings = do
  found ← sibling_at b level index
  sibling ← ok_or found inclusion_proof_invalid
  siblings' ← push_sibling siblings sibling
  proof_loop b (level + 1) remaining (index / 2) siblings'

unfoldable pub proof : BuiltEpoch → Bytes → Result InclusionProof
proof b id = do
  slot ← ok_or (slot_of id b.assignment) submission_not_in_epoch
  siblings ← proof_loop b 0 b.height slot []
  ok (record { height = b.height; siblings = siblings; slot_index = slot; epoch = b.epoch })
