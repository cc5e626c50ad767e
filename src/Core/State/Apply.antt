-- ===== src/Core/State/Apply.antt =====
-- `apply` against the table of conditions that the specification gives, in its order.
use potash.Common.{
  ◌+◌, ◌^◌, ◌<◌, ◌≡◌, Bool, true, false, not, List, [], ◌∷◌, Option, none, some, arith,
}
use potash.Common.{
  inl, inr, Option-cases, Bytes, bytes_eq, length, ltb, leb, ◌==◌, IsU64, if◌then◌else◌,
}
use potash.Common.Int.{IsI64, ltb_ℤ, ◌≤ℤ◌}
use Prim.Native.Nat.{◌≤◌}
use potash.Common.{◌∙◌, ◌↔◌, bytes_eq→eq, bytes_eq_iff}
use potash.Core.Error.{
  Result, RegistryError, ok, err, head_mismatch, sequence_out_of_order, malformed_payload,
  attestation_missing, attestation_invalid, attestation_key_mismatch, non_monotonic_effective_at,
  unsupported_schema_version, arithmetic_overflow,
}
use potash.Core.Hash.{Hasher, Verifier, Digest, hash}
use potash.Core.Preimage.{leaf, step_head, encode, digest, IsWellFormed}
use potash.Core.Preimage.Write.{preimage_bytes-encode, digest-encode}
use potash.Core.State.Uri.{payload_uri_is_well_formed}
use potash.Core.State.{
  RecordLeafInput, Applied, AssetChain, leaf_preimage, leaf_bytes, key_expected, flags_for, is_some,
  is_some_and, is_resource, max_category, apply, schema_version_1,
}

-- The widths of the fields, and what every constructor of a chain establishes.
pub record IsChain (c : AssetChain) : Type 0 where
  pub commitment : length c.asset_commitment ≡ 32
  pub head : length c.head ≡ 32
  pub schema : c.schema_version ≡ schema_version_1
  pub seq : IsU64 c.seq
  pub date : IsI64 c.last_effective_at
  pub category : is_some_and c.previous_category (ltb max_category) ≡ false

pub record IsRecord (r : RecordLeafInput) : Type 0 where
  pub seq : IsU64 r.seq
  pub payload : length r.payload_digest ≡ 32
  pub assessment : length r.assessment_digest ≡ 32
  pub key : length r.qp_key ≡ 32
  pub effective : IsI64 r.effective_at
  pub identified : IsI64 r.change_identified_at

-- The message that the qualified person signs.
abbrev pub message_of : AssetChain → RecordLeafInput → Bytes
message_of c r = encode (leaf (leaf_preimage c r))

abbrev pub leaf_digest : Hasher → AssetChain → RecordLeafInput → Digest
leaf_digest h c r = hash h (message_of c r)

abbrev pub next_head : Hasher → AssetChain → RecordLeafInput → Digest
next_head h c r =
    hash h (encode (step_head (record { prev_head = c.head; leaf = leaf_digest h c r })))

-- The chain that an accepted record leads to, and what it reports.
abbrev pub next_chain : Hasher → AssetChain → RecordLeafInput → AssetChain
next_chain h c r = record c {
  head = next_head h c r;
  seq = r.seq;
  last_effective_at = r.effective_at;
  saw_resource = if is_resource r.category then true else c.saw_resource;
  previous_category = some r.category;
}

abbrev pub applied_of : Hasher → AssetChain → RecordLeafInput → Applied
applied_of h c r = record {
  leaf = leaf_digest h c r;
  head = next_head h c r;
  flags = flags_for c r;
}

abbrev is_ok : Result (Unit {0}) → Bool
is_ok (ok _) = true
is_ok (err _) = false

abbrev signature_verifies : Verifier → Option Bytes → Bytes → Bytes → Bool
signature_verifies v none key message = false
signature_verifies v (some signature) key message = is_ok (v.verify key message signature)

-- Each condition with the code of a record that fails it.
unfoldable pub conditions : Verifier → AssetChain → RecordLeafInput → List (Bool × RegistryError)
conditions v c r =
    (not (is_some r.ext_commitment), unsupported_schema_version)
    ∷ (bytes_eq r.prev_head c.head, head_mismatch)
    ∷ (ltb (c.seq + 1) (2 ^ 64), arithmetic_overflow)
    ∷ (r.seq == c.seq + 1, sequence_out_of_order)
    ∷ (key_expected r.expected_qp_key r.qp_key, attestation_key_mismatch)
    ∷ (is_some r.signature, attestation_missing)
    ∷ (signature_verifies v r.signature r.qp_key (message_of c r), attestation_invalid)
    ∷ (not (ltb_ℤ r.effective_at c.last_effective_at), non_monotonic_effective_at)
    ∷ (leb r.category max_category, malformed_payload)
    ∷ (payload_uri_is_well_formed r.payload_uri, malformed_payload)
    ∷ []

abbrev pub first_failure : List (Bool × RegistryError) → Option RegistryError
first_failure [] = none
first_failure ((holds, code) ∷ rest) =
    let later = first_failure rest in if holds then later else some code

abbrev pub outcome :
    Hasher → AssetChain → RecordLeafInput → Option RegistryError → AssetChain × Result Applied
outcome h c r none = (next_chain h c r, ok (applied_of h c r))
outcome h c r (some code) = (c, err code)

module _ (h : Hasher) {c : AssetChain} {r : RecordLeafInput} (chain : IsChain c)
    (input : IsRecord r) where
  pub leaf-IsWellFormed : IsWellFormed (leaf (leaf_preimage c r))
  unfolding IsWellFormed
  leaf-IsWellFormed = (
    chain.commitment, input.seq, input.payload, input.assessment, input.key, input.effective,
    input.identified,
  )

  pub leaf_bytes-encode : leaf_bytes h c r ≡ ok (message_of c r, leaf_digest h c r)
  unfolding leaf_bytes
  leaf_bytes-encode = rw (preimage_bytes-encode _ leaf-IsWellFormed)

  step-IsWellFormed :
      IsWellFormed (step_head (record { prev_head = c.head; leaf = leaf_digest h c r }))
  unfolding IsWellFormed
  step-IsWellFormed = (chain.head, (h.hashv-IsDigest (message_of c r ∷ [])).0)

  next_head-digest :
      digest h (step_head (record { prev_head = c.head; leaf = leaf_digest h c r }))
      ≡ ok (next_head h c r)
  next_head-digest = digest-encode h _ step-IsWellFormed

-- A record is judged by the table, in order: the first condition that fails gives the code and the
-- chain stays as it was; when none fails the chain takes the record's step.
pub apply_lem :
    (h : Hasher) (v : Verifier) {c : AssetChain} {r : RecordLeafInput}
    → IsChain c
    → IsRecord r
    → apply h v r c ≡ outcome h c r (first_failure (conditions v c r))
unfolding apply conditions
apply_lem h v {c} {r} chain input = elim (Option-cases r.signature) [
  | inl absent ↦ ground (arith, leaf_bytes-encode h chain input, next_head-digest h chain input)
  | inr (signature, present) ↦ ground (
    arith,
    leaf_bytes-encode h chain input,
    next_head-digest h chain input,
    v.verify_codes r.qp_key (message_of c r) signature,
  )
]

-- The conditions as facts about the record and the chain.
pub record Admissible (v : Verifier) (c : AssetChain) (r : RecordLeafInput) : Type 0 where
  pub no_extension : r.ext_commitment ≡ none
  pub linked : r.prev_head ≡ c.head
  pub next : r.seq ≡ c.seq + 1
  pub room : c.seq + 1 < 2 ^ 64
  pub key : key_expected r.expected_qp_key r.qp_key ≡ true
  pub signed :
      (signature : Bytes) × (r.signature ≡ some signature)
      × (v.verify r.qp_key (message_of c r) signature ≡ ok tt)
  pub date : c.last_effective_at ≤ℤ r.effective_at
  pub category : r.category ≤ max_category
  pub uri : payload_uri_is_well_formed r.payload_uri ≡ true

no_failure-signed :
    (v : Verifier) (c : AssetChain) (r : RecordLeafInput)
    → first_failure (conditions v c r) ≡ none
    → (signature : Bytes) × (r.signature ≡ some signature)
      × (v.verify r.qp_key (message_of c r) signature ≡ ok tt)
unfolding conditions
no_failure-signed v c r h = elim (Option-cases r.signature) [
  | inl absent ↦ ground arith
  | inr (signature, present) ↦
      (signature, present, ground (arith, v.verify_codes r.qp_key (message_of c r) signature))
]

pub no_failure-Admissible :
    (v : Verifier) (c : AssetChain) (r : RecordLeafInput)
    → first_failure (conditions v c r) ≡ none
    → Admissible v c r
no_failure-Admissible v c r h =
    let signed = no_failure-signed v c r h in
    unfold conditions in
    record {
      no_extension = ground arith;
      linked = bytes_eq→eq _ _ (ground arith);
      next = ground arith;
      room = ground arith;
      key = ground arith;
      signed = signed;
      date = ground arith;
      category = ground arith;
      uri = ground arith;
    }

Admissible-no_failure :
    (v : Verifier) (c : AssetChain) (r : RecordLeafInput)
    → Admissible v c r
    → first_failure (conditions v c r) ≡ none
unfolding conditions
Admissible-no_failure v c r a = ground (arith, bytes_eq_iff r.prev_head c.head)

-- A record is accepted exactly when it is admissible.
pub apply-accepts_iff :
    (h : Hasher) (v : Verifier) {c : AssetChain} {r : RecordLeafInput}
    → IsChain c
    → IsRecord r
    → (apply h v r c ≡ (next_chain h c r, ok (applied_of h c r))) ↔ Admissible v c r
apply-accepts_iff h v {c} {r} chain input = (
  λ e. no_failure-Admissible v c r (ground (arith, apply_lem h v chain input)),
  λ a. apply_lem h v chain input ∙ rw (Admissible-no_failure v c r a),
)

-- A refused record leaves the chain as it was, whatever the chain and the record.
pub apply-refused :
    (h : Hasher) (v : Verifier) (c : AssetChain) (r : RecordLeafInput) (e : RegistryError)
    → (apply h v r c).1 ≡ err e
    → (apply h v r c).0 ≡ c
unfolding apply
apply-refused h v c r e refused = ground arith
