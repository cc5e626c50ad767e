-- ===== src/Core/State.antt =====
-- crates/certimining-core/src/state.rs: one asset's chain, its transition conditions and its flags.
pub mod Uri
pub mod Apply
pub mod History
pub mod Flags
pub mod Resume
pub mod Head
use Prim.Native.Nat.{bit_or}
use potash.Common.{
  ℕ, ◌+◌, ◌≡◌, Bool, true, false, ◌&&◌, ◌||◌, not, List, [], ◌∷◌, Option, none, some,
}
use potash.Common.{Bytes, bytes_eq, ltb, leb, ◌==◌, if◌then◌else◌, checked_add}
use potash.Common.Int.{ℤ, ltb_ℤ, i64_min}
use potash.Core.Error
use potash.Core.Error.{
  Result, ok, err, guard, ok_or, head_mismatch, sequence_out_of_order, malformed_payload,
  attestation_missing, attestation_key_mismatch, non_monotonic_effective_at,
  unsupported_schema_version, arithmetic_overflow,
}
use potash.Core.Hash.{Hasher, Verifier, Digest, hash}
use potash.Core.Machine.{Machine, pure, lift, get, put, ◌>>=◌, ◌>>◌}
use potash.Core.Preimage.{LeafPreimage, genesis_head, leaf, step_head, preimage_bytes, digest}
use potash.Core.State.Uri.{payload_uri_is_well_formed}

abbrev pub schema_version_1 : ℕ
schema_version_1 = 1

abbrev pub flag_reserve_without_prior_resource : ℕ
flag_reserve_without_prior_resource = 1

abbrev pub flag_category_downgrade : ℕ
flag_category_downgrade = 2

abbrev pub max_category : ℕ
max_category = 4

pub record RecordLeafInput : Type 0 where
  pub prev_head : Digest
  pub seq : ℕ
  pub payload_digest : Digest
  pub assessment_digest : Digest
  pub qp_key : Bytes
  pub expected_qp_key : Option Bytes
  pub signature : Option Bytes
  pub category : ℕ
  pub effective_at : ℤ
  pub change_identified_at : ℤ
  pub payload_uri : Bytes
  pub ext_commitment : Option Digest

pub record Applied : Type 0 where
  pub leaf : Digest
  pub head : Digest
  pub flags : ℕ

pub record ChainSnapshot : Type 0 where
  pub head : Digest
  pub seq : ℕ
  pub last_effective_at : ℤ
  pub saw_resource : Bool
  pub previous_category : Option ℕ

pub record AssetChain : Type 0 where
  pub asset_commitment : Digest
  pub schema_version : ℕ
  pub head : Digest
  pub seq : ℕ
  pub last_effective_at : ℤ
  pub saw_resource : Bool
  pub previous_category : Option ℕ

abbrev pub is_some {ℓ} : {A : Type ℓ} → Option A → Bool
is_some none = false
is_some (some a) = true

-- `option.is_some_and(test)`
abbrev pub is_some_and : Option ℕ → (ℕ → Bool) → Bool
is_some_and none test = false
is_some_and (some c) test = test c

unfoldable pub genesis : Hasher → Digest → ℕ → Result Digest
genesis h c schema_version =
    Error.◌>>◌ (guard (schema_version == schema_version_1) unsupported_schema_version)
      (digest h (genesis_head (record { asset_commitment = c; schema_version = schema_version })))

unfoldable pub start : Hasher → Digest → ℕ → Result AssetChain
unfolding genesis
start h c schema_version = Error.◌>>=◌ (genesis h c schema_version) λ head. ok (record {
  asset_commitment = c;
  schema_version = schema_version;
  head = head;
  seq = 0;
  last_effective_at = i64_min;
  saw_resource = false;
  previous_category = none;
})

unfoldable pub resume : Digest → ℕ → ChainSnapshot → Result AssetChain
resume c schema_version snapshot =
    if not (schema_version == schema_version_1)
    then err unsupported_schema_version
    else if is_some_and snapshot.previous_category (ltb max_category)
    then err malformed_payload
    else ok (record {
      asset_commitment = c;
      schema_version = schema_version;
      head = snapshot.head;
      seq = snapshot.seq;
      last_effective_at = snapshot.last_effective_at;
      saw_resource = snapshot.saw_resource;
      previous_category = snapshot.previous_category;
    })

unfoldable pub snapshot : AssetChain → ChainSnapshot
snapshot c = record {
  head = c.head;
  seq = c.seq;
  last_effective_at = c.last_effective_at;
  saw_resource = c.saw_resource;
  previous_category = c.previous_category;
}

-- The preimage that `leaf_bytes` builds.
abbrev pub leaf_preimage : AssetChain → RecordLeafInput → LeafPreimage
leaf_preimage c r = record {
  asset_commitment = c.asset_commitment;
  seq = r.seq;
  payload_digest = r.payload_digest;
  assessment_digest = r.assessment_digest;
  qp_key = r.qp_key;
  category = r.category;
  effective_at = r.effective_at;
  change_identified_at = r.change_identified_at;
}

unfoldable pub leaf_bytes : Hasher → AssetChain → RecordLeafInput → Result (Bytes × Digest)
leaf_bytes h c r =
    Error.◌>>=◌ (preimage_bytes (leaf (leaf_preimage c r))) λ buf. ok (buf, hash h buf)

unfoldable pub check_schema : RecordLeafInput → Result (Unit {0})
check_schema r = guard (not (is_some r.ext_commitment)) unsupported_schema_version

unfoldable pub check_fields : RecordLeafInput → Result (Unit {0})
check_fields r =
    if ltb max_category r.category
    then err malformed_payload
    else guard (payload_uri_is_well_formed r.payload_uri) malformed_payload

abbrev pub key_expected : Option Bytes → Bytes → Bool
key_expected none key = true
key_expected (some expected) key = bytes_eq expected key

unfoldable pub check_attestation : Verifier → RecordLeafInput → Bytes → Result (Unit {0})
check_attestation v r preimage =
    Error.◌>>◌ (guard (key_expected r.expected_qp_key r.qp_key) attestation_key_mismatch) (
      Error.◌>>=◌ (ok_or r.signature attestation_missing)
        λ signature. v.verify r.qp_key preimage signature)

-- `matches!(category, 3 | 4)`
abbrev pub is_reserve : ℕ → Bool
is_reserve category = category == 3 || category == 4

-- `matches!(category, 1 | 2)`
abbrev pub is_resource : ℕ → Bool
is_resource category = category == 1 || category == 2

unfoldable pub flags_for : AssetChain → RecordLeafInput → ℕ
flags_for c r =
    let flags : ℕ =
      if is_reserve r.category && not c.saw_resource
      then bit_or 0 flag_reserve_without_prior_resource
      else 0 in
    if is_some_and c.previous_category (λ prev. ltb r.category prev)
    then bit_or flags flag_category_downgrade
    else flags

-- `leaf`: the digest that a record would get, without applying it.
unfoldable pub leaf_of : Hasher → AssetChain → RecordLeafInput → Result Digest
unfolding check_schema check_fields leaf_bytes
leaf_of h c r =
    Error.◌>>◌ (check_schema r)
      (Error.◌>>◌ (check_fields r) (Error.◌>>=◌ (leaf_bytes h c r) λ p. ok p.1))

unfoldable pub apply : Hasher → Verifier → RecordLeafInput → Machine AssetChain Applied
unfolding check_schema check_fields check_attestation
apply h v r = do
  lift (check_schema r)
  c ← get
  lift (guard (bytes_eq r.prev_head c.head) head_mismatch)
  next_seq ← lift (ok_or (checked_add c.seq 1) arithmetic_overflow)
  lift (guard (r.seq == next_seq) sequence_out_of_order)
  (preimage, leaf_digest) ← lift (leaf_bytes h c r)
  lift (check_attestation v r preimage)
  lift (guard (not (ltb_ℤ r.effective_at c.last_effective_at)) non_monotonic_effective_at)
  lift (check_fields r)
  let flags = flags_for c r
  head ← lift (digest h (step_head (record { prev_head = c.head; leaf = leaf_digest })))
  put (record c {
    head = head;
    seq = next_seq;
    last_effective_at = r.effective_at;
    saw_resource = c.saw_resource || is_resource r.category;
    previous_category = some r.category;
  })
  pure (record { leaf = leaf_digest; head = head; flags = flags })
