-- ===== src/Examples/Chain.antt =====
-- A chain with one record, its preimages and its keys.
use potash.Common.{
  ◌≡◌, refl, true, false, [], ◌∷◌, none, some, Bytes, replicate, bytes_eq, le_bytes,
}
use potash.Common.{ap, ◌∙◌, ◌++◌, arith}
use potash.Common.Int.{pos, i64_min}
use potash.Core.Error.{ok, err, ok_or, canonicalization_failed, sequence_out_of_order}
use potash.Core.Hash.{Digest, CollisionFree}
use potash.Core.Identity.{is_canonical, is_empty, all_canonical, canonicalize_bytes}
use potash.Core.Identity.Laws.{accepted_tenure, canonicalize_bytes_lem, canonicalize-canonical}
use potash.Core.Preimage.{tag, fields, Preimage, asset, encode, IsWellFormed}
use potash.Core.Preimage.Write.{digest-encode}
use potash.Core.Preimage.Binding.{encode-injective}
use potash.Core.State.{RecordLeafInput, AssetChain, start, genesis, apply, schema_version_1}
use potash.Core.State.Apply.{
  IsRecord, applied_of, no_failure-Admissible, apply_lem, next_chain, first_failure, conditions,
  outcome,
}
use potash.Core.State.Uri.{payload_uri_is_well_formed, starts_with, all_printable, any_scheme}
use potash.Core.State.Head.{head_of, hashed, genesis_preimage, genesis-IsWellFormed}
use potash.Core.State.History.{
  next-Represents, Represents, start-Represents, head_binds_history, run, preimages,
}
use potash.Core.State.Flags.{expected_flags, run-flags}
use potash.Examples.Toy.{toy, toy_verifier, collision_free-CollisionFree}

-- "AB1"
abbrev tenure : Bytes
tenure = 0x41 ∷ 0x42 ∷ 0x31 ∷ []

abbrev commitment : Digest
commitment = replicate 32 7

abbrev fresh_chain : AssetChain
fresh_chain = record {
  asset_commitment = commitment;
  schema_version = 1;
  head = head_of toy commitment [];
  seq = 0;
  last_effective_at = i64_min;
  saw_resource = false;
  previous_category = none;
}

-- A signed first record: an indicated resource.
abbrev first_record : RecordLeafInput
first_record = record {
  prev_head = head_of toy commitment [];
  seq = 1;
  payload_digest = replicate 32 1;
  assessment_digest = replicate 32 2;
  qp_key = replicate 32 3;
  expected_qp_key = some (replicate 32 3);
  signature = some (replicate 32 3);
  category = 1;
  effective_at = pos 100;
  change_identified_at = pos 90;
  payload_uri = b'a' ∷ b'r' ∷ b':' ∷ b'/' ∷ b'/' ∷ b'x' ∷ [];
  ext_commitment = none;
}

-- The same record, numbered 2.
abbrev skipping_record : RecordLeafInput
skipping_record = record first_record { seq = 2 }

first_record-IsRecord : IsRecord first_record
first_record-IsRecord = record {
  seq = omega arith;
  payload = refl;
  assessment = refl;
  key = refl;
  effective = omega arith;
  identified = omega arith;
}

skipping_record-IsRecord : IsRecord skipping_record
skipping_record-IsRecord = record {
  seq = omega arith;
  payload = refl;
  assessment = refl;
  key = refl;
  effective = omega arith;
  identified = omega arith;
}

fresh_start : start toy commitment schema_version_1 ≡ ok fresh_chain
unfolding start genesis head_of
fresh_start =
    rw (digest-encode toy (genesis_preimage commitment) (genesis-IsWellFormed toy commitment refl))
      refl

fresh-Represents : Represents toy fresh_chain []
fresh-Represents = start-Represents toy commitment fresh_chain refl fresh_start

apply_lem_example :
    apply toy toy_verifier first_record fresh_chain
    ≡ outcome toy fresh_chain first_record
        (first_failure (conditions toy_verifier fresh_chain first_record))
apply_lem_example = apply_lem toy toy_verifier (fresh-Represents.chain) first_record-IsRecord

first_record-accepted : first_failure (conditions toy_verifier fresh_chain first_record) ≡ none
unfolding conditions bytes_eq payload_uri_is_well_formed starts_with all_printable any_scheme
    is_empty head_of le_bytes encode
first_record-accepted = refl

skipping_failure :
    first_failure (conditions toy_verifier fresh_chain skipping_record) ≡ some sequence_out_of_order
unfolding conditions bytes_eq payload_uri_is_well_formed starts_with all_printable any_scheme
    is_empty head_of le_bytes encode
skipping_failure = refl

abbrev after : AssetChain
after = next_chain toy fresh_chain first_record

after-Represents : Represents toy (next_chain toy fresh_chain first_record) (first_record ∷ [])
after-Represents =
    next-Represents toy toy_verifier fresh-Represents first_record-IsRecord
      (no_failure-Admissible toy_verifier fresh_chain first_record first_record-accepted)

free : CollisionFree toy (
    hashed toy commitment (preimages commitment (first_record ∷ []))
    ++ hashed toy commitment (preimages commitment (first_record ∷ [])))
unfolding hashed head_of encode tag fields bytes_eq le_bytes
free =
    collision_free-CollisionFree toy
      (hashed toy commitment (preimages commitment (first_record ∷ []))
        ++ hashed toy commitment (preimages commitment (first_record ∷ [])))
      refl

head_binds_history_example :
    (commitment ≡ commitment)
    × (preimages commitment (first_record ∷ []) ≡ preimages commitment (first_record ∷ []))
head_binds_history_example =
    head_binds_history toy (next_chain toy fresh_chain first_record)
      (next_chain toy fresh_chain first_record) (first_record ∷ []) (first_record ∷ [])
      after-Represents after-Represents free refl

-- A proved reserve after the resource, graded above it.
abbrev second_record : RecordLeafInput
second_record = record first_record {
  prev_head = after.head;
  seq = 2;
  category = 3;
  effective_at = pos 200;
}

second_record-IsRecord : IsRecord second_record
second_record-IsRecord = record {
  seq = omega arith;
  payload = refl;
  assessment = refl;
  key = refl;
  effective = omega arith;
  identified = omega arith;
}

second_record-accepted : first_failure (conditions toy_verifier after second_record) ≡ none
unfolding conditions bytes_eq payload_uri_is_well_formed starts_with all_printable any_scheme
    is_empty head_of le_bytes encode tag fields
second_record-accepted = refl

first_applied :
    apply toy toy_verifier first_record fresh_chain
    ≡ (after, ok (applied_of toy fresh_chain first_record))
first_applied = apply_lem_example ∙ ap (outcome toy fresh_chain first_record) first_record-accepted

skipping_applied :
    apply toy toy_verifier skipping_record fresh_chain ≡ (fresh_chain, err sequence_out_of_order)
skipping_applied =
    apply_lem toy toy_verifier fresh-Represents.chain skipping_record-IsRecord
    ∙ ap (outcome toy fresh_chain skipping_record) skipping_failure

offered_run :
    run toy toy_verifier (fresh_chain, []) (skipping_record ∷ first_record ∷ [])
    ≡ (after, first_record ∷ [])
unfolding run
offered_run = rw (skipping_applied, first_applied) refl

second_applied :
    apply toy toy_verifier second_record
      (run toy toy_verifier (fresh_chain, []) (skipping_record ∷ first_record ∷ [])).0
    ≡ (next_chain toy after second_record, ok (applied_of toy after second_record))
second_applied = rw offered_run (
    apply_lem toy toy_verifier after-Represents.chain second_record-IsRecord
    ∙ ap (outcome toy after second_record) second_record-accepted)

run-flags_example :
    (applied_of toy after second_record).flags
    ≡ expected_flags
        (run toy toy_verifier (fresh_chain, []) (skipping_record ∷ first_record ∷ [])).1
        second_record
run-flags_example =
    run-flags toy toy_verifier commitment fresh_chain (next_chain toy after second_record)
      (skipping_record ∷ first_record ∷ []) second_record (applied_of toy after second_record) refl
      fresh_start (skipping_record-IsRecord, (first_record-IsRecord, tt)) second_record-IsRecord
      second_applied

abbrev named : Preimage
named =
    asset (record { jurisdiction = replicate 4 0x20; registry = replicate 8 0x20; tenure = tenure })

named-IsWellFormed : IsWellFormed named
unfolding IsWellFormed is_canonical is_empty all_canonical
named-IsWellFormed = (refl, refl, refl)

encode-injective_example : named ≡ named
encode-injective_example = encode-injective named named named-IsWellFormed named-IsWellFormed refl

tenure-is_canonical : is_canonical tenure ≡ true
unfolding is_canonical is_empty all_canonical
tenure-is_canonical = refl

tenure_accepted : canonicalize_bytes (λ text. text) tenure ≡ ok tenure
tenure_accepted =
    canonicalize-canonical (λ text. text) (λ text ascii. refl) tenure tenure-is_canonical

canonicalize_bytes_lem_example :
    canonicalize_bytes (λ text. text) tenure
    ≡ ok_or (accepted_tenure (λ text. text) tenure) canonicalization_failed
canonicalize_bytes_lem_example = canonicalize_bytes_lem (λ text. text) tenure
