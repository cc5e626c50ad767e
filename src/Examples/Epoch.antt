-- ===== src/Examples/Epoch.antt =====
-- An epoch of two submissions, a proof, a promise and a batcher.
use mathlib.Core.List.{Permᴰ}
use potash.Common.{◌≡◌, ◌⊎◌, refl, ◌++◌, arith, List, [], ◌∷◌, none, some}
use potash.Common.{replicate, bytes_eq, le_bytes}
use potash.Core.Error.{Result, RegistryError, ok, err}
use potash.Core.Hash.{Digest, CollisionFree}
use potash.Core.Preimage.{
  real_leaf, digest, encode, tag, fields, preimage_bytes, write_preimage, staged, write_fields,
  buf_write, precheck,
}
use potash.Log.Tree.{Submission, BuiltEpoch, InclusionProof, build, proof}
use potash.Log.Tree.Order.{leaf_of_id}
use potash.Log.Tree.Order.Distinct.{Distinct}
use potash.Log.Tree.Build.{IsTree, IsInput, build-outcome, build-perm, refusal}
use potash.Log.Proof.{climb, verify, verify_for_height}
use potash.Log.Proof.Included.{build-proof-verify}
use potash.Log.Proof.Binding.{verify-binds, verified_messages}
use potash.Log.Promise.{SignedPromise, promise_digest}
use potash.Log.Batcher.{
  EpochBatcher, start, submit, seal, promised_epoch, capacity, next_identifier, id_of,
}
use potash.Log.Batcher.{resume, snapshot, BatcherSnapshot}
use potash.Log.Batcher.Resume.{resume-snapshot}
use potash.Log.Batcher.Valid.{IsBatcher}
use potash.Log.Batcher.Valid.Steps.{start-IsBatcher, submit-IsBatcher}
use potash.Log.Batcher.Valid.Sealing.{after_seal, seal-IsBatcher}
use potash.Log.Batcher.Kept.{Steps}
use potash.Log.Batcher.Kept.Sealed.{submit-promise-kept}
use potash.Examples.Toy.{toy, toy_signer, collision_free-CollisionFree}

abbrev pub key : Digest
key = replicate 32 9

abbrev lead : Digest
lead = replicate 32 1

abbrev pub zinc : Digest
zinc = replicate 32 2

abbrev pub pair : List Submission
pair = (id_of 0, lead) ∷ (id_of 1, zinc) ∷ []

abbrev swapped : List Submission
swapped = (id_of 1, zinc) ∷ (id_of 0, lead) ∷ []

pair-IsInput : IsInput 20 key pair
unfolding le_bytes
pair-IsInput = record {
  epoch_fits = omega arith;
  key_width = refl;
  submissions = ((refl, refl), ((refl, refl), tt));
}

pub pair-Distinct : Distinct pair
unfolding le_bytes
pair-Distinct = (((λ same. cc), tt), (tt, tt))

pub zinc-found : leaf_of_id (id_of 1) pair ≡ some zinc
unfolding leaf_of_id bytes_eq le_bytes
zinc-found = refl

build-outcome_example :
    ((e : RegistryError) × (refusal 4 pair ≡ some e) × (build toy 20 4 key pair ≡ err e))
    ⊎ ((b : BuiltEpoch) × (refusal 4 pair ≡ none)
        × (build toy 20 4 key pair ≡ ok b)
        × IsTree toy 20 4 pair b)
build-outcome_example = build-outcome toy 20 4 key pair pair-IsInput

build-perm_example : build toy 20 4 key pair ≡ build toy 20 4 key swapped
build-perm_example = build-perm toy 20 4 key (Permᴰ.swap refl refl) pair-Distinct

build-proof-verify_example :
    (b : BuiltEpoch) × (p : InclusionProof) × (build toy 20 4 key pair ≡ ok b)
    × (proof b (id_of 1) ≡ ok p)
    × (verify_for_height toy zinc p b.root 4 ≡ ok tt)
    × (p.epoch ≡ 20)
build-proof-verify_example =
    build-proof-verify toy 20 4 key pair pair-IsInput (omega arith) (omega arith) (omega arith)
      pair-Distinct (id_of 1) zinc refl zinc-found

abbrev climbing : InclusionProof
climbing = record {
  height = 4;
  siblings = replicate 4 (replicate 32 6);
  slot_index = 5;
  epoch = 20;
}

abbrev ok_or_empty : Result Digest → Digest
ok_or_empty (ok d) = d
ok_or_empty (err e) = []

abbrev entered : Digest
entered = ok_or_empty (digest toy (real_leaf zinc))

abbrev top : Digest
top = ok_or_empty (climb toy entered 5 climbing.siblings)

climbing-verifies : verify toy zinc climbing top ≡ ok tt
unfolding verify climb digest preimage_bytes write_preimage staged write_fields buf_write precheck
    tag fields le_bytes bytes_eq
climbing-verifies = refl

climbing-free :
    CollisionFree toy (verified_messages toy zinc climbing ++ verified_messages toy zinc climbing)
unfolding encode tag fields le_bytes bytes_eq
climbing-free =
    collision_free-CollisionFree toy
      (verified_messages toy zinc climbing ++ verified_messages toy zinc climbing) refl

verify-binds_example : (zinc ≡ zinc) × (climbing.siblings ≡ climbing.siblings)
verify-binds_example =
    verify-binds toy zinc zinc climbing climbing top refl refl (refl, (refl, (refl, (refl, tt))))
      (refl, (refl, (refl, (refl, tt)))) refl refl climbing-free climbing-verifies climbing-verifies

abbrev batcher : EpochBatcher
batcher = record {
  master_key = key;
  height = 4;
  epoch = 20;
  next_submission = 0;
  pending = [];
  overflow = [];
}

batcher-IsBatcher : IsBatcher batcher
unfolding start
batcher-IsBatcher = start-IsBatcher key 4 20 batcher refl (omega arith) refl

abbrev ok_or_promise : Result SignedPromise → SignedPromise
ok_or_promise (ok p) = p
ok_or_promise (err e) = record {
  leaf = [];
  submission_id = [];
  accepted_epoch = 0;
  promised_epoch = 0;
  max_merge_delay = 0;
  batcher_key = [];
  signature = [];
}

abbrev promise : SignedPromise
promise = ok_or_promise (submit toy toy_signer lead batcher).1

promised : (submit toy toy_signer lead batcher).1 ≡ ok promise
unfolding submit promised_epoch capacity next_identifier promise_digest digest preimage_bytes
    write_preimage staged write_fields buf_write precheck tag fields le_bytes
promised = refl

-- After the promise another submission is taken, and the epoch is still the promised one.
submit-promise-kept_example :
    (built : BuiltEpoch) × (i : InclusionProof) × (seal toy 20
        (submit toy toy_signer zinc (submit toy toy_signer lead batcher).0).0
      ≡ (
        after_seal (submit toy toy_signer zinc (submit toy toy_signer lead batcher).0).0,
        ok built,
      ))
    × (proof built promise.submission_id ≡ ok i)
    × (verify_for_height toy promise.leaf i built.root 4 ≡ ok tt)
    × (i.epoch ≡ promise.promised_epoch)
unfolding submit promised_epoch capacity next_identifier promise_digest digest preimage_bytes
    write_preimage staged write_fields buf_write precheck tag fields le_bytes
submit-promise-kept_example =
    submit-promise-kept toy toy_signer lead batcher promise batcher-IsBatcher refl promised
      (submit toy toy_signer zinc (submit toy toy_signer lead batcher).0).0
      (Steps.submitted (Steps.here (submit toy toy_signer lead batcher).0) zinc refl) refl
      (omega arith)

submit-IsBatcher_example : IsBatcher (submit toy toy_signer lead batcher).0
submit-IsBatcher_example = submit-IsBatcher toy toy_signer lead batcher batcher-IsBatcher refl

seal-IsBatcher_example : IsBatcher (seal toy 20 batcher).0
seal-IsBatcher_example = seal-IsBatcher toy batcher-IsBatcher 20

-- A batcher whose counter is at its end.
abbrev exhausted : EpochBatcher
exhausted = record batcher { next_submission = 18446744073709551615 }

resume-snapshot_example : resume batcher.master_key batcher.height (snapshot batcher) ≡ ok batcher
resume-snapshot_example = resume-snapshot batcher batcher-IsBatcher

-- A stored snapshot of one pending submission.
abbrev stored : BatcherSnapshot
stored = record { epoch = 20; next_submission = 8; pending = (id_of 7, lead) ∷ []; overflow = [] }
