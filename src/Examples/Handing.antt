-- ===== src/Examples/Handing.antt =====
-- A handoff of two records, written a minute after its build may start, and read by the worker.
use potash.Common.{
  ℕ, ◌+◌, ◌*◌, ◌≡◌, refl, ap, ◌∙◌, arith, none, some, [], ◌∷◌, ◌++◌, Bytes, Bool-cases, inl, inr,
  ◌⊎◌, bytes_eq, bytes_eq_refl, length, length-append, if◌then◌else◌, replicate, le_bytes,
}
use potash.Common.Int.{pos}
use potash.Common.Early.{go}
use potash.Core.Error.{Result, ok, err, attestation_invalid}
use potash.Core.Hash.{Verifier, Digest, hash}
use potash.Core.Preimage
use potash.Core.Preimage.{handoff, IsWellFormed}
use potash.Core.Preimage.Write.{preimage_bytes-encode}
use potash.Log.Tree.{BuiltEpoch, InclusionProof, build, proof}
use potash.Log.Tree.Build.{IsInput, IsTree, build-Distinct}
use potash.Log.Tree.Levels.{root_of-width}
use potash.Log.Proof.{verify_for_height}
use potash.Log.Batcher.{id_of}
use potash.Client.Schedule.{build_start, publication_time}
use potash.Client.Worker.Decision.{day_index}
use potash.Client.Handoff.{encode, refuse_to_write, barriers, same_as, none_or}
use potash.Client.Worker.Policy.{last_publishable_day}
use potash.Service.Producer.{SigningKey, produce, root_for, signed_handoff}
use potash.Service.Handed.{IsSigningKey, produce-Handed}
use potash.Examples.Toy.{toy}
use potash.Examples.Epoch.{key, zinc, pair, pair-Distinct, zinc-found}

abbrev twice : Bytes → Bytes
twice message = hash toy message ++ hash toy message

abbrev checked : Bytes → Bytes → Bytes → Result (Unit {0})
checked k message signature =
    if bytes_eq signature (twice message) then ok tt else err attestation_invalid

checked_codes :
    (k message signature : Bytes)
    → (checked k message signature ≡ ok tt)
      ⊎ (checked k message signature ≡ err attestation_invalid)
checked_codes k message signature = elim (Bool-cases (bytes_eq signature (twice message))) [
  | inl same ↦ inl (rw same refl)
  | inr other ↦ inr (rw other refl)
]

abbrev verifier : Verifier
verifier = record { verify = checked; verify_codes = checked_codes }

abbrev signing : SigningKey
signing = record { verifying_key = replicate 32 5; sign = twice }

signing-IsSigningKey : IsSigningKey verifier signing
signing-IsSigningKey = record {
  key_width = refl;
  signature_width = λ message.
      length-append (hash toy message) (hash toy message)
      ∙ ap (λ (n : ℕ). n + n) (toy.hashv-IsDigest (message ∷ [])).0;
  accepts = λ message. rw (bytes_eq_refl (twice message)) refl;
}

input : IsInput 20702 key pair
unfolding le_bytes
input = record {
  epoch_fits = omega arith;
  key_width = refl;
  submissions = ((refl, refl), ((refl, refl), tt));
}

abbrev tree : (b : BuiltEpoch) × (build toy 20702 4 key pair ≡ ok b) × IsTree toy 20702 4 pair b
tree = build-Distinct toy input (omega arith) (omega arith) (omega arith) pair-Distinct

abbrev root : Digest
root = tree.0.root

root-width : length root ≡ 32
root-width =
    ap length tree.2.root ∙ root_of-width toy tree.0.height tree.0.leaves tree.2.size tree.2.widths

abbrev file : Bytes
file = encode (
    signed_handoff signing 20702 4 root
      (Preimage.encode (handoff (record { epoch = 20702; height = 4; root = root }))))

produced : produce toy signing key 20702 4 pair (pos (20703 * 86400 + 3060)) none ≡ go file
unfolding produce refuse_to_write barriers same_as none_or day_index build_start publication_time
    last_publishable_day IsWellFormed
produced =
    rw
      (
        tree.1,
        preimage_bytes-encode (handoff (record { epoch = 20702; height = 4; root = root }))
            (omega arith, root-width),
      )
      refl

produce-Handed_example :
    (b : BuiltEpoch) × (build toy 20702 4 key pair ≡ ok b)
    × (root_for verifier signing.verifying_key 20702 (some file) ≡ go b.root)
    × (p : InclusionProof) × (proof b (id_of 1) ≡ ok p)
    × (p.epoch ≡ 20702)
    × (verify_for_height toy zinc p b.root 4 ≡ ok tt)
produce-Handed_example =
    produce-Handed toy verifier signing signing-IsSigningKey key 20702 4 pair input file
      (pos (20703 * 86400 + 3060)) none (id_of 1) zinc produced refl zinc-found
