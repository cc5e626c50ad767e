-- ===== src/Service/Handed.antt =====
-- bin/batcher-handoff.rs and bin/anchor-b-worker.rs: the worker accepts what the batcher writes.
use potash.Common.{
  ℕ, ◌≡◌, ◌≤◌, refl, sym, ap, ◌∙◌, arith, Option, some, List, Bytes, Option-cases, inl, inr, length,
}
use potash.Common.Int.{ℤ}
use potash.Common.Early.{go, Early-cases, go-injective}
use potash.Core.Error.{ok}
use potash.Core.Hash.{Hasher, Verifier, Digest}
use potash.Core.Preimage.{Preimage, handoff, preimage_bytes, IsWellFormed}
use potash.Core.Preimage
use potash.Core.Preimage.Write.{preimage_bytes-encode}
use potash.Log.Tree.{Submission, BuiltEpoch, InclusionProof, build, proof}
use potash.Log.Tree.Order.{leaf_of_id}
use potash.Log.Tree.Build.{IsTree, IsInput, build-outcome}
use potash.Log.Tree.Levels.{root_of-width}
use potash.Log.Proof.{verify_for_height}
use potash.Log.Proof.Included.{IsTree-proof}
use potash.Client.Schedule.{deployed}
use potash.Client.Worker.Policy.{production}
use potash.Client.Worker.Decision.{day_index}
use potash.Client.Handoff.{encode, refuse_to_write}
use potash.Client.Handoff.Encoding.{IsHandoff, decode-encode}
use potash.Client.Handoff.Checks.{verify_iff}
use potash.Service.Producer.{SigningKey, produce, root_for, signed_handoff}

-- Ed25519's documented behaviour: keys of 32 bytes, signatures of 64, which verify.
pub record IsSigningKey (v : Verifier) (key : SigningKey) : Type 0 where
  pub key_width : length key.verifying_key ≡ 32
  pub signature_width : (message : Bytes) → length (key.sign message) ≡ 64
  pub accepts : (message : Bytes) → v.verify key.verifying_key message (key.sign message) ≡ ok tt

module _ (h : Hasher) (v : Verifier) (key : SigningKey) (law : IsSigningKey v key) (master : Digest)
    (epoch height : ℕ) (records : List Submission) (input : IsInput epoch master records) where
  abbrev message : Digest → Bytes
  message root = Preimage.encode (handoff (record { epoch = epoch; height = height; root = root }))

  made-IsHandoff :
      (root : Digest)
      → length root ≡ 32
      → height ≤ 16
      → IsHandoff (signed_handoff key epoch height root (message root))
  made-IsHandoff root wide low = record {
    epoch_fits = input.epoch_fits;
    height_fits = omega arith;
    root_width = wide;
    key_width = law.key_width;
    signature_width = law.signature_width (message root);
  }

  handed :
      (root : Digest)
      → length root ≡ 32
      → 4 ≤ height
      → height ≤ 16
      → root_for v key.verifying_key epoch
          (some (encode (signed_handoff key epoch height root (message root))))
        ≡ go root
  unfolding root_for
  handed root wide high low =
      let made = signed_handoff key epoch height root (message root) in
      let w = made-IsHandoff root wide low in
      rw
        (
          decode-encode made w,
          (verify_iff v made key.verifying_key epoch root w).1
              (refl, refl, high, low, refl, law.accepts (message root)),
        )
        refl

  -- Of a run that writes a file: the tree, its root's width and its heights.
  built_tree :
      (bytes : Bytes) (seconds : ℤ) (existing : Option Bytes)
      → produce h key master epoch height records seconds existing ≡ go bytes
      → (b : BuiltEpoch) × (build h epoch height master records ≡ ok b)
        × IsTree h epoch height records b
        × (4 ≤ height)
        × (height ≤ 16)
  unfolding produce
  built_tree bytes seconds existing e = elim (build-outcome h epoch height master records input) [
    | inl (code, _, failed) ↦ elim (Option-cases (day_index seconds)) [
      | inl no_day ↦ absurd (cc (rw no_day at e))
      | inr (day, dated) ↦ absurd (cc (rw (dated, failed) at e))
    ]
    | inr (b, accepted, built, tree) ↦
        (b, built, tree, ground (arith, accepted), ground (arith, accepted))
  ]

  written_as :
      (bytes : Bytes) (seconds : ℤ) (existing : Option Bytes) (b : BuiltEpoch)
      → build h epoch height master records ≡ ok b
      → length b.root ≡ 32
      → produce h key master epoch height records seconds existing ≡ go bytes
      → encode (signed_handoff key epoch height b.root (message b.root)) ≡ bytes
  unfolding produce IsWellFormed
  written_as bytes seconds existing b built wide e =
      let made = encode (signed_handoff key epoch height b.root (message b.root)) in
      let signed =
        preimage_bytes-encode (handoff (record { epoch = epoch; height = height; root = b.root }))
          (input.epoch_fits, wide) in
      elim (Option-cases (day_index seconds)) [
        | inl no_day ↦ absurd (cc (rw no_day at e))
        | inr (day, dated) ↦
            elim (Early-cases (refuse_to_write deployed production epoch seconds existing made)) [
              | inl (why, refused) ↦ absurd (cc (rw (dated, built, signed, refused) at e))
              | inr (_, allowed) ↦ go-injective (rw (dated, built, signed, allowed) at e)
            ]
      ]

  -- With a key whose signatures verify and have their width, and an epoch, records and key that have
  -- theirs, what the batcher writes for its records the worker accepts, as the root of the epoch that
  -- was built of them, and a record whose leaf is recorded has a proof for that epoch that verifies
  -- against that root.
  pub produce-Handed :
      (bytes : Bytes) (seconds : ℤ) (existing : Option Bytes) (id : Bytes) (leaf : Digest)
      → produce h key master epoch height records seconds existing ≡ go bytes
      → length leaf ≡ 32
      → leaf_of_id id records ≡ some leaf
      → (b : BuiltEpoch) × (build h epoch height master records ≡ ok b)
        × (root_for v key.verifying_key epoch (some bytes) ≡ go b.root)
        × (p : InclusionProof) × (proof b id ≡ ok p)
        × (p.epoch ≡ epoch)
        × (verify_for_height h leaf p b.root height ≡ ok tt)
  produce-Handed bytes seconds existing id leaf e leaf_width recorded =
      let (b, built, tree, high, low) = built_tree bytes seconds existing e in
      let wide : length b.root ≡ 32 =
        ap length tree.root ∙ root_of-width h b.height b.leaves tree.size tree.widths in
      let (p, proved, verified, at) = IsTree-proof h b high low tree id leaf leaf_width recorded in
      (
        b,
        built,
        ap (λ file. root_for v key.verifying_key epoch (some file))
              (sym (written_as bytes seconds existing b built wide e))
            ∙ handed b.root wide high low,
        p,
        proved,
        at,
        verified,
      )
