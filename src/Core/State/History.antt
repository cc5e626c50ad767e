-- ===== src/Core/State/History.antt =====
-- A run of a chain over any records, and what its state says of the records that it accepted.
use Prim.Native.Nat.{◌≤◌}
use potash.Common.{ℕ, ◌+◌, ◌≡◌, refl, sym, ◌∙◌, Bool, false, ◌||◌}
use potash.Common.{List, [], ◌∷◌, ◌++◌, map, Option, Option-cases, none, some, arith, inl, inr}
use potash.Common.{length, All}
use potash.Common.Int.{ℤ, ◌≤ℤ◌, i64_min}
use potash.Core.Error.{Result, ok, err}
use potash.Core.Hash.{Hasher, Verifier, Digest, CollisionFree}
use potash.Core.Preimage.{LeafPreimage, IsWellFormed}
use potash.Core.State.{
  RecordLeafInput, Applied, AssetChain, is_resource, apply, start, schema_version_1, max_category,
}
use potash.Core.Preimage.Write.{digest-encode}
use potash.Core.State.Apply.{
  IsChain, IsRecord, Admissible, apply_lem, next_chain, first_failure, conditions,
  no_failure-Admissible,
}
use potash.Core.State.Head.{
  head_of, hashed, IsLeafList, head_of-injective, genesis_preimage, genesis-IsWellFormed,
}

-- A chain with the records that it accepted so far, the newest first.
abbrev pub Ledger : Type 0
Ledger = AssetChain × List RecordLeafInput

abbrev keep : AssetChain × Result Applied → RecordLeafInput → List RecordLeafInput → Ledger
keep (c, ok _) r history = (c, r ∷ history)
keep (c, err _) r history = (c, history)

module _ (h : Hasher) (v : Verifier) where
  step : Ledger → RecordLeafInput → Ledger
  step (c, history) r = keep (apply h v r c) r history

  -- The records are offered one after the other; a refusal ends only its own record.
  unfoldable pub run : Ledger → List RecordLeafInput → Ledger
  unfolding step
  run l [] = l
  run l (r ∷ rs) = run (step l r) rs

-- The leaf preimage of a record of a chain.
abbrev pub preimage_in : Digest → RecordLeafInput → LeafPreimage
preimage_in c r = record {
  asset_commitment = c;
  seq = r.seq;
  payload_digest = r.payload_digest;
  assessment_digest = r.assessment_digest;
  qp_key = r.qp_key;
  category = r.category;
  effective_at = r.effective_at;
  change_identified_at = r.change_identified_at;
}

abbrev pub preimages : Digest → List RecordLeafInput → List LeafPreimage
preimages c history = map (preimage_in c) history

abbrev pub any_resource : List RecordLeafInput → Bool
any_resource [] = false
any_resource (r ∷ history) = is_resource r.category || any_resource history

abbrev pub latest_date : List RecordLeafInput → ℤ
latest_date [] = i64_min
latest_date (r ∷ history) = r.effective_at

abbrev pub latest_category : List RecordLeafInput → Option ℕ
latest_category [] = none
latest_category (r ∷ history) = some r.category

-- Each record is numbered one past its predecessor, commits to the head before it, is not dated
-- before it, and has a category of the schema.
abbrev pub IsHistory : Hasher → Digest → List RecordLeafInput → Type 0
IsHistory h c [] = Unit
IsHistory h c (r ∷ history) =
    IsRecord r
    × (r.seq ≡ length history + 1)
    × (r.prev_head ≡ head_of h c (preimages c history))
    × (latest_date history ≤ℤ r.effective_at)
    × (r.category ≤ max_category)
    × IsHistory h c history

-- The state of a chain is the state that its accepted records determine.
pub record Represents (h : Hasher) (c : AssetChain) (history : List RecordLeafInput) : Type 0 where
  pub head : c.head ≡ head_of h c.asset_commitment (preimages c.asset_commitment history)
  pub seq : c.seq ≡ length history
  pub date : c.last_effective_at ≡ latest_date history
  pub resource : c.saw_resource ≡ any_resource history
  pub category : c.previous_category ≡ latest_category history
  pub valid : IsHistory h c.asset_commitment history
  pub chain : IsChain c

module _ (h : Hasher) (v : Verifier) where
  next-IsChain :
      {c : AssetChain} {r : RecordLeafInput}
      → IsChain c
      → IsRecord r
      → Admissible v c r
      → IsChain (next_chain h c r)
  next-IsChain {c} {r} chain input a = record {
    commitment = chain.commitment;
    head = (h.hashv-IsDigest _).0;
    schema = chain.schema;
    seq = input.seq;
    date = input.effective;
    category = ground (arith, a.category);
  }

  pub next-Represents :
      {c : AssetChain} {history : List RecordLeafInput} {r : RecordLeafInput}
      → Represents h c history
      → IsRecord r
      → Admissible v c r
      → Represents h (next_chain h c r) (r ∷ history)
  unfolding head_of
  next-Represents {c} {history} {r} rep input a = record {
    head = rw rep.head;
    seq = omega (arith, a.next, rep.seq);
    date = refl;
    resource = ground (arith, rep.resource);
    category = refl;
    valid = (
      input,
      omega (arith, a.next, rep.seq),
      a.linked ∙ rep.head,
      rw rep.date at a.date,
      a.category,
      rep.valid,
    );
    chain = next-IsChain rep.chain input a;
  }

module _ (h : Hasher) (v : Verifier) where
  step-Represents :
      (l : Ledger) (r : RecordLeafInput)
      → Represents h l.0 l.1
      → IsRecord r
      → Represents h (step h v l r).0 (step h v l r).1
  unfolding step
  step-Represents (c, history) r rep input =
      elim (Option-cases (first_failure (conditions v c r))) [
        | inl accepted ↦
            rw (apply_lem h v rep.chain input, accepted)
              (next-Represents h v rep input (no_failure-Admissible v c r accepted))
        | inr (code, refused) ↦ rw (apply_lem h v rep.chain input, refused) rep
      ]

  -- Whatever records are offered to a chain, accepted or refused, its state stays the one that its
  -- accepted records determine: head, number, date, resource flag and category.
  pub run-Represents :
      (l : Ledger) (rs : List RecordLeafInput)
      → Represents h l.0 l.1
      → All IsRecord rs
      → Represents h (run h v l rs).0 (run h v l rs).1
  unfolding run
  run-Represents l [] rep input = rep
  run-Represents l (r ∷ rs) rep input =
      run-Represents (step h v l r) rs (step-Represents l r rep input.0) input.1

abbrev start_chain : Hasher → Digest → AssetChain
start_chain h c = record {
  asset_commitment = c;
  schema_version = schema_version_1;
  head = head_of h c [];
  seq = 0;
  last_effective_at = i64_min;
  saw_resource = false;
  previous_category = none;
}

-- A chain that was just started represents the empty history.
pub start-Represents :
    (h : Hasher) (c : Digest) (chain : AssetChain)
    → length c ≡ 32
    → start h c schema_version_1 ≡ ok chain
    → Represents h chain []
unfolding start head_of
start-Represents h c chain hc e =
    let genesis_ok = digest-encode h (genesis_preimage c) (genesis-IsWellFormed h c hc) in
    let started : chain ≡ start_chain h c = ground (arith, genesis_ok) in
    rw started (record {
      head = refl;
      seq = refl;
      date = refl;
      resource = refl;
      category = refl;
      valid = tt;
      chain = record {
        commitment = hc;
        head = (h.hashv-IsDigest _).0;
        schema = refl;
        seq = omega arith;
        date = omega arith;
        category = refl;
      };
    })

IsHistory-IsLeafList :
    (h : Hasher) (c : Digest) (history : List RecordLeafInput)
    → length c ≡ 32
    → IsHistory h c history
    → IsLeafList (preimages c history)
unfolding IsWellFormed
IsHistory-IsLeafList h c [] hc valid = tt
IsHistory-IsLeafList h c (r ∷ history) hc valid = (
  (
    hc, valid.0.seq, valid.0.payload, valid.0.assessment, valid.0.key, valid.0.effective,
    valid.0.identified,
  ),
  IsHistory-IsLeafList h c history hc valid.5,
)

-- Two chains with one head belong to one asset and accepted the same records, as far as a leaf
-- commits to a record, when no two messages hashed for them collide.
pub head_binds_history :
    (h : Hasher) (a b : AssetChain) (history other : List RecordLeafInput)
    → Represents h a history
    → Represents h b other
    → CollisionFree h (
        hashed h a.asset_commitment (preimages a.asset_commitment history)
        ++ hashed h b.asset_commitment (preimages b.asset_commitment other))
    → a.head ≡ b.head
    → (a.asset_commitment ≡ b.asset_commitment)
      × (preimages a.asset_commitment history ≡ preimages b.asset_commitment other)
head_binds_history h a b history other ra rb free e =
    head_of-injective h a.asset_commitment b.asset_commitment (preimages a.asset_commitment history)
      (preimages b.asset_commitment other) ra.chain.commitment rb.chain.commitment
      (IsHistory-IsLeafList h a.asset_commitment history ra.chain.commitment ra.valid)
      (IsHistory-IsLeafList h b.asset_commitment other rb.chain.commitment rb.valid) free
      (sym ra.head ∙ e ∙ rb.head)
