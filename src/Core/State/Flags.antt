-- ===== src/Core/State/Flags.antt =====
-- crates/certimining-core/src/state.rs: the flags of a record by the history of its chain.
use potash.Common.{
  ℕ, ◌+◌, ◌≡◌, ap, sym, ◌∙◌, ◌&&◌, not, List, [], Option, none, some, arith, length, All, ltb,
  if◌then◌else◌,
}
use potash.Core.Error.{RegistryError, ok}
use potash.Core.Hash.{Hasher, Verifier, Digest}
use potash.Core.State.{
  RecordLeafInput, Applied, AssetChain, flags_for, is_reserve, apply, start, schema_version_1,
  is_some_and,
}
use potash.Core.State.Apply.{IsRecord, applied_of, outcome, apply_lem, first_failure, conditions}
use potash.Core.State.History.{
  Represents, any_resource, latest_category, run, run-Represents, start-Represents,
}

-- The flags that a history earns a record: bit 0 for a reserve with no resource before it, bit 1 for
-- a category below the previous one.
abbrev pub expected_flags : List RecordLeafInput → RecordLeafInput → ℕ
expected_flags history r =
    (if is_reserve r.category && not (any_resource history) then 1 else 0)
    + (if is_some_and (latest_category history) (λ prev. ltb r.category prev) then 2 else 0)

flags_for-expected :
    (h : Hasher) (c : AssetChain) (history : List RecordLeafInput) (r : RecordLeafInput)
    → Represents h c history
    → flags_for c r ≡ expected_flags history r
unfolding flags_for
flags_for-expected h c history r rep = rw (rep.resource, rep.category) (ground arith)

module _ (h : Hasher) (v : Verifier) where
  outcome-flags :
      (c next : AssetChain) (r : RecordLeafInput) (a : Applied) (failure : Option RegistryError)
      → outcome h c r failure ≡ (next, ok a)
      → a.flags ≡ flags_for c r
  outcome-flags c next r a none same =
      let made : applied_of h c r ≡ a = cc same in ap (λ x. x.flags) (sym made)
  outcome-flags c next r a (some code) same = absurd (cc same)

  applied-flags :
      (c next : AssetChain) (history : List RecordLeafInput) (r : RecordLeafInput) (a : Applied)
      → Represents h c history
      → IsRecord r
      → apply h v r c ≡ (next, ok a)
      → a.flags ≡ expected_flags history r
  applied-flags c next history r a rep input accepted =
      outcome-flags c next r a (first_failure (conditions v c r))
        (sym (apply_lem h v rep.chain input) ∙ accepted)
      ∙ flags_for-expected h c history r rep

  -- However many records are offered to a chain from its start on, refused ones among them, the flags
  -- that an accepted record then gets are those that all the records accepted before it earn it.
  pub run-flags :
      (c : Digest) (chain next : AssetChain) (offered : List RecordLeafInput) (r : RecordLeafInput)
      (a : Applied)
      → length c ≡ 32
      → start h c schema_version_1 ≡ ok chain
      → All IsRecord offered
      → IsRecord r
      → apply h v r (run h v (chain, []) offered).0 ≡ (next, ok a)
      → a.flags ≡ expected_flags (run h v (chain, []) offered).1 r
  run-flags c chain next offered r a width started inputs input accepted =
      let l = run h v (chain, []) offered in
      applied-flags l.0 next l.1 r a
        (run-Represents h v (chain, []) offered (start-Represents h c chain width started) inputs)
        input accepted
