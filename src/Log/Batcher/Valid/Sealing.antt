-- ===== src/Log/Batcher/Valid/Sealing.antt =====
-- Sealing a valid batcher.
use Prim.Native.Nat.{◌≤◌}
use potash.Common.{ℕ, ◌+◌, ◌^◌, ◌<◌, ◌≡◌, refl, ap, arith, ◌++◌}
use potash.Common.{length, inl, inr}
use potash.Common.{take, drop, min, length-take, length-drop, take-append-drop}
use potash.Core.Error.{Result-cases, ok}
use potash.Core.Hash.{Hasher}
use potash.Log.Tree.{BuiltEpoch, build, max_height}
use potash.Log.Tree.Build.{IsTree, build-Distinct}
use potash.Log.Batcher.{EpochBatcher, seal, capacity}
use potash.Log.Batcher.Refused.{seal-refused}
use potash.Log.Batcher.Valid.{IsBatcher, Run}
use potash.Log.Batcher.Valid.Runs.{
  Run-front, Run-back, All-front, All-back, Run-Distinct, Run-IsSubmission,
}

-- How many queued submissions a seal moves.
abbrev pub moving : EpochBatcher → ℕ
moving b = min (2 ^ b.height) (length b.overflow)

-- The batcher after an epoch is sealed.
abbrev pub after_seal : EpochBatcher → EpochBatcher
after_seal b = record b {
  epoch = b.epoch + 1;
  pending = take (moving b) b.overflow;
  overflow = drop (moving b) b.overflow;
}

-- An epoch that seals is the batcher's own, and the next one has a number.
pub sealed_at :
    (h : Hasher) (b : EpochBatcher) (epoch : ℕ) (built : BuiltEpoch)
    → b.height ≤ max_height
    → (seal h epoch b).1 ≡ ok built
    → (epoch ≡ b.epoch) × (b.epoch + 1 < 2 ^ 64)
unfolding seal capacity
sealed_at h b epoch built hi sealed = (ground arith, ground arith)

module _ (h : Hasher) {b : EpochBatcher} (valid : IsBatcher b) where
  -- The pending submissions of a valid batcher build.
  pending-build :
      (built : BuiltEpoch) × (build h b.epoch b.height b.master_key b.pending ≡ ok built)
      × IsTree h b.epoch b.height b.pending built
  pending-build =
      let run : Run valid.first b.pending = Run-front valid.first b.pending b.overflow valid.run in
      build-Distinct h
        (record {
          key_width = valid.key_width;
          epoch_fits = valid.epoch_fits;
          submissions =
              Run-IsSubmission valid.first b.pending run
                (All-front (λ e. length e.1 ≡ 32) b.pending b.overflow valid.widths);
        })
        valid.lowest valid.highest valid.pending_fits
        (Run-Distinct valid.first b.pending (omega (arith, valid.count, valid.counter_fits)) run)

  -- A valid batcher seals its epoch: the result is a tree of what was pending.
  pub seal-ok :
      b.epoch + 1 < 2 ^ 64
      → (built : BuiltEpoch) × (seal h b.epoch b ≡ (after_seal b, ok built))
        × IsTree h b.epoch b.height b.pending built
  unfolding seal capacity
  seal-ok clock =
      let (built, e, tree) = pending-build in (built, ground (arith, valid.highest), tree)

  after_seal-IsBatcher : b.epoch + 1 < 2 ^ 64 → IsBatcher (after_seal b)
  after_seal-IsBatcher clock =
      let whole : take (moving b) b.overflow ++ drop (moving b) b.overflow ≡ b.overflow =
        take-append-drop (moving b) b.overflow in
      record {
        lowest = valid.lowest;
        highest = valid.highest;
        key_width = valid.key_width;
        epoch_fits = clock;
        pending_fits = omega (arith, length-take (moving b) b.overflow);
        queue_fits = omega (arith, length-drop (moving b) b.overflow, valid.queue_fits);
        full_first =
            ground (arith, length-take (moving b) b.overflow, length-drop (moving b) b.overflow);
        counter_fits = valid.counter_fits;
        first = valid.first + length b.pending;
        count = omega (
          arith,
          valid.count,
          length-take (moving b) b.overflow,
          length-drop (moving b) b.overflow,
        );
        run = rw whole (Run-back valid.first _ b.pending b.overflow refl valid.run);
        widths = rw whole (All-back (λ e. length e.1 ≡ 32) b.pending b.overflow valid.widths);
      }

  -- Sealing keeps the invariant, whichever epoch is asked for and whether or not it is refused.
  pub seal-IsBatcher : (epoch : ℕ) → IsBatcher (seal h epoch b).0
  seal-IsBatcher epoch = elim (Result-cases (seal h epoch b).1) [
    | inr (e, refused) ↦ rw (seal-refused h epoch b e refused) valid
    | inl (built, sealed) ↦
        let (current, clock) = sealed_at h b epoch built valid.highest sealed in
        rw (current, ap (λ r. r.0) (let (built, e, tree) = seal-ok clock in e))
          (after_seal-IsBatcher clock)
  ]
