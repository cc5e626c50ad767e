-- ===== src/Client/Worker/Cycle.antt =====
-- crates/certimining-client/src/worker.rs: the steps that follow one another.
use potash.Common.{ℕ, ◌≤◌, ◌<◌, ◌^◌, ◌≡◌, ◌≢◌, arith, Option, none, some, ◌⊎◌, inl, inr}
use potash.Common.Int.{ℤ, pos, negsuc}
use potash.Client.Schedule.{Schedule}
use potash.Client.Worker.Policy.{WorkerPolicy}
use potash.Client.Worker.Decision.{
  seen, submit, attach, today, newest_publishable, day_index, check_awaiting, when_due,
  check_submitted, submitted_through, next_step_with_policy, is_none_or_below,
}

module _ (schedule : Schedule) (policy : WorkerPolicy) where
  -- On a day after the last epoch of the log: with nothing awaiting attachment the worker submits that
  -- epoch while it is not submitted; it attaches it when it is submitted and the first that awaits; and
  -- when it is submitted and nothing awaits, it neither submits nor attaches.
  pub cycle :
      (now : ℤ) (day start epoch : ℕ) (submitted oldest : Option ℕ)
      → day_index now ≡ some day
      → 0 < start
      → start ≤ epoch
      → epoch < 2 ^ 64
      → epoch < day
      → (submitted ≡ none) ⊎ ((s : ℕ) × (submitted ≡ some s) × (s < epoch))
      → (next_step_with_policy schedule (seen now start epoch none submitted oldest) policy
          ≡ submit epoch)
        × (next_step_with_policy schedule
              (seen now start epoch (some epoch) (some epoch) oldest)
              policy
            ≡ attach epoch)
        × ((e : ℕ)
            → (next_step_with_policy schedule (seen now start epoch none (some epoch) oldest) policy
                ≢ submit e)
              × (next_step_with_policy schedule
                    (seen now start epoch none (some epoch) oldest)
                    policy
                  ≢ attach e))
  unfolding next_step_with_policy today newest_publishable day_index check_awaiting check_submitted
      submitted_through is_none_or_below when_due
  cycle (negsuc now) day start epoch submitted oldest dated begun started fits ended sub =
      absurd (cc dated)
  cycle (pos now) day start epoch none oldest dated begun started fits ended sub = (
    ground (arith, dated),
    ground (arith, dated),
    λ e. (λ h. ground (arith, dated, h), λ h. ground (arith, dated, h)),
  )
  cycle (pos now) day start epoch (some s) oldest dated begun started fits ended sub = (
    ground (arith, dated, below s sub),
    ground (arith, dated),
    λ e. (λ h. ground (arith, dated, h), λ h. ground (arith, dated, h)),
  )
    where
      below : (s : ℕ) → (some s ≡ none) ⊎ ((t : ℕ) × (some s ≡ some t) × (t < epoch)) → s < epoch
      below s (inl e) = absurd (cc e)
      below s (inr (t, e, lt)) = grind (arith, e)
