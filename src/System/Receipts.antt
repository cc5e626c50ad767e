-- ===== src/System/Receipts.antt =====
-- worker.rs and observe.rs: the worker's turns on the receipts of a log, from the epoch that was
-- published last on.
use potash.Common.{ℕ, zero, suc, ◌^◌, ◌≤◌, ◌<◌, ◌≡◌, Bool, true, some, ◌==◌, if◌then◌else◌}
use potash.Common.Int.{ℤ}
use potash.Common.Early.{Early, go, ◌>>=◌}
use potash.Program.Checkpoint.{Pubkey}
use potash.Client.Schedule.{Schedule}
use potash.Client.Worker.Policy.{WorkerPolicy}
use potash.Client.Worker.Decision.{
  Observed, Step, publish, submit, attach, wait, refuse, day_index, next_step_with_policy,
}
use potash.Client.Fetch.{Framework, RootSource}
use potash.Client.Fetch.Lag.{Lag, sequence_lag}
use potash.Client.Fetch.Observe.{AnchorStatus, dual, ObserveFailed, observe}

-- Which epochs have a receipt here, and what the chain says of each.
pub record Desk : Type 0 where
  pub exists : ℕ → Bool
  pub standing : ℕ → AnchorStatus

-- A submission that succeeds leaves a receipt, and an attachment that succeeds a dual epoch.
abbrev pub done_by : Step → Desk → Desk
done_by (submit epoch) d = record d { exists = λ e. if e == epoch then true else d.exists e }
done_by (attach epoch) d = record d { standing = λ e. if e == epoch then dual else d.standing e }
done_by (publish epoch) d = d
done_by (wait until) d = d
done_by (refuse why) d = d

abbrev pub IsComplete : Desk → ℕ → Type 0
IsComplete d epoch = (d.exists epoch ≡ true) × (d.standing epoch ≡ dual)

module _ (schedule : Schedule) (policy : WorkerPolicy) (f : Framework) (program_id : Pubkey)
    (source : RootSource) (now : ℤ) (day : ℕ) where
  abbrev pub look : Desk → Early ObserveFailed Observed
  look d = observe f program_id source (λ e. go (d.standing e)) d.exists now day

  -- A turn of the worker whose action succeeds.
  abbrev pub one_turn : Desk → Early ObserveFailed Desk
  one_turn d =
      look d >>= λ observed. go (done_by (next_step_with_policy schedule observed policy) d)

  unfoldable pub turns : ℕ → Desk → Early ObserveFailed Desk
  turns zero d = go d
  turns (suc n) d = turns n d >>= one_turn

  module _ (lag : Lag) (read : sequence_lag f program_id source day day ≡ go lag) where
    module _ (begun : 0 < lag.start_epoch) (held : lag.start_epoch ≤ lag.last_published)
        (fits : lag.last_published < 2 ^ 64) (dated : day_index now ≡ some day)
        (ended : lag.last_published < day) where
      -- Every epoch before the last one has its receipt and is dual.
      abbrev pub Earlier : Desk → Type 0
      Earlier d = (e : ℕ) → lag.start_epoch ≤ e → e < lag.last_published → IsComplete d e

      after_submit : Desk → Desk
      after_submit d = done_by (submit lag.last_published) d

      after_both : Desk → Desk
      unfolding after_submit
      after_both d = done_by (attach lag.last_published) (after_submit d)
