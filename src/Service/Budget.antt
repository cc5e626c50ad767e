-- ===== src/Service/Budget.antt =====
-- bin/anchor-b-worker.rs: what the budget of retries is spent on.
use potash.Common.{
  ℕ, ◌+◌, ◌-◌, ◌^◌, ◌≡◌, ◌≢◌, ◌≤◌, ◌<◌, refl, Bool, true, false, Option, none, some, Bytes, arith,
  ltb, if◌then◌else◌, Bool-cases, inl, inr,
}
use potash.Common.Int.{ℤ, pos, to_i64}
use potash.Common.Early.{Early, stop, go}
use potash.Core.Hash.{Digest}
use potash.Client.Worker.Policy.{WorkerPolicy, partition_retry_delay, doubled}
use potash.Client.Worker.Decision.{Observed, Step, publish, submit, attach, wait, refuse, day_index}
use potash.Client.Bitcoin.Header.{saturating_add_32}
use potash.Client.Bitcoin.Confirm.{BitcoinClaim}
use potash.Client.Fetch.Observe.{ObserveFailed}
use potash.Client.Cluster.{
  AnchorRef, PublishFailed, out_of_attempts, unreachable, not_published, signing_failed,
}
use potash.Client.Cluster.Attach
use potash.Client.Cluster.Attach.{AttachRefused}
use potash.Service.Producer.{RootRefused}
use potash.Service.Worker.{
  Surroundings, retried, Turn, went, stopped, exhausted, retry_partition, after_publish, do_publish,
  after_submit, do_submit, after_attach, attach_read, after_upgrade, with_receipt, do_attach,
  then_root, act, observed_at, after_observe, turn,
}

-- The failures that a turn leaves counted.
abbrev pub counted : Turn → ℕ
counted (went e n) = n
counted (stopped why) = 0

-- A turn with an observation never spends the budget, and one without spends one of it.
abbrev pub Spends : WorkerPolicy → ℕ → Early ObserveFailed Observed → Turn → Type 0
Spends policy failures (go observed) t = (t ≢ stopped exhausted) × (counted t ≤ 1)
Spends policy failures (stop cause) t = t ≡ (
    if ltb failures policy.partition_retry_limit
    then went retried (failures + 1)
    else stopped exhausted)

module _ {W : Type 0} (s : Surroundings W) (policy : WorkerPolicy)
    (some_retry : 1 ≤ policy.partition_retry_limit) where
  abbrev Light : Turn × W → Type 0
  Light t = (t.0 ≢ stopped exhausted) × (counted t.0 ≤ 1)

  first_delay : (d : ℕ) × (partition_retry_delay policy 1 ≡ some d)
  unfolding partition_retry_delay
  first_delay = (doubled policy.retry_max 0 policy.retry_initial, ground arith)

  first-Light : (w : W) → Light (retry_partition s policy 0 w)
  unfolding retry_partition
  first-Light w = rw first_delay.1 ((λ h. cc h, omega arith))

  after_publish-Light :
      (e : ℕ) (r : Digest) (answer : Early PublishFailed AnchorRef × W)
      → Light (after_publish s policy 0 e r answer)
  after_publish-Light e r (go ref, w) = (λ h. cc h, omega arith)
  after_publish-Light e r (stop out_of_attempts, w) = first-Light w
  after_publish-Light e r (stop (unreachable cause), w) = first-Light w
  after_publish-Light e r (stop signing_failed, w) = (λ h. cc h, omega arith)
  after_publish-Light e r (stop (not_published settlement), w) = (λ h. cc h, omega arith)
  after_publish-Light e r (stop (PublishFailed.refused code), w) = (λ h. cc h, omega arith)

  after_submit-Light :
      (e : ℕ) (r : Digest) (answer : Bool × W) → Light (after_submit s policy 0 e r answer)
  after_submit-Light e r (true, w) = (λ h. cc h, omega arith)
  after_submit-Light e r (false, w) = first-Light w

  after_attach-Light :
      (e : ℕ) (answer : Early AttachRefused (Digest × BitcoinClaim) × W)
      → Light (after_attach s policy 0 e answer)
  after_attach-Light e (go (digest, claim), w) = (λ h. cc h, omega arith)
  after_attach-Light e (stop Attach.cluster, w) = first-Light w
  after_attach-Light e (stop (Attach.receipt why), w) = (λ h. cc h, omega arith)
  after_attach-Light e (stop Attach.too_long, w) = (λ h. cc h, omega arith)
  after_attach-Light e (stop Attach.not_published, w) = (λ h. cc h, omega arith)
  after_attach-Light e (stop Attach.signing_failed, w) = (λ h. cc h, omega arith)

  attach_read-Light : (e : ℕ) (answer : Option Bytes × W) → Light (attach_read s policy 0 e answer)
  attach_read-Light e (none, w) = (λ h. cc h, omega arith)
  attach_read-Light e (some bytes, w) = after_attach-Light e _

  after_upgrade-Light :
      (e : ℕ) (answer : Option Bool × W) → Light (after_upgrade s policy 0 e answer)
  after_upgrade-Light e (none, w) = first-Light w
  after_upgrade-Light e (some false, w) = (λ h. cc h, omega arith)
  after_upgrade-Light e (some true, w) = attach_read-Light e _

  with_receipt-Light :
      (e : ℕ) (r : Digest) (answer : Bool × W) → Light (with_receipt s policy 0 e r answer)
  with_receipt-Light e r (false, w) = (λ h. cc h, omega arith)
  with_receipt-Light e r (true, w) = after_upgrade-Light e _

  then_root-Light :
      (do_it : Digest → W → Turn × W) (answer : Early RootRefused Digest) (w : W)
      → ((r : Digest) → Light (do_it r w))
      → Light (then_root s policy do_it answer w)
  then_root-Light do_it (stop why) w light = (λ h. cc h, omega arith)
  then_root-Light do_it (go r) w light = light r

  act-Light : (now : ℤ) (step : Step) (w : W) → Light (act s policy 0 now step w)
  unfolding act
  act-Light now (refuse why) w = (λ h. cc h, omega arith)
  act-Light now (wait until) w = (λ h. cc h, omega arith)
  act-Light now (publish e) w =
      then_root-Light (do_publish s policy 0 e) _ _ (λ r. after_publish-Light e r _)
  act-Light now (submit e) w =
      then_root-Light (do_submit s policy 0 e) _ _ (λ r. after_submit-Light e r _)
  act-Light now (attach e) w =
      then_root-Light (do_attach s policy 0 e) _ _ (λ r. with_receipt-Light e r _)

  within_limit :
      (failures : ℕ)
      → ltb failures policy.partition_retry_limit ≡ true
      → partition_retry_delay policy (failures + 1)
        ≡ some (doubled policy.retry_max failures policy.retry_initial)
  unfolding partition_retry_delay
  within_limit failures below = ground arith

  beyond_limit :
      (failures : ℕ)
      → ltb failures policy.partition_retry_limit ≡ false
      → partition_retry_delay policy (failures + 1) ≡ none
  unfolding partition_retry_delay
  beyond_limit failures above = ground arith

  spent :
      (failures : ℕ) (w : W)
      → policy.partition_retry_limit < 2 ^ 32 - 1
      → failures ≤ policy.partition_retry_limit
      → (retry_partition s policy failures w).0 ≡ (
          if ltb failures policy.partition_retry_limit
          then went retried (failures + 1)
          else stopped exhausted)
  unfolding retry_partition
  spent failures w limit within =
      let counted_up : saturating_add_32 failures 1 ≡ failures + 1 = omega arith in
      elim (Bool-cases (ltb failures policy.partition_retry_limit)) [
        | inl below ↦ rw (counted_up, below, within_limit failures below) refl
        | inr above ↦ rw (counted_up, above, beyond_limit failures above) refl
      ]

  observed-Spends :
      (failures : ℕ) (now : ℤ) (answer : Early ObserveFailed Observed) (w : W)
      → policy.partition_retry_limit < 2 ^ 32 - 1
      → failures ≤ policy.partition_retry_limit
      → Spends policy failures answer (after_observe s policy failures now answer w).0
  observed-Spends failures now (stop cause) w limit within = spent failures w limit within
  observed-Spends failures now (go observed) w limit within = act-Light now _ w

  -- While some retry is allowed and the count is within the limit, a turn whose clock gives a day
  -- counts one more failure, or stops at the limit, when its observation fails. When the observation
  -- succeeds it does not stop for the budget, and leaves at most one failure counted, whatever then
  -- fails in it.
  pub turn-Spends :
      (failures seconds : ℕ) (now : ℤ) (today : ℕ) (w : W)
      → policy.partition_retry_limit < 2 ^ 32 - 1
      → failures ≤ policy.partition_retry_limit
      → (s.seconds w).0 ≡ some seconds
      → to_i64 (pos seconds) ≡ some now
      → day_index now ≡ some today
      → Spends policy failures
          (observed_at s policy now today (s.observing (s.seconds w).1).0)
          (turn s policy failures w).0
  unfolding turn
  turn-Spends failures seconds now today w limit within clock dated day =
      rw (clock, dated, day)
        (observed-Spends failures now
          (observed_at s policy now today (s.observing (s.seconds w).1).0)
          (s.observing (s.seconds w).1).1 limit within)
