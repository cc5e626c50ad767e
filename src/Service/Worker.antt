-- ===== src/Service/Worker.antt =====
-- crates/certimining-client/src/bin/anchor-b-worker.rs: one turn of the worker's loop, and the budget
-- of its retries. What is only printed or sent to the service manager is left out.
use potash.Common.{ℕ, ◌-◌, min, Bool, true, false, Option, none, some, Bytes}
use potash.Common.Int.{ℤ, pos, pos_part, ◌-ℤ◌, saturate_i64, to_i64}
use potash.Common.Early.{Early, stop, go}
use potash.Core.Hash.{Hasher, Verifier, Digest}
use potash.Program.Checkpoint.{Pubkey}
use potash.Client.Schedule.{deployed}
use potash.Client.Worker.Policy.{WorkerPolicy, partition_retry_delay, from_secs}
use potash.Client.Worker.Decision.{
  Observed, Refusal, Step, publish, submit, attach, wait, refuse, day_index, next_step_with_policy,
}
use potash.Client.Bitcoin.Header.{saturating_add_32}
use potash.Client.Bitcoin.Confirm.{BitcoinClaim}
use potash.Client.Receipt.{Timestamp}
use potash.Client.Fetch.{Framework, RootSource, Unreachable}
use potash.Client.Fetch.Observe.{AnchorStatus, ObserveFailed, observe}
use potash.Client.Cluster
use potash.Client.Cluster.{
  Endpoint, AnchorRef, PublishFailed, out_of_attempts, unreachable, not_published, signing_failed,
}
use potash.Client.Cluster.Attach
use potash.Client.Cluster.Attach.{AttachRefused}
use potash.Service.Producer.{RootRefused, root_for}

-- What the chain and the receipts' folder answer to one observation.
pub record Sight : Type 0 where
  pub source : RootSource
  pub status_at : ℕ → Early Unreachable AnchorStatus
  pub receipt_exists : ℕ → Bool

-- The configuration, and the world outside: the clock in seconds since 1970, the endpoint, the files
-- of handoffs and receipts, and the calls of the timestamp client. An upgrade fails, finds no
-- attestation yet, or completes the receipt.
pub record Surroundings (W : Type 0) : Type 0 where
  pub framework : Framework
  pub program_id : Pubkey
  pub hasher : Hasher
  pub verifier : Verifier
  pub parse : Bytes → Option Timestamp
  pub sha256 : Bytes → Digest
  pub batcher_key : Bytes
  pub seconds : W → Option ℕ × W
  pub observing : W → Sight × W
  pub endpoint : Endpoint W
  pub handoff : ℕ → W → Option Bytes × W
  pub submit_receipt : ℕ → Digest → W → Bool × W
  pub has_receipt : ℕ → W → Bool × W
  pub upgrade : ℕ → Digest → W → Option Bool × W
  pub receipt : ℕ → W → Option Bytes × W
  pub sleep : ℕ → W → W

-- What a turn that goes on has done, and why the process stops.
pub data Event : Type 0 where
  retried waited : Event
  published : (epoch : ℕ) (root : Digest) (ref : AnchorRef) → Event
  stamped : (epoch : ℕ) (root : Digest) → Event
  unconfirmed : (epoch : ℕ) → Event
  attached : (epoch : ℕ) (digest : Digest) (claim : BitcoinClaim) → Event

pub data Stop : Type 0 where
  bad_clock exhausted : Stop
  refused : Refusal → Stop
  no_root : RootRefused → Stop
  publication : PublishFailed → Stop
  no_receipt : (epoch : ℕ) → Stop
  attachment : AttachRefused → Stop

-- The second part of `went` is the count of consecutive failures.
pub data Turn : Type 0 where
  went : Event → ℕ → Turn
  stopped : Stop → Turn

module _ {W : Type 0} (s : Surroundings W) (policy : WorkerPolicy) where
  abbrev pub slept : ℕ → Option ℕ → W → Turn × W
  slept failures none w = (stopped exhausted, w)
  slept failures (some delay) w = (went retried failures, s.sleep delay w)

  unfoldable pub retry_partition : ℕ → W → Turn × W
  retry_partition failures w =
      let failures' = saturating_add_32 failures 1 in
      slept failures' (partition_retry_delay policy failures') w

  abbrev pub after_publish : ℕ → ℕ → Digest → Early PublishFailed AnchorRef × W → Turn × W
  after_publish failures epoch root (go ref, w) = (went (published epoch root ref) 0, w)
  after_publish failures epoch root (stop out_of_attempts, w) = retry_partition failures w
  after_publish failures epoch root (stop (unreachable cause), w) = retry_partition failures w
  after_publish failures epoch root (stop signing_failed, w) =
      (stopped (publication signing_failed), w)
  after_publish failures epoch root (stop (not_published settlement), w) =
      (stopped (publication (not_published settlement)), w)
  after_publish failures epoch root (stop (PublishFailed.refused code), w) =
      (stopped (publication (PublishFailed.refused code)), w)

  abbrev pub do_publish : ℕ → ℕ → Digest → W → Turn × W
  do_publish failures epoch root w = after_publish failures epoch root (
      Cluster.publish s.endpoint s.framework s.program_id epoch root (policy.publish_attempts - 1)
        w)

  abbrev pub after_submit : ℕ → ℕ → Digest → Bool × W → Turn × W
  after_submit failures epoch root (true, w) = (went (stamped epoch root) 0, w)
  after_submit failures epoch root (false, w) = retry_partition failures w

  abbrev pub do_submit : ℕ → ℕ → Digest → W → Turn × W
  do_submit failures epoch root w = after_submit failures epoch root (s.submit_receipt epoch root w)

  abbrev pub after_attach : ℕ → ℕ → Early AttachRefused (Digest × BitcoinClaim) × W → Turn × W
  after_attach failures epoch (go (digest, claim), w) = (went (attached epoch digest claim) 0, w)
  after_attach failures epoch (stop Attach.cluster, w) = retry_partition failures w
  after_attach failures epoch (stop (Attach.receipt why), w) =
      (stopped (attachment (Attach.receipt why)), w)
  after_attach failures epoch (stop Attach.too_long, w) = (stopped (attachment Attach.too_long), w)
  after_attach failures epoch (stop Attach.not_published, w) =
      (stopped (attachment Attach.not_published), w)
  after_attach failures epoch (stop Attach.signing_failed, w) =
      (stopped (attachment Attach.signing_failed), w)

  abbrev pub attach_read : ℕ → ℕ → Option Bytes × W → Turn × W
  attach_read failures epoch (none, w) = (stopped (no_receipt epoch), w)
  attach_read failures epoch (some bytes, w) =
      after_attach failures epoch
        (Attach.attach s.endpoint s.framework s.program_id s.hasher s.parse s.sha256 epoch bytes w)

  abbrev pub after_upgrade : ℕ → ℕ → Option Bool × W → Turn × W
  after_upgrade failures epoch (none, w) = retry_partition failures w
  after_upgrade failures epoch (some false, w) =
      (went (unconfirmed epoch) 0, s.sleep policy.poll_interval w)
  after_upgrade failures epoch (some true, w) = attach_read failures epoch (s.receipt epoch w)

  abbrev pub with_receipt : ℕ → ℕ → Digest → Bool × W → Turn × W
  with_receipt failures epoch root (false, w) = (stopped (no_receipt epoch), w)
  with_receipt failures epoch root (true, w) = after_upgrade failures epoch (s.upgrade epoch root w)

  abbrev pub do_attach : ℕ → ℕ → Digest → W → Turn × W
  do_attach failures epoch root w = with_receipt failures epoch root (s.has_receipt epoch w)

  -- `root_for(..)?`, then what is done with the root.
  abbrev pub then_root : (Digest → W → Turn × W) → Early RootRefused Digest → W → Turn × W
  then_root act (stop why) w = (stopped (no_root why), w)
  then_root act (go root) w = act root w

  abbrev pub with_root : ℕ → (Digest → W → Turn × W) → W → Turn × W
  with_root epoch act w =
      then_root act (root_for s.verifier s.batcher_key epoch (s.handoff epoch w).0)
        (s.handoff epoch w).1

  -- `until.saturating_sub(now).max(0)`
  abbrev pub ahead : ℤ → ℤ → ℕ
  ahead until now = pos_part (saturate_i64 (until -ℤ now))

  unfoldable pub act : ℕ → ℤ → Step → W → Turn × W
  act failures now (refuse why) w = (stopped (refused why), w)
  act failures now (wait until) w =
      (went waited 0, s.sleep (min (from_secs (ahead until now)) policy.poll_interval) w)
  act failures now (publish epoch) w = with_root epoch (do_publish failures epoch) w
  act failures now (submit epoch) w = with_root epoch (do_submit failures epoch) w
  act failures now (attach epoch) w = with_root epoch (do_attach failures epoch) w

  unfoldable pub observed_at : ℤ → ℕ → Sight → Early ObserveFailed Observed
  observed_at now today sight =
      observe s.framework s.program_id sight.source sight.status_at sight.receipt_exists now today

  -- An observation that succeeds sets the count back.
  abbrev pub after_observe : ℕ → ℤ → Early ObserveFailed Observed → W → Turn × W
  after_observe failures now (stop cause) w = retry_partition failures w
  after_observe failures now (go observed) w =
      act 0 now (next_step_with_policy deployed observed policy) w

  abbrev pub on_day : ℕ → ℤ → Option ℕ → W → Turn × W
  on_day failures now none w = (stopped bad_clock, w)
  on_day failures now (some today) w =
      after_observe failures now (observed_at now today (s.observing w).0) (s.observing w).1

  abbrev pub at_time : ℕ → Option ℤ → W → Turn × W
  at_time failures none w = (stopped bad_clock, w)
  at_time failures (some now) w = on_day failures now (day_index now) w

  abbrev pub from_clock : ℕ → Option ℕ → W → Turn × W
  from_clock failures none w = (stopped bad_clock, w)
  from_clock failures (some seconds) w = at_time failures (to_i64 (pos seconds)) w

  unfoldable pub turn : ℕ → W → Turn × W
  turn failures w = from_clock failures (s.seconds w).0 (s.seconds w).1
