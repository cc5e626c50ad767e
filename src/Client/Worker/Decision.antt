-- ===== src/Client/Worker/Decision.antt =====
-- crates/certimining-client/src/worker.rs: what is observed, the next step, and why it is refused.
use potash.Common.{
  ℕ, ◌-◌, ◌/◌, Bool, true, Option, none, some, ltb, ◌||◌, checked_add, checked_sub, saturating_add,
  if◌then◌else◌,
}
use potash.Common.Int.{ℤ, pos, negsuc, ltb_ℤ}
use potash.Common.Early.{Early, stop, go, ◌>>=◌, ◌>>◌, stop_if, or_stop, finish}
use potash.Client.Schedule.{Schedule, epoch_seconds, publication_time}
use potash.Client.Worker.Policy.{WorkerPolicy, production, last_publishable_day}

-- A negative Euclidean quotient is not a `u64`.
unfoldable pub day_index : ℤ → Option ℕ
day_index (pos n) = some (n / epoch_seconds)
day_index (negsuc n) = none

pub record Observed : Type 0 where
  pub now : ℤ
  pub start_epoch : ℕ
  pub last_epoch : ℕ
  pub awaiting_attach : Option ℕ
  pub last_submitted : Option ℕ
  pub oldest_single : Option ℕ

abbrev pub seen : ℤ → ℕ → ℕ → Option ℕ → Option ℕ → Option ℕ → Observed
seen n s l a b o = record {
  now = n;
  start_epoch = s;
  last_epoch = l;
  awaiting_attach = a;
  last_submitted = b;
  oldest_single = o;
}

unfoldable pub today : Observed → Option ℕ
today observed = day_index observed.now

abbrev before : Option ℕ → Option ℕ
before none = none
before (some day) = checked_sub day 1

unfoldable pub newest_publishable : Observed → Option ℕ
newest_publishable observed = before (today observed)

pub data Refusal : Type 0 where
  log_ahead_of_calendar : (last newest : ℕ) → Refusal
  undatable_clock : ℤ → Refusal
  last_before_start : (last start : ℕ) → Refusal
  epoch_slip_exceeded : (last newest slip : ℕ) → Refusal
  awaiting_attach_outside_log : (epoch start last : ℕ) → Refusal
  submission_ahead_of_log : (submitted last : ℕ) → Refusal
  attachment_ahead_of_submission : (epoch : ℕ) (submitted : Option ℕ) → Refusal
  unschedulable : ℕ → Refusal

pub data Step : Type 0 where
  publish submit attach : ℕ → Step
  wait : ℤ → Step
  refuse : Refusal → Step

unfoldable pub is_none_or_below : Option ℕ → ℕ → Bool
is_none_or_below none epoch = true
is_none_or_below (some submitted) epoch = ltb submitted epoch

-- What is awaiting attachment lies in the log and has been submitted.
unfoldable pub check_awaiting : Observed → Option ℕ → Early Step (Unit {0})
check_awaiting observed none = go tt
check_awaiting observed (some epoch) = do
  stop_if (ltb epoch observed.start_epoch || ltb observed.last_epoch epoch)
      (refuse (awaiting_attach_outside_log epoch observed.start_epoch observed.last_epoch))
  stop_if (is_none_or_below observed.last_submitted epoch)
      (refuse (attachment_ahead_of_submission epoch observed.last_submitted))

unfoldable pub check_submitted : Observed → Option ℕ → Early Step (Unit {0})
check_submitted observed none = go tt
check_submitted observed (some submitted) =
    stop_if (ltb observed.last_epoch submitted)
      (refuse (submission_ahead_of_log submitted observed.last_epoch))

abbrev attach_first : Option ℕ → Early Step (Unit {0})
attach_first none = go tt
attach_first (some epoch) = stop (attach epoch)

unfoldable pub submitted_through : Observed → Option ℕ → ℕ
submitted_through observed none = observed.start_epoch - 1
submitted_through observed (some submitted) = submitted

-- The final match: `candidate` is published once its time has come.
unfoldable pub when_due : ℤ → ℕ → Option ℤ → Step
when_due now candidate none = refuse (unschedulable candidate)
when_due now candidate (some at) = if ltb_ℤ now at then wait at else publish candidate

unfoldable pub next_step_with_policy : Schedule → Observed → WorkerPolicy → Step
next_step_with_policy schedule observed policy =
    let last = observed.last_epoch in
    let start = observed.start_epoch in
    finish do
      day ← or_stop (today observed) (refuse (undatable_clock observed.now))
      newest ← or_stop (newest_publishable observed) (refuse (undatable_clock observed.now))
      stop_if (ltb (saturating_add last 1) start) (refuse (last_before_start last start))
      stop_if (ltb newest last) (refuse (log_ahead_of_calendar last newest))
      check_awaiting observed observed.awaiting_attach
      check_submitted observed observed.last_submitted
      attach_first observed.awaiting_attach
      stop_if (ltb (submitted_through observed observed.last_submitted) last) (submit last)
      candidate ← or_stop (checked_add last 1) (refuse (log_ahead_of_calendar last newest))
      stop_if (ltb (last_publishable_day policy candidate) day)
          (refuse (epoch_slip_exceeded last newest policy.max_epoch_slip))
      go (when_due observed.now candidate (publication_time schedule candidate))

unfoldable pub next_step : Schedule → Observed → Step
next_step schedule observed = next_step_with_policy schedule observed production
