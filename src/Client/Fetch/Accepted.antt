-- ===== src/Client/Fetch/Accepted.antt =====
-- crates/certimining-client/src/observe.rs and worker.rs: the worker's barriers against receipts that
-- do not fit the log never stop it on what it observes.
use potash.Common.{ℕ, ◌+◌, ◌≡◌, ◌≢◌, inl, inr, refl, arith, Bool, Option, none, some}
use potash.Common.Int.{ℤ}
use potash.Common.Early.{Early, go}
use potash.Program.Checkpoint.{Pubkey}
use potash.Client.Schedule.{Schedule, publication_time}
use potash.Client.Worker.Policy.{WorkerPolicy}
use potash.Client.Worker.Decision.{
  Observed, Step, refuse, awaiting_attach_outside_log, attachment_ahead_of_submission,
  submission_ahead_of_log, check_awaiting, check_submitted, is_none_or_below, next_step_with_policy,
  when_due,
}
use potash.Client.Fetch.{Framework, RootSource, Unreachable}
use potash.Client.Fetch.Lag.{Lag}
use potash.Client.Fetch.Observe.{AnchorStatus, observe}
use potash.Client.Fetch.Observed.{IsFirst, IsLast, waits_at, Reads, observe-Reads}

-- Not a refusal of receipts that do not fit the log.
unfoldable pub FitsTheLog : Step → Type 0
FitsTheLog s =
    ((e start last : ℕ) → s ≢ refuse (awaiting_attach_outside_log e start last))
    × ((e : ℕ) (submitted : Option ℕ) → s ≢ refuse (attachment_ahead_of_submission e submitted))
    × ((submitted last : ℕ) → s ≢ refuse (submission_ahead_of_log submitted last))

module _ (status_at : ℕ → Early Unreachable AnchorStatus) (receipt_exists : ℕ → Bool) (now : ℤ)
    (lag : Lag) (o : Observed) (r : Reads status_at receipt_exists now lag o) where
  submitted-ok : check_submitted o o.last_submitted ≡ go tt
  unfolding check_submitted IsLast
  submitted-ok = elim r.submitted [
    | inl (e, h) ↦ rw e refl
    | inr (a, e, ge, lt, t, h) ↦ rw e (ground arith)
  ]

  awaiting-ok : check_awaiting o o.awaiting_attach ≡ go tt
  unfolding check_awaiting is_none_or_below IsLast IsFirst waits_at
  awaiting-ok = elim r.awaiting [
    | inl (e, h) ↦ rw e refl
    | inr (a, e, ge, lt, t, h) ↦ elim r.submitted [
      | inl (e', none_there) ↦ absurd (ground (arith, t, none_there a ge lt))
      | inr (b, e', ge', lt', t', after) ↦ rw (e, e') (ground (arith, t, after a))
    ]
  ]

when_due-other : (now : ℤ) (candidate : ℕ) (o : Option ℤ) → FitsTheLog (when_due now candidate o)
unfolding when_due FitsTheLog
when_due-other now candidate none = (λ e s l h. cc h, λ e s h. cc h, λ s l h. cc h)
when_due-other now candidate (some at) =
    (λ e s l h. ground (arith, h), λ e s h. ground (arith, h), λ s l h. ground (arith, h))

-- On an observation the worker never refuses for an attachment outside the log or ahead of its
-- submission, nor for a submission ahead of the log.
pub observe-FitsTheLog :
    (f : Framework) (program_id : Pubkey) (source : RootSource)
    (status_at : ℕ → Early Unreachable AnchorStatus) (receipt_exists : ℕ → Bool) (now : ℤ)
    (today : ℕ) (o : Observed) (schedule : Schedule) (policy : WorkerPolicy)
    → observe f program_id source status_at receipt_exists now today ≡ go o
    → FitsTheLog (next_step_with_policy schedule o policy)
unfolding FitsTheLog next_step_with_policy
observe-FitsTheLog f program_id source status_at receipt_exists now today o schedule policy h =
    let (lag, e, r) = observe-Reads f program_id source status_at receipt_exists now today o h in
    let a = awaiting-ok status_at receipt_exists now lag o r in
    let s = submitted-ok status_at receipt_exists now lag o r in
    let IsLast-step =
      when_due-other o.now (o.last_epoch + 1) (publication_time schedule (o.last_epoch + 1)) in
    (
      λ e start last n. ground (arith, a, s, n, IsLast-step.0 e start last),
      λ e submitted n. ground (arith, a, s, n, IsLast-step.1 e submitted),
      λ submitted last n. ground (arith, a, s, n, IsLast-step.2 submitted last),
    )
