-- ===== src/Client/Worker/Publishing.antt =====
-- crates/certimining-client/src/worker.rs: when the worker publishes.
use potash.Common.{
  ℕ, ◌+◌, ◌-◌, ◌/◌, ◌≤◌, ◌<◌, ◌^◌, ◌≡◌, ◌↔◌, refl, sym, ap, ◌∙◌, arith, false, Option, none, some,
  Bool-cases, ◌⊎◌, inl, inr,
}
use potash.Common.Int.{ℤ, pos, negsuc, ltb_ℤ}
use potash.Client.Schedule.{Schedule, publication_time}
use potash.Client.Worker.Policy.{WorkerPolicy, last_publishable_day}
use potash.Client.Worker.Decision.{
  seen, Observed, publish, today, newest_publishable, day_index, check_awaiting, check_submitted,
  submitted_through, when_due, next_step_with_policy, is_none_or_below,
}

-- The state in which an epoch is to be published.
pub record Ready (schedule : Schedule) (policy : WorkerPolicy) (observed : Observed) (epoch : ℕ)
    : Type 0 where
  pub day : ℕ
  pub at : ℤ
  pub dated : day_index observed.now ≡ some day
  pub next : epoch ≡ observed.last_epoch + 1
  pub started : observed.start_epoch ≤ epoch
  pub reached : epoch ≤ day
  pub fits : epoch < 2 ^ 64
  pub in_slip : day ≤ last_publishable_day policy epoch
  pub idle : observed.awaiting_attach ≡ none
  pub submitted :
      (observed.last_submitted ≡ some observed.last_epoch)
      ⊎ ((observed.last_submitted ≡ none) × (observed.last_epoch ≤ observed.start_epoch - 1))
  pub scheduled : publication_time schedule epoch ≡ some at
  pub due : ltb_ℤ observed.now at ≡ false

module _ (schedule : Schedule) (policy : WorkerPolicy) where
  due_step :
      (now : ℤ) (candidate epoch : ℕ) (o : Option ℤ)
      → when_due now candidate o ≡ publish epoch
      → (candidate ≡ epoch) × (at : ℤ) × (o ≡ some at) × (ltb_ℤ now at ≡ false)
  unfolding when_due
  due_step now candidate epoch none h = absurd (cc h)
  due_step now candidate epoch (some at) h = elim (Bool-cases (ltb_ℤ now at)) [
    | inl e ↦ absurd (ground (arith, h, e))
    | inr e ↦ (ground (arith, h, e), at, refl, e)
  ]

  -- What the barriers before the final match leave.
  unfoldable Passed : (day start last through : ℕ) → Type 0
  Passed day start last through =
      (start ≤ last + 1)
      × (last + 1 ≤ day)
      × (last + 1 < 2 ^ 64)
      × (day ≤ last_publishable_day policy (last + 1))
      × (last ≤ through)

  Passed-none :
      (now start last : ℕ) (oldest : Option ℕ) (epoch : ℕ)
      → next_step_with_policy schedule (seen (pos now) start last none none oldest) policy
        ≡ publish epoch
      → Passed (now / 86400) start last (start - 1)
        × (when_due (pos now) (last + 1) (publication_time schedule (last + 1)) ≡ publish epoch)
  unfolding next_step_with_policy today newest_publishable day_index check_awaiting check_submitted
      submitted_through is_none_or_below Passed
  Passed-none now start last oldest epoch h = ground (arith, h)

  Passed-some :
      (now start last submitted : ℕ) (oldest : Option ℕ) (epoch : ℕ)
      → next_step_with_policy schedule
          (seen (pos now) start last none (some submitted) oldest)
          policy
        ≡ publish epoch
      → Passed (now / 86400) start last submitted
        × (submitted ≤ last)
        × (when_due (pos now) (last + 1) (publication_time schedule (last + 1)) ≡ publish epoch)
  unfolding next_step_with_policy today newest_publishable day_index check_awaiting check_submitted
      submitted_through is_none_or_below Passed
  Passed-some now start last submitted oldest epoch h = ground (arith, h)

  ready_none :
      (now start last : ℕ) (oldest : Option ℕ)
      → Passed (now / 86400) start last (start - 1)
      → next_step_with_policy schedule (seen (pos now) start last none none oldest) policy
        ≡ when_due (pos now) (last + 1) (publication_time schedule (last + 1))
  unfolding next_step_with_policy today newest_publishable day_index check_awaiting check_submitted
      submitted_through is_none_or_below Passed
  ready_none now start last oldest (started, reached, fits, slip, through) = ground arith

  ready_some :
      (now start last : ℕ) (oldest : Option ℕ)
      → Passed (now / 86400) start last last
      → next_step_with_policy schedule (seen (pos now) start last none (some last) oldest) policy
        ≡ when_due (pos now) (last + 1) (publication_time schedule (last + 1))
  unfolding next_step_with_policy today newest_publishable day_index check_awaiting check_submitted
      submitted_through is_none_or_below Passed
  ready_some now start last oldest (started, reached, fits, slip, through) = ground arith

  to_Ready :
      (now start last epoch through : ℕ) (b oldest : Option ℕ)
      → (b ≡ some last) ⊎ ((b ≡ none) × (last ≤ start - 1))
      → Passed (now / 86400) start last through
      → when_due (pos now) (last + 1) (publication_time schedule (last + 1)) ≡ publish epoch
      → Ready schedule policy (seen (pos now) start last none b oldest) epoch
  unfolding day_index Passed last_publishable_day
  to_Ready now start last epoch through b oldest sub (started, reached, fits, slip, le) h =
      let (e, at, scheduled, due) =
        due_step (pos now) (last + 1) epoch (publication_time schedule (last + 1)) h in
      record {
        day = now / 86400;
        at = at;
        dated = refl;
        next = sym e;
        started = omega arith;
        reached = omega arith;
        fits = omega arith;
        in_slip = omega arith;
        idle = refl;
        submitted = sub;
        scheduled = sym (ap (publication_time schedule) e) ∙ scheduled;
        due = due;
      }

  publish→Ready :
      (now : ℤ) (start last : ℕ) (a b oldest : Option ℕ) (epoch : ℕ)
      → next_step_with_policy schedule (seen now start last a b oldest) policy ≡ publish epoch
      → Ready schedule policy (seen now start last a b oldest) epoch
  unfolding next_step_with_policy today newest_publishable day_index check_awaiting check_submitted
      submitted_through is_none_or_below Passed
  publish→Ready (pos now) start last none none oldest epoch h =
      let (passed, due) = Passed-none now start last oldest epoch h in
      let (_, _, _, _, le) = passed in
      to_Ready now start last epoch (start - 1) none oldest (inr (refl, le)) passed due
  publish→Ready (pos now) start last none (some submitted) oldest epoch h =
      let (passed, below, due) = Passed-some now start last submitted oldest epoch h in
      let (_, _, _, _, le) = passed in
      to_Ready now start last epoch submitted (some submitted) oldest
        (inl (ap some {y = last} (omega (arith, le, below)))) passed due
  publish→Ready (pos now) start last (some awaiting) submitted oldest epoch h =
      absurd (ground (arith, h))
  publish→Ready (negsuc now) start last awaiting submitted oldest epoch h = absurd (cc h)

  when_due-publish :
      (now at : ℤ) (epoch : ℕ) → ltb_ℤ now at ≡ false → when_due now epoch (some at) ≡ publish epoch
  unfolding when_due
  when_due-publish now at epoch h = ground (arith, h)

  Ready→publish :
      (now : ℤ) (start last : ℕ) (b oldest : Option ℕ)
      → (day : ℕ) → day_index now ≡ some day
      → (b ≡ some last) ⊎ ((b ≡ none) × (last ≤ start - 1))
      → start ≤ last + 1
      → last + 1 ≤ day
      → last + 1 < 2 ^ 64
      → day ≤ last_publishable_day policy (last + 1)
      → next_step_with_policy schedule (seen now start last none b oldest) policy
        ≡ when_due now (last + 1) (publication_time schedule (last + 1))
  unfolding day_index Passed
  Ready→publish (negsuc now) start last b oldest day dated sub started reached fits slip =
      absurd (cc dated)
  Ready→publish (pos now) start last b oldest day dated sub started reached fits slip = elim sub [
    | inl e ↦ rw e (ready_some now start last oldest (ground (arith, dated)))
    | inr (e, le) ↦ rw e (ready_none now start last oldest (ground (arith, dated)))
  ]

  nothing_awaits :
      (o : Observed) (a : Option ℕ)
      → a ≡ none
      → next_step_with_policy schedule
          (seen o.now o.start_epoch o.last_epoch a o.last_submitted o.oldest_single)
          policy
        ≡ next_step_with_policy schedule
            (seen o.now o.start_epoch o.last_epoch none o.last_submitted o.oldest_single)
            policy
  nothing_awaits o a e =
      ap
        (λ (t : Option ℕ).
          next_step_with_policy schedule
            (seen o.now o.start_epoch o.last_epoch t o.last_submitted o.oldest_single) policy)
        e

  published :
      (o : Observed) (epoch : ℕ)
      → Ready schedule policy o epoch
      → next_step_with_policy schedule o policy ≡ publish epoch
  unfolding last_publishable_day
  published o epoch r =
      nothing_awaits o o.awaiting_attach r.idle
      ∙ Ready→publish o.now o.start_epoch o.last_epoch o.last_submitted o.oldest_single r.day
          r.dated r.submitted (omega (arith, r.started, r.next)) (omega (arith, r.reached, r.next))
          (omega (arith, r.fits, r.next)) (omega (arith, r.in_slip, r.next))
      ∙ ap (λ (e : ℕ). when_due o.now e (publication_time schedule e)) (sym r.next)
      ∙ ap (when_due o.now epoch) r.scheduled
      ∙ when_due-publish o.now r.at epoch r.due

-- The worker publishes an epoch exactly when it is the one after the log's last, nothing awaits
-- attachment, the last epoch has been submitted, its day is dated and within the slip allowance, and
-- its publication time has come.
pub publish_iff :
    (schedule : Schedule) (policy : WorkerPolicy) (observed : Observed) (epoch : ℕ)
    → (next_step_with_policy schedule observed policy ≡ publish epoch)
      ↔ Ready schedule policy observed epoch
publish_iff schedule policy o epoch = (
  λ h.
      publish→Ready schedule policy o.now o.start_epoch o.last_epoch o.awaiting_attach
        o.last_submitted o.oldest_single epoch h,
  published schedule policy o epoch,
)
