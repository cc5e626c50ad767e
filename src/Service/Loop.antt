-- ===== src/Service/Loop.antt =====
-- bin/anchor-b-worker.rs: the worker's loop, and when the budget of its retries ends it.
use mathlib.Core.Path.{subst}
use potash.Common.{
  ℕ, zero, suc, ◌+◌, ◌-◌, ◌^◌, ◌≡◌, ◌≢◌, ◌≤◌, ◌<◌, refl, Option, none, some, ap, ◌∙◌, true, false,
  arith, ltb, if◌then◌else◌,
}
use potash.Common.Int.{ℤ, pos, to_i64}
use potash.Common.Early.{Early, stop, go}
use potash.Client.Worker.Policy.{WorkerPolicy}
use potash.Client.Worker.Decision.{Observed, day_index}
use potash.Client.Fetch.Observe.{ObserveFailed}
use potash.Service.Worker.{
  Surroundings, Stop, Event, retried, Turn, went, stopped, exhausted, observed_at, turn,
}
use potash.Service.Budget.{counted, Spends, turn-Spends}

module _ {W : Type 0} (s : Surroundings W) (policy : WorkerPolicy) where
  abbrev after_turn : Turn × W → (ℕ → W → Option Stop) → Option Stop
  after_turn (went e failures, w) rest = rest failures w
  after_turn (stopped why, w) rest = some why

  -- Why the process stops within `n` turns.
  unfoldable pub loop : ℕ → ℕ → W → Option Stop
  loop zero failures w = none
  loop (suc n) failures w = after_turn (turn s policy failures w) (loop n)

  after_turn-stopped :
      (t : Turn × W) (rest : ℕ → W → Option Stop) (why : Stop)
      → t.0 ≡ stopped why
      → after_turn t rest ≡ some why
  after_turn-stopped (went e failures, w) rest why h = absurd (cc h)
  after_turn-stopped (stopped why', w) rest why h = cc h

  after_turn-went :
      (t : Turn × W) (rest : ℕ → W → Option Stop) (e : Event) (failures : ℕ)
      → t.0 ≡ went e failures
      → after_turn t rest ≡ rest failures t.1
  after_turn-went (went e' failures', w) rest e failures h = ap (λ n. rest n w) (cc h)
  after_turn-went (stopped why, w) rest e failures h = absurd (cc h)

  after_turn-light :
      (t : Turn × W) (rest : ℕ → W → Option Stop)
      → t.0 ≢ stopped exhausted
      → counted t.0 ≤ 1
      → ((failures : ℕ) (w : W) → failures ≤ 1 → rest failures w ≢ some exhausted)
      → after_turn t rest ≢ some exhausted
  after_turn-light (went e failures, w) rest goes few never = never failures w few
  after_turn-light (stopped why, w) rest goes few never = λ h. goes (cc h)

  -- The clock reads `now`, on a day, and this is what there is to observe.
  pub record Clocked (w : W) : Type 0 where
    pub seconds : ℕ
    pub now : ℤ
    pub today : ℕ
    pub clock : (s.seconds w).0 ≡ some seconds
    pub dated : to_i64 (pos seconds) ≡ some now
    pub day : day_index now ≡ some today

  abbrev pub answer : (w : W) → Clocked w → Early ObserveFailed Observed
  answer w c = observed_at s policy c.now c.today (s.observing (s.seconds w).1).0

  module _ (some_retry : 1 ≤ policy.partition_retry_limit)
      (limit : policy.partition_retry_limit < 2 ^ 32 - 1) (clocked : (w : W) → Clocked w) where
    spends :
        (failures : ℕ) (w : W)
        → failures ≤ policy.partition_retry_limit
        → Spends policy failures (answer w (clocked w)) (turn s policy failures w).0
    spends failures w within =
        let c = clocked w in
        turn-Spends s policy some_retry failures c.seconds c.now c.today w limit within c.clock
          c.dated c.day

    unseen :
        (blind : (w : W) → (cause : ObserveFailed) × (answer w (clocked w) ≡ stop cause))
        (failures : ℕ) (w : W)
        → failures ≤ policy.partition_retry_limit
        → (turn s policy failures w).0 ≡ (
            if ltb failures policy.partition_retry_limit
            then went retried (failures + 1)
            else stopped exhausted)
    unseen blind failures w within =
        subst (λ a. Spends policy failures a (turn s policy failures w).0) (blind w).1
          (spends failures w within)

    -- With some retry allowed, less than a u32 of them, and a clock that always gives a day, when no
    -- observation succeeds the process stops for its budget within the turns that the budget leaves:
    -- one for each failure from the count to the limit, and one more.
    pub loop-blind :
        (blind : (w : W) → (cause : ObserveFailed) × (answer w (clocked w) ≡ stop cause))
        (n failures : ℕ) (w : W)
        → failures + n ≡ policy.partition_retry_limit
        → loop (suc n) failures w ≡ some exhausted
    unfolding loop
    loop-blind blind zero failures w left =
        let at_limit : ltb failures policy.partition_retry_limit ≡ false = ground arith in
        after_turn-stopped (turn s policy failures w) (loop 0) exhausted
          (unseen blind failures w (omega arith) ∙ rw (at_limit) refl)
    loop-blind blind (suc n) failures w left =
        let below : ltb failures policy.partition_retry_limit ≡ true = ground arith in
        after_turn-went (turn s policy failures w) (loop (suc n)) retried (failures + 1)
          (unseen blind failures w (omega arith) ∙ rw (below) refl)
        ∙ loop-blind blind n (failures + 1) (turn s policy failures w).1 (omega arith)

    -- With some retry allowed, less than a u32 of them, and a clock that always gives a day, when every
    -- observation succeeds the process never stops for its budget, within however many turns and
    -- whatever fails after the observations.
    pub loop-seeing :
        (seeing : (w : W) → (observed : Observed) × (answer w (clocked w) ≡ go observed))
        (n failures : ℕ) (w : W)
        → failures ≤ policy.partition_retry_limit
        → loop n failures w ≢ some exhausted
    unfolding loop
    loop-seeing seeing zero failures w within = λ h. cc h
    loop-seeing seeing (suc n) failures w within =
        let (goes, few) =
          subst (λ a. Spends policy failures a (turn s policy failures w).0) (seeing w).1
            (spends failures w within) in
        after_turn-light (turn s policy failures w) (loop n) goes few
          (λ m v one. loop-seeing seeing n m v (omega arith))
