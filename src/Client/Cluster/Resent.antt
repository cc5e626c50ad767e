-- ===== src/Client/Cluster/Resent.antt =====
-- crates/certimining-client/src/cluster.rs: what re-sending a submission comes to.
use potash.Common.{ℕ, zero, suc, ◌≤◌, ◌≡◌, refl, ap, arith, Option, true, false, inl, inr, ◌⊎◌}
use potash.Common.Early.{Early}
use potash.Client.Publication.{Outcome, retry, landed, already_published, refused, should_retry}
use potash.Client.Cluster.Requests.{outcome_of, send_with_retry}

module _ {W : Type 0} (submit : W → Early (Option ℕ) (Unit {0}) × W) where
  -- `n` submissions in a row whose outcome allows another one.
  pub data Tried : ℕ → W → W → Type 0 where
    none_yet : {w : W} → Tried 0 w w
    once_more :
        {n : ℕ} {w v : W}
        → outcome_of (submit w).0 ≡ retry
        → Tried n (submit w).1 v
        → Tried (suc n) w v

  -- The last submission of a run: its outcome is the run's, and it is one to retry only where the
  -- attempts are used up.
  pub record Ended (attempts : ℕ) (w : W) (result : Outcome × W) : Type 0 where
    pub tried : ℕ
    pub at : W
    pub few : tried ≤ attempts
    pub before : Tried tried w at
    pub outcome : result.0 ≡ outcome_of (submit at).0
    pub after : result.1 ≡ (submit at).1
    pub given_up : result.0 ≡ retry → tried ≡ attempts

  retried :
      (o : Outcome) (left : ℕ)
      → ((o ≡ retry) × (should_retry o (suc left) ≡ true))
        ⊎ ((should_retry o (suc left) ≡ false) × (o ≡ retry → ⊥))
  unfolding should_retry
  retried retry left = inl (refl, ground arith)
  retried landed left = inr (refl, λ e. cc e)
  retried already_published left = inr (refl, λ e. cc e)
  retried (refused code) left = inr (refl, λ e. cc e)

  -- The run is the submissions up to the first whose outcome is final, and at most one more than the
  -- attempts; its result is that of the last one.
  pub send_with_retry-Ended :
      (attempts : ℕ) (w : W) → Ended attempts w (send_with_retry submit attempts w)
  unfolding send_with_retry
  send_with_retry-Ended zero w = record {
    tried = 0;
    at = w;
    few = omega arith;
    before = none_yet;
    outcome = refl;
    after = refl;
    given_up = λ e. refl;
  }
  send_with_retry-Ended (suc left) w = elim (retried (outcome_of (submit w).0) left) [
    | inr (final, other) ↦ rw final (record {
      tried = 0;
      at = w;
      few = omega arith;
      before = none_yet;
      outcome = refl;
      after = refl;
      given_up = λ e. absurd (other e);
    })
    | inl (again, allowed) ↦
        let rest = send_with_retry-Ended left (submit w).1 in
        rw allowed (record {
          tried = suc rest.tried;
          at = rest.at;
          few = omega (arith, rest.few);
          before = once_more again rest.before;
          outcome = rest.outcome;
          after = rest.after;
          given_up = λ e. ap suc (rest.given_up e);
        })
  ]
