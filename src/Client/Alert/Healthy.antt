-- ===== src/Client/Alert/Healthy.antt =====
-- crates/certimining-client/src/alert.rs: what silence means.
use potash.Common.{ℕ, ◌+◌, ◌≤◌, ◌<◌, ◌≡◌, false, some}
use potash.Common.Int.{ℤ, ltb_ℤ}
use potash.Client.Schedule.{Schedule, publication_time}
use potash.Client.Worker.Decision.{Observed, Refusal}
use potash.Client.Alert.{Thresholds, Supervision, Alert, since}

-- What the operator may conclude from no alert, on a day that has a newest publishable epoch.
pub record Healthy (schedule : Schedule) (observed : Observed) (supervision : Supervision)
    (t : Thresholds) (newest : ℕ) : Type 0 where
  pub alive : ltb_ℤ t.heartbeat_grace (since observed.now supervision.last_heartbeat) ≡ false
  pub on_time :
      (due : ℤ)
      → observed.last_epoch < newest
      → publication_time schedule (observed.last_epoch + 1) ≡ some due
      → ltb_ℤ t.publication_grace (since observed.now due) ≡ false
  pub kept_up : newest ≤ observed.last_epoch + t.sequence_lag
  pub confirmed :
      (epoch : ℕ) (published : ℤ)
      → observed.oldest_single ≡ some epoch
      → publication_time schedule epoch ≡ some published
      → ltb_ℤ t.receipt_budget (since observed.now published) ≡ false
  pub not_refusing :
      (refusal : Refusal)
      → supervision.last_refusal ≡ some refusal
      → supervision.refusals_in_a_row < t.consecutive_refusals
