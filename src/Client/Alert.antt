-- ===== src/Client/Alert.antt =====
-- crates/certimining-client/src/alert.rs: which conditions an operator is told of.
pub mod Healthy
use potash.Common.{
  ℕ, ◌+◌, ◌-◌, Bool, true, false, Option, none, some, List, [], ◌∷◌, ◌++◌, ltb, leb, if◌then◌else◌,
  saturating_add,
}
use potash.Common.Int.{ℤ, pos, ltb_ℤ, ◌-ℤ◌, saturate_i64}
use potash.Client.Schedule.{Schedule, publication_time}
use potash.Client.Worker.Decision.{Observed, Refusal, newest_publishable}

pub record Thresholds : Type 0 where
  pub heartbeat_grace : ℤ
  pub publication_grace : ℤ
  pub sequence_lag : ℕ
  pub receipt_budget : ℤ
  pub consecutive_refusals : ℕ

abbrev pub deployed_thresholds : Thresholds
deployed_thresholds = record {
  heartbeat_grace = pos 1800;
  publication_grace = pos 7200;
  sequence_lag = 1;
  receipt_budget = pos 259200;
  consecutive_refusals = 3;
}

pub record Supervision : Type 0 where
  pub last_heartbeat : ℤ
  pub refusals_in_a_row : ℕ
  pub last_refusal : Option Refusal

-- The worker's own supervision of itself.
unfoldable pub from_worker : ℤ → Supervision
from_worker now = record { last_heartbeat = now; refusals_in_a_row = 0; last_refusal = none }

pub data Alert : Type 0 where
  process_silent : (since grace : ℤ) → Alert
  publication_missed : (epoch : ℕ) (due now : ℤ) → Alert
  sequence_lag_alert : (last newest limit : ℕ) → Alert
  receipt_unconfirmed : (epoch : ℕ) (waiting budget : ℤ) → Alert
  repeated_refusal : (refusal : Refusal) (consecutive : ℕ) → Alert

-- `if test { out.push(alert) }`
abbrev pub push_if : Bool → Alert → List Alert
push_if false alert = []
push_if true alert = alert ∷ []

-- `i64::saturating_sub`
abbrev pub since : ℤ → ℤ → ℤ
since now before = saturate_i64 (now -ℤ before)

unfoldable pub missed : Thresholds → ℤ → ℕ → Option ℤ → List Alert
missed t now owed none = []
missed t now owed (some due) =
    push_if (ltb_ℤ t.publication_grace (since now due)) (publication_missed owed due now)

unfoldable pub overdue : Schedule → Thresholds → ℤ → ℕ → ℕ → List Alert
overdue schedule t now owed newest =
    if leb owed newest then missed t now owed (publication_time schedule owed) else []

unfoldable pub unconfirmed_at : Thresholds → ℤ → ℕ → Option ℤ → List Alert
unconfirmed_at t now epoch none = []
unconfirmed_at t now epoch (some published) =
    push_if (ltb_ℤ t.receipt_budget (since now published))
      (receipt_unconfirmed epoch (since now published) t.receipt_budget)

unfoldable pub unconfirmed : Schedule → Thresholds → ℤ → Option ℕ → List Alert
unconfirmed schedule t now none = []
unconfirmed schedule t now (some epoch) =
    unconfirmed_at t now epoch (publication_time schedule epoch)

unfoldable pub repeated : Thresholds → ℕ → Option Refusal → List Alert
repeated t consecutive none = []
repeated t consecutive (some refusal) =
    push_if (leb t.consecutive_refusals consecutive) (repeated_refusal refusal consecutive)

-- What is judged against the calendar, and what comes after it.
unfoldable pub judged : Schedule → Observed → Supervision → Thresholds → Option ℕ → List Alert
judged schedule observed supervision t none = []
judged schedule observed supervision t (some newest) =
    let owed = saturating_add observed.last_epoch 1 in
    overdue schedule t observed.now owed newest
    ++ push_if (ltb t.sequence_lag (newest - observed.last_epoch))
        (sequence_lag_alert observed.last_epoch newest t.sequence_lag)
    ++ unconfirmed schedule t observed.now observed.oldest_single
    ++ repeated t supervision.refusals_in_a_row supervision.last_refusal

unfoldable pub alerts : Schedule → Observed → Supervision → Thresholds → List Alert
alerts schedule observed supervision t =
    push_if (ltb_ℤ t.heartbeat_grace (since observed.now supervision.last_heartbeat))
      (process_silent supervision.last_heartbeat t.heartbeat_grace)
    ++ judged schedule observed supervision t (newest_publishable observed)
