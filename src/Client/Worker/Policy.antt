-- ===== src/Client/Worker/Policy.antt =====
-- crates/certimining-client/src/worker.rs: the policy of the worker. A duration is its number of
-- nanoseconds.
use potash.Common.{
  ℕ, zero, suc, ◌+◌, ◌*◌, ◌-◌, ◌^◌, min, Option, none, some, ltb, ◌==◌, ◌||◌, if◌then◌else◌,
  saturating_add,
}

-- `Duration::MAX`
abbrev pub duration_max : ℕ
duration_max = (2 ^ 64 - 1) * 1000000000 + 999999999

abbrev pub add_duration : ℕ → ℕ → ℕ
add_duration a b = min (a + b) duration_max

abbrev pub mul_duration : ℕ → ℕ → ℕ
mul_duration a k = min (a * k) duration_max

abbrev pub from_secs : ℕ → ℕ
from_secs s = s * 1000000000

pub record WorkerPolicy : Type 0 where
  pub rpc_timeout : ℕ
  pub poll_interval : ℕ
  pub publish_attempts : ℕ
  pub partition_retry_limit : ℕ
  pub retry_initial : ℕ
  pub retry_max : ℕ
  pub max_epoch_slip : ℕ

abbrev pub production : WorkerPolicy
production = record {
  rpc_timeout = from_secs 30;
  poll_interval = from_secs 300;
  publish_attempts = 3;
  partition_retry_limit = 5;
  retry_initial = from_secs 1;
  retry_max = from_secs 30;
  max_epoch_slip = 1;
}

unfoldable pub last_publishable_day : WorkerPolicy → ℕ → ℕ
last_publishable_day policy epoch = saturating_add epoch policy.max_epoch_slip

-- The body of the loop, `n` times.
unfoldable pub doubled : ℕ → ℕ → ℕ → ℕ
doubled retry_max zero delay = delay
doubled retry_max (suc n) delay = doubled retry_max n (min (mul_duration delay 2) retry_max)

unfoldable pub partition_retry_delay : WorkerPolicy → ℕ → Option ℕ
partition_retry_delay policy failures =
    if failures == 0 || ltb policy.partition_retry_limit failures
    then none
    else some (doubled policy.retry_max (failures - 1) policy.retry_initial)

abbrev pub add_delay : ℕ → Option ℕ → ℕ
add_delay backoff none = backoff
add_delay backoff (some delay) = add_duration backoff delay

-- The delays of the failures `1` to `n`, summed in order.
unfoldable pub backoff_through : WorkerPolicy → ℕ → ℕ
backoff_through policy zero = 0
backoff_through policy (suc n) =
    add_delay (backoff_through policy n) (partition_retry_delay policy (suc n))

-- `attempts` is a `u32`.
unfoldable pub longest_quiet_cycle : WorkerPolicy → ℕ
longest_quiet_cycle policy =
    let attempts = min (policy.partition_retry_limit + 1) (2 ^ 32 - 1) in
    add_duration (add_duration policy.poll_interval (mul_duration policy.rpc_timeout attempts))
      (backoff_through policy policy.partition_retry_limit)
