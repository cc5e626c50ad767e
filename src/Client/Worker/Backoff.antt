-- ===== src/Client/Worker/Backoff.antt =====
-- crates/certimining-client/src/worker.rs: how long a worker that meets failures waits.
use potash.Common.{
  Option-cases, ℕ, zero, suc, ◌+◌, ◌*◌, ◌-◌, ◌^◌, ◌≤◌, ◌<◌, ◌≡◌, refl, ap, ◌∙◌, ◌⊎◌, inl, inr,
  arith, min, some, none, List, [], ◌∷◌, length, All, pow2-pos,
}
use potash.Client.Worker.Policy.{
  WorkerPolicy, duration_max, doubled, partition_retry_delay, backoff_through, longest_quiet_cycle,
  mul_duration,
}
use native.Mathlib.Nat.{
  le-mul_of_pos_right, mul-le-mul_left, mul_comm, pow-suc, min-eq_left, min-eq_right,
}

abbrev pub sum : List ℕ → ℕ
sum [] = 0
sum (d ∷ ds) = d + sum ds

le_cases : (a b : ℕ) → (a ≤ b) ⊎ (b ≤ a)
le_cases a b = ground arith

clamp :
    (p d m : ℕ)
    → 0 < p
    → (d * 2 ≤ m) ⊎ (m ≤ d * 2)
    → min (p * min (d * 2) m) m ≡ min (p * (d * 2)) m
clamp p d m h (inl le) = rw (min-eq_left le) refl
clamp p d m h (inr ge) =
    rw (min-eq_right ge)
      (omega (arith, le-mul_of_pos_right m h, mul_comm m p, mul-le-mul_left p ge))

twice_power : (n d : ℕ) → 2 ^ n * (d * 2) ≡ 2 ^ suc n * d
twice_power n d = rw (pow-suc 2 n) (grind arith)

doubled_lem : (m n d : ℕ) → d ≤ m → m ≤ duration_max → doubled m n d ≡ min (2 ^ n * d) m
unfolding doubled
doubled_lem m zero d h hm = omega arith
doubled_lem m (suc n) d h hm =
    doubled_lem m n (min (mul_duration d 2) m) (omega arith) hm
    ∙ ap (λ (t : ℕ). min (2 ^ n * t) m) {y = min (d * 2) m} (omega arith)
    ∙ clamp (2 ^ n) d m (pow2-pos n) (le_cases (d * 2) m)
    ∙ ap (λ (t : ℕ). min t m) (twice_power n d)

-- A failure that the budget allows waits the initial delay, doubled for every failure before it, and
-- never more than the maximum; beyond the budget there is no delay.
pub partition_retry_delay_lem :
    (policy : WorkerPolicy) (failures : ℕ)
    → policy.retry_initial ≤ policy.retry_max
    → policy.retry_max ≤ duration_max
    → (failures < policy.partition_retry_limit
        → partition_retry_delay policy (suc failures)
          ≡ some (min (2 ^ failures * policy.retry_initial) policy.retry_max))
      × (policy.partition_retry_limit < failures → partition_retry_delay policy failures ≡ none)
      × (partition_retry_delay policy 0 ≡ none)
unfolding partition_retry_delay
partition_retry_delay_lem policy failures h hm = (
  λ lt. ground (arith, doubled_lem policy.retry_max failures policy.retry_initial h hm),
  λ gt. ground arith,
  ground arith,
)

backoff_through-le : (policy : WorkerPolicy) (n : ℕ) → backoff_through policy n ≤ duration_max
unfolding backoff_through
backoff_through-le policy zero = omega arith
backoff_through-le policy (suc n) = elim (Option-cases (partition_retry_delay policy (suc n))) [
  | inl e ↦ rw e (backoff_through-le policy n)
  | inr (d, e) ↦ rw e (omega arith)
]

backoff_through-suc :
    (policy : WorkerPolicy) (n : ℕ) → backoff_through policy n ≤ backoff_through policy (suc n)
unfolding backoff_through
backoff_through-suc policy n = elim (Option-cases (partition_retry_delay policy (suc n))) [
  | inl e ↦ rw e (omega arith)
  | inr (d, e) ↦ rw e (omega (arith, backoff_through-le policy n))
]

at_or_below : (m n : ℕ) → m ≤ suc n → (m ≤ n) ⊎ (m ≡ suc n)
at_or_below m n h = ground arith

backoff_through_mono :
    (policy : WorkerPolicy) (m n : ℕ) → m ≤ n → backoff_through policy m ≤ backoff_through policy n
backoff_through_mono policy zero zero h = omega arith
backoff_through_mono policy (suc m) zero h = absurd (omega arith)
backoff_through_mono policy m (suc n) h = elim (at_or_below m n h) [
  | inl le ↦ omega (arith, backoff_through_mono policy m n le, backoff_through-suc policy n)
  | inr e ↦ omega (arith, ap (backoff_through policy) e)
]

sum-le : (b : ℕ) (ds : List ℕ) → All (λ d. d ≤ b) ds → sum ds ≤ length ds * b
sum-le b [] h = omega arith
sum-le b (d ∷ ds) h = omega (arith, sum-le b ds h.1)

-- However many failures the budget allows, and whatever each observation takes within its timeout,
-- the poll, the observations and the delays between them are no longer than the longest quiet cycle.
pub quiet-within :
    (policy : WorkerPolicy) (failures : ℕ) (observations : List ℕ)
    → policy.partition_retry_limit + 1 < 2 ^ 32
    → failures ≤ policy.partition_retry_limit
    → length observations ≡ failures + 1
    → All (λ d. d ≤ policy.rpc_timeout) observations
    → min (policy.poll_interval + sum observations + backoff_through policy failures) duration_max
      ≤ longest_quiet_cycle policy
unfolding longest_quiet_cycle
quiet-within policy failures observations fits within counted each = omega (
  arith,
  backoff_through_mono policy failures policy.partition_retry_limit within,
  sum-le policy.rpc_timeout observations each,
  ap (λ (t : ℕ). t * policy.rpc_timeout) counted,
  mul-le-mul_left {m = failures + 1} {n = policy.partition_retry_limit + 1} policy.rpc_timeout
      (omega arith),
  ap (λ (t : ℕ). policy.rpc_timeout * t) {x = min (policy.partition_retry_limit + 1) (2 ^ 32 - 1)}
      {y = policy.partition_retry_limit + 1} (omega arith),
)
