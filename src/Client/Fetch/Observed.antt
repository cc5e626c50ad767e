-- ===== src/Client/Fetch/Observed.antt =====
-- crates/certimining-client/src/observe.rs: what an observation says, and that the worker accepts it.
use potash.Common.{
  ℕ, zero, suc, ◌+◌, ◌-◌, ◌≤◌, ◌<◌, ◌≡◌, ◌⊎◌, inl, inr, refl, subst, subst₂, ap, ◌∙◌, arith, Bool,
  true, false, ◌&&◌, Option, none, some, Bool-cases, if◌then◌else◌,
}
use potash.Common.Int.{ℤ}
use potash.Common.Early.{Early, stop, go, Early-cases, go-injective}
use potash.Program.Checkpoint.{Pubkey}
use potash.Client.Worker.Decision.{Observed}
use potash.Client.Fetch.{Framework, RootSource, Unreachable}
use potash.Client.Fetch.Lag.{Lag, sequence_lag}
use potash.Client.Fetch.Observe.{AnchorStatus, is_single, first_at, see, Seen, scan, observe}

-- The first of the epochs from `lo` up to `hi` that passes a test, if one does.
unfoldable pub IsFirst : (ℕ → Bool) → ℕ → ℕ → Option ℕ → Type 0
IsFirst P lo hi o =
    ((o ≡ none) × ((e : ℕ) → lo ≤ e → e < hi → P e ≡ false))
    ⊎ ((a : ℕ) × (o ≡ some a)
        × (lo ≤ a)
        × (a < hi)
        × (P a ≡ true)
        × ((e : ℕ) → lo ≤ e → e < a → P e ≡ false))

-- The last one.
unfoldable pub IsLast : (ℕ → Bool) → ℕ → ℕ → Option ℕ → Type 0
IsLast P lo hi o =
    ((o ≡ none) × ((e : ℕ) → lo ≤ e → e < hi → P e ≡ false))
    ⊎ ((a : ℕ) × (o ≡ some a)
        × (lo ≤ a)
        × (a < hi)
        × (P a ≡ true)
        × ((e : ℕ) → a < e → e < hi → P e ≡ false))

at_or_before : (e hi : ℕ) → e < hi + 1 → (e < hi) ⊎ (e ≡ hi)
at_or_before e hi h = ground arith

module _ (P : ℕ → Bool) (lo hi : ℕ) (above : lo ≤ hi) where
  still_none :
      ((e : ℕ) → lo ≤ e → e < hi → P e ≡ false)
      → P hi ≡ false
      → (e : ℕ) → lo ≤ e
      → e < hi + 1
      → P e ≡ false
  still_none h here e ge lt = elim (at_or_before e hi lt) [
    | inl before ↦ h e ge before
    | inr same ↦ ap P same ∙ here
  ]

  IsFirst-step : (o : Option ℕ) → IsFirst P lo hi o → IsFirst P lo (hi + 1) (first_at (P hi) o hi)
  unfolding IsFirst
  IsFirst-step none (inl (e, h)) = elim (Bool-cases (P hi)) [
    | inl t ↦ inr (hi, rw t refl, above, omega arith, t, h)
    | inr f ↦ inl (rw f refl, still_none h f)
  ]
  IsFirst-step none (inr (a, e, ge, lt, t, h)) = absurd (cc e)
  IsFirst-step (some b) (inl (e, h)) = absurd (cc e)
  IsFirst-step (some b) (inr (a, e, ge, lt, t, h)) = inr (a, e, ge, omega arith, t, h)

  IsLast-step :
      (o : Option ℕ) → IsLast P lo hi o → IsLast P lo (hi + 1) (if P hi then some hi else o)
  unfolding IsLast
  IsLast-step o h = elim (Bool-cases (P hi)) [
    | inl t ↦ inr (hi, rw t refl, above, omega arith, t, λ e gt lt. absurd (omega arith))
    | inr f ↦ elim h [
      | inl (e, none_yet) ↦ inl (rw f e, still_none none_yet f)
      | inr (a, e, ge, lt, t, after) ↦ inr (
        a,
        rw f e,
        ge,
        omega arith,
        t,
        λ i gt below. elim (at_or_before i hi below) [
          | inl before ↦ after i gt before
          | inr same ↦ ap P same ∙ f
        ],
      )
    ]
  ]

module _ (status_at : ℕ → Early Unreachable AnchorStatus) (receipt_exists : ℕ → Bool) where
  abbrev pub single_of : Early Unreachable AnchorStatus → Bool
  single_of (stop cause) = false
  single_of (go standing) = is_single standing

  -- Whether the chain calls the epoch single.
  unfoldable pub single_at : ℕ → Bool
  single_at epoch = single_of (status_at epoch)

  unfoldable pub waits_at : ℕ → Bool
  waits_at epoch = receipt_exists epoch && single_at epoch

  pub record Sees (lo hi : ℕ) (seen : Seen) : Type 0 where
    pub submitted : IsLast receipt_exists lo hi seen.last_submitted
    pub awaiting : IsFirst waits_at lo hi seen.awaiting_attach
    pub oldest : IsFirst single_at lo hi seen.oldest_single

  scan-Sees :
      (n lo epoch : ℕ) (seen seen' : Seen)
      → lo ≤ epoch
      → Sees lo epoch seen
      → scan status_at receipt_exists n epoch seen ≡ go seen'
      → Sees lo (epoch + n) seen'
  unfolding scan see single_at waits_at
  scan-Sees zero lo epoch seen seen' le s h =
      subst₂ (λ (hi : ℕ) (t : Seen). Sees lo hi t) {x = epoch} (omega arith) (go-injective h) s
  scan-Sees (suc n) lo epoch seen seen' le s h = elim (Early-cases (status_at epoch)) [
    | inl (r, e) ↦ absurd (ground (arith, h, e))
    | inr (standing, e) ↦
        let known : single_of (status_at epoch) ≡ is_single standing = ap single_of e in
        let stepped : Sees lo (epoch + 1) (see (receipt_exists epoch) standing seen epoch) =
          record {
            submitted = IsLast-step receipt_exists lo epoch le seen.last_submitted s.submitted;
            awaiting =
                subst
                  (λ (b : Bool).
                    IsFirst waits_at lo (epoch + 1)
                      (first_at (receipt_exists epoch && b) seen.awaiting_attach epoch))
                  known (IsFirst-step waits_at lo epoch le seen.awaiting_attach s.awaiting);
            oldest =
                subst
                  (λ (b : Bool).
                    IsFirst single_at lo (epoch + 1) (first_at b seen.oldest_single epoch))
                  known (IsFirst-step single_at lo epoch le seen.oldest_single s.oldest);
          } in
        subst (λ (hi : ℕ). Sees lo hi seen') {x = epoch + 1 + n} (omega arith)
          (scan-Sees n lo (epoch + 1) (see (receipt_exists epoch) standing seen epoch) seen'
            (omega arith) stepped (ground (arith, h, e)))
  ]

abbrev nothing : Seen
nothing = record { last_submitted = none; awaiting_attach = none; oldest_single = none }

-- What an observation says of the lag that it read.
pub record Reads (status_at : ℕ → Early Unreachable AnchorStatus) (receipt_exists : ℕ → Bool)
    (now : ℤ) (lag : Lag) (o : Observed) : Type 0 where
  pub clock : o.now ≡ now
  pub start : o.start_epoch ≡ lag.start_epoch
  pub last : o.last_epoch ≡ lag.last_published
  pub submitted :
      IsLast receipt_exists o.start_epoch
        (o.start_epoch + (o.last_epoch + 1 - o.start_epoch))
        o.last_submitted
  pub awaiting :
      IsFirst
        (waits_at status_at receipt_exists)
        o.start_epoch
        (o.start_epoch + (o.last_epoch + 1 - o.start_epoch))
        o.awaiting_attach
  pub oldest :
      IsFirst
        (single_at status_at receipt_exists)
        o.start_epoch
        (o.start_epoch + (o.last_epoch + 1 - o.start_epoch))
        o.oldest_single

Sees-nothing :
    (status_at : ℕ → Early Unreachable AnchorStatus) (receipt_exists : ℕ → Bool) (lo : ℕ)
    → Sees status_at receipt_exists lo lo nothing
unfolding IsFirst IsLast
Sees-nothing status_at receipt_exists lo = record {
  submitted = inl (refl, λ e ge lt. absurd (omega arith));
  awaiting = inl (refl, λ e ge lt. absurd (omega arith));
  oldest = inl (refl, λ e ge lt. absurd (omega arith));
}

-- An observation is of the log's range as the configuration bounds it: the last epoch of the range
-- with a receipt, the first with a receipt that the chain calls single, and the first it calls single.
pub observe-Reads :
    (f : Framework) (program_id : Pubkey) (source : RootSource)
    (status_at : ℕ → Early Unreachable AnchorStatus) (receipt_exists : ℕ → Bool) (now : ℤ)
    (today : ℕ) (o : Observed)
    → observe f program_id source status_at receipt_exists now today ≡ go o
    → (lag : Lag) × (sequence_lag f program_id source today today ≡ go lag)
      × Reads status_at receipt_exists now lag o
unfolding observe
observe-Reads f program_id source status_at receipt_exists now today o h =
    elim (Early-cases (sequence_lag f program_id source today today)) [
      | inl (r, e) ↦ absurd (ground (arith, h, e))
      | inr (lag, e) ↦
          elim (Early-cases (
            scan status_at receipt_exists (lag.last_published + 1 - lag.start_epoch) lag.start_epoch
              nothing)) [
                | inl (r, c) ↦ absurd (ground (arith, h, e, c))
                | inr (seen, c) ↦
                    let s =
                      scan-Sees status_at receipt_exists (lag.last_published + 1 - lag.start_epoch)
                        lag.start_epoch lag.start_epoch nothing seen (omega arith)
                        (Sees-nothing status_at receipt_exists lag.start_epoch) c in
                    let made : Observed = record {
                      now = now;
                      start_epoch = lag.start_epoch;
                      last_epoch = lag.last_published;
                      awaiting_attach = seen.awaiting_attach;
                      last_submitted = seen.last_submitted;
                      oldest_single = seen.oldest_single;
                    } in
                    let same : made ≡ o = ground (arith, h, e, c) in
                    (
                      lag,
                      e,
                      subst (Reads status_at receipt_exists now lag) same record {
                        clock = refl;
                        start = refl;
                        last = refl;
                        submitted = s.submitted;
                        awaiting = s.awaiting;
                        oldest = s.oldest;
                      },
                    )
              ]
    ]
