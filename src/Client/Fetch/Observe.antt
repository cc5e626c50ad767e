-- ===== src/Client/Fetch/Observe.antt =====
-- crates/certimining-client/src/anchor.rs and observe.rs: where an epoch stands, and what the worker
-- observes. The status of an epoch and the existence of its receipt's file are parameters.
use potash.Common.{
  ℕ, zero, suc, ◌+◌, ◌-◌, Bool, true, false, not, ◌&&◌, Option, none, some, List, [], ◌∷◌, ◌==◌,
  if◌then◌else◌, Bytes, bytes_eq, replicate,
}
use potash.Common.Int.{ℤ}
use potash.Common.Early.{Early, stop, go, ◌>>=◌}
use potash.Program.Checkpoint.{Pubkey}
use potash.Client.Worker.Decision.{Observed}
use potash.Client.Fetch.{Framework, RootSource, Fetched, placed, not_accepted, absent, Unreachable}
use potash.Client.Fetch.Lag.{Lag, sequence_lag}

pub data AnchorStatus : Type 0 where
  pending single dual : AnchorStatus

unfoldable pub status_of : Fetched → AnchorStatus
status_of (placed checkpoint) =
    if bytes_eq checkpoint.receipt_digest (replicate 32 0) then single else dual
status_of (not_accepted refused) = pending
status_of absent = pending

-- Where the transaction landed that is said to have published a checkpoint.
pub data WhereItLanded : Type 0 where
  slot : ℕ → WhereItLanded
  not_found not_asked : WhereItLanded

pub data Lineage : Type 0 where
  at_its_slot : Lineage
  disagreed : (transaction_slot : ℕ) → Lineage
  unknown unasked no_signature : Lineage

abbrev no_text : Bytes → Bool
no_text [] = true
no_text (b ∷ bs) = false

unfoldable pub at_slot : ℕ → WhereItLanded → Lineage
at_slot published_slot not_asked = unasked
at_slot published_slot not_found = unknown
at_slot published_slot (slot landed) =
    if landed == published_slot then at_its_slot else disagreed landed

unfoldable pub lineage_of : ℕ → Bytes → WhereItLanded → Lineage
lineage_of published_slot signature landed =
    if no_text signature then no_signature else at_slot published_slot landed

pub record Touched : Type 0 where
  pub signature : Bytes
  pub in_slot : ℕ
  pub succeeded : Bool

unfoldable pub is_candidate : ℕ → Touched → Bool
is_candidate published_slot t =
    t.succeeded && (t.in_slot == published_slot) && not (no_text t.signature)

unfoldable pub candidates : ℕ → List Touched → List Touched
candidates published_slot [] = []
candidates published_slot (t ∷ ts) =
    let rest = candidates published_slot ts in
    if is_candidate published_slot t then t ∷ rest else rest

abbrev only : List Touched → Option Bytes
only [] = none
only (t ∷ []) = some t.signature
only (t ∷ (u ∷ us)) = none

unfoldable pub provenance_in : ℕ → List Touched → Option Bytes
provenance_in published_slot touched = only (candidates published_slot touched)

pub data ObserveFailed : Type 0 where
  configuration : Unreachable → ObserveFailed
  status : (epoch : ℕ) (cause : Unreachable) → ObserveFailed

-- What the loop has seen so far.
pub record Seen : Type 0 where
  pub last_submitted : Option ℕ
  pub awaiting_attach : Option ℕ
  pub oldest_single : Option ℕ

abbrev pub is_single : AnchorStatus → Bool
is_single single = true
is_single pending = false
is_single dual = false

-- `if test && seen.is_none() { seen = Some(epoch) }`
abbrev pub first_at : Bool → Option ℕ → ℕ → Option ℕ
first_at test (some earlier) epoch = some earlier
first_at test none epoch = if test then some epoch else none

unfoldable pub see : Bool → AnchorStatus → Seen → ℕ → Seen
see exists standing seen epoch = record {
  last_submitted = if exists then some epoch else seen.last_submitted;
  awaiting_attach = first_at (exists && is_single standing) seen.awaiting_attach epoch;
  oldest_single = first_at (is_single standing) seen.oldest_single epoch;
}

abbrev of_status : ℕ → Early Unreachable AnchorStatus → Early ObserveFailed AnchorStatus
of_status epoch (stop cause) = stop (status epoch cause)
of_status epoch (go standing) = go standing

-- The loop over the epochs from `epoch` on, of which `n` are left.
unfoldable pub scan :
    (ℕ → Early Unreachable AnchorStatus) → (ℕ → Bool) → ℕ → ℕ → Seen → Early ObserveFailed Seen
scan status_at receipt_exists zero epoch seen = go seen
scan status_at receipt_exists (suc n) epoch seen = do
  standing ← of_status epoch (status_at epoch)
  scan status_at receipt_exists n (epoch + 1) (see (receipt_exists epoch) standing seen epoch)

abbrev of_lag : Early Unreachable Lag → Early ObserveFailed Lag
of_lag (stop cause) = stop (configuration cause)
of_lag (go lag) = go lag

unfoldable pub observe :
    Framework
    → Pubkey
    → RootSource
    → (ℕ → Early Unreachable AnchorStatus)
    → (ℕ → Bool)
    → ℤ
    → ℕ
    → Early ObserveFailed Observed
observe f program_id source status_at receipt_exists now today = do
  lag ← of_lag (sequence_lag f program_id source today today)
  seen ←
      scan status_at receipt_exists (lag.last_published + 1 - lag.start_epoch) lag.start_epoch
        (record { last_submitted = none; awaiting_attach = none; oldest_single = none })
  go record {
    now = now;
    start_epoch = lag.start_epoch;
    last_epoch = lag.last_published;
    awaiting_attach = seen.awaiting_attach;
    last_submitted = seen.last_submitted;
    oldest_single = seen.oldest_single;
  }
