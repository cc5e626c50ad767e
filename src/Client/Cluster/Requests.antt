-- ===== src/Client/Cluster/Requests.antt =====
-- crates/certimining-client/src/cluster.rs: the cluster as a source of accounts, and the re-sending
-- of a submission that a caller brings.
use potash.Common.{ℕ, zero, suc, Option, none, some, List, if◌then◌else◌, ltb, length}
use potash.Common.Early.{Early, stop, go}
use potash.Program.Checkpoint.{Pubkey}
use potash.Client.Publication.{Outcome, landed, classify, should_retry}
use potash.Client.Fetch.{
  Framework, Account, Fetched, Observation, OneView, RootSource, Unreachable, transport,
  too_many_addresses, one_view_limit, root_for_epoch,
}
use potash.Client.Fetch.Observe.{AnchorStatus, status_of}

-- The two account requests of the RPC client, whose answers carry the slot of the view.
pub record Rpc : Type 0 where
  pub get_account : Pubkey → Option (ℕ × Option Account)
  pub get_multiple_accounts : List Pubkey → Option (ℕ × List (Option Account))

abbrev pub of_account : Option (ℕ × Option Account) → Early Unreachable Observation
of_account none = stop transport
of_account (some (at, value)) = go record { slot = some at; account = value }

abbrev pub of_accounts : Option (ℕ × List (Option Account)) → Early Unreachable OneView
of_accounts none = stop transport
of_accounts (some (at, values)) = go record { slot = some at; accounts = values }

unfoldable pub account_at : Rpc → Pubkey → Early Unreachable Observation
account_at rpc address = of_account (rpc.get_account address)

unfoldable pub accounts_at : Rpc → List Pubkey → Early Unreachable OneView
accounts_at rpc addresses =
    if ltb one_view_limit (length addresses)
    then stop too_many_addresses
    else of_accounts (rpc.get_multiple_accounts addresses)

abbrev pub cluster : Rpc → RootSource
cluster rpc = record { account_at = account_at rpc; accounts_at = accounts_at rpc }

abbrev status_in : Early Unreachable Fetched → Early Unreachable AnchorStatus
status_in (stop cause) = stop cause
status_in (go fetched) = go (status_of fetched)

unfoldable pub status : Framework → Pubkey → Rpc → ℕ → Early Unreachable AnchorStatus
status f program_id rpc epoch = status_in (root_for_epoch f (cluster rpc) program_id epoch)

-- What a submission's answer means: landed, or its error code.
unfoldable pub outcome_of : Early (Option ℕ) (Unit {0}) → Outcome
outcome_of (go u) = landed
outcome_of (stop code) = classify code

module _ {W : Type 0} (submit : W → Early (Option ℕ) (Unit {0}) × W) where
  abbrev ended : Outcome → W → Outcome × W
  ended outcome w = (outcome, w)

  -- With no attempt left every outcome stands.
  unfoldable pub send_with_retry : ℕ → W → Outcome × W
  send_with_retry zero w = (outcome_of (submit w).0, (submit w).1)
  send_with_retry (suc left) w =
      let again = send_with_retry left in
      let outcome = outcome_of (submit w).0 in
      (if should_retry outcome (suc left) then again else ended outcome) (submit w).1
