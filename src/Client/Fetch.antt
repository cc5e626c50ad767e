-- ===== src/Client/Fetch.antt =====
-- crates/certimining-client/src/fetch.rs, anchor.rs and observe.rs: the log as it is read from the
-- chain. The framework's deserializers, its discriminators and the derivation of an address are
-- fields of `Framework`; the network is a function from addresses to a view.
pub mod Lag
pub mod Missing
pub mod Batches
pub mod Views
pub mod Observe
pub mod Observed
pub mod Ends
pub mod Accepted
use potash.Common.{
  ℕ, zero, suc, ◌+◌, ◌-◌, Bool, true, false, not, ◌&&◌, ◌||◌, Option, none, some, List, [], ◌∷◌,
  ◌++◌, ltb, ◌==◌, if◌then◌else◌, Bytes, bytes_eq, le_bytes, length, take, drop, map, replicate,
  saturating_add, get_elem?,
}
use potash.Common.Int.{ℤ}
use potash.Common.Early.{Early, stop, go, ◌>>=◌, ◌>>◌, stop_if, or_stop}
use potash.Core.Hash.{Digest}
use potash.Program.Checkpoint.{
  Pubkey, LogConfig, CheckpointAccount, config_len, checkpoint_len, checkpoint_seed, schema_version,
}

pub record Framework : Type 0 where
  pub checkpoint_discriminator : Bytes
  pub config_discriminator : Bytes
  pub deserialize_checkpoint : Bytes → Option CheckpointAccount
  pub deserialize_config : Bytes → Option LogConfig
  pub find_program_address : List Bytes → Pubkey → Pubkey × ℕ

-- "cm_cfg"
abbrev pub config_seed : Bytes
config_seed = b'c' ∷ b'm' ∷ b'_' ∷ b'c' ∷ b'f' ∷ b'g' ∷ []

pub record PublishedCheckpoint : Type 0 where
  pub epoch : ℕ
  pub root : Digest
  pub published_slot : ℕ
  pub published_unix : ℤ
  pub receipt_digest : Digest
  pub anchor_kind : ℕ

pub data Refused : Type 0 where
  not_the_program too_short wrong_discriminator : Refused
  unsupported_schema wrong_epoch malformed : Refused

pub data Fetched : Type 0 where
  placed : PublishedCheckpoint → Fetched
  not_accepted : Refused → Fetched
  absent : Fetched

-- Why nothing can be said; the source has a sentence for each.
pub data Unreachable : Type 0 where
  transport wrong_answers config_refused no_config missing_entry inconsistent_view nothing_read
        too_many_addresses :
      Unreachable

-- An account's owner and data.
abbrev pub Account : Type 0
Account = Pubkey × Bytes

pub record Observation : Type 0 where
  pub slot : Option ℕ
  pub account : Option Account

pub record OneView : Type 0 where
  pub slot : Option ℕ
  pub accounts : List (Option Account)

pub record RootSource : Type 0 where
  pub account_at : Pubkey → Early Unreachable Observation
  pub accounts_at : List Pubkey → Early Unreachable OneView

abbrev pub one_view_limit : ℕ
one_view_limit = 100

module _ (f : Framework) where
  unfoldable pub checkpoint_address : Pubkey → ℕ → Pubkey
  checkpoint_address program_id epoch =
      (f.find_program_address (checkpoint_seed ∷ le_bytes 8 epoch ∷ []) program_id).0

  unfoldable pub checkpoint_bump : Pubkey → ℕ → ℕ
  checkpoint_bump program_id epoch =
      (f.find_program_address (checkpoint_seed ∷ le_bytes 8 epoch ∷ []) program_id).1

  unfoldable pub config_address : Pubkey → Pubkey
  config_address program_id = (f.find_program_address (config_seed ∷ []) program_id).0

  unfoldable pub decode_checkpoint : Pubkey → Pubkey → Bytes → ℕ → Early Refused PublishedCheckpoint
  decode_checkpoint owner program_id bytes epoch = do
    stop_if (not (bytes_eq owner program_id)) not_the_program
    stop_if (ltb (length bytes) checkpoint_len) too_short
    stop_if (not (bytes_eq (take 8 bytes) f.checkpoint_discriminator)) wrong_discriminator
    account ← or_stop (f.deserialize_checkpoint (drop 8 bytes)) malformed
    stop_if (not (account.schema_version == schema_version)) unsupported_schema
    stop_if (not (account.epoch == epoch)) wrong_epoch
    go record {
      epoch = account.epoch;
      root = account.root;
      published_slot = account.published_slot;
      published_unix = account.published_unix;
      receipt_digest = account.receipt_digest;
      anchor_kind = account.anchor_kind;
    }

  unfoldable pub decode_config : Pubkey → Pubkey → Bytes → Early Refused LogConfig
  decode_config program_id owner bytes = do
    stop_if (not (bytes_eq owner program_id)) not_the_program
    stop_if (ltb (length bytes) config_len) too_short
    stop_if (not (bytes_eq (take 8 bytes) f.config_discriminator)) wrong_discriminator
    config ← or_stop (f.deserialize_config (drop 8 bytes)) malformed
    stop_if (not (config.schema_version == schema_version)) unsupported_schema
    go config

  abbrev pub of_decoded : Early Refused PublishedCheckpoint → Fetched
  of_decoded (go checkpoint) = placed checkpoint
  of_decoded (stop refused) = not_accepted refused

  -- What an answer for an epoch's address says of it.
  unfoldable pub fetched_in : Pubkey → ℕ → Option Account → Fetched
  fetched_in program_id epoch none = absent
  fetched_in program_id epoch (some (owner, bytes)) =
      of_decoded (decode_checkpoint owner program_id bytes epoch)

  unfoldable pub root_for_epoch_at :
      RootSource → Pubkey → ℕ → Early Unreachable (Option ℕ × Fetched)
  root_for_epoch_at source program_id epoch = do
    seen ← source.account_at (checkpoint_address program_id epoch)
    go (seen.slot, fetched_in program_id epoch seen.account)

  unfoldable pub root_for_epoch : RootSource → Pubkey → ℕ → Early Unreachable Fetched
  root_for_epoch source program_id epoch = do
    (slot, fetched) ← root_for_epoch_at source program_id epoch
    go fetched
