-- ===== src/Program/Checkpoint.antt =====
-- programs/certimining-checkpoint/src/lib.rs: the accounts of the program and its three instructions.
-- The runtime's calls (the address derivation, the system program, the rent) are parameters.
pub mod SystemCalls
pub mod Published
pub mod Trace
use potash.Common.{
  ℕ, ◌+◌, ◌-◌, ◌*◌, ◌/◌, ◌^◌, ◌≡◌, Bool, true, false, ◌&&◌, ◌||◌, not, List, [], ◌∷◌,
}
use potash.Common.{Option, none, some, Bytes, le_bytes, length, replicate, bytes_eq}
use potash.Common.{ltb, leb, ◌==◌, in_range, if◌then◌else◌, checked_add, checked_sub}
use potash.Common.Int.{ℤ, pos, negsuc}
use potash.Program.Outcome.{
  Outcome, done, failed, ◌>>=◌, ◌>>◌, require, constrain, ok_or, malformed_payload,
  epoch_out_of_order, checkpoint_already_written, unsupported_schema_version,
  receipt_already_attached, arithmetic_overflow,
}

-- `Pubkey`, 32 bytes.
abbrev pub Pubkey : Type 0
Pubkey = Bytes

abbrev pub seconds_per_day : ℕ
seconds_per_day = 86400

abbrev pub min_tree_height : ℕ
min_tree_height = 4

abbrev pub max_tree_height : ℕ
max_tree_height = 16

abbrev pub schema_version : ℕ
schema_version = 1

abbrev pub anchor_kind_opentimestamps : ℕ
anchor_kind_opentimestamps = 1

abbrev pub no_receipt : Bytes
no_receipt = replicate 32 0

pub record LogConfig : Type 0 where
  pub schema_version : ℕ
  pub authority : Pubkey
  pub last_epoch : ℕ
  pub tree_height : ℕ
  pub bump : ℕ
  pub start_epoch : ℕ
  pub reserved : Bytes

abbrev pub config_len : ℕ
config_len = 68

pub record CheckpointAccount : Type 0 where
  pub schema_version : ℕ
  pub epoch : ℕ
  pub root : Bytes
  pub published_slot : ℕ
  pub published_unix : ℤ
  pub receipt_digest : Bytes
  pub anchor_kind : ℕ
  pub bump : ℕ
  pub reserved : Bytes

abbrev pub checkpoint_len : ℕ
checkpoint_len = 106

-- "cm_ckpt"
abbrev pub checkpoint_seed : Bytes
checkpoint_seed = 0x63 ∷ 0x6D ∷ 0x5F ∷ 0x63 ∷ 0x6B ∷ 0x70 ∷ 0x74 ∷ []

-- "cm_cfg"
abbrev pub config_seed : Bytes
config_seed = 0x63 ∷ 0x6D ∷ 0x5F ∷ 0x63 ∷ 0x66 ∷ 0x67 ∷ []

-- What an account holds: nothing, fresh zeros, a written checkpoint, or data of another program.
pub data Data : Type 0 where
  empty : Data
  zeroed : ℕ → Data
  written : CheckpointAccount → Data
  other : Bytes → Data

abbrev pub data_is_empty : Data → Bool
data_is_empty empty = true
data_is_empty (zeroed n) = n == 0
data_is_empty (written c) = false
data_is_empty (other bytes) = leb (length bytes) 0

-- An account at the checkpoint's address.
pub record Slot : Type 0 where
  pub owner : Pubkey
  pub lamports : ℕ
  pub contents : Data

pub record Clock : Type 0 where
  pub unix_timestamp : ℤ
  pub slot : ℕ

-- The payer's lamports and the account that is created, which the system program's calls change.
pub record Funds : Type 0 where
  pub payer : ℕ
  pub target : Slot

-- The runtime: its programs' addresses, the rent, the derivation of an address from seeds, and the
-- calls of the system program.
pub record Runtime : Type 0 where
  pub program_id : Pubkey
  pub system_id : Pubkey
  pub minimum_balance : ℕ → ℕ
  pub create_program_address : List Bytes → Option Pubkey
  pub create_account : Funds → ℕ → ℕ → Pubkey → Outcome Funds
  pub transfer : Funds → ℕ → Outcome Funds
  pub allocate : Funds → ℕ → Outcome Funds
  pub assign : Funds → Pubkey → Outcome Funds

-- `u64::try_from(unix_timestamp)? / SECONDS_PER_DAY`
unfoldable pub today : ℤ → Option ℕ
today (pos n) = some (n / seconds_per_day)
today (negsuc n) = none

unfoldable pub initialize : Clock → ℕ → Pubkey → ℕ → ℕ → Outcome LogConfig
initialize clock bump authority tree_height start_epoch = do
  require (in_range min_tree_height max_tree_height tree_height) malformed_payload
  day ← ok_or (today clock.unix_timestamp) arithmetic_overflow
  require (start_epoch == day) malformed_payload
  last_epoch ← ok_or (checked_sub start_epoch 1) arithmetic_overflow
  done (record {
    schema_version = schema_version;
    authority = authority;
    last_epoch = last_epoch;
    tree_height = tree_height;
    bump = bump;
    start_epoch = start_epoch;
    reserved = replicate 8 0;
  })

-- `unix_timestamp.checked_div(86_400)` rounds towards zero, so a time less than a day before 1970
-- is day zero; an earlier one is no `u64`.
unfoldable pub chain_day : ℤ → Option ℕ
chain_day (pos n) = some (n / 86400)
chain_day (negsuc n) = if ltb (n + 1) 86400 then some 0 else none

-- The accounts of `publish_checkpoint`. A configuration is what the framework has read from its
-- account.
pub record Publish : Type 0 where
  pub config_key : Pubkey
  pub config_owner : Pubkey
  pub config_writable : Bool
  pub config : LogConfig
  pub checkpoint_key : Pubkey
  pub checkpoint_writable : Bool
  pub authority : Pubkey
  pub authority_signed : Bool
  pub payer_signed : Bool
  pub payer_writable : Bool
  pub system_program : Pubkey
  pub funds : Funds

abbrev pub option_eq : Option Pubkey → Pubkey → Bool
option_eq none key = false
option_eq (some k) key = bytes_eq k key

-- `Account<LogConfig>` with its seeds and its own bump, and `has_one = authority` with the signature.
abbrev pub config_constraints : Runtime → Pubkey → Pubkey → LogConfig → Pubkey → Bool → Bool
config_constraints r key owner config authority authority_signed =
    bytes_eq owner r.program_id
    && (option_eq (r.create_program_address (config_seed ∷ (config.bump ∷ []) ∷ [])) key
        && (bytes_eq config.authority authority && authority_signed))

-- The checkpoint's seeds with a bump.
abbrev pub at_checkpoint : Runtime → ℕ → ℕ → Pubkey → Bool
at_checkpoint r epoch bump key =
    option_eq (r.create_program_address (checkpoint_seed ∷ le_bytes 8 epoch ∷ (bump ∷ []) ∷ [])) key

-- The constraints on them: the configuration's, the checkpoint's address for the given bump, the
-- signatures of the authority and the payer, what may be written, and the system program.
unfoldable pub publish_constraints : Runtime → Publish → ℕ → ℕ → Bool
publish_constraints r accounts epoch bump =
    config_constraints r accounts.config_key accounts.config_owner accounts.config
      accounts.authority accounts.authority_signed
    && (at_checkpoint r epoch bump accounts.checkpoint_key
        && (accounts.payer_signed
            && (accounts.config_writable
                && (accounts.checkpoint_writable
                    && (accounts.payer_writable && bytes_eq accounts.system_program r.system_id)))))

-- The account that `init` would have created, from an empty slot or one that somebody has funded.
unfoldable pub create_checkpoint : Runtime → Funds → Outcome Funds
create_checkpoint r funds =
    let rent = r.minimum_balance checkpoint_len in
    let held = funds.target.lamports in
    if held == 0
    then r.create_account funds rent checkpoint_len r.program_id
    else (if ltb held rent
        then (ok_or (checked_sub rent held) arithmetic_overflow >>= λ missing.
            r.transfer funds missing)
        else done funds)
      >>= (λ topped. r.allocate topped checkpoint_len >>= λ sized. r.assign sized r.program_id)

unfoldable pub publish_checkpoint :
    Runtime → Clock → Publish → ℕ → Bytes → ℕ → Outcome (LogConfig × Funds)
publish_checkpoint r clock accounts epoch root checkpoint_bump = do
  constrain (publish_constraints r accounts epoch checkpoint_bump)
  require (accounts.config.schema_version == schema_version) unsupported_schema_version
  let account = accounts.funds.target
  require (not (bytes_eq account.owner r.program_id) || data_is_empty account.contents)
      checkpoint_already_written
  require (bytes_eq account.owner r.system_id && data_is_empty account.contents) malformed_payload
  next ← ok_or (checked_add accounts.config.last_epoch 1) epoch_out_of_order
  require (epoch == next) epoch_out_of_order
  day ← ok_or (chain_day clock.unix_timestamp) epoch_out_of_order
  require (leb epoch day) epoch_out_of_order
  funds ← create_checkpoint r accounts.funds
  let checkpoint : CheckpointAccount = record {
    schema_version = schema_version;
    epoch = epoch;
    root = root;
    published_slot = clock.slot;
    published_unix = clock.unix_timestamp;
    receipt_digest = no_receipt;
    anchor_kind = 0;
    bump = checkpoint_bump;
    reserved = replicate 6 0;
  }
  done (
    record accounts.config { last_epoch = epoch },
    record funds { target = record funds.target { contents = written checkpoint } },
  )

-- The accounts of `attach_anchor_receipt`.
pub record Attach : Type 0 where
  pub config_key : Pubkey
  pub config_owner : Pubkey
  pub config : LogConfig
  pub checkpoint_key : Pubkey
  pub checkpoint_owner : Pubkey
  pub checkpoint_writable : Bool
  pub checkpoint : CheckpointAccount
  pub authority : Pubkey
  pub authority_signed : Bool

unfoldable pub attach_constraints : Runtime → Attach → ℕ → Bool
attach_constraints r accounts epoch =
    config_constraints r accounts.config_key accounts.config_owner accounts.config
      accounts.authority accounts.authority_signed
    && (bytes_eq accounts.checkpoint_owner r.program_id
        && (accounts.checkpoint_writable
            && at_checkpoint r epoch accounts.checkpoint.bump accounts.checkpoint_key))

unfoldable pub attach_anchor_receipt : Runtime → Attach → ℕ → Bytes → ℕ → Outcome CheckpointAccount
attach_anchor_receipt r accounts epoch receipt_digest kind = do
  constrain (attach_constraints r accounts epoch)
  require (accounts.config.schema_version == schema_version) unsupported_schema_version
  require (kind == anchor_kind_opentimestamps) malformed_payload
  require (not (bytes_eq receipt_digest no_receipt)) malformed_payload
  require (accounts.checkpoint.epoch == epoch) epoch_out_of_order
  require (bytes_eq accounts.checkpoint.receipt_digest no_receipt) receipt_already_attached
  done (record accounts.checkpoint { receipt_digest = receipt_digest; anchor_kind = kind })
