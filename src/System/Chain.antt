-- ===== src/System/Chain.antt =====
-- worker.rs and the program's lib.rs: a chain whose accounts the days' publications read and write, and
-- what each day brings.
use potash.Common.{
  ℕ, zero, suc, ◌+◌, ◌-◌, ◌*◌, ◌^◌, ◌≤◌, ◌<◌, ◌≡◌, true, false, some, none, Bytes, [], ◌∷◌, ◌⊎◌,
  bytes_eq, le_bytes, if◌then◌else◌,
}
use potash.Common.Int.{pos, ltb_ℤ}
use potash.Program.Outcome.{Outcome, done, ◌>>=◌}
use potash.Program.Checkpoint.{
  Pubkey, Runtime, Clock, LogConfig, Publish, Slot, Funds, config_seed, checkpoint_seed,
  data_is_empty, written, chain_day, publish_checkpoint,
}
use potash.Program.Checkpoint.Published.{checkpoint_of}
use potash.Client.Schedule.{deployed}
use potash.Client.Worker.Decision.{Observed, Step, publish, submit, attach, wait, refuse, next_step}

-- What the worker sees of a log within the day and an hour past midnight on which its next epoch is
-- to be published: the last epoch has its receipt submitted and attached, if there is one.
pub record IsCaughtUp (config : LogConfig) (observed : Observed) : Type 0 where
  pub time : ℕ
  pub now : observed.now ≡ pos time
  pub open_from : (config.last_epoch + 2) * 86400 + 3600 ≤ time
  pub open_until : time < (config.last_epoch + 3) * 86400
  pub start : observed.start_epoch ≡ config.start_epoch
  pub last : observed.last_epoch ≡ config.last_epoch
  pub attached : observed.awaiting_attach ≡ none
  pub submitted :
      (observed.last_submitted ≡ some observed.last_epoch)
      ⊎ ((observed.last_submitted ≡ none) × (observed.last_epoch ≤ observed.start_epoch - 1))

-- The accounts of the chain that publications change.
pub record Chain : Type 0 where
  pub config : LogConfig
  pub payer : ℕ
  pub at : Pubkey → Slot

-- Who sends the publications: the keys, and for each epoch its address, bump and root.
pub record Sender : Type 0 where
  pub config_key : Pubkey
  pub authority : Pubkey
  pub address : ℕ → Pubkey
  pub bump : ℕ → ℕ
  pub root : ℕ → Bytes

-- Each day's service, for the log as it stands: an observation, and the clock of the chain.
pub record Service : Type 0 where
  pub observed : LogConfig → Observed
  pub clock : LogConfig → Clock

-- The observation is in time, and the chain is not behind it.
pub record IsServed (s : Service) : Type 0 where
  pub caught_up : (c : LogConfig) → IsCaughtUp c (s.observed c)
  pub not_behind : (c : LogConfig) → ltb_ℤ (s.clock c).unix_timestamp (s.observed c).now ≡ false

module _ (r : Runtime) (sender : Sender) where
  -- The transaction for an epoch, signed by the authority and the payer.
  abbrev pub accounts_in : Chain → ℕ → Publish
  accounts_in c epoch = record {
    config_key = sender.config_key;
    config_owner = r.program_id;
    config_writable = true;
    config = c.config;
    checkpoint_key = sender.address epoch;
    checkpoint_writable = true;
    authority = sender.authority;
    authority_signed = true;
    payer_signed = true;
    payer_writable = true;
    system_program = r.system_id;
    funds = record { payer = c.payer; target = c.at (sender.address epoch) };
  }

  -- The chain once the instruction has run.
  abbrev pub with_accounts : Chain → ℕ → LogConfig × Funds → Chain
  with_accounts c epoch (config, funds) = record {
    config = config;
    payer = funds.payer;
    at = λ key. if bytes_eq key (sender.address epoch) then funds.target else c.at key;
  }

  abbrev pub send : Clock → Chain → ℕ → Outcome Chain
  send clock c epoch =
      publish_checkpoint r clock (accounts_in c epoch) epoch (sender.root epoch) (sender.bump epoch)
      >>= λ accounts. done (with_accounts c epoch accounts)

  -- What the worker's decision does to the chain; the receipts are not on it here.
  abbrev pub carry_out : Clock → Chain → Step → Outcome Chain
  carry_out clock c (publish epoch) = send clock c epoch
  carry_out clock c (submit epoch) = done c
  carry_out clock c (attach epoch) = done c
  carry_out clock c (wait until) = done c
  carry_out clock c (refuse why) = done c

  -- One decision of the worker a day.
  unfoldable pub serve : Service → ℕ → Chain → Outcome Chain
  serve s zero c = done c
  serve s (suc days) c = serve s days c >>= λ later.
      carry_out (s.clock later.config) later (next_step deployed (s.observed later.config))

  -- The addresses are those that the runtime derives, and the epochs' differ.
  pub record IsSender (config : LogConfig) : Type 0 where
    pub authority : config.authority ≡ sender.authority
    pub config_key :
        r.create_program_address (config_seed ∷ (config.bump ∷ []) ∷ []) ≡ some sender.config_key
    pub derived :
        (epoch : ℕ)
        → epoch < 2 ^ 64
        → r.create_program_address
            (checkpoint_seed ∷ le_bytes 8 epoch ∷ (sender.bump epoch ∷ []) ∷ [])
          ≡ some (sender.address epoch)
    pub apart :
        (epoch other : ℕ)
        → epoch < 2 ^ 64
        → other < 2 ^ 64
        → sender.address epoch ≡ sender.address other
        → epoch ≡ other

  -- Nobody has taken the address of an epoch yet.
  abbrev pub IsVacant : Chain → ℕ → Type 0
  IsVacant c epoch =
      ((c.at (sender.address epoch)).owner ≡ r.system_id)
      × (data_is_empty (c.at (sender.address epoch)).contents ≡ true)

  -- The epoch's checkpoint stands on the chain, written after the epoch's day was over there.
  pub record Stands (c : Chain) (epoch : ℕ) : Type 0 where
    pub clock : Clock
    pub day : ℕ
    pub at : chain_day clock.unix_timestamp ≡ some day
    pub over : epoch < day
    pub holds :
        (c.at (sender.address epoch)).contents
        ≡ written (checkpoint_of clock epoch (sender.root epoch) (sender.bump epoch))
