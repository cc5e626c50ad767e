-- ===== src/Program/Checkpoint/Published.antt =====
-- When a checkpoint is published, what is written, and that neither it nor a receipt is written twice.
use Prim.Native.Nat.{◌≤◌, max}
use potash.Common.{ℕ, ◌+◌, ◌-◌, ◌≡◌, ◌≢◌, ◌<◌, ◌^◌, arith, true, false, Bytes}
use potash.Common.{
  Option-cases, replicate, some, bytes_eq→eq, bytes_eq_refl, ltb, Bool-cases, ◌==◌, inl, inr,
}
use potash.Program.Outcome.{done, failed, checkpoint, checkpoint_already_written, ◌>>=◌}
use potash.Program.Checkpoint.{
  Funds, Runtime, Clock, LogConfig, CheckpointAccount, Publish, Attach, zeroed, written,
  data_is_empty, schema_version, checkpoint_len, no_receipt, chain_day, publish_constraints,
  create_checkpoint, publish_checkpoint, attach_constraints, attach_anchor_receipt,
  anchor_kind_opentimestamps,
}
use potash.Program.Checkpoint.SystemCalls.{IsRuntime}

-- What a publication needs of the log: the accounts' constraints, the schema, an empty account of the
-- system program, the epoch after the last one, and a chain that has reached that day.
pub record IsPublishable (r : Runtime) (clock : Clock) (accounts : Publish) (epoch bump : ℕ)
    : Type 0 where
  pub constraints : publish_constraints r accounts epoch bump ≡ true
  pub schema : accounts.config.schema_version ≡ schema_version
  pub owned : accounts.funds.target.owner ≡ r.system_id
  pub vacant : data_is_empty accounts.funds.target.contents ≡ true
  pub next : epoch ≡ accounts.config.last_epoch + 1
  pub fits : epoch < 2 ^ 64
  pub reached : (day : ℕ) × (chain_day clock.unix_timestamp ≡ some day) × (epoch ≤ day)

-- The checkpoint of an epoch.
abbrev pub checkpoint_of : Clock → ℕ → Bytes → ℕ → CheckpointAccount
checkpoint_of clock epoch root bump = record {
  schema_version = schema_version;
  epoch = epoch;
  root = root;
  published_slot = clock.slot;
  published_unix = clock.unix_timestamp;
  receipt_digest = no_receipt;
  anchor_kind = 0;
  bump = bump;
  reserved = replicate 6 0;
}

-- Allocating and assigning an empty account of the system program.
allocated :
    (r : Runtime) (f : Funds)
    → IsRuntime r
    → f.target.owner ≡ r.system_id
    → data_is_empty f.target.contents ≡ true
    → (r.allocate f checkpoint_len >>= λ sized. r.assign sized r.program_id)
      ≡ done (record {
        payer = f.payer;
        target = record {
          owner = r.program_id;
          lamports = f.target.lamports;
          contents = zeroed checkpoint_len;
        };
      })
allocated r f law owned vacant =
    rw (law.allocates f checkpoint_len owned vacant (omega arith))
      (law.assigns _ r.program_id owned)

-- The account is created from an empty slot and from one that somebody has funded, and the payer adds
-- what is missing of the rent.
pub create-ok :
    (r : Runtime) (f : Funds)
    → IsRuntime r
    → f.target.owner ≡ r.system_id
    → data_is_empty f.target.contents ≡ true
    → r.minimum_balance checkpoint_len - f.target.lamports ≤ f.payer
    → create_checkpoint r f
      ≡ done (record {
        payer = f.payer - (r.minimum_balance checkpoint_len - f.target.lamports);
        target = record {
          owner = r.program_id;
          lamports = max (r.minimum_balance checkpoint_len) f.target.lamports;
          contents = zeroed checkpoint_len;
        };
      })
unfolding create_checkpoint
create-ok r f law owned vacant paid = elim (Bool-cases (f.target.lamports == 0)) [
  | inl none_held ↦ ground (
    arith,
    law.creates f (r.minimum_balance checkpoint_len) checkpoint_len r.program_id owned vacant
        (ground arith) (omega arith) (ground arith),
  )
  | inr some_held ↦ elim (Bool-cases (ltb f.target.lamports (r.minimum_balance checkpoint_len))) [
    | inl short ↦ ground (
      arith,
      law.transfers f (r.minimum_balance checkpoint_len - f.target.lamports) paid,
      allocated r
          (record {
            payer = f.payer - (r.minimum_balance checkpoint_len - f.target.lamports);
            target = record f.target {
              lamports = f.target.lamports + (r.minimum_balance checkpoint_len - f.target.lamports);
            };
          })
          law owned vacant,
    )
    | inr enough ↦ ground (arith, allocated r f law owned vacant)
  ]
]

module _ (r : Runtime) (clock : Clock) (accounts : Publish) (epoch : ℕ) (root : Bytes)
    (bump : ℕ) where
  -- A publication that succeeds was publishable, writes the epoch's checkpoint, and moves nothing of
  -- the log's configuration but the last epoch.
  pub publish-done :
      (config : LogConfig) (funds : Funds)
      → publish_checkpoint r clock accounts epoch root bump ≡ done (config, funds)
      → IsPublishable r clock accounts epoch bump
        × (config ≡ record accounts.config { last_epoch = epoch })
        × (funds.target.contents ≡ written (checkpoint_of clock epoch root bump))
  unfolding publish_checkpoint
  publish-done config funds e = (
    record {
      constraints = ground arith;
      schema = ground arith;
      owned = bytes_eq→eq _ _ (ground arith);
      vacant = ground arith;
      next = ground arith;
      fits = ground arith;
      reached = elim (Option-cases (chain_day clock.unix_timestamp)) [
        | inl before ↦ absurd (ground arith)
        | inr (day, found) ↦ (day, found, ground arith)
      ];
    },
    ground arith,
    ground arith,
  )

  -- With the runtime's documented calls, what is publishable, with accounts that meet all the
  -- constraints of the instruction, and paid for is published, with this configuration, payment and
  -- account.
  pub publish-ok :
      IsRuntime r
      → IsPublishable r clock accounts epoch bump
      → r.minimum_balance checkpoint_len - accounts.funds.target.lamports ≤ accounts.funds.payer
      → publish_checkpoint r clock accounts epoch root bump
        ≡ done (
          record accounts.config { last_epoch = epoch },
          record {
            payer =
                accounts.funds.payer
                - (r.minimum_balance checkpoint_len - accounts.funds.target.lamports);
            target = record {
              owner = r.program_id;
              lamports = max (r.minimum_balance checkpoint_len) accounts.funds.target.lamports;
              contents = written (checkpoint_of clock epoch root bump);
            };
          },
        )
  unfolding publish_checkpoint create_checkpoint
  publish-ok law p paid =
      let (day, found, reached) = p.reached in
      ground (
        arith,
        create-ok r accounts.funds law p.owned p.vacant paid,
        p.constraints,
        p.schema,
        p.vacant,
        p.next,
        p.fits,
        found,
        reached,
        p.owned,
        bytes_eq_refl r.system_id,
      )

-- What is at an address once its epoch is published stays: the instruction refuses the account with
-- one error, whatever epoch, root and time come.
pub publish-refused :
    (r : Runtime) (clock : Clock) (accounts : Publish) (epoch : ℕ) (root : Bytes) (bump : ℕ)
    → publish_constraints r accounts epoch bump ≡ true
    → accounts.config.schema_version ≡ schema_version
    → accounts.funds.target.owner ≡ r.program_id
    → data_is_empty accounts.funds.target.contents ≡ false
    → publish_checkpoint r clock accounts epoch root bump
      ≡ failed (checkpoint checkpoint_already_written)
unfolding publish_checkpoint
publish-refused r clock accounts epoch root bump c s o d =
    ground (arith, bytes_eq_refl r.program_id)

-- A receipt is attached to an account without one, and the account keeps everything else.
pub attach-done :
    (r : Runtime) (accounts : Attach) (epoch : ℕ) (digest : Bytes) (kind : ℕ)
    (c : CheckpointAccount)
    → attach_anchor_receipt r accounts epoch digest kind ≡ done c
    → (attach_constraints r accounts epoch ≡ true)
      × (accounts.checkpoint.epoch ≡ epoch)
      × (accounts.checkpoint.receipt_digest ≡ no_receipt)
      × (digest ≢ no_receipt)
      × (c ≡ record accounts.checkpoint {
        receipt_digest = digest;
        anchor_kind = anchor_kind_opentimestamps;
      })
unfolding attach_anchor_receipt
attach-done r accounts epoch digest kind c e = (
  ground arith,
  ground arith,
  bytes_eq→eq _ _ (ground arith),
  λ same. ground (arith, same, bytes_eq_refl no_receipt),
  ground arith,
)
