-- ===== src/Program/Checkpoint/Trace.antt =====
-- The log over its life: a checkpoint and a receipt are written once, and the epochs of a log follow
-- one another from its first day, never ahead of the chain's.
use Prim.Native.Nat.{◌≤◌}
use potash.Common.{ℕ, ◌+◌, ◌-◌, ◌≡◌, sym, ap, ◌∙◌, arith, true, Bytes, List, [], ◌∷◌, length}
use mathlib.Core.Path.{subst}
use potash.Common.{some, inl, inr}
use potash.Program.Outcome.{
  Outcome-cases, done, failed, Failure, checkpoint, checkpoint_already_written,
}
use potash.Program.Checkpoint.{
  Pubkey, Funds, Runtime, Clock, LogConfig, CheckpointAccount, Publish, Attach, schema_version,
  checkpoint_len, chain_day, publish_constraints, initialize, publish_checkpoint,
  attach_anchor_receipt,
}
use potash.Program.Checkpoint.SystemCalls.{IsRuntime}
use potash.Program.Checkpoint.Published.{publish-done, publish-ok, publish-refused, attach-done}

-- With the runtime's documented calls and the rent paid: once an epoch's checkpoint is published, a
-- publication to the same account that meets the constraints and the schema is refused with
-- `CheckpointAlreadyWritten`, whatever its epoch, root and time.
pub publish-once :
    (r : Runtime) (clock : Clock) (accounts : Publish) (epoch : ℕ) (root : Bytes) (bump : ℕ)
    → IsRuntime r
    → r.minimum_balance checkpoint_len - accounts.funds.target.lamports ≤ accounts.funds.payer
    → (config : LogConfig) (funds : Funds)
    → publish_checkpoint r clock accounts epoch root bump ≡ done (config, funds)
    → (later : Clock) (again : Publish) (epoch' : ℕ) (root' : Bytes) (bump' : ℕ)
    → again.funds.target ≡ funds.target
    → again.config.schema_version ≡ schema_version
    → publish_constraints r again epoch' bump' ≡ true
    → publish_checkpoint r later again epoch' root' bump'
      ≡ failed (checkpoint checkpoint_already_written)
publish-once r clock accounts epoch root bump law paid config funds e later again epoch' root' bump'
      same schema c =
    let (publishable, _, _) = publish-done r clock accounts epoch root bump config funds e in
    let result = publish-ok r clock accounts epoch root bump law publishable paid in
    publish-refused r later again epoch' root' bump' c schema (ground (arith, same, e, result))
      (ground (arith, same, e, result))

-- Once a receipt is attached to a checkpoint no other is: every later call on it fails.
pub attach-once :
    (r : Runtime) (accounts : Attach) (epoch : ℕ) (digest : Bytes) (kind : ℕ)
    (c : CheckpointAccount)
    → attach_anchor_receipt r accounts epoch digest kind ≡ done c
    → (again : Attach) (epoch' : ℕ) (digest' : Bytes) (kind' : ℕ) → again.checkpoint ≡ c
    → (e : Failure) × (attach_anchor_receipt r again epoch' digest' kind' ≡ failed e)
attach-once r accounts epoch digest kind c attached again epoch' digest' kind' same =
    elim (Outcome-cases (attach_anchor_receipt r again epoch' digest' kind')) [
      | inr refused ↦ refused
      | inl (c', accepted) ↦
          let (_, _, _, value, result) = attach-done r accounts epoch digest kind c attached in
          let (_, _, vacant, _, _) = attach-done r again epoch' digest' kind' c' accepted in
          absurd (value (ap (λ a. a.receipt_digest) (sym result ∙ sym same) ∙ vacant))
    ]

-- An epoch that was published, its root, and the day that the chain had reached.
abbrev pub Entry : Type 0
Entry = ℕ × Bytes × ℕ

-- A log from its initialization, with what it has published, the newest first. Other accounts and
-- other times may be given to each call; the configuration is the log's own.
pub data LogRun (r : Runtime) : LogConfig → List Entry → Type 0 where
  opened :
      (clock : Clock) (bump : ℕ) (authority : Pubkey) (height start : ℕ) (config : LogConfig)
      → initialize clock bump authority height start ≡ done config
      → LogRun r config []
  published :
      {config : LogConfig} {entries : List Entry}
      → LogRun r config entries
      → (clock : Clock) (accounts : Publish) (epoch : ℕ) (root : Bytes) (bump day : ℕ)
      → accounts.config ≡ config
      → (config' : LogConfig) (funds : Funds)
      → publish_checkpoint r clock accounts epoch root bump ≡ done (config', funds)
      → chain_day clock.unix_timestamp ≡ some day
      → LogRun r config' ((epoch, root, day) ∷ entries)

-- The entries end with the log's first epoch, each is the epoch after the one before it, and none is
-- ahead of its day.
abbrev pub Consecutive : ℕ → List Entry → Type 0
Consecutive first [] = Unit
Consecutive first ((epoch, root, day) ∷ rest) =
    (epoch ≡ first + length rest) × (epoch ≤ day) × Consecutive first rest

opened-start :
    (clock : Clock) (bump : ℕ) (authority : Pubkey) (height start : ℕ) (config : LogConfig)
    → initialize clock bump authority height start ≡ done config
    → config.last_epoch + 1 ≡ config.start_epoch
unfolding initialize
opened-start clock bump authority height start config e = ground arith

-- The epochs of a log are consecutive from the day it was initialized, with no gap, no repetition and
-- none ahead of the day on the chain when it was published, and the last one is the configuration's.
pub LogRun-Consecutive :
    (r : Runtime) (config : LogConfig) (entries : List Entry)
    → LogRun r config entries
    → (config.last_epoch + 1 ≡ config.start_epoch + length entries)
      × Consecutive config.start_epoch entries
LogRun-Consecutive r config [] (opened clock bump authority height start _ e) =
    (omega (arith, opened-start clock bump authority height start config e), tt)
LogRun-Consecutive r config' (_ ∷ entries)
      (published {config} run clock accounts epoch root bump day own _ funds e at) =
    let (publishable, result, _) = publish-done r clock accounts epoch root bump config' funds e in
    let (before, rest) = LogRun-Consecutive r config entries run in
    let kept : config'.start_epoch ≡ config.start_epoch =
      ap (λ c. c.start_epoch) result ∙ ap (λ c. c.start_epoch) own in
    (
      omega (
        arith,
        before,
        kept,
        ap (λ c. c.last_epoch) result,
        publishable.next,
        ap (λ c. c.last_epoch) own,
      ),
      (
        omega (arith, before, kept, publishable.next, ap (λ c. c.last_epoch) own),
        (let (_, found, reached) = publishable.reached in ground (arith, found, reached, at)),
        subst (λ first. Consecutive first entries) (sym kept) rest,
      ),
    )
