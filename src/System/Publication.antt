-- ===== src/System/Publication.antt =====
-- worker.rs and the program's lib.rs: a decision to publish is one that the program accepts.
use potash.Common.{ℕ, ◌-◌, ◌/◌, ◌≤◌, ◌≡◌, refl, arith, true, false, some, Bytes}
use potash.Common.Int.{ℤ, pos, negsuc, ltb_ℤ}
use potash.Program.Outcome.{done}
use potash.Program.Checkpoint.{
  Runtime, Clock, Publish, Funds, schema_version, checkpoint_len, data_is_empty, written, chain_day,
  publish_constraints, publish_checkpoint,
}
use potash.Program.Checkpoint.SystemCalls.{IsRuntime}
use potash.Program.Checkpoint.Published.{checkpoint_of, publish-ok}
use potash.Client.Schedule.{Schedule}
use potash.Client.Worker.Policy.{WorkerPolicy}
use potash.Client.Worker.Decision.{Observed, publish, day_index, next_step_with_policy}
use potash.Client.Worker.Publishing.{publish_iff}

-- The accounts that the client sends for an epoch: they meet the constraints, the checkpoint's is
-- still empty, and the payer has what is missing of the rent.
pub record IsPrepared (r : Runtime) (accounts : Publish) (epoch bump : ℕ) : Type 0 where
  pub constraints : publish_constraints r accounts epoch bump ≡ true
  pub schema : accounts.config.schema_version ≡ schema_version
  pub owned : accounts.funds.target.owner ≡ r.system_id
  pub vacant : data_is_empty accounts.funds.target.contents ≡ true
  pub paid :
      r.minimum_balance checkpoint_len - accounts.funds.target.lamports ≤ accounts.funds.payer

-- A chain that is not behind the worker's clock has reached the day that the worker reads off it.
pub chain_day-reached :
    (now chain : ℤ) (day : ℕ)
    → day_index now ≡ some day
    → ltb_ℤ chain now ≡ false
    → (reached : ℕ) × (chain_day chain ≡ some reached) × (day ≤ reached)
unfolding day_index chain_day
chain_day-reached (negsuc n) chain day dated behind = absurd (cc dated)
chain_day-reached (pos n) (negsuc m) day dated behind = absurd (ground (arith, behind))
chain_day-reached (pos n) (pos m) day dated behind =
    (m / 86400, refl, ground (arith, dated, behind))

-- What the worker decides to publish, the program publishes: on the runtime's documented behaviour,
-- with prepared accounts, on the configuration whose last epoch was observed and at a chain time no
-- earlier than the worker's, the instruction succeeds, writes the checkpoint of the root, takes from
-- the payer what was missing of the rent, and moves the configuration's last epoch to the published
-- one. The prepared accounts meet all the constraints of the instruction.
pub publish-Accepted :
    (schedule : Schedule) (policy : WorkerPolicy) (observed : Observed) (r : Runtime)
    (clock : Clock) (accounts : Publish) (epoch : ℕ) (root : Bytes) (bump : ℕ)
    → next_step_with_policy schedule observed policy ≡ publish epoch
    → observed.last_epoch ≡ accounts.config.last_epoch
    → ltb_ℤ clock.unix_timestamp observed.now ≡ false
    → IsRuntime r
    → IsPrepared r accounts epoch bump
    → (funds : Funds) × (publish_checkpoint r clock accounts epoch root bump
        ≡ done (record accounts.config { last_epoch = epoch }, funds))
      × (funds.target.contents ≡ written (checkpoint_of clock epoch root bump))
      × (funds.payer
          ≡ accounts.funds.payer
            - (r.minimum_balance checkpoint_len - accounts.funds.target.lamports))
publish-Accepted schedule policy observed r clock accounts epoch root bump decided read ahead law
      p =
    let ready = (publish_iff schedule policy observed epoch).0 decided in
    let (day, at, reached) =
      chain_day-reached observed.now clock.unix_timestamp ready.day ready.dated ahead in
    (
      _,
      publish-ok r clock accounts epoch root bump law
          (record {
            constraints = p.constraints;
            schema = p.schema;
            owned = p.owned;
            vacant = p.vacant;
            next = omega (arith, ready.next, read);
            fits = ready.fits;
            reached = (day, at, omega (arith, ready.reached, reached));
          })
          p.paid,
      refl,
      refl,
    )
