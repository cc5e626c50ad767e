-- ===== src/System/Daily.antt =====
-- worker.rs and the program's lib.rs: a worker that is well served each day keeps the log without end.
use potash.Common.{
  ℕ, zero, suc, ◌+◌, ◌-◌, ◌*◌, ◌^◌, ◌/◌, ◌≤◌, ◌<◌, ◌≡◌, ◌≢◌, refl, sym, ap, ◌∙◌, arith, false, some,
  subst, ◌==◌, inl, inr, bytes_eq, bytes_eq_refl, bytes_eq→eq, Bool-cases,
}
use potash.Common.Int.{ℤ, pos, negsuc, ltb_ℤ}
use potash.Program.Outcome.{done}
use potash.Program.Checkpoint.{
  Pubkey, Runtime, Clock, LogConfig, Funds, checkpoint_len, written, chain_day, schema_version,
  initialize, publish_constraints,
}
use potash.Program.Checkpoint.SystemCalls.{IsRuntime}
use potash.Program.Checkpoint.Published.{checkpoint_of}
use potash.Client.Schedule.{deployed, publication_time-deployed}
use potash.Client.Worker.Policy.{production, last_publishable_day}
use potash.Client.Worker.Decision.{Observed, publish, next_step, next_step_with_policy, day_index}
use potash.Client.Worker.Publishing.{publish_iff}
use potash.System.Publication.{IsPrepared, chain_day-reached, publish-Accepted}
use potash.System.Chain.{
  IsCaughtUp, Chain, Sender, Service, IsServed, accounts_in, with_accounts, carry_out, serve,
  IsSender, IsVacant, Stands,
}

-- Any representable publication time.
abbrev pub IsDatable : ℕ → Type 0
IsDatable epoch = epoch * 86400 + 90000 < 2 ^ 63

pub decides :
    (config : LogConfig) (observed : Observed)
    → IsCaughtUp config observed
    → config.start_epoch ≤ config.last_epoch + 1
    → IsDatable (config.last_epoch + 1)
    → next_step_with_policy deployed observed production ≡ publish (config.last_epoch + 1)
unfolding day_index last_publishable_day
decides config observed c begun datable =
    (publish_iff deployed production observed (config.last_epoch + 1)).1 (record {
      day = c.time / 86400;
      at = pos ((config.last_epoch + 1 + 1) * 86400 + 3600);
      dated = rw c.now refl;
      next = omega (arith, c.last);
      started = omega (arith, c.start);
      reached = omega (arith, c.open_from);
      fits = omega arith;
      in_slip = ground (arith, c.open_until, datable);
      idle = c.attached;
      submitted = c.submitted;
      scheduled = (publication_time-deployed (config.last_epoch + 1) datable).0;
      due = rw c.now (ground (arith, c.open_from));
    })

-- The chain's clock that is not behind a worker which publishes is past the epoch.
over :
    (config : LogConfig) (observed : Observed) (chain : ℤ) (day : ℕ)
    → IsCaughtUp config observed
    → ltb_ℤ chain observed.now ≡ false
    → chain_day chain ≡ some day
    → config.last_epoch + 1 < day
unfolding chain_day
over config observed (negsuc m) day c ahead at =
    absurd (ground (arith, ap (ltb_ℤ (negsuc m)) c.now, ahead))
over config observed (pos m) day c ahead at =
    let le : c.time ≤ m = ground (arith, ap (ltb_ℤ (pos m)) c.now, ahead) in
    ground (arith, at, c.open_from, le)

still_paid :
    (left rent payer held : ℕ)
    → (left + 1) * rent ≤ payer
    → (rent - held ≤ payer) × (left * rent ≤ payer - (rent - held))
still_paid left rent payer held paid = (omega arith, omega arith)

module _ (r : Runtime) (law : IsRuntime r) (sender : Sender) (s : Service) (served : IsServed s)
    (opened : LogConfig) (keys : IsSender r sender opened) where
  -- The chain after the days' publications, with what is left for more of them.
  record IsKept (days left : ℕ) (c : Chain) : Type 0 where
    last : c.config.last_epoch + 1 ≡ opened.start_epoch + days
    start : c.config.start_epoch ≡ opened.start_epoch
    schema : c.config.schema_version ≡ schema_version
    authority : c.config.authority ≡ opened.authority
    bump : c.config.bump ≡ opened.bump
    paid : left * r.minimum_balance checkpoint_len ≤ c.payer
    stand :
        (epoch : ℕ)
        → opened.start_epoch ≤ epoch
        → epoch < opened.start_epoch + days
        → Stands r sender c epoch
    vacant :
        (epoch : ℕ) → opened.start_epoch + days ≤ epoch → epoch < 2 ^ 64 → IsVacant r sender c epoch

  ready :
      (days left : ℕ) (c : Chain)
      → IsKept days (suc left) c
      → c.config.last_epoch + 1 < 2 ^ 64
      → IsPrepared r
          (accounts_in r sender c (c.config.last_epoch + 1))
          (c.config.last_epoch + 1)
          (sender.bump (c.config.last_epoch + 1))
  unfolding publish_constraints
  ready days left c k fits =
      let (owned, vacant) = k.vacant (c.config.last_epoch + 1) (omega (arith, k.last)) fits in
      record {
        constraints =
            rw
              (
                bytes_eq_refl r.program_id,
                k.bump,
                keys.config_key,
                bytes_eq_refl sender.config_key,
                k.authority,
                keys.authority,
                bytes_eq_refl sender.authority,
                keys.derived (c.config.last_epoch + 1) fits,
                bytes_eq_refl (sender.address (c.config.last_epoch + 1)),
                bytes_eq_refl r.system_id,
              )
              refl;
        schema = k.schema;
        owned = owned;
        vacant = vacant;
        paid =
            (still_paid left (r.minimum_balance checkpoint_len) c.payer _
              (omega (arith, k.paid))).0;
      }

  unchanged :
      (c : Chain) (epoch other : ℕ) (config : LogConfig) (funds : Funds)
      → epoch < 2 ^ 64
      → other < 2 ^ 64
      → other ≢ epoch
      → (with_accounts r sender c epoch (config, funds)).at (sender.address other)
        ≡ c.at (sender.address other)
  unchanged c epoch other config funds fits other_fits differ =
      elim (Bool-cases (bytes_eq (sender.address other) (sender.address epoch))) [
        | inl same ↦ absurd (differ (keys.apart other epoch other_fits fits (bytes_eq→eq _ _ same)))
        | inr apart ↦ rw apart refl
      ]

  -- The publication of an epoch leaves the checkpoints that stand, and adds its own.
  stand_after :
      (c : Chain) (epoch other : ℕ) (config : LogConfig) (funds : Funds) (clock : Clock) (day : ℕ)
      → epoch < 2 ^ 64
      → other ≤ epoch
      → (other < epoch → Stands r sender c other)
      → chain_day clock.unix_timestamp ≡ some day
      → epoch < day
      → funds.target.contents
        ≡ written (checkpoint_of clock epoch (sender.root epoch) (sender.bump epoch))
      → Stands r sender (with_accounts r sender c epoch (config, funds)) other
  stand_after c epoch other config funds clock day fits reached earlier at past contents =
      elim (Bool-cases (other == epoch)) [
        | inl same ↦
            let here : other ≡ epoch = ground arith in
            let new : Stands r sender (with_accounts r sender c epoch (config, funds)) epoch =
              record {
                clock = clock;
                day = day;
                at = at;
                over = past;
                holds = rw (bytes_eq_refl (sender.address epoch)) contents;
              } in
            subst (Stands r sender (with_accounts r sender c epoch (config, funds))) (sym here) new
        | inr differ ↦
            let old = earlier (ground arith) in
            record {
              clock = old.clock;
              day = old.day;
              at = old.at;
              over = old.over;
              holds =
                  ap (λ a. a.contents)
                    (unchanged c epoch other config funds fits (omega arith)
                      (λ h. ground (arith, h)))
                  ∙ old.holds;
            }
      ]

  next_day :
      (days left : ℕ) (c : Chain)
      → IsKept days (suc left) c
      → IsDatable (opened.start_epoch + days)
      → (later : Chain) × (carry_out r sender
            (s.clock c.config)
            c
            (next_step deployed (s.observed c.config))
          ≡ done later)
        × IsKept (suc days) left later
  unfolding next_step day_index
  next_day days left c k datable =
      let observed = s.observed c.config in
      let clock = s.clock c.config in
      let epoch = c.config.last_epoch + 1 in
      let seen = served.caught_up c.config in
      let decision =
        decides c.config observed seen (omega (arith, k.start, k.last))
          (omega (arith, k.last, datable)) in
      let prepared = ready days left c k (omega (arith, k.last, datable)) in
      let (funds, made, contents, paid) =
        publish-Accepted deployed production observed r clock (accounts_in r sender c epoch) epoch
          (sender.root epoch) (sender.bump epoch) decision seen.last (served.not_behind c.config)
          law prepared in
      let (day, at, _) =
        chain_day-reached observed.now clock.unix_timestamp _ (ap day_index seen.now)
          (served.not_behind c.config) in
      (
        with_accounts r sender c epoch (record c.config { last_epoch = epoch }, funds),
        rw (decision, made) refl,
        record {
          last = omega (arith, k.last);
          start = k.start;
          schema = k.schema;
          authority = k.authority;
          bump = k.bump;
          paid =
              rw paid
                (still_paid left (r.minimum_balance checkpoint_len) c.payer _
                  (omega (arith, k.paid))).1;
          stand = λ other begun before.
              stand_after c epoch other _ funds clock day (omega (arith, k.last, datable))
                (omega (arith, k.last)) (λ earlier. k.stand other begun (omega (arith, k.last))) at
                (over c.config observed clock.unix_timestamp day seen (served.not_behind c.config)
                  at)
                contents;
          vacant = λ other after fits.
              rw
                (unchanged c epoch other (record c.config { last_epoch = epoch }) funds
                  (omega (arith, k.last, datable)) fits (λ h. omega (arith, k.last)))
                (k.vacant other (omega arith) fits);
        },
      )

  kept :
      (left days total : ℕ) (c : Chain)
      → IsKept 0 total c
      → left + days ≡ total
      → IsDatable (opened.start_epoch + days)
      → (later : Chain) × (serve r sender s days c ≡ done later) × IsKept days left later
  unfolding serve
  kept left zero total c k sum datable = (c, refl, subst (λ n. IsKept 0 n c) (omega arith) k)
  kept left (suc days) total c k sum datable =
      let (mid, served_until, k') = kept (suc left) days total c k (omega arith) (omega arith) in
      let (later, carried, k'') = next_day days left mid k' (omega arith) in
      (later, rw (served_until, carried) refl, k'')

-- The log and the payer's funds at the start: nobody has taken the address of an epoch from the first
-- one on, and the payer has the rent of the days' checkpoints.
pub record IsOpened (r : Runtime) (sender : Sender) (config : LogConfig) (days : ℕ) (c : Chain)
    : Type 0 where
  pub own : c.config ≡ config
  pub vacant : (epoch : ℕ) → config.start_epoch ≤ epoch → epoch < 2 ^ 64 → IsVacant r sender c epoch
  pub paid : days * r.minimum_balance checkpoint_len ≤ c.payer

opened_with :
    (clock : Clock) (bump : ℕ) (authority : Pubkey) (height start : ℕ) (config : LogConfig)
    → initialize clock bump authority height start ≡ done config
    → (config.start_epoch ≡ start)
      × (config.last_epoch + 1 ≡ start + 0)
      × (config.schema_version ≡ schema_version)
unfolding initialize
opened_with clock bump authority height start config e = (ground arith, ground arith, ground arith)

-- With the runtime's documented behaviour, derived addresses that differ, a payer with the rent of
-- the days, and a chain on which nobody has taken the addresses, take a worker that each day sees
-- the log with its last epoch submitted and attached, on the day on which the next one is due and
-- from an hour past midnight on, while the chain's clock is not behind. After any number of days
-- that can be dated, each of which is one decision of the production worker and its execution on
-- the accounts that the days before left, every epoch of those days has its checkpoint on the
-- chain, with its root and written after its day was over there, and the configuration's last epoch
-- is the last.
pub kept-each_day :
    (r : Runtime) (law : IsRuntime r) (sender : Sender) (s : Service) (served : IsServed s)
    (clock : Clock) (bump : ℕ) (authority : Pubkey) (height start : ℕ) (config : LogConfig)
    → initialize clock bump authority height start ≡ done config
    → IsSender r sender config
    → (days : ℕ) (c : Chain) → IsDatable (start + days)
    → IsOpened r sender config days c
    → (later : Chain) × (serve r sender s days c ≡ done later)
      × (later.config.last_epoch + 1 ≡ start + days)
      × ((epoch : ℕ) → start ≤ epoch → epoch < start + days → Stands r sender later epoch)
kept-each_day r law sender s served clock bump authority height start config e keys days c datable
      opened =
    let (first, last, schema) = opened_with clock bump authority height start config e in
    let begun : IsKept r law sender s served config keys 0 days c = record {
      last = ap (λ x. x.last_epoch + 1) opened.own ∙ last ∙ ap (λ n. n + 0) (sym first);
      start = ap (λ x. x.start_epoch) opened.own;
      schema = ap (λ x. x.schema_version) opened.own ∙ schema;
      authority = ap (λ x. x.authority) opened.own;
      bump = ap (λ x. x.bump) opened.own;
      paid = omega (arith, opened.paid);
      stand = λ epoch from before. absurd (omega arith);
      vacant = λ epoch from fits. opened.vacant epoch (omega arith) fits;
    } in
    let (later, run, k) =
      kept r law sender s served config keys 0 days days c begun (omega arith)
        (omega (arith, first)) in
    (
      later,
      run,
      omega (arith, first, k.last),
      λ epoch from before. k.stand epoch (omega (arith, first)) (omega (arith, first)),
    )
