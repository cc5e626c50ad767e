-- ===== src/Examples/System.antt =====
-- A worker that is served each day at one o'clock, on the runtime of the other examples.
use potash.Common.{
  ℕ, ◌+◌, ◌-◌, ◌*◌, ◌^◌, ◌≤◌, ◌<◌, take, drop, le_bytes, from_le_bytes, from_le_bytes-le_bytes, sym,
  ◌∙◌, bytes_eq, if◌then◌else◌, ap, ◌≡◌, refl, arith, false, none, some, replicate, inl,
}
use potash.Common.Int.{ℤ, pos, ltb_ℤ}
use potash.Program.Outcome.{done}
use potash.Program.Checkpoint.{
  Clock, LogConfig, Funds, empty, written, initialize, today, publish_constraints,
  publish_checkpoint,
}
use potash.Program.Checkpoint.Published.{checkpoint_of}
use potash.Client.Schedule.{deployed}
use potash.Client.Worker.Policy.{production}
use potash.Client.Worker.Decision.{Observed, seen}
use potash.System.Publication.{IsPrepared, publish-Accepted}
use potash.System.Chain.{
  IsCaughtUp, Service, IsServed, Sender, IsSender, Chain, Stands, accounts_in, serve,
}
use potash.System.Daily.{IsOpened, kept-each_day, decides}
use potash.Examples.Published.{
  runtime, runtime-IsRuntime, authority, address_of, config_address, noon, config, root,
}

abbrev one_o_clock : LogConfig → ℤ
one_o_clock c = pos ((c.last_epoch + 2) * 86400 + 3600)

abbrev morning : LogConfig → Observed
morning c = seen (one_o_clock c) c.start_epoch c.last_epoch none (some c.last_epoch) none

abbrev clock_at : LogConfig → Clock
clock_at c = record { unix_timestamp = one_o_clock c; slot = 77 }

abbrev sender : Sender
sender = record {
  config_key = config_address;
  authority = authority;
  address = address_of;
  bump = λ epoch. 254;
  root = λ epoch. root;
}

same_epoch :
    (epoch other : ℕ)
    → epoch < 2 ^ 64
    → other < 2 ^ 64
    → address_of epoch ≡ address_of other
    → epoch ≡ other
unfolding le_bytes
same_epoch epoch other fits other_fits same =
    sym (from_le_bytes-le_bytes 8 epoch (omega arith))
    ∙ ap (λ key. from_le_bytes (take 8 (drop 7 key))) same
    ∙ from_le_bytes-le_bytes 8 other (omega arith)

keys : IsSender runtime sender config
keys = record {
  authority = refl;
  config_key = refl;
  derived = λ epoch fits. refl;
  apart = same_epoch;
}

caught_up : (c : LogConfig) → IsCaughtUp c (morning c)
caught_up c = record {
  time = (c.last_epoch + 2) * 86400 + 3600;
  now = refl;
  open_from = omega arith;
  open_until = omega arith;
  start = refl;
  last = refl;
  attached = refl;
  submitted = inl refl;
}

not_behind : (c : LogConfig) → ltb_ℤ (clock_at c).unix_timestamp (morning c).now ≡ false
not_behind c = ground arith

abbrev service : Service
service = record { observed = morning; clock = clock_at }

service-IsServed : IsServed service
service-IsServed = record { caught_up = caught_up; not_behind = not_behind }

initialized : initialize noon 255 authority 8 20723 ≡ done config
unfolding initialize today
initialized = refl

-- Every address is empty, but for a few lamports that somebody has sent to the second epoch's.
abbrev chain : Chain
chain = record {
  config = config;
  payer = 10000;
  at = λ key. record {
    owner = replicate 32 0;
    lamports = if bytes_eq key (address_of 20724) then 10 else 0;
    contents = empty;
  };
}

chain-IsOpened : IsOpened runtime sender config 30 chain
chain-IsOpened = record {
  own = refl;
  vacant = λ epoch begun fits. (refl, refl);
  paid = omega arith;
}

kept-each_day_example :
    (later : Chain) × (serve runtime sender service 30 chain ≡ done later)
    × (later.config.last_epoch + 1 ≡ 20723 + 30)
    × ((epoch : ℕ) → 20723 ≤ epoch → epoch < 20723 + 30 → Stands runtime sender later epoch)
kept-each_day_example =
    kept-each_day runtime runtime-IsRuntime sender service service-IsServed noon 255 authority 8
      20723 config initialized keys 30 chain (omega arith) chain-IsOpened

prepared : IsPrepared runtime (accounts_in runtime sender chain 20723) 20723 254
unfolding publish_constraints bytes_eq le_bytes
prepared = record {
  constraints = refl;
  schema = refl;
  owned = refl;
  vacant = refl;
  paid = omega arith;
}

publish-Accepted_example :
    (funds : Funds) × (publish_checkpoint runtime
        (clock_at config)
        (accounts_in runtime sender chain 20723)
        20723
        root
        254
      ≡ done (record config { last_epoch = 20723 }, funds))
    × (funds.target.contents ≡ written (checkpoint_of (clock_at config) 20723 root 254))
    × (funds.payer ≡ 10000 - (234 - (chain.at (address_of 20723)).lamports))
publish-Accepted_example =
    publish-Accepted deployed production (morning config) runtime (clock_at config)
      (accounts_in runtime sender chain 20723) 20723 root 254
      (decides config (morning config) (caught_up config) (omega arith) (omega arith)) refl
      (not_behind config) runtime-IsRuntime prepared
