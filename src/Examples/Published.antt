-- ===== src/Examples/Published.antt =====
-- A runtime, a log of one day, its checkpoint and a receipt.
use potash.Common.{ℕ, List, ◌+◌, ◌-◌, ◌*◌, ◌≡◌, refl, arith, true, [], ◌∷◌, ◌++◌, some, take}
use potash.Core.Preimage.{concat}
use potash.Common.{Bytes, replicate, bytes_eq, le_bytes, leb, if◌then◌else◌}
use potash.Common.Int.{pos}
use potash.Program.Outcome.{done, failed, Failure, checkpoint, system, checkpoint_already_written}
use potash.Program.Checkpoint.{
  config_seed, checkpoint_seed, Pubkey, Funds, Runtime, Clock, LogConfig, CheckpointAccount,
  Publish, Attach, empty, zeroed, written, today, chain_day, publish_constraints, initialize,
  create_checkpoint, publish_checkpoint, attach_constraints, attach_anchor_receipt,
}
use potash.Program.Checkpoint.SystemCalls.{IsRuntime}
use potash.Program.Checkpoint.Published.{IsPublishable, checkpoint_of, publish-done, publish-ok}
use potash.Program.Checkpoint.Trace.{
  publish-once, attach-once, LogRun, LogRun-Consecutive, Consecutive,
}

abbrev pub program : Pubkey
program = replicate 32 1

abbrev pub authority : Pubkey
authority = replicate 32 2

-- The seeds themselves, up to the width of an address.
abbrev derived : List Bytes → Pubkey
derived seeds = take 32 (concat seeds ++ replicate 32 0)

abbrev pub config_address : Pubkey
config_address = derived (config_seed ∷ (255 ∷ []) ∷ [])

abbrev pub address_of : ℕ → Pubkey
address_of epoch = derived (checkpoint_seed ∷ le_bytes 8 epoch ∷ (254 ∷ []) ∷ [])

-- The system program's calls as it documents them, with its own address all zeros.
abbrev pub runtime : Runtime
runtime = record {
  program_id = program;
  system_id = replicate 32 0;
  minimum_balance = λ size. 128 + size;
  create_program_address = λ seeds. some (derived seeds);
  create_account = λ f lamports size owner.
      if leb lamports f.payer
      then done (record {
        payer = f.payer - lamports;
        target = record { owner = owner; lamports = lamports; contents = zeroed size };
      })
      else failed (system 1);
  transfer = λ f n.
      if leb n f.payer
      then done (record {
        payer = f.payer - n;
        target = record f.target { lamports = f.target.lamports + n };
      })
      else failed (system 1);
  allocate = λ f size. done (record f { target = record f.target { contents = zeroed size } });
  assign = λ f owner. done (record f { target = record f.target { owner = owner } });
}

pub runtime-IsRuntime : IsRuntime runtime
runtime-IsRuntime = record {
  distinct = λ same. cc;
  creates = λ f lamports size owner owned vacant none_held small paid. ground (arith, paid);
  transfers = λ f n paid. ground (arith, paid);
  allocates = λ f size owned vacant small. refl;
  assigns = λ f owner owned. refl;
}

-- Noon of day 20723.
abbrev pub noon : Clock
noon = record { unix_timestamp = pos (20723 * 86400 + 43200); slot = 77 }

abbrev pub config : LogConfig
config = record {
  schema_version = 1;
  authority = authority;
  last_epoch = 20722;
  tree_height = 8;
  bump = 255;
  start_epoch = 20723;
  reserved = replicate 8 0;
}

-- Somebody has funded the address with 10 lamports.
abbrev accounts : Publish
accounts = record {
  config_key = config_address;
  config_owner = program;
  config_writable = true;
  config = config;
  checkpoint_key = address_of 20723;
  checkpoint_writable = true;
  authority = authority;
  authority_signed = true;
  payer_signed = true;
  payer_writable = true;
  system_program = replicate 32 0;
  funds = record {
    payer = 1000;
    target = record { owner = replicate 32 0; lamports = 10; contents = empty };
  };
}

abbrev pub root : Bytes
root = replicate 32 8

abbrev config_after : LogConfig
config_after = record config { last_epoch = 20723 }

abbrev funds_after : Funds
funds_after = record {
  payer = 776;
  target = record {
    owner = program;
    lamports = 234;
    contents = written (checkpoint_of noon 20723 root 254);
  };
}

publishes :
    publish_checkpoint runtime noon accounts 20723 root 254 ≡ done (config_after, funds_after)
unfolding publish_checkpoint publish_constraints create_checkpoint chain_day bytes_eq le_bytes
publishes = refl

accounts-IsPublishable : IsPublishable runtime noon accounts 20723 254
accounts-IsPublishable =
    (publish-done runtime noon accounts 20723 root 254 config_after funds_after publishes).0

publish-ok_example :
    publish_checkpoint runtime noon accounts 20723 root 254 ≡ done (config_after, funds_after)
publish-ok_example =
    publish-ok runtime noon accounts 20723 root 254 runtime-IsRuntime accounts-IsPublishable
      (omega arith)

publish-once_example :
    publish_checkpoint runtime noon
      (record accounts { config = config_after; funds = funds_after })
      20723
      root
      254
    ≡ failed (checkpoint checkpoint_already_written)
unfolding publish_constraints bytes_eq le_bytes
publish-once_example =
    publish-once runtime noon accounts 20723 root 254 runtime-IsRuntime (omega arith) config_after
      funds_after publishes noon (record accounts { config = config_after; funds = funds_after })
      20723 root 254 refl refl refl

abbrev attaching : Attach
attaching = record {
  config_key = config_address;
  config_owner = program;
  config = config_after;
  checkpoint_key = address_of 20723;
  checkpoint_owner = program;
  checkpoint_writable = true;
  checkpoint = checkpoint_of noon 20723 root 254;
  authority = authority;
  authority_signed = true;
}

abbrev attached : CheckpointAccount
attached = record (checkpoint_of noon 20723 root 254) {
  receipt_digest = replicate 32 4;
  anchor_kind = 1;
}

attaches : attach_anchor_receipt runtime attaching 20723 (replicate 32 4) 1 ≡ done attached
unfolding attach_anchor_receipt attach_constraints bytes_eq le_bytes
attaches = refl

attach-once_example :
    (e : Failure) × (attach_anchor_receipt runtime
        (record attaching { checkpoint = attached })
        20723
        (replicate 32 6)
        1
      ≡ failed e)
attach-once_example =
    attach-once runtime attaching 20723 (replicate 32 4) 1 attached attaches
      (record attaching { checkpoint = attached }) 20723 (replicate 32 6) 1 refl

first_day : LogRun runtime config []
unfolding initialize today
first_day = LogRun.opened noon 255 authority 8 20723 config refl

LogRun-Consecutive_example : (20724 ≡ 20723 + 1) × Consecutive 20723 ((20723, root, 20723) ∷ [])
unfolding chain_day
LogRun-Consecutive_example = LogRun-Consecutive runtime config_after ((20723, root, 20723) ∷ []) (
    LogRun.published first_day noon accounts 20723 root 254 20723 refl config_after funds_after
      publishes refl)
