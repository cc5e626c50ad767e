-- ===== src/Examples/Observing.antt =====
-- Receipts, a transferred promise and an observation.
use potash.Common.{
  ℕ, if◌then◌else◌, false, ◌*◌, ◌≡◌, inl, refl, arith, Bool, Option, none, some, [], ◌∷◌, Bytes,
  replicate, leb, bytes_eq,
}
use potash.Common.Int.{pos}
use potash.Common.Early.{Early, go}
use potash.Core.Hash.{Digest, Verifier}
use potash.Core.Error.{ok}
use potash.Log.Promise.{SignedPromise, encode_promise, verify_promise}
use potash.Log.Promise.Encoding.{IsPromise}
use potash.Log.Promise.Policy.{verify_promise-accepts_iff}
use potash.Program.Checkpoint.{Pubkey, LogConfig}
use potash.Client.Schedule.{deployed}
use potash.Client.Worker.Policy.{production}
use potash.Client.Worker.Decision.{Observed, seen, day_index, next_step_with_policy}
use potash.Client.Bitcoin.Confirm.{confirm}
use potash.Client.Receipt.{
  Timestamp, step, bitcoin, another, done, then_also, Crates, Established, verify_receipt,
  verify_transferred_promise, first_confirmed, only_confirmed, judge_against_confirmation,
}
use potash.Client.Receipt.Transferred.{Transferred, verify_transferred_promise-Transferred}
use potash.Client.Fetch.{
  Framework, RootSource, Unreachable, config_address, checkpoint_address, decode_config,
}
use potash.Client.Fetch.Lag.{
  Lag, sequence_lag, read_batches, read_batch, judge_batch, judge_epoch, batches_of, chunks,
  epochs_from,
}
use potash.Client.Fetch.Missing.{before_start, after_last}
use potash.Client.Fetch.Views.{sequence_lag-partition}
use potash.Client.Fetch.Observe.{AnchorStatus, single, dual, observe, scan, see}
use potash.Client.Fetch.Accepted.{FitsTheLog, observe-FitsTheLog}
use potash.System.Receipts.{Desk}
use potash.Examples.Toy.{toy}
use potash.Examples.Headers.{easy, blocks, start, claim, deep, claim_confirmed}

-- A calendar's branch, then one that Bitcoin attests.
abbrev parsed : Timestamp
parsed = record {
  start_digest = replicate 32 1;
  first_step = step another [] (
      then_also (step another [] done)
        (then_also (step (bitcoin 400002) (replicate 32 9) done) done));
}

abbrev pub parse : Bytes → Option Timestamp
parse receipt = some parsed

abbrev pub sha256 : Bytes → Digest
sha256 message = replicate 32 1

abbrev trusting : Verifier
trusting = record {
  verify = λ key message signature. ok tt;
  verify_codes = λ key message signature. inl refl;
}

abbrev promised : SignedPromise
promised = record {
  leaf = replicate 32 2;
  submission_id = replicate 16 3;
  accepted_epoch = 19675;
  promised_epoch = 19676;
  max_merge_delay = 2;
  batcher_key = replicate 32 5;
  signature = replicate 64 7;
}

promised-IsPromise : IsPromise promised
promised-IsPromise = record {
  leaf = refl;
  submission = refl;
  accepted = omega arith;
  promised = omega arith;
  key = refl;
  signature = refl;
}

abbrev crates : Crates
crates = record { parse = parse; sha256 = sha256; sha256d = easy }

abbrev established : Established
established = record { by_block = deep; existed_by_epoch = 19675 }

accepted : verify_promise toy trusting promised (replicate 32 5) 19675 ≡ ok tt
accepted =
    (verify_promise-accepts_iff toy trusting promised (replicate 32 5) 19675 promised-IsPromise).1
      record {
        expected = refl;
        delay = refl;
        not_backwards = omega arith;
        not_deferred = omega arith;
        not_ahead = omega arith;
        recent = omega arith;
        signed = refl;
      }

claimed : verify_receipt parse sha256 [] (encode_promise promised) ≡ go claim
unfolding verify_receipt first_confirmed bytes_eq
claimed = refl

transfer :
    verify_transferred_promise crates toy trusting promised (replicate 32 5) [] start blocks
    ≡ go established
unfolding verify_transferred_promise confirm only_confirmed judge_against_confirmation day_index
transfer = rw (claimed, claim_confirmed, accepted) refl

verify_transferred_promise-Transferred_example :
    Transferred crates toy trusting promised (replicate 32 5) [] start blocks established
verify_transferred_promise-Transferred_example =
    verify_transferred_promise-Transferred crates toy trusting promised (replicate 32 5) [] start
      blocks established promised-IsPromise transfer

abbrev program : Pubkey
program = replicate 32 8

-- A log from epoch 20700 to 20702.
abbrev config : LogConfig
config = record {
  schema_version = 1;
  authority = replicate 32 4;
  last_epoch = 20702;
  tree_height = 4;
  bump = 255;
  start_epoch = 20700;
  reserved = replicate 8 0;
}

abbrev framework : Framework
framework = record {
  checkpoint_discriminator = replicate 8 1;
  config_discriminator = replicate 8 2;
  deserialize_checkpoint = λ bytes. none;
  deserialize_config = λ bytes. some config;
  find_program_address = λ seeds program_id. (replicate 32 6, 255);
}

abbrev source : RootSource
source = record {
  account_at = λ address. go (record { slot = none; account = none });
  accounts_at = λ addresses.
      go (record { slot = none; accounts = some (program, replicate 68 2) ∷ none ∷ [] });
}

abbrev status_at : ℕ → Early Unreachable AnchorStatus
status_at epoch = go single

abbrev receipt_exists : ℕ → Bool
receipt_exists epoch = leb epoch 20701

abbrev observation : Observed
observation = seen (pos (20704 * 86400)) 20700 20702 (some 20700) (some 20701) (some 20700)

observes :
    observe framework program source status_at receipt_exists (pos (20704 * 86400)) 20704
    ≡ go observation
unfolding observe sequence_lag read_batches read_batch judge_batch judge_epoch batches_of chunks
    epochs_from config_address checkpoint_address decode_config bytes_eq scan see
observes = refl

observe-FitsTheLog_example : FitsTheLog (next_step_with_policy deployed observation production)
observe-FitsTheLog_example =
    observe-FitsTheLog framework program source status_at receipt_exists (pos (20704 * 86400)) 20704
      observation deployed production observes

-- The two days after the log's last.
abbrev lag_there : Lag
lag_there = record {
  start_epoch = 20700;
  last_published = 20702;
  before_log_start = [];
  not_yet_published = 20703 ∷ 20704 ∷ [];
  refused = [];
  views = 1;
  configuration_moved = false;
}

abbrev wide_source : RootSource
wide_source = record {
  account_at = λ address. go (record { slot = none; account = none });
  accounts_at = λ addresses.
      go (record { slot = none; accounts = some (program, replicate 68 2) ∷ none ∷ none ∷ [] });
}

reads_lag : sequence_lag framework program wide_source 20703 20704 ≡ go lag_there
unfolding sequence_lag read_batches read_batch judge_batch judge_epoch batches_of chunks epochs_from
    config_address checkpoint_address decode_config bytes_eq
reads_lag = refl

sequence_lag-partition_example :
    ([] ≡ before_start 20700 (epochs_from 20703 2))
    × ((20703 ∷ 20704 ∷ []) ≡ after_last 20700 20702 (epochs_from 20703 2))
sequence_lag-partition_example =
    sequence_lag-partition framework program wide_source 20703 20704 lag_there reads_lag refl

-- The log's last epoch is published and no more.
abbrev desk : Desk
desk = record {
  exists = λ epoch. leb epoch 20701;
  standing = λ epoch. if leb epoch 20701 then dual else single;
}

abbrev read_lag : Lag
read_lag = record {
  start_epoch = 20700;
  last_published = 20702;
  before_log_start = [];
  not_yet_published = 20704 ∷ [];
  refused = [];
  views = 1;
  configuration_moved = false;
}
