-- ===== src/Examples/Turning.antt =====
-- A turn of the worker that publishes.
use potash.Common.{
  ℕ, ◌+◌, ◌*◌, ◌≡◌, ◌≢◌, refl, arith, none, some, [], ◌∷◌, true, false, replicate, bytes_eq,
  le_bytes,
}
use potash.Common.Early.{stop, go}
use potash.Core.Preimage.{preimage_bytes, write_preimage, precheck, tag, fields}
use potash.Program.Checkpoint.{LogConfig, CheckpointAccount}
use potash.Client.Schedule.{deployed, publication_time}
use potash.Client.Worker.Policy.{production, last_publishable_day}
use potash.Client.Worker.Decision.{
  Observed, publish, day_index, next_step_with_policy, today, newest_publishable, check_awaiting,
  check_submitted, submitted_through, is_none_or_below, when_due,
}
use potash.Client.Handoff.{encode}
use potash.Client.Handoff.Encoding.{decode-encode}
use potash.Client.Handoff
use potash.Client.Fetch.{
  Framework, transport, root_for_epoch, root_for_epoch_at, fetched_in, decode_checkpoint,
  decode_config, config_address,
}
use potash.Client.Fetch.Lag.{
  sequence_lag, read_batches, read_batch, judge_batch, judge_epoch, batches_of, chunks, epochs_from,
}
use potash.Client.Fetch.Observe.{
  ObserveFailed, configuration, dual, observe, scan, see, no_signature, lineage_of,
}
use potash.Client.Publication.{classify, settle, should_retry}
use potash.Client.ErrorCode.{
  program_error_code, after_marker, strip_prefix, from_hex, read_hex, hex_digit,
}
use potash.Client.Cluster
use potash.Client.Cluster.{
  AnchorRef, send_publish, reference, wrote_it, settle_against_chain, by_outcome, after_send,
}
use potash.Service.Producer.{root_for}
use potash.Service.Worker.{Surroundings, Sight, exhausted, turn, act, observed_at, went, published}
use potash.Service.Turns.{Due, Issued, turn-Publishes}
use potash.Service.Loop.{Clocked, answer, loop, loop-blind, loop-seeing}
use potash.Examples.Toy.{toy}
use potash.Examples.Publishing.{program, endpoint, source}
use potash.Examples.Worker.{quarter_past, due_log, trusting, key, given, given-IsHandoff}

-- The log from 20700 to 20722, on a day after 20723.
abbrev config : LogConfig
config = record {
  schema_version = 1;
  authority = replicate 32 4;
  last_epoch = 20722;
  tree_height = 4;
  bump = 255;
  start_epoch = 20700;
  reserved = replicate 8 0;
}

abbrev written : CheckpointAccount
written = record {
  schema_version = 1;
  epoch = 20723;
  root = given.root;
  published_slot = 77;
  published_unix = quarter_past;
  receipt_digest = replicate 32 0;
  anchor_kind = 0;
  bump = 255;
  reserved = replicate 8 0;
}

abbrev framework : Framework
framework = record {
  checkpoint_discriminator = replicate 8 1;
  config_discriminator = replicate 8 2;
  deserialize_checkpoint = λ bytes. some written;
  deserialize_config = λ bytes. some config;
  find_program_address = λ seeds program_id. (replicate 32 6, 255);
}

abbrev sight : Sight
sight = record {
  source = record {
    account_at = source.account_at;
    accounts_at = λ addresses.
        go (record { slot = none; accounts = some (program, replicate 68 2) ∷ none ∷ [] });
  };
  status_at = λ epoch. go dual;
  receipt_exists = λ epoch. true;
}

abbrev looking_at : Sight → Surroundings ℕ
looking_at sight = record {
  framework = framework;
  program_id = program;
  hasher = toy;
  verifier = trusting;
  parse = λ bytes. none;
  sha256 = λ bytes. replicate 32 1;
  batcher_key = key;
  seconds = λ w. (some (20724 * 86400 + 4500), w);
  observing = λ w. (sight, w);
  endpoint = endpoint;
  handoff = λ epoch w. (some (encode given), w);
  submit_receipt = λ epoch root w. (false, w);
  has_receipt = λ epoch w. (true, w);
  upgrade = λ epoch root w. (none, w);
  receipt = λ epoch w. (none, w);
  sleep = λ delay w. w;
}

abbrev surroundings : Surroundings ℕ
surroundings = looking_at sight

abbrev made : AnchorRef
made = record { epoch = 20723; lineage = no_signature; signature = []; published_slot = 77 }

signed : root_for trusting key 20723 (some (encode given)) ≡ go given.root
unfolding root_for Handoff.verify Handoff.preimage bytes_eq preimage_bytes write_preimage precheck
    tag fields le_bytes
signed = rw (decode-encode given given-IsHandoff) refl

settled : Cluster.publish endpoint framework program 20723 given.root 2 0 ≡ (go made, 2)
unfolding Cluster.publish after_send should_retry by_outcome send_publish settle_against_chain
    reference wrote_it classify settle lineage_of root_for_epoch root_for_epoch_at fetched_in
    decode_checkpoint program_error_code after_marker strip_prefix from_hex read_hex hex_digit
    bytes_eq
settled = refl

seen : observed_at surroundings production quarter_past 20724 sight ≡ go due_log
unfolding observed_at observe sequence_lag read_batches read_batch judge_batch judge_epoch
    batches_of chunks epochs_from config_address decode_config bytes_eq scan see
seen = refl

decided : next_step_with_policy deployed due_log production ≡ publish 20723
unfolding next_step_with_policy today newest_publishable day_index check_awaiting check_submitted
    submitted_through is_none_or_below when_due publication_time last_publishable_day
decided = refl

taken : (turn surroundings production 0 0).0 ≡ went (published 20723 given.root made) 0
unfolding turn act day_index
taken = rw (seen, decided, signed, settled) refl

turn-Publishes_example :
    Due surroundings production 20723 given.root made 0 0
    × Issued surroundings production 20723 given.root made 0
turn-Publishes_example = turn-Publishes surroundings production 20723 given.root made 0 0 0 taken

-- The chain cannot be read.
abbrev blind : Sight
blind = record {
  source = record { account_at = source.account_at; accounts_at = λ addresses. stop transport };
  status_at = λ epoch. go dual;
  receipt_exists = λ epoch. true;
}

blind-Clocked : (w : ℕ) → Clocked (looking_at blind) production w
unfolding day_index
blind-Clocked w = record {
  seconds = 20724 * 86400 + 4500;
  now = quarter_past;
  today = 20724;
  clock = refl;
  dated = refl;
  day = refl;
}

sees_nothing :
    (w : ℕ)
    → (cause : ObserveFailed) × (answer (looking_at blind) production w (blind-Clocked w)
        ≡ stop cause)
unfolding blind-Clocked observed_at observe sequence_lag read_batches read_batch batches_of chunks
    epochs_from config_address
sees_nothing w = (configuration transport, refl)

loop-blind_example : loop (looking_at blind) production 6 0 0 ≡ some exhausted
loop-blind_example =
    loop-blind (looking_at blind) production (omega arith) (omega arith) blind-Clocked sees_nothing
      5 0 0 refl

sight-Clocked : (w : ℕ) → Clocked surroundings production w
unfolding day_index
sight-Clocked w = record {
  seconds = 20724 * 86400 + 4500;
  now = quarter_past;
  today = 20724;
  clock = refl;
  dated = refl;
  day = refl;
}

sees :
    (w : ℕ)
    → (observed : Observed) × (answer surroundings production w (sight-Clocked w) ≡ go observed)
unfolding sight-Clocked
sees w = (due_log, seen)

loop-seeing_example : loop surroundings production 9 5 0 ≢ some exhausted
loop-seeing_example =
    loop-seeing surroundings production (omega arith) (omega arith) sight-Clocked sees 9 5 0
      (omega arith)
