-- ===== src/Examples/Worker.antt =====
-- The worker, the handoff and the alerts at work on one log.
use potash.Common.{
  ◌+◌, ◌*◌, ◌≤◌, ◌≡◌, ◌↔◌, ◌⊎◌, inl, refl, arith, Option, none, some, Bytes, replicate,
}
use potash.Common.Int.{ℤ, pos}
use potash.Common.Early.{go}
use potash.Core.Error.{ok}
use potash.Core.Hash.{Verifier}
use potash.Core.Preimage.{encode}
use potash.Client.Schedule.{deployed, publication_time}
use potash.Client.Worker.Policy.{production, last_publishable_day}
use potash.Client.Worker.Decision.{
  Observed, seen, day_index, today, newest_publishable, check_awaiting, check_submitted,
  submitted_through, is_none_or_below, when_due, next_step, next_step_with_policy, publish,
}
use potash.Client.Worker.Publishing.{Ready, publish_iff}
use potash.Client.Handoff.{Handoff, preimage_of, verify, refuse_to_write}
use potash.Client.Handoff.{decode, encode as encode_handoff}
use potash.Client.Handoff.Encoding.{IsHandoff, decode-encode}
use potash.Client.Handoff.Checks.{verify_iff, refuse_to_write_iff, Allowed}
use potash.Client.Alert.Healthy.{Healthy}

-- A quarter past one on the day after epoch 20723, which the log has not published yet.
abbrev pub quarter_past : ℤ
quarter_past = pos (20724 * 86400 + 4500)

abbrev pub due_log : Observed
due_log = seen quarter_past 20700 20722 none (some 20722) none

publish_iff_example :
    (next_step_with_policy deployed due_log production ≡ publish 20723)
    ↔ Ready deployed production due_log 20723
publish_iff_example = publish_iff deployed production due_log 20723

due_log_step : next_step deployed due_log ≡ publish 20723
unfolding next_step next_step_with_policy today newest_publishable day_index check_awaiting
    check_submitted submitted_through is_none_or_below when_due publication_time
    last_publishable_day
due_log_step = refl

abbrev pub key : Bytes
key = replicate 32 5

abbrev pub given : Handoff
given = record {
  epoch = 20723;
  height = 4;
  root = replicate 32 9;
  batcher_key = key;
  signature = replicate 64 7;
}

pub given-IsHandoff : IsHandoff given
given-IsHandoff = record {
  epoch_fits = omega arith;
  height_fits = omega arith;
  root_width = refl;
  key_width = refl;
  signature_width = refl;
}

decode-encode_example : decode (encode_handoff given) ≡ go given
decode-encode_example = decode-encode given given-IsHandoff

abbrev stored : Bytes
stored = replicate 137 3

-- It accepts everything.
abbrev pub trusting : Verifier
trusting = record {
  verify = λ key message signature. ok tt;
  verify_codes = λ key message signature. inl refl;
}

verify_iff_example : (verify trusting given key 20723 ≡ go (replicate 32 9)) ↔ (
    (given.root ≡ replicate 32 9)
    × (given.batcher_key ≡ key)
    × (4 ≤ given.height)
    × (given.height ≤ 16)
    × (given.epoch ≡ 20723)
    × (trusting.verify key (encode (preimage_of given)) given.signature ≡ ok tt))
verify_iff_example = verify_iff trusting given key 20723 (replicate 32 9) given-IsHandoff

abbrev no_file : Option Bytes
no_file = none

refuse_to_write_iff_example :
    (refuse_to_write deployed production 20723 quarter_past no_file stored ≡ go tt) ↔ (
      (no_file ≡ some stored) ⊎ ((no_file ≡ none) × Allowed deployed production 20723 quarter_past))
refuse_to_write_iff_example =
    refuse_to_write_iff deployed production 20723 quarter_past no_file stored
