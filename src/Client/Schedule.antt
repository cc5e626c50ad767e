-- ===== src/Client/Schedule.antt =====
-- crates/certimining-client/src/schedule.rs: when an epoch is published and when its build starts.
use potash.Common.{ℕ, ◌+◌, ◌*◌, ◌-◌, ◌^◌, ◌<◌, ◌≡◌, arith, ltb, if◌then◌else◌, Option, some, none}
use potash.Common.Maybe.{◌>>=◌}
use potash.Common.Int.{ℤ, pos, negsuc, ◌+ℤ◌, negate, to_i64}

abbrev pub epoch_seconds : ℕ
epoch_seconds = 86400

-- The two offsets are `i64`s; a deployment's are not negative.
pub record Schedule : Type 0 where
  pub publish_offset : ℤ
  pub build_lead : ℤ

abbrev pub deployed : Schedule
deployed = record { publish_offset = pos 3600; build_lead = pos 600 }

abbrev pub from_u64 : ℕ → Option ℤ
from_u64 epoch = if ltb epoch (2 ^ 63) then some (pos epoch) else none

abbrev pub times_day : ℤ → ℤ
times_day (pos n) = pos (n * epoch_seconds)
times_day (negsuc n) = negsuc (n * epoch_seconds + (epoch_seconds - 1))

unfoldable pub publication_time : Schedule → ℕ → Option ℤ
publication_time schedule epoch = do
  day ← from_u64 epoch
  begun ← to_i64 (times_day day)
  start ← to_i64 (begun +ℤ pos epoch_seconds)
  to_i64 (start +ℤ schedule.publish_offset)

unfoldable pub build_start : Schedule → ℕ → Option ℤ
build_start schedule epoch = do
  published ← publication_time schedule epoch
  to_i64 (published +ℤ negate schedule.build_lead)

-- Under the deployed schedule the publication times of consecutive epochs that have one are one day
-- apart, each an hour after its epoch has ended, and a build starts ten minutes before.
pub publication_time-deployed :
    (epoch : ℕ)
    → epoch * 86400 + 90000 < 2 ^ 63
    → (publication_time deployed epoch ≡ some (pos ((epoch + 1) * 86400 + 3600)))
      × (build_start deployed epoch ≡ some (pos ((epoch + 1) * 86400 + 3000)))
unfolding publication_time build_start
publication_time-deployed epoch fits = (ground arith, ground arith)
