-- ===== src/Client/Handoff.antt =====
-- crates/certimining-client/src/handoff.rs: the batcher's signed handoff, and when it may be written.
pub mod Encoding
pub mod Checks
use potash.Common.{
  ℕ, ◌+◌, ◌*◌, ◌-◌, ◌≡◌, Bool, true, false, ◌&&◌, not, Option, none, some, List, [], ◌∷◌, ltb, ◌==◌,
  in_range, Bytes, bytes_eq, le_bytes, from_le_bytes, length, replicate, get_elem?, array_at, puts,
  if◌then◌else◌,
}
use potash.Common.Int.{ℤ, ltb_ℤ}
use potash.Common.Early.{Early, stop, go, ◌>>=◌, ◌>>◌, stop_if, or_stop}
use potash.Core.Error.{Result, ok, err}
use potash.Core.Hash.{Digest, Verifier}
use potash.Core.Preimage.{Preimage, handoff, preimage_bytes}
use potash.Client.Schedule.{Schedule, build_start}
use potash.Client.Worker.Policy.{WorkerPolicy, last_publishable_day}
use potash.Client.Worker.Decision.{day_index}

pub record Handoff : Type 0 where
  pub epoch : ℕ
  pub height : ℕ
  pub root : Digest
  pub batcher_key : Bytes
  pub signature : Bytes

abbrev pub handoff_len : ℕ
handoff_len = 137

pub data HandoffRefused : Type 0 where
  wrong_length : ℕ → HandoffRefused
  unexpected_key bad_signature : HandoffRefused
  height_out_of_range : ℕ → HandoffRefused
  wrong_epoch : (found wanted : ℕ) → HandoffRefused

abbrev pub preimage_of : Handoff → Preimage
preimage_of h = handoff (record { epoch = h.epoch; height = h.height; root = h.root })

-- `.map_err(|_| e)?`
abbrev pub map_err {ℓ} : {T : Type ℓ} → Result T → HandoffRefused → Early HandoffRefused T
map_err (ok t) e = go t
map_err (err _) e = stop e

unfoldable pub preimage : Handoff → Early HandoffRefused Bytes
preimage h = map_err (preimage_bytes (preimage_of h)) (height_out_of_range h.height)

abbrev pub parts : Handoff → List Bytes
parts h = le_bytes 8 h.epoch ∷ (h.height ∷ []) ∷ h.root ∷ h.batcher_key ∷ h.signature ∷ []

unfoldable pub encode : Handoff → Bytes
encode h = puts (replicate handoff_len 0) 0 (parts h)

unfoldable pub read_fields : Bytes → HandoffRefused → Early HandoffRefused Handoff
read_fields bytes short = do
  epoch ← or_stop (array_at bytes 0 8) short
  height ← or_stop (get_elem? bytes 8) short
  root ← or_stop (array_at bytes 9 41) short
  batcher_key ← or_stop (array_at bytes 41 73) short
  signature ← or_stop (array_at bytes 73 137) short
  go record {
    epoch = from_le_bytes epoch;
    height = height;
    root = root;
    batcher_key = batcher_key;
    signature = signature;
  }

unfoldable pub decode : Bytes → Early HandoffRefused Handoff
decode bytes =
    let short = wrong_length (length bytes) in
    do stop_if (not (length bytes == handoff_len)) short; read_fields bytes short

unfoldable pub verify : Verifier → Handoff → Bytes → ℕ → Early HandoffRefused Digest
verify v h expected_batcher_key wanted_epoch = do
  stop_if (not (bytes_eq h.batcher_key expected_batcher_key)) unexpected_key
  stop_if (not (in_range 4 16 h.height)) (height_out_of_range h.height)
  stop_if (not (h.epoch == wanted_epoch)) (wrong_epoch h.epoch wanted_epoch)
  signed ← preimage h
  map_err (v.verify h.batcher_key signed h.signature) bad_signature
  go h.root

pub data HandoffWriteRefused : Type 0 where
  epoch_ahead_of_today : (epoch today : ℕ) → HandoffWriteRefused
  already_written_differently : (epoch : ℕ) → HandoffWriteRefused
  before_build_start : (epoch : ℕ) (now start : ℤ) → HandoffWriteRefused
  undatable_clock : (now : ℤ) → HandoffWriteRefused
  past_the_slip_allowance : (epoch today latest_day : ℕ) → HandoffWriteRefused
  unschedulable : (epoch : ℕ) → HandoffWriteRefused

-- `existing == Some(bytes)`
unfoldable pub same_as : Bytes → Option Bytes → Bool
same_as bytes none = false
same_as bytes (some old) = bytes_eq old bytes

unfoldable pub none_or : Option Bytes → HandoffWriteRefused → Early HandoffWriteRefused (Unit {0})
none_or none e = go tt
none_or (some old) e = stop e

-- The barriers that a handoff which is not already there has to pass.
unfoldable pub barriers :
    Schedule → WorkerPolicy → ℕ → ℤ → Option Bytes → Early HandoffWriteRefused (Unit {0})
barriers schedule policy epoch now existing = do
  today ← or_stop (day_index now) (undatable_clock now)
  stop_if (ltb today epoch) (epoch_ahead_of_today epoch today)
  start ← or_stop (build_start schedule epoch) (unschedulable epoch)
  stop_if (ltb_ℤ now start) (before_build_start epoch now start)
  let latest_day = last_publishable_day policy epoch
  stop_if (ltb latest_day today) (past_the_slip_allowance epoch today latest_day)
  none_or existing (already_written_differently epoch)

unfoldable pub refuse_to_write :
    Schedule → WorkerPolicy → ℕ → ℤ → Option Bytes → Bytes → Early HandoffWriteRefused (Unit {0})
refuse_to_write schedule policy epoch now existing bytes =
    if same_as bytes existing then go tt else barriers schedule policy epoch now existing
