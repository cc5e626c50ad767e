-- ===== src/Client/Handoff/Checks.antt =====
-- What makes a handoff acceptable to the worker, and writable for the batcher.
use potash.Common.{
  ℕ, ◌≤◌, ◌≡◌, ◌↔◌, ◌⊎◌, refl, inl, inr, arith, false, Option, Option-cases, none, some, Bytes,
  bytes_eq_iff,
}
use potash.Common.Int.{ℤ, ltb_ℤ}
use potash.Common.Early.{go}
use potash.Core.Error.{ok}
use potash.Core.Hash.{Verifier, Digest}
use potash.Core.Preimage.{encode, IsWellFormed}
use potash.Core.Preimage.Write.{preimage_bytes-encode}
use potash.Client.Schedule.{Schedule, build_start}
use potash.Client.Worker.Policy.{WorkerPolicy, last_publishable_day}
use potash.Client.Worker.Decision.{day_index}
use potash.Client.Handoff.{
  Handoff, verify, preimage, preimage_of, refuse_to_write, barriers, same_as, none_or,
}
use potash.Client.Handoff.Encoding.{IsHandoff}

preimage-encode : (h : Handoff) → IsHandoff h → preimage h ≡ go (encode (preimage_of h))
unfolding preimage IsWellFormed
preimage-encode h w = rw (preimage_bytes-encode (preimage_of h) (w.epoch_fits, w.root_width)) refl

-- A handoff yields a root exactly when it names the expected key and the wanted epoch, its height is
-- between 4 and 16, and the signature verifies over its preimage; the root is then its own.
pub verify_iff :
    (v : Verifier) (h : Handoff) (key : Bytes) (wanted : ℕ) (root : Digest)
    → IsHandoff h
    → (verify v h key wanted ≡ go root) ↔ (
        (h.root ≡ root)
        × (h.batcher_key ≡ key)
        × (4 ≤ h.height)
        × (h.height ≤ 16)
        × (h.epoch ≡ wanted)
        × (v.verify key (encode (preimage_of h)) h.signature ≡ ok tt))
unfolding verify
verify_iff v h key wanted root w = (
  λ e. ground (arith, e, preimage-encode h w, bytes_eq_iff h.batcher_key key),
  λ a. ground (arith, a, preimage-encode h w, bytes_eq_iff h.batcher_key key),
)

-- The first writing of a handoff.
unfoldable pub Allowed : Schedule → WorkerPolicy → ℕ → ℤ → Type 0
Allowed schedule policy epoch now =
    (day : ℕ) × (start : ℤ) × (day_index now ≡ some day)
    × (epoch ≤ day)
    × (build_start schedule epoch ≡ some start)
    × (ltb_ℤ now start ≡ false)
    × (day ≤ last_publishable_day policy epoch)

allowed :
    (schedule : Schedule) (policy : WorkerPolicy) (epoch : ℕ) (now : ℤ)
    → barriers schedule policy epoch now none ≡ go tt
    → Allowed schedule policy epoch now
unfolding barriers none_or Allowed
allowed schedule policy epoch now h = elim (Option-cases (day_index now)) [
  | inl e ↦ absurd (ground (arith, h, e))
  | inr (day, e) ↦ elim (Option-cases (build_start schedule epoch)) [
    | inl b ↦ absurd (ground (arith, h, e, b))
    | inr (start, b) ↦ (
      day,
      start,
      e,
      ground (arith, h, e, b),
      b,
      ground (arith, h, e, b),
      ground (arith, h, e, b),
    )
  ]
]

-- A handoff may be written exactly when the same bytes are there already, or when none are and now
-- is on a day that is not before the epoch nor past the worker's last publishable day for it, with
-- the build begun.
pub refuse_to_write_iff :
    (schedule : Schedule) (policy : WorkerPolicy) (epoch : ℕ) (now : ℤ) (existing : Option Bytes)
    (bytes : Bytes)
    → (refuse_to_write schedule policy epoch now existing bytes ≡ go tt)
      ↔ ((existing ≡ some bytes) ⊎ ((existing ≡ none) × Allowed schedule policy epoch now))
unfolding refuse_to_write barriers same_as none_or Allowed
refuse_to_write_iff schedule policy epoch now none bytes =
    (λ e. inr (refl, allowed schedule policy epoch now e), λ a. ground (arith, a))
refuse_to_write_iff schedule policy epoch now (some old) bytes =
    (λ e. ground (arith, e, bytes_eq_iff old bytes), λ a. ground (arith, a, bytes_eq_iff old bytes))
