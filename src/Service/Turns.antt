-- ===== src/Service/Turns.antt =====
-- bin/anchor-b-worker.rs: what a turn of the worker that has published has gone by.
use potash.Common.{
  ℕ, ◌-◌, ◌≡◌, ◌≤◌, refl, ap, Bool, true, false, Option, none, some, Bytes, Option-cases, inl, inr,
}
use mathlib.Core.Path.{subst}
use potash.Common.Int.{ℤ, pos, to_i64}
use potash.Common.Early.{Early, stop, go}
use potash.Core.Hash.{Digest}
use potash.Client.Schedule.{deployed}
use potash.Client.Worker.Policy.{WorkerPolicy}
use potash.Client.Worker.Decision.{
  Observed, Step, publish, submit, attach, wait, refuse, day_index, next_step_with_policy,
}
use potash.Client.Worker.Publishing.{Ready, publish_iff}
use potash.Client.Bitcoin.Header.{saturating_add_32}
use potash.Client.Bitcoin.Confirm.{BitcoinClaim}
use potash.Client.Fetch.Observe.{ObserveFailed}
use potash.Client.Cluster.{
  AnchorRef, PublishFailed, out_of_attempts, unreachable, not_published, signing_failed,
}
use potash.Client.Cluster.Attach
use potash.Client.Cluster.Attach.{AttachRefused}
use potash.Client.Cluster.Published.{Unreached, OnChain, publish-OnChain}
use potash.Service.Producer.{RootRefused, root_for}
use potash.Service.Worker.{
  Surroundings, Event, retried, published, Turn, went, slept, retry_partition, after_publish,
  do_publish, after_submit, do_submit, after_attach, attach_read, after_upgrade, with_receipt,
  do_attach, then_root, with_root, act, observed_at, after_observe, turn,
}

module _ {W : Type 0} (s : Surroundings W) (policy : WorkerPolicy) where
  slept-retried :
      (failures n : ℕ) (o : Option ℕ) (e : Event) (w : W)
      → (slept s policy failures o w).0 ≡ went e n
      → e ≡ retried
  slept-retried failures n none e w h = absurd (cc h)
  slept-retried failures n (some delay) e w h = cc h

  -- A retry has done nothing.
  retry-retried :
      (failures n : ℕ) (e : Event) (w : W)
      → (retry_partition s policy failures w).0 ≡ went e n
      → e ≡ retried
  unfolding retry_partition
  retry-retried failures n e w h = slept-retried (saturating_add_32 failures 1) n _ e w h

  -- What a publication made in a world goes by: the file of the epoch's handoff there, signed by the
  -- batcher, and from then on at most the policy's attempts, of which all but the last never reached
  -- the program and the last is what the chain answered.
  pub record Issued (epoch : ℕ) (root : Digest) (ref : AnchorRef) (w : W) : Type 0 where
    pub file : Bytes
    pub found : (s.handoff epoch w).0 ≡ some file
    pub signed : root_for s.verifier s.batcher_key epoch (some file) ≡ go root
    pub of_epoch : ref.epoch ≡ epoch
    pub unreached : ℕ
    pub at : W
    pub few : unreached ≤ policy.publish_attempts - 1
    pub attempts :
        Unreached s.endpoint s.framework s.program_id epoch root unreached (s.handoff epoch w).1 at
    pub on_chain : OnChain s.endpoint s.framework s.program_id epoch root ref at

  module _ (epoch : ℕ) (root : Digest) (ref : AnchorRef) (n : ℕ) where
    -- A turn that ends in the publication of `epoch`.
    abbrev Publishes : Turn × W → Type 0
    Publishes t = t.0 ≡ went (published epoch root ref) n

    after_publish-Publishes :
        (failures e : ℕ) (r : Digest) (answer : Early PublishFailed AnchorRef × W)
        → Publishes (after_publish s policy failures e r answer)
        → (e ≡ epoch) × (r ≡ root) × (v : W) × (answer ≡ (go ref, v))
    after_publish-Publishes failures e r (go ref', w) h =
        (cc h, cc h, w, ap (λ x. (go x, w)) (cc h))
    after_publish-Publishes failures e r (stop out_of_attempts, w) h =
        absurd (cc (retry-retried failures n _ w h))
    after_publish-Publishes failures e r (stop (unreachable cause), w) h =
        absurd (cc (retry-retried failures n _ w h))
    after_publish-Publishes failures e r (stop signing_failed, w) h = absurd (cc h)
    after_publish-Publishes failures e r (stop (not_published settlement), w) h = absurd (cc h)
    after_publish-Publishes failures e r (stop (PublishFailed.refused code), w) h = absurd (cc h)

    after_submit-Publishes :
        (failures e : ℕ) (r : Digest) (answer : Bool × W)
        → Publishes (after_submit s policy failures e r answer)
        → ⊥
    after_submit-Publishes failures e r (true, w) h = cc h
    after_submit-Publishes failures e r (false, w) h = cc (retry-retried failures n _ w h)

    after_attach-Publishes :
        (failures e : ℕ) (answer : Early AttachRefused (Digest × BitcoinClaim) × W)
        → Publishes (after_attach s policy failures e answer)
        → ⊥
    after_attach-Publishes failures e (go (digest, claim), w) h = cc h
    after_attach-Publishes failures e (stop Attach.cluster, w) h =
        cc (retry-retried failures n _ w h)
    after_attach-Publishes failures e (stop (Attach.receipt why), w) h = cc h
    after_attach-Publishes failures e (stop Attach.too_long, w) h = cc h
    after_attach-Publishes failures e (stop Attach.not_published, w) h = cc h
    after_attach-Publishes failures e (stop Attach.signing_failed, w) h = cc h

    attach_read-Publishes :
        (failures e : ℕ) (answer : Option Bytes × W)
        → Publishes (attach_read s policy failures e answer)
        → ⊥
    attach_read-Publishes failures e (none, w) h = cc h
    attach_read-Publishes failures e (some bytes, w) h = after_attach-Publishes failures e _ h

    after_upgrade-Publishes :
        (failures e : ℕ) (answer : Option Bool × W)
        → Publishes (after_upgrade s policy failures e answer)
        → ⊥
    after_upgrade-Publishes failures e (none, w) h = cc (retry-retried failures n _ w h)
    after_upgrade-Publishes failures e (some false, w) h = cc h
    after_upgrade-Publishes failures e (some true, w) h = attach_read-Publishes failures e _ h

    with_receipt-Publishes :
        (failures e : ℕ) (r : Digest) (answer : Bool × W)
        → Publishes (with_receipt s policy failures e r answer)
        → ⊥
    with_receipt-Publishes failures e r (false, w) h = cc h
    with_receipt-Publishes failures e r (true, w) h = after_upgrade-Publishes failures e _ h

    -- The root, and the file that it was read from.
    root-read :
        (e : ℕ) (file : Option Bytes) (r : Digest)
        → root_for s.verifier s.batcher_key e file ≡ go r
        → (bytes : Bytes) × (file ≡ some bytes)
          × (root_for s.verifier s.batcher_key e (some bytes) ≡ go r)
    unfolding root_for
    root-read e none r h = absurd (cc h)
    root-read e (some bytes) r h = (bytes, refl, h)

    then_root-Publishes :
        (do_it : Digest → W → Turn × W) (answer : Early RootRefused Digest) (w : W)
        → Publishes (then_root s policy do_it answer w)
        → (r : Digest) × (answer ≡ go r) × Publishes (do_it r w)
    then_root-Publishes do_it (stop why) w h = absurd (cc h)
    then_root-Publishes do_it (go r) w h = (r, refl, h)

    issued :
        (failures e : ℕ) (w : W)
        → Publishes (with_root s policy e (do_publish s policy failures e) w)
        → (e ≡ epoch) × Issued epoch root ref w
    issued failures e w h =
        let (r, read, made) = then_root-Publishes (do_publish s policy failures e) _ _ h in
        let (same, same_root, v, answered) = after_publish-Publishes failures e r _ made in
        let (bytes, found, signed) = root-read e _ r read in
        let (of_epoch, unreached, at, few, attempts, on_chain) =
          publish-OnChain s.endpoint s.framework s.program_id e r (policy.publish_attempts - 1) ref
            _ v answered in
        (
          same,
          subst (λ x. Issued x root ref w) same
              (subst (λ x. Issued e x ref w) same_root
                (record {
                  file = bytes;
                  found = found;
                  signed = signed;
                  of_epoch = of_epoch;
                  unreached = unreached;
                  at = at;
                  few = few;
                  attempts = attempts;
                  on_chain = on_chain;
                })),
        )

    act-Publishes :
        (failures : ℕ) (now : ℤ) (step : Step) (w : W)
        → Publishes (act s policy failures now step w)
        → (step ≡ publish epoch) × Issued epoch root ref w
    unfolding act
    act-Publishes failures now (refuse why) w h = absurd (cc h)
    act-Publishes failures now (wait until) w h = absurd (cc h)
    act-Publishes failures now (publish e) w h =
        let (same, by) = issued failures e w h in (ap publish same, by)
    act-Publishes failures now (submit e) w h =
        let (r, read, made) = then_root-Publishes (do_submit s policy failures e) _ _ h in
        absurd (after_submit-Publishes failures e r _ made)
    act-Publishes failures now (attach e) w h =
        let (r, read, made) = then_root-Publishes (do_attach s policy failures e) _ _ h in
        absurd (with_receipt-Publishes failures e r _ made)

    -- An observation of the world as it was, on which the policy has the epoch published.
    pub record Due (w : W) : Type 0 where
      pub now : ℤ
      pub today : ℕ
      pub observed : Observed
      pub dated : day_index now ≡ some today
      pub seen : observed_at s policy now today (s.observing (s.seconds w).1).0 ≡ go observed
      pub ready : Ready deployed policy observed epoch

    after_observe-Publishes :
        (failures : ℕ) (now : ℤ) (answer : Early ObserveFailed Observed) (w : W)
        → Publishes (after_observe s policy failures now answer w)
        → (observed : Observed) × (answer ≡ go observed)
          × Ready deployed policy observed epoch
          × Issued epoch root ref w
    after_observe-Publishes failures now (stop cause) w h =
        absurd (cc (retry-retried failures n _ w h))
    after_observe-Publishes failures now (go observed) w h =
        let (step, by) = act-Publishes 0 now (next_step_with_policy deployed observed policy) w h in
        (observed, refl, (publish_iff deployed policy observed epoch).0 step, by)

    -- A turn that publishes does so on an observation on which the policy has the epoch published,
    -- with the root that the epoch's handoff, read right after it and signed by the batcher, carries,
    -- in at most the policy's attempts counted from there, of which all but the last never reached the
    -- program and the last has that root on the chain by what the endpoint says.
    pub turn-Publishes :
        (failures : ℕ) (w : W)
        → (turn s policy failures w).0 ≡ went (published epoch root ref) n
        → Due w × Issued epoch root ref (s.observing (s.seconds w).1).1
    unfolding turn
    turn-Publishes failures w h = elim (Option-cases (s.seconds w).0) [
      | inl e ↦ absurd (cc (rw e at h))
      | inr (seconds, e) ↦ elim (Option-cases (to_i64 (pos seconds))) [
        | inl f ↦ absurd (cc (rw (e, f) at h))
        | inr (now, f) ↦ elim (Option-cases (day_index now)) [
          | inl g ↦ absurd (cc (rw (e, f, g) at h))
          | inr (today, g) ↦
              let (observed, seen, ready, by) =
                after_observe-Publishes failures now
                  (observed_at s policy now today (s.observing (s.seconds w).1).0) _
                  (rw (e, f, g) at h) in
              (
                record {
                  now = now;
                  today = today;
                  observed = observed;
                  dated = g;
                  seen = seen;
                  ready = ready;
                },
                by,
              )
        ]
      ]
    ]
