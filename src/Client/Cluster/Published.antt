-- ===== src/Client/Cluster/Published.antt =====
-- crates/certimining-client/src/cluster.rs: what a reference that a publication returns stands for.
use potash.Common.{
  ℕ, zero, suc, ◌≤◌, ◌<◌, ◌≡◌, refl, arith, sym, ap, ◌∙◌, true, inl, inr, none, some, Bytes, ◌==◌,
  ltb, ltb→lt, if◌then◌else◌, Bool-cases,
}
use potash.Common.Maybe.{some_injective}
use potash.Common.Early.{Early, stop, go, go-injective}
use potash.Core.Hash.{Digest}
use potash.Program.Checkpoint.{Pubkey}
use potash.Client.Fetch.{Framework, Fetched, placed, not_accepted, absent, PublishedCheckpoint}
use potash.Client.Publication.{
  classify, settle, should_retry, already_written_code, settle_iff, Settlement, matches,
  equivocation, unwritten,
}
use potash.Client.Cluster.{
  Endpoint, AnchorRef, SendPublishFailed, submission, signing, PublishFailed, fail, out_of_attempts,
  send_publish, read, reference, refer_to, settled, settle_against_chain, by_outcome, after_send,
  publish, continue, recovered, root_of,
}

pub continue-go :
    {W E A B : Type 0} {b : B} {w' : W} (f : A → W → Early E B × W) (r : Early E A × W)
    → continue f r ≡ (go b, w')
    → (a : A) × (v : W) × (r ≡ (go a, v)) × (f a v ≡ (go b, w'))
continue-go f (stop e, w) h = absurd (cc h)
continue-go f (go a, w) h = (a, w, refl, h)

already_code : (code : ℕ) → (code == already_written_code) ≡ true → code ≡ already_written_code
already_code code t = ground arith

module _ {W : Type 0} (end : Endpoint W) (f : Framework) (program_id : Pubkey) (epoch : ℕ)
    (root : Digest) where
  -- `n` submissions in a row that never reached the program.
  pub data Unreached : ℕ → W → W → Type 0 where
    none_yet : {w : W} → Unreached 0 w w
    one_more :
        {n : ℕ} {w w1 w2 : W}
        → send_publish end f program_id epoch root w ≡ (stop (submission none), w1)
        → Unreached n w1 w2
        → Unreached (suc n) w w2

  -- The submission made in `w` is what put the root on the chain, or found it there.
  pub data OnChain (ref : AnchorRef) (w : W) : Type 0 where
    landed :
        (w1 : W)
        → send_publish end f program_id epoch root w ≡ (go ref.signature, w1)
        → OnChain ref w
    found :
        (w1 w2 : W) (c : PublishedCheckpoint)
        → send_publish end f program_id epoch root w
          ≡ (stop (submission (some already_written_code)), w1)
        → read end f program_id epoch w1 ≡ (go (placed c), w2)
        → c.root ≡ root
        → OnChain ref w

  refer_to-go :
      (ref : AnchorRef) (signature : Bytes) (fetched : Fetched) (v w' : W)
      → refer_to end f program_id epoch signature fetched v ≡ (go ref, w')
      → (ref.epoch ≡ epoch) × (ref.signature ≡ signature)
  refer_to-go ref signature (placed c) v w' h =
      let e = go-injective (ap (λ r. r.0) h) in
      (sym (ap (λ r. r.epoch) e), sym (ap (λ r. r.signature) e))
  refer_to-go ref signature (not_accepted why) v w' h = absurd (cc h)
  refer_to-go ref signature absent v w' h = absurd (cc h)

  reference-go :
      (ref : AnchorRef) (signature : Bytes) (v w' : W)
      → reference end f program_id epoch signature v ≡ (go ref, w')
      → (ref.epoch ≡ epoch) × (ref.signature ≡ signature)
  unfolding reference
  reference-go ref signature v w' h =
      let (fetched, u, asked, referred) =
        continue-go (refer_to end f program_id epoch signature) (read end f program_id epoch v) h in
      refer_to-go ref signature fetched u w' referred

  settled-go :
      (ref : AnchorRef) (fetched : Fetched) (settlement : Settlement) (v w' : W)
      → settled end f program_id epoch fetched settlement v ≡ (go ref, w')
      → (settlement ≡ matches) × (ref.epoch ≡ epoch)
  settled-go ref fetched matches v w' h =
      let (signature, u, asked, referred) =
        continue-go (reference end f program_id epoch) (recovered end f program_id epoch fetched v)
          h in
      (refl, (reference-go ref signature u w' referred).0)
  settled-go ref fetched (equivocation other) v w' h = absurd (cc h)
  settled-go ref fetched unwritten v w' h = absurd (cc h)

  root_of-placed :
      (fetched : Fetched)
      → root_of fetched ≡ some root
      → (c : PublishedCheckpoint) × (fetched ≡ placed c) × (c.root ≡ root)
  root_of-placed (placed c) h = (c, refl, some_injective h)
  root_of-placed (not_accepted why) h = absurd (cc h)
  root_of-placed absent h = absurd (cc h)

  settle_against_chain-go :
      (ref : AnchorRef) (v w' : W)
      → settle_against_chain end f program_id epoch root v ≡ (go ref, w')
      → (ref.epoch ≡ epoch)
        × (c : PublishedCheckpoint) × (u : W) × (read end f program_id epoch v ≡ (go (placed c), u))
        × (c.root ≡ root)
  unfolding settle_against_chain
  settle_against_chain-go ref v w' h =
      let (fetched, u, asked, settled) =
        continue-go
          (λ fetched. settled end f program_id epoch fetched (settle root (root_of fetched)))
          (read end f program_id epoch v) h in
      let (matched, same) = settled-go ref fetched (settle root (root_of fetched)) u w' settled in
      let (c, is_placed, root_same) =
        root_of-placed fetched ((settle_iff root root (root_of fetched)).0.0 matched) in
      (same, c, u, asked ∙ ap (λ x. (go x, u)) is_placed, root_same)

  -- How a publication that returns a reference goes on from an attempt.
  data GoesOn (ref : AnchorRef) (w w' : W) (left : ℕ)
      (again : W → Early PublishFailed AnchorRef × W) : Type 0 where
    succeeds : OnChain ref w → ref.epoch ≡ epoch → GoesOn ref w w' left again
    repeats :
        (v : W)
        → send_publish end f program_id epoch root w ≡ (stop (submission none), v)
        → 0 < left
        → again v ≡ (go ref, w')
        → GoesOn ref w w' left again

  after_send-go :
      (ref : AnchorRef) (w w' : W) (left : ℕ) (again : W → Early PublishFailed AnchorRef × W)
      (r : Early SendPublishFailed Bytes × W)
      → send_publish end f program_id epoch root w ≡ r
      → after_send end f program_id epoch root left again r ≡ (go ref, w')
      → GoesOn ref w w' left again
  unfolding after_send classify by_outcome should_retry
  after_send-go ref w w' left again (go signature, v) sent h =
      let (same, by) = reference-go ref signature v w' h in
      succeeds (landed v (sent ∙ ap (λ s. (go s, v)) (sym by))) same
  after_send-go ref w w' left again (stop signing, v) sent h = absurd (cc h)
  after_send-go ref w w' left again (stop (submission none), v) sent h =
      elim (Bool-cases (ltb 0 left)) [
        | inl t ↦
            repeats v sent (ltb→lt 0 left t)
              (ap (λ b. (if b then again else fail out_of_attempts) v) (sym t) ∙ h)
        | inr other ↦
            absurd (cc (ap (λ b. (if b then again else fail out_of_attempts) v) (sym other) ∙ h))
      ]
  after_send-go ref w w' left again (stop (submission (some code)), v) sent h =
      elim (Bool-cases (code == already_written_code)) [
        | inl t ↦
            let (same, c, u, asked, root_same) = settle_against_chain-go ref v w' (rw t at h) in
            succeeds
              (found v u c (sent ∙ ap (λ k. (stop (submission (some k)), v)) (already_code code t))
                asked root_same)
              same
        | inr other ↦ absurd (cc (rw other at h))
      ]

  -- A reference is for the epoch that was asked for, and comes from a submission, after at most the
  -- allowed number of them that never reached the program: the endpoint said of it that it landed
  -- with the reference's signature, or that the epoch is written, and then showed the very root that
  -- was to be published.
  pub publish-OnChain :
      (attempts : ℕ) (ref : AnchorRef) (w w' : W)
      → publish end f program_id epoch root attempts w ≡ (go ref, w')
      → (ref.epoch ≡ epoch) × (n : ℕ) × (v : W) × (n ≤ attempts) × Unreached n w v × OnChain ref v
  unfolding publish
  publish-OnChain zero ref w w' h =
      elim (after_send-go ref w w' zero _ (send_publish end f program_id epoch root w) refl h) [
        | succeeds made same ↦ (same, 0, w, omega arith, none_yet, made)
        | repeats v sent more later ↦ absurd (omega arith)
      ]
  publish-OnChain (suc left) ref w w' h =
      elim (after_send-go ref w w' (suc left) _ (send_publish end f program_id epoch root w) refl
        h) [
          | succeeds made same ↦ (same, 0, w, omega arith, none_yet, made)
          | repeats v sent more later ↦
              let (same, n, u, few, unreached, made) = publish-OnChain left ref v w' later in
              (same, suc n, u, omega arith, one_more sent unreached, made)
        ]
