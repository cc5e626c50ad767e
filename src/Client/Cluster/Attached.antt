-- ===== src/Client/Cluster/Attached.antt =====
-- crates/certimining-client/src/cluster.rs: what an attachment that succeeds has established.
use potash.Common.{ℕ, ◌≡◌, refl, sym, ap, ◌∙◌, Option, none, some, Bytes}
use mathlib.Core.Path.{subst}
use potash.Common.Early.{Early, stop, go, go-injective, or_stop}
use potash.Core.Hash.{Hasher, Digest}
use potash.Program.Checkpoint.{Pubkey}
use potash.Client.Bitcoin.Confirm.{BitcoinClaim}
use potash.Client.Receipt.{Timestamp, receipt_digest, map_stop}
use potash.Client.Receipt.Attested.{head?, attestations, verify_receipt_iff}
use potash.Client.Fetch.{
  Framework, Unreachable, Fetched, placed, not_accepted, absent, PublishedCheckpoint,
  root_for_epoch,
}
use potash.Client.Cluster.{Endpoint}
use potash.Client.Cluster.Published.{continue-go}
use potash.Client.Cluster.Attach.{
  receipt, too_long, signing_failed, of_found, of_confirmed, attach_instruction, attach, now,
  confirm_attach, sign_attach, send_attach, digest_and_send, check_and_send,
}

of_found-go :
    (answer : Early Unreachable Fetched) (root : Digest)
    → of_found answer ≡ go root
    → (c : PublishedCheckpoint) × (answer ≡ go (placed c)) × (c.root ≡ root)
of_found-go (stop cause) root h = absurd (cc h)
of_found-go (go (placed c)) root h = (c, refl, go-injective h)
of_found-go (go (not_accepted why)) root h = absurd (cc h)
of_found-go (go absent) root h = absurd (cc h)

of_confirmed-go :
    (answer : Early Bytes Bytes) (signature : Bytes)
    → of_confirmed answer ≡ go signature
    → answer ≡ go signature
of_confirmed-go (stop rendered) signature h = absurd (cc h)
of_confirmed-go (go s) signature h = ap go (go-injective h)

map_stop-go :
    {R S A : Type 0} (f : R → S) (answer : Early R A) (a : A)
    → map_stop f answer ≡ go a
    → answer ≡ go a
map_stop-go f (stop r) a h = absurd (cc h)
map_stop-go f (go b) a h = ap go (go-injective h)

or_stop-go :
    {R A : Type 0} (o : Option A) (r : R) (a : A)
    → ◌≡◌ {A = Early R A} (or_stop o r) (go a)
    → o ≡ some a
or_stop-go none r a h = absurd (cc h)
or_stop-go (some b) r a h = ap some (go-injective h)

module _ {W : Type 0} (end : Endpoint W) (f : Framework) (program_id : Pubkey) (h : Hasher)
    (parse : Bytes → Option Timestamp) (sha256 : Bytes → Digest) (epoch : ℕ) (bytes : Bytes) where
  -- The transaction that carried a digest to the program and was confirmed.
  pub record Sent (digest : Digest) (w w' : W) : Type 0 where
    pub blockhash : Bytes
    pub tx : Bytes
    pub signature : Bytes
    pub signed : end.sign (attach_instruction f program_id epoch digest) blockhash ≡ some tx
    pub confirmed : end.send tx w ≡ (go signature, w')

  -- The receipt is of the root that the chain holds, and Bitcoin attests it.
  pub record Attached (digest : Digest) (claim : BitcoinClaim) (w w' : W) : Type 0 where
    pub checkpoint : PublishedCheckpoint
    pub read : root_for_epoch f (end.source w).0 program_id epoch ≡ go (placed checkpoint)
    pub timestamp : Timestamp
    pub parsed : parse bytes ≡ some timestamp
    pub stamped : timestamp.start_digest ≡ sha256 checkpoint.root
    pub attested :
        head? (attestations timestamp.first_step) ≡ some (claim.height, claim.attested_digest)
    pub digested : receipt_digest h bytes ≡ some digest
    pub before : W
    pub sent : Sent digest before w'

  confirm-go :
      (digest digest' : Digest) (claim claim' : BitcoinClaim) (tx : Bytes) (w w' : W)
      → confirm_attach end f program_id h parse sha256 digest claim tx w
        ≡ (go (digest', claim'), w')
      → (digest ≡ digest')
        × (claim ≡ claim')
        × (signature : Bytes) × (end.send tx w ≡ (go signature, w'))
  confirm-go digest digest' claim claim' tx w w' e =
      let (signature, v, sent, e') =
        continue-go (λ s. now end f program_id h parse sha256 (go (digest, claim))) _ e in
      let both = go-injective (ap (λ r. r.0) e') in
      (
        ap (λ r. r.0) both,
        ap (λ r. r.1) both,
        signature,
        pair (of_confirmed-go _ signature (ap (λ r. r.0) sent))
            (ap (λ r. r.1) sent ∙ ap (λ r. r.1) e'),
      )
    where
      pair : {A B : Type 0} {a : A} {b : B} {r : A × B} → r.0 ≡ a → r.1 ≡ b → r ≡ (a, b)
      pair p q = λ i. (p i, q i)

  send-Sent :
      (digest digest' : Digest) (claim claim' : BitcoinClaim) (w w' : W)
      → send_attach end f program_id h parse sha256 epoch claim digest w
        ≡ (go (digest', claim'), w')
      → (digest ≡ digest') × (claim ≡ claim') × (v : W) × Sent digest v w'
  send-Sent digest digest' claim claim' w w' e =
      let (blockhash, v, asked_for, e1) =
        continue-go (sign_attach end f program_id h parse sha256 epoch digest claim) _ e in
      let (tx, u, signed, e2) =
        continue-go (confirm_attach end f program_id h parse sha256 digest claim) _ e1 in
      let (same, claims, signature, sent) = confirm-go digest digest' claim claim' tx u w' e2 in
      (
        same,
        claims,
        u,
        record {
          blockhash = blockhash;
          tx = tx;
          signature = signature;
          signed = or_stop-go _ signing_failed tx (ap (λ r. r.0) signed);
          confirmed = sent;
        },
      )

  -- An attachment that succeeds was confirmed with the digest of the receipt, and the receipt parses,
  -- starts from the hash of the root that the chain holds for the epoch, and has the returned claim
  -- as its first Bitcoin attestation.
  pub attach-Attached :
      (digest : Digest) (claim : BitcoinClaim) (w w' : W)
      → attach end f program_id h parse sha256 epoch bytes w ≡ (go (digest, claim), w')
      → Attached digest claim w w'
  unfolding attach
  attach-Attached digest claim w w' e =
      let (root, w1, read, e1) =
        continue-go (check_and_send end f program_id h parse sha256 epoch bytes) _ e in
      let (claim1, w2, verified, e2) =
        continue-go (digest_and_send end f program_id h parse sha256 epoch bytes) _ e1 in
      let (digest1, w3, digested_as, e3) =
        continue-go (send_attach end f program_id h parse sha256 epoch claim1) _ e2 in
      let (same, claims, v, sent) = send-Sent digest1 digest claim1 claim w3 w' e3 in
      let (c, found, holds) = of_found-go _ root (ap (λ r. r.0) read) in
      let (t, parsed, started, first, _, _) =
        (verify_receipt_iff parse sha256 bytes root claim).0
          (map_stop-go receipt _ claim1 (ap (λ r. r.0) verified) ∙ ap go claims) in
      record {
        checkpoint = c;
        read = found;
        timestamp = t;
        parsed = parsed;
        stamped = started ∙ ap sha256 (sym holds);
        attested = first;
        digested = or_stop-go _ too_long digest1 (ap (λ r. r.0) digested_as) ∙ ap some same;
        before = v;
        sent = subst (λ d. Sent d v w') same sent;
      }
