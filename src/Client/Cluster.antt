-- ===== src/Client/Cluster.antt =====
-- crates/certimining-client/src/cluster.rs: the publication of a root, its retries included. The
-- endpoint is a parameter: a request takes the state of the outside world to an answer and the next
-- state, so that two requests need not see the same chain.
pub mod Published
pub mod Attach
pub mod Attached
pub mod Requests
pub mod Limit
pub mod Resent
use potash.Common.{ℕ, zero, suc, Bool, Option, none, some, List, [], ◌∷◌, if◌then◌else◌, Bytes}
use potash.Common.Early.{Early, stop, go, or_stop}
use potash.Core.Hash.{Digest}
use potash.Program.Checkpoint.{Pubkey}
use potash.Client.Fetch.{
  Framework, RootSource, Fetched, placed, not_accepted, absent, Unreachable, checkpoint_address,
  checkpoint_bump, config_address, root_for_epoch,
}
use potash.Client.Fetch.Observe.{
  WhereItLanded, slot, not_found, not_asked, Lineage, lineage_of, Touched, provenance_in,
}
use potash.Client.ErrorCode.{program_error_code}
use potash.Client.Publication.{
  Outcome, landed, already_published, retry, classify, Settlement, matches, unwritten, equivocation,
  settle, should_retry,
}

pub record AnchorRef : Type 0 where
  pub epoch : ℕ
  pub lineage : Lineage
  pub signature : Bytes
  pub published_slot : ℕ

pub data PublishFailed : Type 0 where
  refused : ℕ → PublishFailed
  not_published : Settlement → PublishFailed
  unreachable : Unreachable → PublishFailed
  out_of_attempts signing_failed : PublishFailed

pub data SendPublishFailed : Type 0 where
  signing : SendPublishFailed
  submission : Option ℕ → SendPublishFailed

-- What is asked of the program; the accounts of the two signers are added as they sign.
pub record PublishInstruction : Type 0 where
  pub program_id : Pubkey
  pub config : Pubkey
  pub checkpoint : Pubkey
  pub epoch : ℕ
  pub root : Digest
  pub checkpoint_bump : ℕ

pub record AttachInstruction : Type 0 where
  pub program_id : Pubkey
  pub config : Pubkey
  pub checkpoint : Pubkey
  pub epoch : ℕ
  pub receipt_digest : Digest
  pub kind : ℕ

pub data Instruction : Type 0 where
  publish_checkpoint : PublishInstruction → Instruction
  attach_anchor_receipt : AttachInstruction → Instruction

-- What a text of a refusal says.
abbrev of_sent : Early Bytes Bytes → Early SendPublishFailed Bytes
of_sent (go signature) = go signature
of_sent (stop rendered) = stop (submission (program_error_code rendered))

abbrev of_read : Early Unreachable Fetched → Early PublishFailed Fetched
of_read (go fetched) = go fetched
of_read (stop cause) = stop (unreachable cause)

abbrev pub root_of : Fetched → Option Digest
root_of (placed c) = some c.root
root_of (not_accepted why) = none
root_of absent = none

abbrev instruction_for : Framework → Pubkey → ℕ → Digest → Instruction
instruction_for f program_id epoch root = publish_checkpoint record {
  program_id = program_id;
  config = config_address f program_id;
  checkpoint = checkpoint_address f program_id epoch;
  epoch = epoch;
  root = root;
  checkpoint_bump = checkpoint_bump f program_id epoch;
}

-- The first entry of the statuses for one signature.
abbrev landed_in : Option (List (Option ℕ)) → WhereItLanded
landed_in none = not_asked
landed_in (some []) = not_asked
landed_in (some (none ∷ rest)) = not_found
landed_in (some (some s ∷ rest)) = slot s

abbrev named_in : ℕ → Option (List Touched) → Option Bytes
named_in published_slot none = none
named_in published_slot (some touched) = provenance_in published_slot touched

abbrev or_empty : Option Bytes → Bytes
or_empty none = []
or_empty (some signature) = signature

module _ (W : Type 0) where
  -- The endpoint, and the two signers; `parses` says which texts are signatures.
  pub record Endpoint : Type 0 where
    pub latest_blockhash : W → Option Bytes × W
    pub sign : Instruction → Bytes → Option Bytes
    pub send : Bytes → W → Early Bytes Bytes × W
    pub source : W → RootSource × W
    pub signatures_for : Pubkey → W → Option (List Touched) × W
    pub parses : Bytes → Bool
    pub signature_status : Bytes → W → Option (List (Option ℕ)) × W

  abbrev pub Call : Type 0 → Type 0 → Type 0
  Call E A = W → Early E A × W

module _ {W E : Type 0} where
  abbrev pub fail : {A : Type 0} → E → Call W E A
  fail e w = (stop e, w)

  abbrev pub continue : {A B : Type 0} → (A → Call W E B) → Early E A × W → Early E B × W
  continue f (stop e, w) = (stop e, w)
  continue f (go a, w) = f a w

  infixl 5 ◌>>=◌
  abbrev pub ◌>>=◌ : {A B : Type 0} → Call W E A → (A → Call W E B) → Call W E B
  (m >>= f) w = continue f (m w)

  -- A request whose answer is judged by a function.
  abbrev pub asked : {A B : Type 0} → (W → A × W) → (A → Early E B) → Call W E B
  asked request judge w = (judge (request w).0, (request w).1)

module _ {W : Type 0} (end : Endpoint W) (f : Framework) (program_id : Pubkey) where
  abbrev read : ℕ → Call W PublishFailed Fetched
  read epoch = asked end.source (λ source. of_read (root_for_epoch f source program_id epoch))

  -- One attempt.
  unfoldable pub send_publish : ℕ → Digest → Call W SendPublishFailed Bytes
  send_publish epoch root = do
    blockhash ← asked end.latest_blockhash (λ h. or_stop h (submission none))
    tx ←
        asked (λ w. (end.sign (instruction_for f program_id epoch root) blockhash, w))
          (λ t. or_stop t signing)
    asked (end.send tx) of_sent

  -- The slot in which the endpoint says the signature's transaction landed.
  unfoldable pub where_it_landed : Bytes → W → WhereItLanded × W
  where_it_landed signature w =
      if end.parses signature
      then (landed_in (end.signature_status signature w).0, (end.signature_status signature w).1)
      else (not_asked, w)

  abbrev ask_landed : Bytes → W → WhereItLanded × W
  ask_landed [] w = (not_found, w)
  ask_landed (b ∷ bs) w = where_it_landed (b ∷ bs) w

  abbrev refer_to : ℕ → Bytes → Fetched → Call W PublishFailed AnchorRef
  refer_to epoch signature (placed c) = asked (ask_landed signature) (λ standing. go record {
    epoch = epoch;
    lineage = lineage_of c.published_slot signature standing;
    signature = signature;
    published_slot = c.published_slot;
  })
  refer_to epoch signature (not_accepted why) = fail (not_published unwritten)
  refer_to epoch signature absent = fail (not_published unwritten)

  unfoldable pub reference : ℕ → Bytes → Call W PublishFailed AnchorRef
  reference epoch signature = read epoch >>= refer_to epoch signature

  -- `ok()?`, then the one transaction that can have written the account.
  unfoldable pub wrote_it : ℕ → ℕ → W → Option Bytes × W
  wrote_it epoch published_slot w =
      let (listing, next) = end.signatures_for (checkpoint_address f program_id epoch) w in
      (named_in published_slot listing, next)

  abbrev recovered : ℕ → Fetched → W → Early PublishFailed Bytes × W
  recovered epoch (placed c) =
      asked (wrote_it epoch c.published_slot) (λ found. go (or_empty found))
  recovered epoch (not_accepted why) = λ w. (go [], w)
  recovered epoch absent = λ w. (go [], w)

  abbrev settled : ℕ → Fetched → Settlement → Call W PublishFailed AnchorRef
  settled epoch found matches = recovered epoch found >>= reference epoch
  settled epoch found (equivocation other) = fail (not_published (equivocation other))
  settled epoch found unwritten = fail (not_published unwritten)

  unfoldable pub settle_against_chain : ℕ → Digest → Call W PublishFailed AnchorRef
  settle_against_chain epoch root = do
    found ← read epoch
    settled epoch found (settle root (root_of found))

  -- What is done about an attempt's outcome; `again` is the loop with one attempt less.
  unfoldable pub by_outcome :
      ℕ → Digest → Outcome → ℕ → Call W PublishFailed AnchorRef → Call W PublishFailed AnchorRef
  by_outcome epoch root already_published left again = settle_against_chain epoch root
  by_outcome epoch root (Outcome.refused code) left again = fail (PublishFailed.refused code)
  by_outcome epoch root landed left again =
      if should_retry landed left then again else fail out_of_attempts
  by_outcome epoch root retry left again =
      if should_retry retry left then again else fail out_of_attempts

  unfoldable pub after_send :
      ℕ
      → Digest
      → ℕ
      → Call W PublishFailed AnchorRef
      → Early SendPublishFailed Bytes × W
      → Early PublishFailed AnchorRef × W
  after_send epoch root left again (go signature, w) = reference epoch signature w
  after_send epoch root left again (stop signing, w) = fail signing_failed w
  after_send epoch root left again (stop (submission code), w) =
      by_outcome epoch root (classify code) left again w

  -- With no attempt left there is no further one to make.
  unfoldable pub publish : ℕ → Digest → ℕ → Call W PublishFailed AnchorRef
  publish epoch root zero w =
      after_send epoch root 0 (fail out_of_attempts) (send_publish epoch root w)
  publish epoch root (suc left) w =
      after_send epoch root (suc left) (publish epoch root left) (send_publish epoch root w)
