-- ===== src/Client/Cluster/Attach.antt =====
-- crates/certimining-client/src/cluster.rs: the attachment of a receipt, which a receipt without a
-- Bitcoin attestation of the published root never reaches.
use potash.Common.{ℕ, Option, Bytes}
use potash.Common.Early.{Early, stop, go, or_stop}
use potash.Core.Hash.{Hasher, Digest}
use potash.Program.Checkpoint.{Pubkey}
use potash.Client.Bitcoin.Confirm.{BitcoinClaim}
use potash.Client.Receipt.{Timestamp, ReceiptRefused, map_stop, verify_receipt, receipt_digest}
use potash.Client.Fetch.{
  Framework, Fetched, placed, not_accepted, absent, Unreachable, checkpoint_address, config_address,
  root_for_epoch,
}
use potash.Client.Cluster.{Endpoint, Call, Instruction, attach_anchor_receipt, asked, ◌>>=◌}

pub data AttachRefused : Type 0 where
  receipt : ReceiptRefused → AttachRefused
  too_long not_published cluster signing_failed : AttachRefused

abbrev pub of_found : Early Unreachable Fetched → Early AttachRefused Digest
of_found (stop cause) = stop cluster
of_found (go (placed c)) = go c.root
of_found (go (not_accepted why)) = stop not_published
of_found (go absent) = stop not_published

abbrev pub of_confirmed : Early Bytes Bytes → Early AttachRefused Bytes
of_confirmed (stop rendered) = stop cluster
of_confirmed (go signature) = go signature

abbrev pub attach_instruction : Framework → Pubkey → ℕ → Digest → Instruction
attach_instruction f program_id epoch digest = attach_anchor_receipt record {
  program_id = program_id;
  config = config_address f program_id;
  checkpoint = checkpoint_address f program_id epoch;
  epoch = epoch;
  receipt_digest = digest;
  kind = 1;
}

module _ {W : Type 0} (end : Endpoint W) (f : Framework) (program_id : Pubkey) (h : Hasher)
    (parse : Bytes → Option Timestamp) (sha256 : Bytes → Digest) where
  abbrev pub now : {A : Type 0} → Early AttachRefused A → Call W AttachRefused A
  now answer w = (answer, w)

  -- The root that the chain holds, not one that the caller names.
  abbrev pub published_root : ℕ → Call W AttachRefused Digest
  published_root epoch =
      asked end.source (λ source. of_found (root_for_epoch f source program_id epoch))

  -- The steps of `attach`, from the last one back.
  abbrev pub confirm_attach :
      Digest → BitcoinClaim → Bytes → Call W AttachRefused (Digest × BitcoinClaim)
  confirm_attach digest claim tx =
      asked (end.send tx) of_confirmed >>= λ signature. now (go (digest, claim))

  abbrev pub sign_attach :
      ℕ → Digest → BitcoinClaim → Bytes → Call W AttachRefused (Digest × BitcoinClaim)
  sign_attach epoch digest claim blockhash =
      now
        (or_stop (end.sign (attach_instruction f program_id epoch digest) blockhash) signing_failed)
      >>= confirm_attach digest claim

  abbrev pub send_attach : ℕ → BitcoinClaim → Digest → Call W AttachRefused (Digest × BitcoinClaim)
  send_attach epoch claim digest =
      asked end.latest_blockhash (λ b. or_stop b cluster) >>= sign_attach epoch digest claim

  abbrev pub digest_and_send :
      ℕ → Bytes → BitcoinClaim → Call W AttachRefused (Digest × BitcoinClaim)
  digest_and_send epoch bytes claim =
      now (or_stop (receipt_digest h bytes) too_long) >>= send_attach epoch claim

  abbrev pub check_and_send : ℕ → Bytes → Digest → Call W AttachRefused (Digest × BitcoinClaim)
  check_and_send epoch bytes published =
      now (map_stop receipt (verify_receipt parse sha256 bytes published))
      >>= digest_and_send epoch bytes

  unfoldable pub attach : ℕ → Bytes → Call W AttachRefused (Digest × BitcoinClaim)
  attach epoch bytes = published_root epoch >>= check_and_send epoch bytes
