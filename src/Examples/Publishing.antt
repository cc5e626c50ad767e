-- ===== src/Examples/Publishing.antt =====
-- A publication whose first attempt never reaches the program and whose second one is told that the
-- epoch is written.
use potash.Common.{
  ℕ, zero, suc, ◌≤◌, ◌≡◌, refl, none, some, [], ◌∷◌, ◌++◌, Bytes, replicate, bytes_eq, true,
}
use potash.Common.Int.{pos}
use potash.Common.Early.{stop, go}
use potash.Program.Checkpoint.{Pubkey, CheckpointAccount}
use potash.Client.Fetch.{
  Framework, RootSource, root_for_epoch, root_for_epoch_at, fetched_in, decode_checkpoint,
}
use potash.Client.Fetch.Observe.{no_signature, lineage_of}
use potash.Client.Publication.{classify, settle, should_retry}
use potash.Client.ErrorCode.{
  program_error_code, marker, after_marker, strip_prefix, from_hex, read_hex, hex_digit,
}
use potash.Client.Cluster.{
  Endpoint, AnchorRef, send_publish, reference, wrote_it, settle_against_chain, by_outcome,
  after_send, publish,
}
use potash.Client.Cluster.Published.{Unreached, OnChain, publish-OnChain}

-- "f: custom program error: 0x177e"
abbrev rendered : Bytes
rendered = b'f' ∷ b':' ∷ b' ' ∷ marker ++ (b'0' ∷ b'x' ∷ b'1' ∷ b'7' ∷ b'7' ∷ b'e' ∷ [])

already_written : program_error_code rendered ≡ some 6014
unfolding program_error_code after_marker strip_prefix from_hex read_hex hex_digit
already_written = refl

abbrev pub program : Pubkey
program = replicate 32 8

abbrev root : Bytes
root = replicate 32 5

abbrev written : CheckpointAccount
written = record {
  schema_version = 1;
  epoch = 20702;
  root = root;
  published_slot = 77;
  published_unix = pos 1788739200;
  receipt_digest = replicate 32 0;
  anchor_kind = 0;
  bump = 255;
  reserved = replicate 8 0;
}

abbrev pub framework : Framework
framework = record {
  checkpoint_discriminator = replicate 8 1;
  config_discriminator = replicate 8 2;
  deserialize_checkpoint = λ bytes. some written;
  deserialize_config = λ bytes. none;
  find_program_address = λ seeds program_id. (replicate 32 6, 255);
}

abbrev pub source : RootSource
source = record {
  account_at = λ address. go (record { slot = none; account = some (program, replicate 106 1) });
  accounts_at = λ addresses. go (record { slot = none; accounts = [] });
}

-- The world counts the requests for a blockhash, of which the first fails.
abbrev pub endpoint : Endpoint ℕ
endpoint = record {
  latest_blockhash = λ w. (elim w [ zero ↦ none | suc n ↦ some [] ], suc w);
  sign = λ instruction blockhash. some [];
  send = λ tx w. (stop rendered, w);
  source = λ w. (source, w);
  signatures_for = λ address w. (none, w);
  parses = λ signature. true;
  signature_status = λ signature w. (none, w);
}

abbrev made : AnchorRef
made = record { epoch = 20702; lineage = no_signature; signature = []; published_slot = 77 }

published : publish endpoint framework program 20702 root 1 0 ≡ (go made, 2)
unfolding publish after_send should_retry by_outcome send_publish settle_against_chain reference
    wrote_it classify settle lineage_of root_for_epoch root_for_epoch_at fetched_in
    decode_checkpoint program_error_code after_marker strip_prefix from_hex read_hex hex_digit
    bytes_eq
published = refl

publish-OnChain_example :
    (made.epoch ≡ 20702)
    × (n : ℕ) × (v : ℕ) × (n ≤ 1)
    × Unreached endpoint framework program 20702 root n 0 v
    × OnChain endpoint framework program 20702 root made v
publish-OnChain_example = publish-OnChain endpoint framework program 20702 root 1 made 0 2 published
