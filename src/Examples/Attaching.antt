-- ===== src/Examples/Attaching.antt =====
-- The attachment of a receipt to an epoch that is published.
use potash.Common.{ℕ, suc, ◌≡◌, refl, ◌++◌, [], none, some, true, bytes_eq, le_bytes}
use potash.Common.Early.{go}
use potash.Core.Hash.{Digest, hash}
use potash.Client.Receipt.{verify_receipt, first_confirmed, receipt_digest, tag_rcpt}
use potash.Client.Fetch.{root_for_epoch, root_for_epoch_at, fetched_in, decode_checkpoint}
use potash.Client.Cluster.{Endpoint}
use potash.Client.Cluster.Attach.{attach}
use potash.Client.Cluster.Attached.{Attached, attach-Attached}
use potash.Examples.Toy.{toy}
use potash.Examples.Headers.{claim}
use potash.Examples.Observing.{parse, sha256}
use potash.Examples.Publishing.{program, framework, source}

-- Every request is answered, and the world counts the transactions.
abbrev endpoint : Endpoint ℕ
endpoint = record {
  latest_blockhash = λ w. (some [], w);
  sign = λ instruction blockhash. some [];
  send = λ tx w. (go [], suc w);
  source = λ w. (source, w);
  signatures_for = λ address w. (none, w);
  parses = λ signature. true;
  signature_status = λ signature w. (none, w);
}

abbrev digest : Digest
digest = hash toy (tag_rcpt ++ (le_bytes 2 0 ++ []))

attached : attach endpoint framework program toy parse sha256 20702 [] 0 ≡ (go (digest, claim), 1)
unfolding attach receipt_digest verify_receipt first_confirmed root_for_epoch root_for_epoch_at
    fetched_in decode_checkpoint bytes_eq
attached = refl

attach-Attached_example :
    Attached endpoint framework program toy parse sha256 20702 [] digest claim 0 1
attach-Attached_example =
    attach-Attached endpoint framework program toy parse sha256 20702 [] digest claim 0 1 attached
