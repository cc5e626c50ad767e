-- ===== src/Client/Receipt/Transferred.antt =====
-- crates/certimining-client/src/promise_receipt.rs: what a transferred promise rests on.
use potash.Common.{◌/◌, ◌≡◌, sym, ap, ◌∙◌, arith, List, Bytes, inl, inr}
use potash.Common.Early.{go, Early-cases}
use potash.Core.Error.{Result-cases}
use potash.Core.Hash.{Hasher, Verifier}
use potash.Log.Promise.{SignedPromise, encode_promise, verify_promise}
use potash.Log.Promise.Encoding.{IsPromise}
use potash.Log.Promise.Policy.{IsAcceptable, verify_promise-accepts_iff}
use potash.Client.Worker.Decision.{day_index}
use potash.Client.Bitcoin.Retarget.{mainnet}
use potash.Client.Bitcoin.Header.{Header, Checkpoint}
use potash.Client.Bitcoin.Confirm.{BitcoinClaim, Confirmed, confirmed, pending, confirm}
use potash.Client.Bitcoin.Buried.{Buried, confirm_in-Buried}
use potash.Client.Receipt.{
  Crates, Established, judge_against_confirmation, only_confirmed, verify_receipt,
  verify_transferred_promise,
}

-- The receipt claims the promise's own bytes for a block that is buried, and the promise is
-- acceptable to a reader at the epoch of that block's time.
pub record Transferred (crates : Crates) (h : Hasher) (v : Verifier) (p : SignedPromise)
    (key : Bytes) (receipt : Bytes) (checkpoint : Checkpoint) (headers : List Header)
    (e : Established) : Type 0 where
  pub claim : BitcoinClaim
  pub claimed : verify_receipt crates.parse crates.sha256 receipt (encode_promise p) ≡ go claim
  pub buried : Buried crates.sha256d mainnet claim checkpoint headers e.by_block
  pub dated : e.existed_by_epoch ≡ e.by_block.at_time / 86400
  pub acceptable : IsAcceptable v h p key e.existed_by_epoch

judged :
    (h : Hasher) (v : Verifier) (p : SignedPromise) (key : Bytes) (block : Confirmed)
    (e : Established)
    → IsPromise p
    → judge_against_confirmation h v p key block ≡ go e
    → (e.by_block ≡ block)
      × (e.existed_by_epoch ≡ block.at_time / 86400)
      × IsAcceptable v h p key e.existed_by_epoch
unfolding judge_against_confirmation day_index
judged h v p key block e w j =
    elim (Result-cases (verify_promise h v p key (block.at_time / 86400))) [
      | inl (u, r) ↦
          let same : ◌≡◌ {A = Established}
              record { by_block = block; existed_by_epoch = block.at_time / 86400 } e =
            ground (arith, j, r) in
          (
            sym (ap (λ (x : Established). x.by_block) same),
            sym (ap (λ (x : Established). x.existed_by_epoch) same),
            (verify_promise-accepts_iff h v p key e.existed_by_epoch w).0 (
                ap (verify_promise h v p key)
                  (sym (ap (λ (x : Established). x.existed_by_epoch) same))
                ∙ r),
          )
      | inr (c, r) ↦ absurd (ground (arith, j, r))
    ]

-- A promise that is established by a receipt is claimed by that receipt, over its own encoding, for a
-- buried block of the main network, and is acceptable to a reader at the day of that block.
pub verify_transferred_promise-Transferred :
    (crates : Crates) (h : Hasher) (v : Verifier) (p : SignedPromise) (key receipt : Bytes)
    (checkpoint : Checkpoint) (headers : List Header) (e : Established)
    → IsPromise p
    → verify_transferred_promise crates h v p key receipt checkpoint headers ≡ go e
    → Transferred crates h v p key receipt checkpoint headers e
unfolding verify_transferred_promise confirm only_confirmed
verify_transferred_promise-Transferred crates h v p key receipt checkpoint headers e w ok' =
    elim (Early-cases (verify_receipt crates.parse crates.sha256 receipt (encode_promise p))) [
      | inl (r, a) ↦ absurd (ground (arith, ok', a))
      | inr (claim, a) ↦ elim (Early-cases (confirm crates.sha256d claim checkpoint headers)) [
        | inl (r, b) ↦ absurd (ground (arith, ok', a, b))
        | inr (pending height depth required, b) ↦ absurd (ground (arith, ok', a, b))
        | inr (confirmed block, b) ↦
            let (same, dated, acceptable) =
              judged h v p key block e w (ground (arith, ok', a, b)) in
            record {
              claim = claim;
              claimed = a;
              buried =
                  rw same
                    (confirm_in-Buried crates.sha256d mainnet claim checkpoint headers block b);
              dated = dated ∙ ap (λ (x : Confirmed). x.at_time / 86400) (sym same);
              acceptable = acceptable;
            }
      ]
    ]
