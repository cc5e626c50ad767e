-- ===== src/Core/Prf.antt =====
-- crates/certimining-core/src/prf.rs: the three uses of the PRF.
pub mod Uses
use potash.Common.{ℕ, []}
use potash.Common.{◌∷◌, Bytes, le_bytes}
use potash.Core.Error.{Result}
use potash.Core.Hash.{Hasher, Digest}
use potash.Core.Preimage.{prf, digest}

abbrev pub prf_use_epoch_key : ℕ
prf_use_epoch_key = 0x01

abbrev pub prf_use_slot : ℕ
prf_use_slot = 0x02

abbrev pub prf_use_padding : ℕ
prf_use_padding = 0x03

unfoldable pub epoch_key : Hasher → Digest → ℕ → Result Digest
epoch_key h k_master epoch =
    digest h (prf (record { key = k_master; input = prf_use_epoch_key ∷ le_bytes 8 epoch }))

unfoldable pub slot_seed : Hasher → Digest → Bytes → Result Digest
slot_seed h k_e submission_id =
    digest h (prf (record { key = k_e; input = prf_use_slot ∷ submission_id }))

unfoldable pub padding_prf : Hasher → Digest → ℕ → Result Digest
padding_prf h k_e slot_index =
    digest h (prf (record { key = k_e; input = prf_use_padding ∷ le_bytes 2 slot_index }))
