-- ===== src/Core/Preimage.antt =====
-- crates/certimining-core/src/preimage.rs and the preimage of prf.rs: the domain tags, the fixed
-- buffer, the staged write, one constructor for each preimage, and `read_tag` and `check_tag`.
-- `encode` is the byte string that a preimage stands for.
pub mod Write
pub mod Decode
pub mod Binding
use Prim.Native.Nat.{◌≤◌}
use potash.Common.{ℕ, ◌+◌, ◌^◌, ◌<◌, ◌≡◌, Bool, true, false, ◌&&◌, not, List, [], ◌∷◌, ◌++◌, take}
use potash.Common.{Bytes, IsByte, IsU64, length, All, leb, ltb, bytes_eq, le_bytes, if◌then◌else◌}
use potash.Common.Int.{ℤ, IsI64, twos}
use potash.Core.Error.{
  Result, RegistryError, ok, err, ◌>>=◌, ◌>>◌, guard, record_too_large, canonicalization_failed,
  malformed_payload, domain_tag_mismatch,
}
use potash.Core.Hash.{Hasher, Digest, hash}
use potash.Core.Identity.{is_canonical, is_empty}

abbrev pub max_preimage_len : ℕ
max_preimage_len = 256

-- crates/certimining-core/src/prf.rs
abbrev pub max_prf_input_len : ℕ
max_prf_input_len = 17

abbrev cmv1 : ℕ → ℕ → ℕ → ℕ → Bytes
cmv1 a b c d = b'C' ∷ b'M' ∷ b'v' ∷ b'1' ∷ a ∷ b ∷ c ∷ d ∷ []

abbrev pub tag_asset : Bytes
tag_asset = cmv1 b'A' b'S' b'S' b'T'

abbrev pub tag_leaf : Bytes
tag_leaf = cmv1 b'L' b'E' b'A' b'F'

abbrev pub tag_head : Bytes
tag_head = cmv1 b'H' b'E' b'A' b'D'

abbrev pub tag_mtl0 : Bytes
tag_mtl0 = cmv1 b'M' b'T' b'L' b'0'

abbrev pub tag_mtn1 : Bytes
tag_mtn1 = cmv1 b'M' b'T' b'N' b'1'

abbrev pub tag_pad : Bytes
tag_pad = cmv1 b'P' b'A' b'D' b'D'

abbrev pub tag_spi : Bytes
tag_spi = cmv1 b'S' b'P' b'I' b'0'

abbrev pub tag_prf : Bytes
tag_prf = cmv1 b'P' b'R' b'F' b'0'

abbrev pub tag_hoff : Bytes
tag_hoff = b'C' ∷ b'M' ∷ b'o' ∷ b'p' ∷ b's' ∷ b'H' ∷ b'O' ∷ b'F' ∷ []

-- The bytes written so far.
abbrev pub PreimageBuf : Type 0
PreimageBuf = Bytes

-- `PreimageSink::write` through a mutable reference: the sink afterwards, and the result.
abbrev pub PreimageSink : Type 0 → Type 0
PreimageSink S = S → Bytes → S × Result (Unit {0})

unfoldable pub buf_write : PreimageSink PreimageBuf
buf_write buf bytes =
    if leb (length buf + length bytes) max_preimage_len
    then (buf ++ bytes, ok tt)
    else (buf, err record_too_large)

-- A chain of `p.write(field)?`.
unfoldable pub write_fields : List Bytes → PreimageBuf → PreimageBuf × Result (Unit {0})
write_fields [] buf = (buf, ok tt)
write_fields (field ∷ fields) buf =
    let (buf', r) = buf_write buf field in
    let rest = write_fields fields buf' in elim r [ ok _ ↦ rest | err e ↦ (buf', err e) ]

unfoldable pub staged :
    {S : Type 0}
    → PreimageSink S
    → S
    → (PreimageBuf → PreimageBuf × Result (Unit {0}))
    → S × Result (Unit {0})
staged write out fill =
    let (preimage, r) = fill [] in elim r [ ok _ ↦ write out preimage | err e ↦ (out, err e) ]

pub record AssetPreimage : Type 0 where
  pub jurisdiction : Bytes
  pub registry : Bytes
  pub tenure : Bytes

pub record GenesisHeadPreimage : Type 0 where
  pub asset_commitment : Digest
  pub schema_version : ℕ

pub record LeafPreimage : Type 0 where
  pub asset_commitment : Digest
  pub seq : ℕ
  pub payload_digest : Digest
  pub assessment_digest : Digest
  pub qp_key : Bytes
  pub category : ℕ
  pub effective_at : ℤ
  pub change_identified_at : ℤ

pub record StepHeadPreimage : Type 0 where
  pub prev_head : Digest
  pub leaf : Digest

pub record NodePreimage : Type 0 where
  pub left : Digest
  pub right : Digest

pub record SpiPreimage : Type 0 where
  pub leaf : Digest
  pub submission_id : Bytes
  pub accepted_epoch : ℕ
  pub promised_epoch : ℕ
  pub max_merge_delay : ℕ

pub record HandoffPreimage : Type 0 where
  pub epoch : ℕ
  pub height : ℕ
  pub root : Digest

pub record PrfPreimage : Type 0 where
  pub key : Digest
  pub input : Bytes

-- The implementations of the trait `Preimage`.
pub data Preimage : Type 0 where
  asset : AssetPreimage → Preimage
  genesis_head : GenesisHeadPreimage → Preimage
  leaf : LeafPreimage → Preimage
  step_head : StepHeadPreimage → Preimage
  real_leaf : Digest → Preimage
  padding : Digest → Preimage
  node : NodePreimage → Preimage
  spi : SpiPreimage → Preimage
  handoff : HandoffPreimage → Preimage
  prf : PrfPreimage → Preimage

-- `Self::TAG`
unfoldable pub tag : Preimage → Bytes
tag (asset p) = tag_asset
tag (genesis_head p) = tag_head
tag (leaf p) = tag_leaf
tag (step_head p) = tag_head
tag (real_leaf d) = tag_mtl0
tag (padding d) = tag_pad
tag (node p) = tag_mtn1
tag (spi p) = tag_spi
tag (handoff p) = tag_hoff
tag (prf p) = tag_prf

-- What each writer's closure writes after the tag, field by field.
unfoldable pub fields : Preimage → List Bytes
fields (asset p) = p.jurisdiction ∷ p.registry ∷ le_bytes 2 (length p.tenure) ∷ p.tenure ∷ []
fields (genesis_head p) = p.asset_commitment ∷ le_bytes 2 p.schema_version ∷ []
fields (leaf p) =
    p.asset_commitment
    ∷ le_bytes 8 p.seq
    ∷ p.payload_digest
    ∷ p.assessment_digest
    ∷ p.qp_key
    ∷ (p.category ∷ [])
    ∷ le_bytes 8 (twos p.effective_at)
    ∷ le_bytes 8 (twos p.change_identified_at)
    ∷ []
fields (step_head p) = p.prev_head ∷ p.leaf ∷ []
fields (real_leaf d) = d ∷ []
fields (padding d) = d ∷ []
fields (node p) = p.left ∷ p.right ∷ []
fields (spi p) =
    p.leaf
    ∷ p.submission_id
    ∷ le_bytes 8 p.accepted_epoch
    ∷ le_bytes 8 p.promised_epoch
    ∷ (p.max_merge_delay ∷ [])
    ∷ []
fields (handoff p) = le_bytes 8 p.epoch ∷ (p.height ∷ []) ∷ p.root ∷ []
fields (prf p) = p.key ∷ le_bytes 2 (length p.input) ∷ p.input ∷ []

-- What a writer refuses before it stages anything.
unfoldable pub precheck : Preimage → Result (Unit {0})
precheck (asset p) = do
  guard (is_canonical p.tenure) canonicalization_failed
  guard (ltb (length p.tenure) (2 ^ 16)) canonicalization_failed
precheck (prf p) = do
  guard (not (is_empty p.input)) malformed_payload
  guard (leb (length p.input) max_prf_input_len) record_too_large
  guard (ltb (length p.input) (2 ^ 16)) record_too_large
precheck _ = ok tt

unfoldable pub write_preimage : {S : Type 0} → Preimage → PreimageSink S → S → S × Result (Unit {0})
unfolding staged write_fields buf_write
write_preimage p write out = elim (precheck p) [
  | ok _ ↦ staged write out (write_fields (tag p ∷ fields p))
  | err e ↦ (out, err e)
]

-- The buffer of a preimage on its own, with `?` on the write.
unfoldable pub preimage_bytes : Preimage → Result Bytes
preimage_bytes p = let (buf, r) = write_preimage p buf_write [] in r >>= λ _. ok buf

unfoldable pub digest : Hasher → Preimage → Result Digest
digest h p = do buf ← preimage_bytes p; ok (hash h buf)

unfoldable pub read_tag : Bytes → Result Bytes
read_tag bytes = if leb 8 (length bytes) then ok (take 8 bytes) else err malformed_payload

unfoldable pub check_tag : Bytes → Bytes → Result (Unit {0})
unfolding read_tag
check_tag bytes expected = do
  found ← read_tag bytes
  guard (bytes_eq found expected) domain_tag_mismatch

-- The fields one after the other.
abbrev pub concat : List Bytes → Bytes
concat [] = []
concat (x ∷ xs) = x ++ concat xs

unfoldable pub encode : Preimage → Bytes
unfolding tag fields
encode p = concat (tag p ∷ fields p)

-- The widths that the field types of the source fix, and the inputs that the writers accept.
unfoldable pub IsWellFormed : Preimage → Type 0
IsWellFormed (asset p) =
    (length p.jurisdiction ≡ 4) × (length p.registry ≡ 8) × (is_canonical p.tenure ≡ true)
IsWellFormed (genesis_head p) = (length p.asset_commitment ≡ 32) × (p.schema_version < 2 ^ 16)
IsWellFormed (leaf p) =
    (length p.asset_commitment ≡ 32)
    × IsU64 p.seq
    × (length p.payload_digest ≡ 32)
    × (length p.assessment_digest ≡ 32)
    × (length p.qp_key ≡ 32)
    × IsI64 p.effective_at
    × IsI64 p.change_identified_at
IsWellFormed (step_head p) = (length p.prev_head ≡ 32) × (length p.leaf ≡ 32)
IsWellFormed (real_leaf d) = length d ≡ 32
IsWellFormed (padding d) = length d ≡ 32
IsWellFormed (node p) = (length p.left ≡ 32) × (length p.right ≡ 32)
IsWellFormed (spi p) =
    (length p.leaf ≡ 32)
    × (length p.submission_id ≡ 16)
    × IsU64 p.accepted_epoch
    × IsU64 p.promised_epoch
IsWellFormed (handoff p) = IsU64 p.epoch × (length p.root ≡ 32)
IsWellFormed (prf p) =
    (length p.key ≡ 32) × (1 ≤ length p.input) × (length p.input ≤ max_prf_input_len)

-- `AssetIdentity::commitment`
unfoldable pub commitment : Hasher → Bytes → Bytes → Bytes → Result Digest
commitment h j r tenure =
    digest h (asset (record { jurisdiction = j; registry = r; tenure = tenure }))
