-- ===== src/Core/Hash.antt =====
-- crates/certimining-core/src/hash.rs and verify.rs: the traits through which the engine reaches
-- Keccak-256 and Ed25519. The implementations are third-party code, so they are parameters, with
-- what their types and their documentation promise as fields.
pub mod Collisions
use potash.Common.{◌≡◌, ◌⊎◌, List, [], ◌∷◌}
use potash.Common.{Bytes, IsByte, length, All}
use potash.Core.Error.{Result, ok, err, attestation_invalid}

-- `[u8; 32]`
abbrev pub Digest : Type 0
Digest = Bytes

abbrev pub IsDigest : Digest → Type 0
IsDigest d = (length d ≡ 32) × All IsByte d

pub record Hasher : Type 0 where
  pub hashv : List Bytes → Digest
  pub hashv-IsDigest : (parts : List Bytes) → IsDigest (hashv parts)

-- `verify` answers `Ok(())` or `0x07`, and nothing else.
pub record Verifier : Type 0 where
  pub verify : Bytes → Bytes → Bytes → Result (Unit {0})
  pub verify_codes :
      (key message signature : Bytes)
      → (verify key message signature ≡ ok tt)
        ⊎ (verify key message signature ≡ err attestation_invalid)

pub record Signer : Type 0 where
  pub sign : Bytes → Result Bytes
  pub public_key : Bytes

-- The digest of one contiguous message.
abbrev pub hash : Hasher → Bytes → Digest
hash h bytes = h.hashv (bytes ∷ [])

-- `x` is one of the listed messages.
abbrev pub In : Bytes → List Bytes → Type 0
In x [] = ⊥
In x (y ∷ ys) = (x ≡ y) ⊎ In x ys

-- No two different messages of the list have one digest.
abbrev pub CollisionFree : Hasher → List Bytes → Type 0
CollisionFree h ps = (x y : Bytes) → In x ps → In y ps → hash h x ≡ hash h y → x ≡ y
