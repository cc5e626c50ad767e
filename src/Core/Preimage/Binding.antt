-- ===== src/Core/Preimage/Binding.antt =====
-- What the encodings give the rest of the system: no two preimages share one, a digest commits to
-- its preimage, and `check_tag` tells the kinds apart.
use potash.Common.{List, ◌≡◌, refl, ap, [], ◌∷◌, inl, inr, Bytes, bytes_eq, arith}
use potash.Common.{if◌then◌else◌}
use potash.Core.Error.{ok, err, domain_tag_mismatch}
use potash.Core.Hash.{In, hash, Hasher, CollisionFree}
use potash.Core.Preimage.{Preimage, asset, tag, encode, digest, check_tag, IsWellFormed}
use potash.Core.Preimage.Write.{digest-encode}
use potash.Core.Preimage.Decode.{decode, decode-encode}

-- Two well-formed preimages with one encoding are one preimage: neither two kinds nor two
-- contents of a kind share their bytes.
pub encode-injective :
    (p q : Preimage) → IsWellFormed p → IsWellFormed q → encode p ≡ encode q → p ≡ q
encode-injective p q hp hq e = cc (decode-encode p hp, decode-encode q hq, ap decode e)

-- Two well-formed preimages whose encodings do not collide under the hash have one digest only if
-- they are one preimage.
pub digest-injective :
    (h : Hasher) (p q : Preimage)
    → IsWellFormed p
    → IsWellFormed q
    → CollisionFree h (encode p ∷ encode q ∷ [])
    → digest h p ≡ digest h q
    → p ≡ q
digest-injective h p q hp hq free e = encode-injective p q hp hq (
    free (encode p) (encode q) (inl refl) (inr (inl refl))
      (ground (arith, digest-encode h p hp, digest-encode h q hq)))

-- `check_tag` accepts a preimage's bytes for its own tag, and answers `0x0B` for any other.
pub check_tag-encode :
    (p : Preimage) (expected : Bytes)
    → check_tag (encode p) expected
      ≡ (if bytes_eq (tag p) expected then ok tt else err domain_tag_mismatch)
unfolding check_tag encode
check_tag-encode (asset p) expected = ground arith
check_tag-encode _ expected = ground arith

-- The same for two messages of a list without collisions.
pub hash-injective :
    (h : Hasher) (messages : List Bytes) (p q : Preimage)
    → CollisionFree h messages
    → IsWellFormed p
    → IsWellFormed q
    → In (encode p) messages
    → In (encode q) messages
    → hash h (encode p) ≡ hash h (encode q)
    → p ≡ q
hash-injective h messages p q free hp hq ip iq e =
    encode-injective p q hp hq (free (encode p) (encode q) ip iq e)
