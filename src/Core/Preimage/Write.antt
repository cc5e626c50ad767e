-- ===== src/Core/Preimage/Write.antt =====
-- Every writer hands its whole preimage to the sink in one call, and its digest is the hash of that.
use potash.Common.{ℕ, false, ◌+◌, ◌≡◌, refl, List, [], ◌∷◌, ◌++◌, append_assoc, append-nil, arith}
use Prim.Native.Nat.{◌≤◌}
use potash.Common.{Bytes, length, length-append, length-le_bytes, true}
use potash.Core.Error.{ok}
use potash.Core.Hash.{Hasher, hash}
use potash.Core.Identity.{is_canonical, is_empty}
use potash.Core.Preimage.{
  Preimage, PreimageSink, PreimageBuf, asset, genesis_head, leaf, step_head, real_leaf, padding,
  node, spi, handoff, prf, tag, fields, precheck, buf_write, write_fields, staged, write_preimage,
  preimage_bytes, digest, concat, encode, IsWellFormed, max_preimage_len,
}

-- Fields that fit are all written, in order.
write_fields_lem :
    (fs : List Bytes) (buf : PreimageBuf)
    → length buf + length (concat fs) ≤ max_preimage_len
    → write_fields fs buf ≡ (buf ++ concat fs, ok tt)
unfolding write_fields buf_write
write_fields_lem [] buf h = rw append-nil
write_fields_lem (f ∷ fs) buf h = ground (
  arith,
  length-append buf f,
  length-append f (concat fs),
  append_assoc buf f (concat fs),
  write_fields_lem fs (buf ++ f),
)

-- Where the check passes and the bytes fit, the sink sees one write, of the encoding.
write_once :
    {S : Type 0} (p : Preimage) (write : PreimageSink S) (out : S)
    → precheck p ≡ ok tt
    → length (encode p) ≤ max_preimage_len
    → write_preimage p write out ≡ write out (encode p)
unfolding write_preimage staged encode
write_once p write out h fits = ground (arith, write_fields_lem (tag p ∷ fields p) [])

-- The length that the source's comments give for each preimage.
unfoldable pub size : Preimage → ℕ
size (asset p) = 22 + length p.tenure
size (genesis_head p) = 42
size (leaf p) = 161
size (step_head p) = 72
size (real_leaf d) = 40
size (padding d) = 40
size (node p) = 72
size (spi p) = 73
size (handoff p) = 49
size (prf p) = 42 + length p.input

-- A well-formed preimage has the documented length.
pub length-encode : (p : Preimage) → IsWellFormed p → length (encode p) ≡ size p
unfolding encode IsWellFormed size
length-encode (asset p) h = simp (length-append, length-le_bytes) (omega (arith, h))
length-encode (genesis_head p) h = simp (length-append, length-le_bytes) (omega (arith, h))
length-encode (leaf p) h = simp (length-append, length-le_bytes) (omega (arith, h))
length-encode (step_head p) h = simp length-append (omega (arith, h))
length-encode (real_leaf d) h = simp length-append (omega (arith, h))
length-encode (padding d) h = simp length-append (omega (arith, h))
length-encode (node p) h = simp length-append (omega (arith, h))
length-encode (spi p) h = simp (length-append, length-le_bytes) (omega (arith, h))
length-encode (handoff p) h = simp (length-append, length-le_bytes) (omega (arith, h))
length-encode (prf p) h = simp (length-append, length-le_bytes) (omega (arith, h))

tenure-le : (t : Bytes) → is_canonical t ≡ true → length t ≤ 64
unfolding is_canonical
tenure-le t h = ground arith

size-le : (p : Preimage) → IsWellFormed p → size p ≤ max_preimage_len
unfolding IsWellFormed size
size-le (asset p) h = omega (arith, tenure-le p.tenure h.2)
size-le (prf p) h = omega arith
size-le _ h = omega arith

input-not-empty : (x : Bytes) → 1 ≤ length x → is_empty x ≡ false
unfolding is_empty
input-not-empty [] h = absurd (omega arith)
input-not-empty (b ∷ bs) h = refl

precheck-ok : (p : Preimage) → IsWellFormed p → precheck p ≡ ok tt
unfolding precheck IsWellFormed
precheck-ok (asset p) h = ground (arith, tenure-le p.tenure h.2)
precheck-ok (prf p) h = ground (arith, input-not-empty p.input h.1)
precheck-ok (leaf p) h = refl
precheck-ok _ h = refl

-- Whatever the sink, a well-formed preimage reaches it in one call that carries the whole encoding.
pub write_preimage-encode :
    {S : Type 0} (p : Preimage) (write : PreimageSink S) (out : S)
    → IsWellFormed p
    → write_preimage p write out ≡ write out (encode p)
write_preimage-encode p write out h =
    write_once p write out (precheck-ok p h) (omega (arith, length-encode p h, size-le p h))

pub preimage_bytes-encode : (p : Preimage) → IsWellFormed p → preimage_bytes p ≡ ok (encode p)
unfolding preimage_bytes buf_write
preimage_bytes-encode p h =
    rw (write_preimage-encode p buf_write [] h) (ground (arith, length-encode p h, size-le p h))

-- The digest of a well-formed preimage is the hash of its encoding.
pub digest-encode :
    (h : Hasher) (p : Preimage) → IsWellFormed p → digest h p ≡ ok (hash h (encode p))
unfolding digest
digest-encode h p wf = rw (preimage_bytes-encode p wf)
