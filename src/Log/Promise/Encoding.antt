-- ===== src/Log/Promise/Encoding.antt =====
-- The transferable encoding of a promise determines the promise.
use potash.Common.{ℕ, ◌≡◌, refl, sym, ap, ◌∙◌, [], ◌∷◌, ◌++◌, arith, Bytes, length, IsU64}
use potash.Common.{
  le_bytes, length-le_bytes, length-append, take, drop, take-append_exact, drop-append_exact,
}
use potash.Common.{from_le_bytes, from_le_bytes-le_bytes}
use potash.Log.Promise.{SignedPromise, encode_promise, promise_encoded_len}

-- The widths of the fields.
pub record IsPromise (p : SignedPromise) : Type 0 where
  pub leaf : length p.leaf ≡ 32
  pub submission : length p.submission_id ≡ 16
  pub accepted : IsU64 p.accepted_epoch
  pub promised : IsU64 p.promised_epoch
  pub key : length p.batcher_key ≡ 32
  pub signature : length p.signature ≡ 64

-- A promise encodes to 161 octets.
pub length-encode_promise :
    (p : SignedPromise) → IsPromise p → length (encode_promise p) ≡ promise_encoded_len
unfolding encode_promise
length-encode_promise p w = simp (length-append, length-le_bytes) (omega (arith, w))

-- Two byte strings cut at one place.
append-injective :
    (n : ℕ) (a b x y : Bytes) → length a ≡ n → length b ≡ n → a ++ x ≡ b ++ y → (a ≡ b) × (x ≡ y)
append-injective n a b x y ha hb e = (
  sym (take-append_exact a x n ha) ∙ ap (take n) e ∙ take-append_exact b y n hb,
  sym (drop-append_exact a x n ha) ∙ ap (drop n) e ∙ drop-append_exact b y n hb,
)

le_bytes-injective : (a b : ℕ) → IsU64 a → IsU64 b → le_bytes 8 a ≡ le_bytes 8 b → a ≡ b
le_bytes-injective a b ha hb e =
    sym (from_le_bytes-le_bytes 8 a (omega arith))
    ∙ ap from_le_bytes e
    ∙ from_le_bytes-le_bytes 8 b (omega arith)

-- Two promises with one encoding are one promise.
pub encode_promise-injective :
    (p q : SignedPromise) → IsPromise p → IsPromise q → encode_promise p ≡ encode_promise q → p ≡ q
unfolding encode_promise
encode_promise-injective p q wp wq e =
    let (leaves, e1) = append-injective 32 p.leaf q.leaf _ _ wp.leaf wq.leaf e in
    let (ids, e2) =
      append-injective 16 p.submission_id q.submission_id _ _ wp.submission wq.submission e1 in
    let (accepted, e3) =
      append-injective 8 (le_bytes 8 p.accepted_epoch) (le_bytes 8 q.accepted_epoch) _ _
        (length-le_bytes 8 p.accepted_epoch) (length-le_bytes 8 q.accepted_epoch) e2 in
    let (promised, e4) =
      append-injective 8 (le_bytes 8 p.promised_epoch) (le_bytes 8 q.promised_epoch) _ _
        (length-le_bytes 8 p.promised_epoch) (length-le_bytes 8 q.promised_epoch) e3 in
    let (delays, e5) =
      append-injective 1 (p.max_merge_delay ∷ []) (q.max_merge_delay ∷ []) _ _ refl refl e4 in
    let (keys, signatures) =
      append-injective 32 p.batcher_key q.batcher_key p.signature q.signature wp.key wq.key e5 in
    let accepted_epochs = le_bytes-injective _ _ wp.accepted wq.accepted accepted in
    let promised_epochs = le_bytes-injective _ _ wp.promised wq.promised promised in ground arith
