-- ===== src/Examples/Toy.antt =====
-- A small hash, verifier and signer that the examples compute with, and a check for collisions.
use potash.Common.{
  ℕ, ◌+◌, ◌*◌, ◌%◌, ◌^◌, ◌≡◌, sym, ap, ◌∙◌, Bool, true, ◌&&◌, ◌||◌, not, List, [], ◌∷◌, ◌++◌,
}
use potash.Common.{
  Bytes, bytes_eq, bytes_eq→eq, bytes_eq_refl, le_bytes, length-le_bytes, le_bytes-IsByte,
  replicate,
}
use potash.Common.{inl, inr, ◌⊎◌, arith, if◌then◌else◌, Bool-cases}
use potash.Core.Error.{Result, ok, err, attestation_invalid}
use potash.Core.Hash.{Hasher, Verifier, Signer, hash, In, CollisionFree}

abbrev fold : ℕ → Bytes → ℕ
fold acc [] = acc
fold acc (b ∷ bs) = fold ((acc * 263 + b + 1) % 2 ^ 256) bs

abbrev fold_parts : ℕ → List Bytes → ℕ
fold_parts acc [] = acc
fold_parts acc (p ∷ ps) = fold_parts (fold acc p) ps

-- A polynomial in the bytes.
abbrev pub toy : Hasher
toy = record {
  hashv = λ parts. le_bytes 32 (fold_parts 0 parts);
  hashv-IsDigest =
      λ parts. (length-le_bytes 32 (fold_parts 0 parts), le_bytes-IsByte 32 (fold_parts 0 parts));
}

abbrev pub toy_verify : Bytes → Bytes → Bytes → Result (Unit {0})
toy_verify key message signature = if bytes_eq key signature then ok tt else err attestation_invalid

pub toy_codes :
    (key message signature : Bytes)
    → (toy_verify key message signature ≡ ok tt)
      ⊎ (toy_verify key message signature ≡ err attestation_invalid)
toy_codes key message signature = elim (Bool-cases (bytes_eq key signature)) [
  | inl same ↦ inl (ground arith)
  | inr other ↦ inr (ground arith)
]

-- It accepts the key itself as the signature.
abbrev pub toy_verifier : Verifier
toy_verifier = record { verify = toy_verify; verify_codes = toy_codes }

abbrev pub toy_signer : Signer
toy_signer = record { sign = λ digest. ok (digest ++ digest); public_key = replicate 32 5 }

-- No two different messages of the list have one digest, as a test.
abbrev apart : Hasher → Bytes → List Bytes → Bool
apart h x [] = true
apart h x (y ∷ ys) = (not (bytes_eq (hash h x) (hash h y)) || bytes_eq x y) && apart h x ys

abbrev all_apart : Hasher → List Bytes → List Bytes → Bool
all_apart h [] qs = true
all_apart h (p ∷ ps) qs = apart h p qs && all_apart h ps qs

abbrev pub collision_free : Hasher → List Bytes → Bool
collision_free h ps = all_apart h ps ps

apart-In :
    (h : Hasher) (x y : Bytes) (ys : List Bytes)
    → apart h x ys ≡ true
    → In y ys
    → hash h x ≡ hash h y
    → x ≡ y
apart-In h x y [] test m same = absurd m
apart-In h x y (z ∷ ys) test (inl e) same =
    bytes_eq→eq x z (ground (arith, bytes_eq_refl (hash h y))) ∙ sym e
apart-In h x y (z ∷ ys) test (inr m) same = apart-In h x y ys (ground arith) m same

all_apart-In :
    (h : Hasher) (x y : Bytes) (ps qs : List Bytes)
    → all_apart h ps qs ≡ true
    → In x ps
    → In y qs
    → hash h x ≡ hash h y
    → x ≡ y
all_apart-In h x y [] qs test m n same = absurd m
all_apart-In h x y (p ∷ ps) qs test (inl e) n same =
    e ∙ apart-In h p y qs (ground arith) n (ap (hash h) (sym e) ∙ same)
all_apart-In h x y (p ∷ ps) qs test (inr m) n same =
    all_apart-In h x y ps qs (ground arith) m n same

pub collision_free-CollisionFree :
    (h : Hasher) (ps : List Bytes) → collision_free h ps ≡ true → CollisionFree h ps
collision_free-CollisionFree h ps test x y = all_apart-In h x y ps ps test
