-- ===== src/Core/Identity/Laws.antt =====
-- Canonicalization against a plain description of it, and the rule that the asset preimage applies.
use potash.Common.{ℕ, ◌<◌, ◌≡◌, refl, true, not, arith}
use potash.Common.{List, [], ◌∷◌, ◌++◌, append_assoc, append-nil, Option, none, some, Bytes, length}
use potash.Common.{All, Option-cases, in_range, leb, if◌then◌else◌, inl, inr, length-append}
use Prim.Native.Nat.{◌≤◌}
use potash.Core.Error.{Result, ok, err, canonicalization_failed, ok_or}
use potash.Core.Identity.Utf8.{from_utf8, from_utf8-ascii}
use potash.Core.Identity.{
  max_tenure_len, max_raw_tenure_len, is_canonical_char, to_ascii_uppercase, all_canonical,
  is_empty, is_canonical, push, collect, canonicalize_bytes,
}

-- The characters that a text contributes: uppercased, and A to Z or 0 to 9.
abbrev pub kept : List ℕ → Bytes
kept [] = []
kept (c ∷ cs) =
    let rest = kept cs in
    if is_canonical_char (to_ascii_uppercase c) then to_ascii_uppercase c ∷ rest else rest

abbrev bounded : Bytes → Result Bytes
bounded out = if leb (length out) max_tenure_len then ok out else err canonicalization_failed

collect_lem :
    (chars : List ℕ) (out : Bytes)
    → length out ≤ max_tenure_len
    → collect out chars ≡ bounded (out ++ kept chars)
unfolding collect push
collect_lem [] out h = rw append-nil (ground arith)
collect_lem (c ∷ chars) out h =
    let ch = to_ascii_uppercase c in
    ground (
      arith,
      length-append out (ch ∷ kept chars),
      length-append out (ch ∷ []),
      append_assoc out (ch ∷ []) (kept chars),
      collect_lem chars (out ++ (ch ∷ [])),
      collect_lem chars out,
    )

-- A tenure is accepted when the raw bytes are at most 256, are UTF-8, and 1 to 64 characters of
-- the normalized text are kept.
unfoldable pub accepted_tenure : (List ℕ → List ℕ) → Bytes → Option Bytes
accepted_tenure nfkd raw =
    if leb (length raw) max_raw_tenure_len
    then elim (from_utf8 raw) [
      | none ↦ none
      | some text ↦
          if in_range 1 max_tenure_len (length (kept (nfkd text)))
          then some (kept (nfkd text))
          else none
    ]
    else none

not-is_empty : (bs : Bytes) → not (is_empty bs) ≡ leb 1 (length bs)
unfolding is_empty
not-is_empty [] = refl
not-is_empty (b ∷ bs) = ground arith

-- `canonicalize_bytes` returns exactly what the plain description accepts, and its one error else.
pub canonicalize_bytes_lem :
    (nfkd : List ℕ → List ℕ) (raw : Bytes)
    → canonicalize_bytes nfkd raw ≡ ok_or (accepted_tenure nfkd raw) canonicalization_failed
unfolding canonicalize_bytes accepted_tenure
canonicalize_bytes_lem nfkd raw = elim (Option-cases (from_utf8 raw)) [
  | inl e ↦ rw e (ground arith)
  | inr (text, e) ↦
      rw e
        (ground (arith, collect_lem (nfkd text) [] (omega arith), not-is_empty (kept (nfkd text))))
]

all_canonical-kept : (cs : List ℕ) → all_canonical (kept cs) ≡ true
unfolding all_canonical
all_canonical-kept [] = refl
all_canonical-kept (c ∷ cs) = ground (arith, all_canonical-kept cs)

-- Whatever the normalization does, an accepted tenure is canonical: 1 to 64 bytes, each A to Z or
-- 0 to 9.
pub canonicalize-IsCanonical :
    (nfkd : List ℕ → List ℕ) (raw out : Bytes)
    → canonicalize_bytes nfkd raw ≡ ok out
    → is_canonical out ≡ true
unfolding is_canonical accepted_tenure
canonicalize-IsCanonical nfkd raw out h = elim (Option-cases (from_utf8 raw)) [
  | inl e ↦ ground (arith, canonicalize_bytes_lem nfkd raw)
  | inr (text, e) ↦ ground (
    arith,
    canonicalize_bytes_lem nfkd raw,
    all_canonical-kept (nfkd text),
    not-is_empty (kept (nfkd text)),
  )
]

canonical_ascii : (bs : Bytes) → all_canonical bs ≡ true → All (λ b. b < 0x80) bs
unfolding all_canonical
canonical_ascii [] h = tt
canonical_ascii (b ∷ bs) h = (ground arith, canonical_ascii bs (ground arith))

kept-canonical : (bs : Bytes) → all_canonical bs ≡ true → kept bs ≡ bs
unfolding all_canonical
kept-canonical [] h = refl
kept-canonical (b ∷ bs) h = ground (arith, kept-canonical bs)

-- A canonical tenure is its own canonical form, under a normalization that leaves ASCII alone.
pub canonicalize-canonical :
    (nfkd : List ℕ → List ℕ)
    → ((text : List ℕ) → All (λ c. c < 0x80) text → nfkd text ≡ text)
    → (tenure : Bytes) → is_canonical tenure ≡ true
    → canonicalize_bytes nfkd tenure ≡ ok tenure
unfolding is_canonical accepted_tenure
canonicalize-canonical nfkd fixes_ascii tenure h =
    let canonical : all_canonical tenure ≡ true = ground arith in
    let ascii : All (λ b. b < 0x80) tenure = canonical_ascii tenure canonical in
    ground (
      arith,
      canonicalize_bytes_lem nfkd tenure,
      from_utf8-ascii tenure ascii,
      fixes_ascii tenure ascii,
      kept-canonical tenure canonical,
      not-is_empty tenure,
    )
