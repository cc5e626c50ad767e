-- ===== src/Core/Identity.antt =====
-- crates/certimining-core/src/identity.rs: canonical tenure identifiers.
pub mod Utf8
pub mod Laws
use Prim.Native.Nat.{◌≤◌}
use potash.Common.{ℕ, ◌+◌, ◌-◌, ◌<◌, ◌≡◌, Bool, true, false, ◌&&◌, ◌||◌, not, List, [], ◌∷◌, ◌++◌}
use potash.Common.{Option, none, some, Bytes, length, ltb, leb, in_range, if◌then◌else◌, map}
use potash.Core.Error.{Result, ok, err, ◌>>=◌, ◌>>◌, guard, ok_or, canonicalization_failed}
use potash.Core.Identity.Utf8.{from_utf8}

abbrev pub max_tenure_len : ℕ
max_tenure_len = 64

abbrev pub max_raw_tenure_len : ℕ
max_raw_tenure_len = 256

-- `is_ascii_uppercase() || is_ascii_digit()`
abbrev pub is_canonical_char : ℕ → Bool
is_canonical_char ch = in_range b'A' b'Z' ch || in_range b'0' b'9' ch

abbrev pub to_ascii_uppercase : ℕ → ℕ
to_ascii_uppercase c = if in_range b'a' b'z' c then c - 32 else c

unfoldable pub all_canonical : Bytes → Bool
all_canonical [] = true
all_canonical (b ∷ bs) = is_canonical_char b && all_canonical bs

unfoldable pub is_empty : Bytes → Bool
is_empty [] = true
is_empty (b ∷ bs) = false

-- `is_canonical`
unfoldable pub is_canonical : Bytes → Bool
is_canonical tenure =
    not (is_empty tenure) && leb (length tenure) max_tenure_len && all_canonical tenure

-- `heapless::Vec::push` on a `CanonicalTenure`
unfoldable pub push : Bytes → ℕ → Result Bytes
push out byte =
    if ltb (length out) max_tenure_len then ok (out ++ (byte ∷ [])) else err canonicalization_failed

-- The loop of `canonicalize_bytes`, over what the normalization yields.
unfoldable pub collect : Bytes → List ℕ → Result Bytes
collect out [] = ok out
collect out (c ∷ chars) =
    let ch = to_ascii_uppercase c in
    let next = push out ch >>= λ out'. collect out' chars in
    let skip = collect out chars in if is_canonical_char ch then next else skip

unfoldable pub canonicalize_bytes : (List ℕ → List ℕ) → Bytes → Result Bytes
canonicalize_bytes nfkd tenure_raw = do
  guard (leb (length tenure_raw) max_raw_tenure_len) canonicalization_failed
  text ← ok_or (from_utf8 tenure_raw) canonicalization_failed
  out ← collect [] (nfkd text)
  guard (not (is_empty out)) canonicalization_failed
  ok out
