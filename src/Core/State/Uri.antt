-- ===== src/Core/State/Uri.antt =====
-- `payload_uri_is_well_formed` of crates/certimining-core/src/state.rs.
use potash.Common.{ℕ, Bool, true, false, ◌&&◌, ◌||◌, not, List, [], ◌∷◌}
use potash.Common.{◌==◌, Bytes, length, ltb, in_range, if◌then◌else◌}
use potash.Core.Identity.{is_empty}

abbrev pub max_payload_uri_len : ℕ
max_payload_uri_len = 128

abbrev pub schemes : List Bytes
schemes =
    (b'i' ∷ b'p' ∷ b'f' ∷ b's' ∷ b':' ∷ b'/' ∷ b'/' ∷ [])
    ∷ (b'h' ∷ b't' ∷ b't' ∷ b'p' ∷ b's' ∷ b':' ∷ b'/' ∷ b'/' ∷ [])
    ∷ (b'a' ∷ b'r' ∷ b':' ∷ b'/' ∷ b'/' ∷ [])
    ∷ []

unfoldable pub starts_with : Bytes → Bytes → Bool
starts_with uri [] = true
starts_with [] (c ∷ scheme) = false
starts_with (b ∷ uri) (c ∷ scheme) = b == c && starts_with uri scheme

unfoldable pub all_printable : Bytes → Bool
all_printable [] = true
all_printable (b ∷ bs) = in_range 0x21 0x7E b && all_printable bs

unfoldable pub any_scheme : Bytes → List Bytes → Bool
unfolding starts_with
any_scheme uri [] = false
any_scheme uri (scheme ∷ rest) =
    ltb (length scheme) (length uri) && starts_with uri scheme || any_scheme uri rest

unfoldable pub payload_uri_is_well_formed : Bytes → Bool
unfolding all_printable any_scheme is_empty
payload_uri_is_well_formed uri =
    if is_empty uri || ltb max_payload_uri_len (length uri)
    then false
    else if not (all_printable uri)
    then false
    else any_scheme uri schemes
