-- ===== src/Client/ErrorCode.antt =====
-- crates/certimining-client/src/cluster.rs: the program's error code in the text of a refusal.
use potash.Common.{
  ℕ, ◌+◌, ◌*◌, ◌-◌, ◌&&◌, Option, none, some, [], ◌∷◌, ltb, leb, ◌==◌, if◌then◌else◌, Bytes,
}

-- "custom program error: "
abbrev pub marker : Bytes
marker =
    b'c' ∷ b'u' ∷ b's' ∷ b't' ∷ b'o' ∷ b'm' ∷ b' ' ∷ b'p' ∷ b'r' ∷ b'o' ∷ b'g' ∷ b'r' ∷ b'a' ∷ b'm'
    ∷ b' ' ∷ b'e' ∷ b'r' ∷ b'r' ∷ b'o' ∷ b'r' ∷ b':' ∷ b' ' ∷ []

unfoldable pub strip_prefix : Bytes → Bytes → Option Bytes
strip_prefix [] s = some s
strip_prefix (p ∷ ps) [] = none
strip_prefix (p ∷ ps) (b ∷ s) = let rest = strip_prefix ps s in if p == b then rest else none

abbrev or_else : Option Bytes → Option Bytes → Option Bytes
or_else (some a) b = some a
or_else none b = b

-- What follows the first occurrence of the marker.
unfoldable pub after_marker : Bytes → Option Bytes
after_marker [] = strip_prefix marker []
after_marker (b ∷ s) = let later = after_marker s in or_else (strip_prefix marker (b ∷ s)) later

unfoldable pub hex_digit : ℕ → Option ℕ
hex_digit c =
    if leb b'0' c && leb c b'9'
    then some (c - b'0')
    else if leb b'a' c && leb c b'f'
    then some (c - b'a' + 10)
    else if leb b'A' c && leb c b'F'
    then some (c - b'A' + 10)
    else none

abbrev more_hex : Option ℕ → ℕ → (ℕ → Option ℕ) → Option ℕ
more_hex none value rest = some value
more_hex (some d) value rest =
    if ltb (value * 16 + d) 0x100000000 then rest (value * 16 + d) else none

-- The hexadecimal digits at the head of a text, read on from a value, as a u32.
unfoldable pub read_hex : ℕ → Bytes → Option ℕ
read_hex value [] = some value
read_hex value (c ∷ s) = more_hex (hex_digit c) value (λ v. read_hex v s)

abbrev first_hex : Option ℕ → Bytes → Option ℕ
first_hex none s = none
first_hex (some d) s = read_hex d s

-- At least one digit.
unfoldable pub from_hex : Bytes → Option ℕ
from_hex [] = none
from_hex (c ∷ s) = first_hex (hex_digit c) s

abbrev then_some : Option Bytes → (Bytes → Option ℕ) → Option ℕ
then_some none f = none
then_some (some s) f = f s

unfoldable pub program_error_code : Bytes → Option ℕ
program_error_code rendered =
    then_some (after_marker rendered)
      (λ rest. then_some (strip_prefix (b'0' ∷ b'x' ∷ []) rest) from_hex)
