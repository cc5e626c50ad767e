-- ===== src/Core/Identity/Utf8.antt =====
-- `core::str::from_utf8` followed by `chars`: the scalar values of a well-formed UTF-8 string.
use potash.Common.{arith, All, ◌<◌, ◌≡◌, refl, lt→ltb}
use potash.Common.{ℕ, ◌+◌, ◌-◌, ◌*◌, Bool, ◌&&◌, List, [], ◌∷◌, Option, none, some}
use potash.Common.{Bytes, ltb, leb, in_range, if◌then◌else◌, zero, suc, length}

abbrev is_tail : ℕ → Bool
is_tail = in_range 0x80 0xBF

-- The value of a sequence with its lead byte's payload and the tail bytes.
abbrev two : ℕ → ℕ → ℕ
two a b = (a - 0xC0) * 64 + (b - 0x80)

abbrev three : ℕ → ℕ → ℕ → ℕ
three a b c = (a - 0xE0) * 4096 + (b - 0x80) * 64 + (c - 0x80)

abbrev four : ℕ → ℕ → ℕ → ℕ → ℕ
four a b c d = (a - 0xF0) * 262144 + (b - 0x80) * 4096 + (c - 0x80) * 64 + (d - 0x80)

-- The lowest and highest second byte after a three- or four-byte lead: no overlong form, no
-- surrogate and nothing above 10FFFF.
abbrev second_of_three : ℕ → ℕ → Bool
second_of_three a b =
    in_range (if leb a 0xE0 then 0xA0 else 0x80)
      (if leb a 0xEC then 0xBF else if leb a 0xED then 0x9F else 0xBF) b

abbrev second_of_four : ℕ → ℕ → Bool
second_of_four a b =
    in_range (if leb a 0xF0 then 0x90 else 0x80) (if leb a 0xF3 then 0xBF else 0x8F) b

-- What the front of a string gives: a scalar value and the bytes behind it, or an error.
pub data Step : Type 0 where
  scalar : ℕ → Bytes → Step
  malformed : Step

two_bytes : ℕ → Bytes → Step
two_bytes a (b ∷ rest) = if is_tail b then scalar (two a b) rest else malformed
two_bytes a _ = malformed

three_bytes : ℕ → Bytes → Step
three_bytes a (b ∷ c ∷ rest) =
    if second_of_three a b && is_tail c then scalar (three a b c) rest else malformed
three_bytes a _ = malformed

four_bytes : ℕ → Bytes → Step
four_bytes a (b ∷ c ∷ d ∷ rest) =
    if second_of_four a b && is_tail c && is_tail d then scalar (four a b c d) rest else malformed
four_bytes a _ = malformed

next : ℕ → Bytes → Step
unfolding two_bytes three_bytes four_bytes
next a rest =
    if ltb a 0x80
    then scalar a rest
    else if in_range 0xC2 0xDF a
    then two_bytes a rest
    else if in_range 0xE0 0xEF a
    then three_bytes a rest
    else if in_range 0xF0 0xF4 a
    then four_bytes a rest
    else malformed

-- Each scalar value takes a byte at least, so as many rounds as there are bytes are enough.
scalars : ℕ → Bytes → Option (List ℕ)
scalars fuel [] = some []
scalars zero (a ∷ rest) = none
scalars (suc fuel) (a ∷ rest) = elim (next a rest) [
  | scalar c more ↦ elim (scalars fuel more) [ none ↦ none | some cs ↦ some (c ∷ cs) ]
  | malformed ↦ none
]

unfoldable pub from_utf8 : Bytes → Option (List ℕ)
unfolding scalars next
from_utf8 bytes = scalars (length bytes) bytes

scalars-ascii : (bs : Bytes) → All (λ b. b < 0x80) bs → scalars (length bs) bs ≡ some bs
unfolding scalars next
scalars-ascii [] h = refl
scalars-ascii (b ∷ bs) h = ground (arith, lt→ltb b 0x80, scalars-ascii bs h.1)

-- Bytes below 0x80 are their own scalar values.
pub from_utf8-ascii : (bytes : Bytes) → All (λ b. b < 0x80) bytes → from_utf8 bytes ≡ some bytes
unfolding from_utf8
from_utf8-ascii bytes h = scalars-ascii bytes h
