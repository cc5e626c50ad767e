-- ===== src/Common/Slices.antt =====
-- Checked access to a part of a byte string, and copying into one.
use Prim.Native.Nat.{ℕ, zero, suc, ◌+◌, ◌-◌, ◌^◌, ◌≤◌, ◌<◌}
use mathlib.Core.Path.{◌≡◌, refl, ap, ◌∙◌}
use mathlib.Core.Bool.{◌&&◌}
use mathlib.Core.Option.{Option, none, some}
use mathlib.Core.List.{List, [], ◌∷◌, ◌++◌, append_assoc}
use native.Mathlib.Omega.{arith}
use potash.Common.Tests.{leb, ◌==◌, if◌then◌else◌}
use potash.Common.Lists.{
  length, take, drop, length-append, length-take, length-drop, take-append_exact,
}
use potash.Common.ByteStrings.{Bytes}
use potash.Common.Words.{saturating_add}

-- `bytes.get(from..to)`
abbrev pub range : Bytes → ℕ → ℕ → Option Bytes
range bytes from to =
    if leb from to && leb to (length bytes) then some (take (to - from) (drop from bytes)) else none

-- `<[u8; n]>::try_from(bytes).ok()`
abbrev pub to_array : ℕ → Bytes → Option Bytes
to_array n bytes = if length bytes == n then some bytes else none

abbrev array_of : ℕ → Option Bytes → Option Bytes
array_of n none = none
array_of n (some part) = to_array n part

-- `bytes.get(from..to)` as an array of that many bytes.
abbrev pub array_at : Bytes → ℕ → ℕ → Option Bytes
array_at bytes from to = array_of (to - from) (range bytes from to)

-- `out[at..at + bytes.len()].copy_from_slice(bytes)`, where the range lies in `out`
abbrev pub copy_at : Bytes → ℕ → Bytes → Bytes
copy_at out at bytes =
    if leb (at + length bytes) (length out)
    then take at out ++ (bytes ++ drop (at + length bytes) out)
    else out

-- One copy after the other, from `at` on.
unfoldable pub puts : Bytes → ℕ → List Bytes → Bytes
puts out at [] = out
puts out at (field ∷ fields) = puts (copy_at out at field) (saturating_add at (length field)) fields

abbrev pub joined : List Bytes → Bytes
joined [] = []
joined (x ∷ xs) = x ++ joined xs

drop-append_add : (xs ys : Bytes) (n a : ℕ) → length xs ≡ n → drop (n + a) (xs ++ ys) ≡ drop a ys
drop-append_add [] ys n a h = ap (λ (t : ℕ). drop t ys) (omega arith)
drop-append_add (x ∷ xs) ys zero a h = absurd (omega arith)
drop-append_add (x ∷ xs) ys (suc n) a h =
    ap (λ (t : ℕ). drop t (x ∷ (xs ++ ys))) {y = suc (n + a)} (omega arith)
    ∙ drop-append_add xs ys n a (omega arith)

pub range-skip :
    (xs ys : Bytes) (n a b a' b' : ℕ)
    → length xs ≡ n
    → a' ≡ n + a
    → b' ≡ n + b
    → range (xs ++ ys) a' b' ≡ range ys a b
range-skip xs ys n a b a' b' hn ha hb = ground (
  arith,
  length-append xs ys,
  drop-append_add xs ys n a hn,
  ap (λ (t : ℕ). drop t (xs ++ ys)) ha,
  ap (λ (t : ℕ). take t (drop a ys)) {x = b' - a'} {y = b - a} (omega arith),
)

pub range-head : (xs ys : Bytes) (n : ℕ) → length xs ≡ n → range (xs ++ ys) 0 n ≡ some xs
range-head xs ys n h = ground (arith, length-append xs ys, take-append_exact xs ys n h)

pub array_at_lem :
    (bytes : Bytes) (from to : ℕ)
    → from ≤ to
    → to ≤ length bytes
    → array_at bytes from to ≡ some (take (to - from) (drop from bytes))
array_at_lem bytes from to h fits =
    ground (arith, length-take (to - from) (drop from bytes), length-drop from bytes)

pub array_at-skip :
    (xs ys : Bytes) (n a b a' b' : ℕ)
    → length xs ≡ n
    → a' ≡ n + a
    → b' ≡ n + b
    → array_at (xs ++ ys) a' b' ≡ array_at ys a b
array_at-skip xs ys n a b a' b' hn ha hb =
    ap (array_of (b' - a')) (range-skip xs ys n a b a' b' hn ha hb)
    ∙ ap (λ (t : ℕ). array_of t (range ys a b)) (omega arith)

pub array_at-head : (xs ys : Bytes) (n : ℕ) → length xs ≡ n → array_at (xs ++ ys) 0 n ≡ some xs
array_at-head xs ys n h =
    ap (λ (t : ℕ). array_of t (range (xs ++ ys) 0 n)) {y = n} (omega arith)
    ∙ ap (array_of n) (range-head xs ys n h)
    ∙ ground arith

pub copy_at_lem :
    (done rest bytes : Bytes) (at : ℕ)
    → length done ≡ at
    → length bytes ≤ length rest
    → copy_at (done ++ rest) at bytes ≡ (done ++ bytes) ++ drop (length bytes) rest
copy_at_lem done rest bytes at h fits = ground (
  arith,
  length-append done rest,
  take-append_exact done rest at h,
  drop-append_add done rest at (length bytes) h,
  append_assoc done bytes (drop (length bytes) rest),
)

-- Copies that fill the rest of a buffer leave what was before and the fields.
pub puts_lem :
    (done rest : Bytes) (at : ℕ) (fields : List Bytes)
    → length done ≡ at
    → length (joined fields) ≡ length rest
    → at + length rest < 2 ^ 64
    → puts (done ++ rest) at fields ≡ done ++ joined fields
unfolding puts
puts_lem done [] at [] h same fits = refl
puts_lem done (x ∷ rest) at [] h same fits = absurd (omega arith)
puts_lem done rest at (field ∷ fields) h same fits =
    let room : length field ≤ length rest = omega (arith, length-append field (joined fields)) in
    ap (λ (t : Bytes). puts t (saturating_add at (length field)) fields)
      (copy_at_lem done rest field at h room)
    ∙ puts_lem (done ++ field) (drop (length field) rest) (saturating_add at (length field)) fields
        (omega (arith, length-append done field))
        (omega (arith, length-append field (joined fields), length-drop (length field) rest))
        (omega (arith, length-drop (length field) rest))
    ∙ append_assoc done field (joined fields)
