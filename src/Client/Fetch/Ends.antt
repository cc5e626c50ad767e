-- ===== src/Client/Fetch/Ends.antt =====
-- crates/certimining-client/src/observe.rs: the first and the last of a range's epochs that pass a
-- test, where the range's last epoch decides.
use potash.Common.{
  ℕ, ◌+◌, ◌≤◌, ◌<◌, ◌≡◌, ◌⊎◌, inl, inr, ap, ◌∙◌, arith, Bool, true, false, Option, none, some, ◌==◌,
  Bool-cases,
}
use potash.Client.Fetch.Observed.{IsFirst, IsLast}

pub first_here :
    (P : ℕ → Bool) (lo last hi : ℕ) (o : Option ℕ)
    → IsFirst P lo hi o
    → lo ≤ last
    → hi ≡ last + 1
    → ((e : ℕ) → lo ≤ e → e < last → P e ≡ false)
    → P last ≡ true
    → o ≡ some last
unfolding IsFirst
first_here P lo last hi o (inl (e, h)) le top before here =
    absurd (cc (h last le (omega arith), here))
first_here P lo last hi o (inr (a, e, ge, lt, t, h)) le top before here =
    elim (Bool-cases (a == last)) [
      | inl same ↦ let at : a ≡ last = ground arith in e ∙ ap some at
      | inr other ↦ let early : a < last = ground arith in absurd (cc (before a ge early, t))
    ]

pub first_nowhere :
    (P : ℕ → Bool) (lo last hi : ℕ) (o : Option ℕ)
    → IsFirst P lo hi o
    → hi ≡ last + 1
    → ((e : ℕ) → lo ≤ e → e < last → P e ≡ false)
    → P last ≡ false
    → o ≡ none
unfolding IsFirst
first_nowhere P lo last hi o (inl (e, h)) top before here = e
first_nowhere P lo last hi o (inr (a, e, ge, lt, t, h)) top before here =
    elim (Bool-cases (a == last)) [
      | inl same ↦ let at : a ≡ last = ground arith in absurd (cc (t, here, at))
      | inr other ↦ let early : a < last = ground arith in absurd (cc (before a ge early, t))
    ]

pub last_here :
    (P : ℕ → Bool) (lo last hi : ℕ) (o : Option ℕ)
    → IsLast P lo hi o
    → lo ≤ last
    → hi ≡ last + 1
    → P last ≡ true
    → o ≡ some last
unfolding IsLast
last_here P lo last hi o (inl (e, h)) le top here = absurd (cc (h last le (omega arith), here))
last_here P lo last hi o (inr (a, e, ge, lt, t, h)) le top here = elim (Bool-cases (a == last)) [
  | inl same ↦ let at : a ≡ last = ground arith in e ∙ ap some at
  | inr other ↦
      let early : a < last = ground arith in absurd (cc (h last early (omega arith), here))
]

pub last_before :
    (P : ℕ → Bool) (lo last hi : ℕ) (o : Option ℕ)
    → IsLast P lo hi o
    → hi ≡ last + 1
    → P last ≡ false
    → (o ≡ none) ⊎ ((s : ℕ) × (o ≡ some s) × (s < last))
unfolding IsLast
last_before P lo last hi o (inl (e, h)) top here = inl e
last_before P lo last hi o (inr (a, e, ge, lt, t, h)) top here = elim (Bool-cases (a == last)) [
  | inl same ↦ let at : a ≡ last = ground arith in absurd (cc (t, here, at))
  | inr other ↦ inr (a, e, ground arith)
]
