-- ===== src/Common/Early.antt =====
-- A body that may return before its end: an early `return`, or an `Err(e)?`.
use mathlib.Core.Path.{◌≡◌, refl, ap}
use mathlib.Core.Logic.{◌⊎◌, inl, inr}
use mathlib.Core.Bool.{Bool, true, false}
use mathlib.Core.Option.{Option, none, some}

pub data Early {ℓ κ} (R : Type ℓ) (A : Type κ) : Type (ℓ ⊔ κ) where
  stop : R → Early R A
  go : A → Early R A

module _ {ℓ} {R : Type ℓ} where
  infixl 5 ◌>>=◌ ◌>>◌
  abbrev pub ◌>>=◌ {κ μ} : {A : Type κ} {B : Type μ} → Early R A → (A → Early R B) → Early R B
  stop r >>= f = stop r
  go a >>= f = f a

  abbrev pub ◌>>◌ {μ} : {B : Type μ} → Early R (Unit {0}) → Early R B → Early R B
  stop r >> k = stop r
  go _ >> k = k

  -- `if test { return r }`
  abbrev pub stop_if : Bool → R → Early R (Unit {0})
  stop_if true r = stop r
  stop_if false r = go tt

  -- `let Some(a) = o else { return r }`
  abbrev pub or_stop {κ} : {A : Type κ} → Option A → R → Early R A
  or_stop none r = stop r
  or_stop (some a) r = go a

  abbrev pub finish : Early R R → R
  finish (stop r) = r
  finish (go r) = r

  pub Early-cases {κ} :
      {A : Type κ} (m : Early R A) → ((r : R) × (m ≡ stop r)) ⊎ ((a : A) × (m ≡ go a))
  Early-cases (stop r) = inl (r, refl)
  Early-cases (go a) = inr (a, refl)

  pub go-injective {κ} : {A : Type κ} {a b : A} → ◌≡◌ {A = Early R A} (go a) (go b) → a ≡ b
  go-injective {A = A} {a = a} e = ap (λ m. elim m as (λ x. A) [ go x ↦ x | stop _ ↦ a ]) e
