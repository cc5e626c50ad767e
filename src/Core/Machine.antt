-- ===== src/Core/Machine.antt =====
-- A method on `&mut self` that may return an error: what was written before the error stays written,
-- so the state comes back beside the error too.
use potash.Core.Error.{Result, RegistryError, ok, err}

abbrev pub Machine : Type 0 → Type 0 → Type 0
Machine S A = S → S × Result A

module _ {S A : Type 0} where
  abbrev pub pure : A → Machine S A
  pure a s = (s, ok a)

  -- `Err(e)?`
  abbrev pub fail : RegistryError → Machine S A
  fail e s = (s, err e)

  -- `r?` where `r` does not touch the state
  abbrev pub lift : Result A → Machine S A
  lift r s = (s, r)

module _ {S : Type 0} where
  abbrev pub get : Machine S S
  get s = (s, ok s)

  abbrev pub put : S → Machine S (Unit {0})
  put s' s = (s', ok tt)

module _ {S A B : Type 0} where
  abbrev pub continue : S → Result A → (A → Machine S B) → S × Result B
  continue s (ok a) f = f a s
  continue s (err e) f = (s, err e)

  infixl 5 ◌>>=◌ ◌>>◌
  abbrev pub ◌>>=◌ : Machine S A → (A → Machine S B) → Machine S B
  ◌>>=◌ m f s = let (s', r) = m s in continue s' r f

  abbrev pub ◌>>◌ : Machine S A → Machine S B → Machine S B
  m >> k = m >>= λ _. k
