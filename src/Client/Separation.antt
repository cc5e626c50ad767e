-- ===== src/Client/Separation.antt =====
-- crates/certimining-client/src/separation.rs: no key of the deployment serves two roles.
use potash.Common.{◌≡◌, ◌≢◌, ◌↔◌, refl, arith, List, [], ◌∷◌, Bytes, All}
use potash.Common.{bytes_eq, bytes_eq→eq, bytes_eq_refl, if◌then◌else◌}

pub data KeyRole : Type 0 where
  program_address deploy_authority worker_payer checkpoint_authority batcher_signing master_key :
      KeyRole

pub data KeyCollision : Type 0 where
  public secret : KeyRole → KeyRole → KeyCollision

abbrev pub Keys : Type 0
Keys = List (KeyRole × Bytes)

pub data Verdict : Type 0 where
  separate : Verdict
  collides : KeyCollision → Verdict

infixl 5 ◌>>◌
abbrev pub ◌>>◌ : Verdict → Verdict → Verdict
separate >> later = later
collides c >> later = collides c

-- The inner loop: the first later key that equals this one.
unfoldable pub check_against : (KeyRole → KeyRole → KeyCollision) → KeyRole → Bytes → Keys → Verdict
check_against collision left_role left [] = separate
check_against collision left_role left ((right_role, right) ∷ rest) =
    let later = check_against collision left_role left rest in
    if bytes_eq left right then collides (collision left_role right_role) else later

-- The outer loop.
unfoldable pub check_pairs : (KeyRole → KeyRole → KeyCollision) → Keys → Verdict
check_pairs collision [] = separate
check_pairs collision ((role, key) ∷ rest) =
    check_against collision role key rest >> check_pairs collision rest

unfoldable pub verify_role_separation : Keys → Keys → Verdict
verify_role_separation publics secrets = check_pairs public publics >> check_pairs secret secrets

-- All keys of a list are different.
abbrev pub Separate : Keys → Type 0
Separate [] = Unit
Separate (e ∷ rest) = All (λ f. e.1 ≢ f.1) rest × Separate rest

check_against-All :
    (collision : KeyRole → KeyRole → KeyCollision) (role : KeyRole) (key : Bytes) (rest : Keys)
    → (check_against collision role key rest ≡ separate) ↔ All (λ f. key ≢ f.1) rest
unfolding check_against
check_against-All collision role key [] = (λ h. tt, λ h. refl)
check_against-All collision role key ((r, k) ∷ rest) = (
  λ h. (
    λ same. ground (arith, same, bytes_eq_refl k),
    (check_against-All collision role key rest).0 (ground arith),
  ),
  λ h. ground (arith, bytes_eq→eq key k, h.0, (check_against-All collision role key rest).1 h.1),
)

check_pairs-Separate :
    (collision : KeyRole → KeyRole → KeyCollision) (keys : Keys)
    → (check_pairs collision keys ≡ separate) ↔ Separate keys
unfolding check_pairs
check_pairs-Separate collision [] = (λ h. tt, λ h. refl)
check_pairs-Separate collision ((role, key) ∷ rest) = (
  λ h. (
    (check_against-All collision role key rest).0 (ground arith),
    (check_pairs-Separate collision rest).0 (ground arith),
  ),
  λ h. ground (
    arith,
    (check_against-All collision role key rest).1 h.0,
    (check_pairs-Separate collision rest).1 h.1,
  ),
)

-- The roles are accepted exactly when all public keys are different and all secrets are different.
pub verify_role_separation_iff :
    (publics secrets : Keys)
    → (verify_role_separation publics secrets ≡ separate) ↔ (Separate publics × Separate secrets)
unfolding verify_role_separation
verify_role_separation_iff publics secrets = (
  λ h. (
    (check_pairs-Separate public publics).0 (ground arith),
    (check_pairs-Separate secret secrets).0 (ground arith),
  ),
  λ h. ground (
    arith,
    (check_pairs-Separate public publics).1 h.0,
    (check_pairs-Separate secret secrets).1 h.1,
  ),
)
