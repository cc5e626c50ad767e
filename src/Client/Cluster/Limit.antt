-- ===== src/Client/Cluster/Limit.antt =====
-- crates/certimining-client/src/cluster.rs and fetch.rs: the lag of a range never asks the cluster for
-- more accounts than one view can hold.
use potash.Common.{
  ℕ, zero, suc, ◌+◌, ◌-◌, ◌≤◌, ◌≡◌, refl, ap, arith, none, List, [], ◌∷◌, length, drop, map,
  length-take, All, false,
}
use potash.Common.Early.{Early, stop, go, ◌>>=◌}
use potash.Program.Checkpoint.{Pubkey}
use potash.Client.Fetch.{Framework, RootSource, config_address, checkpoint_address}
use potash.Client.Fetch.Lag.{
  Reading, chunks, batches_of, epochs_from, read_batch, read_batches, sequence_lag,
}
use potash.Client.Cluster.Requests.{Rpc, account_at, accounts_at, of_accounts, cluster}

-- The cluster without the check of a request's length.
abbrev pub unchecked : Rpc → RootSource
unchecked rpc = record {
  account_at = account_at rpc;
  accounts_at = λ addresses. of_accounts (rpc.get_multiple_accounts addresses);
}

abbrev Fits : List ℕ → Type 0
Fits batch = length batch ≤ 99

chunks-Fits : (fuel : ℕ) (xs : List ℕ) → All Fits (chunks fuel 99 xs)
unfolding chunks
chunks-Fits zero xs = tt
chunks-Fits (suc fuel) [] = tt
chunks-Fits (suc fuel) (x ∷ xs) =
    (omega (arith, length-take 99 (x ∷ xs)), chunks-Fits fuel (drop 99 (x ∷ xs)))

batches_of-Fits : (epochs : List ℕ) → All Fits (batches_of epochs)
unfolding batches_of
batches_of-Fits [] = (omega arith, tt)
batches_of-Fits (e ∷ es) = chunks-Fits (length (e ∷ es)) (e ∷ es)

length-map : {A B : Type 0} (g : A → B) (xs : List A) → length (map g xs) ≡ length xs
length-map g [] = refl
length-map g (x ∷ xs) = ap suc (length-map g xs)

bind_ext :
    {R A B : Type 0} {g g' : A → Early R B} (m : Early R A)
    → ((a : A) → g a ≡ g' a)
    → (m >>= g) ≡ (m >>= g')
bind_ext (stop r) h = refl
bind_ext (go a) h = h a

accounts_at-Fits :
    (rpc : Rpc) (addresses : List Pubkey)
    → length addresses ≤ 100
    → accounts_at rpc addresses ≡ of_accounts (rpc.get_multiple_accounts addresses)
unfolding accounts_at
accounts_at-Fits rpc addresses h = ground arith

module _ (f : Framework) (program_id : Pubkey) (rpc : Rpc) where
  read_batch-Fits :
      (reading : Reading) (batch : List ℕ)
      → Fits batch
      → read_batch f program_id (cluster rpc) reading batch
        ≡ read_batch f program_id (unchecked rpc) reading batch
  unfolding read_batch
  read_batch-Fits reading batch h =
      rw
        (accounts_at-Fits rpc
          (config_address f program_id ∷ map (checkpoint_address f program_id) batch)
          (omega (arith, length-map (checkpoint_address f program_id) batch)))
        refl

  read_batches-Fits :
      (reading : Reading) (batches : List (List ℕ))
      → All Fits batches
      → read_batches f program_id (cluster rpc) reading batches
        ≡ read_batches f program_id (unchecked rpc) reading batches
  unfolding read_batches
  read_batches-Fits reading [] h = refl
  read_batches-Fits reading (batch ∷ rest) h = rw (read_batch-Fits reading batch h.0) (
      bind_ext (read_batch f program_id (unchecked rpc) reading batch)
        (λ r. read_batches-Fits r rest h.1))

  -- The lag of any range is the same with the cluster's limit on a request as without it, so the
  -- limit refuses none of its requests.
  pub sequence_lag-within_limit :
      (first last : ℕ)
      → sequence_lag f program_id (cluster rpc) first last
        ≡ sequence_lag f program_id (unchecked rpc) first last
  unfolding sequence_lag
  sequence_lag-within_limit first last =
      rw
        (read_batches-Fits (record { lag = none; first_config = none; read = 0; moved = false })
          (batches_of (epochs_from first (last + 1 - first)))
          (batches_of-Fits (epochs_from first (last + 1 - first))))
        refl
