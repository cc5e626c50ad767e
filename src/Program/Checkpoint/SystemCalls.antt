-- ===== src/Program/Checkpoint/SystemCalls.antt =====
-- What the runtime documents of its system program, as far as `publish_checkpoint` relies on it.
use Prim.Native.Nat.{◌≤◌}
use potash.Common.{ℕ, ◌+◌, ◌-◌, ◌≡◌, ◌≢◌, true}
use potash.Program.Outcome.{done}
use potash.Program.Checkpoint.{Pubkey, Funds, Runtime, zeroed, data_is_empty}

-- The runtime's bound on the data that one instruction adds to an account.
abbrev pub max_data_increase : ℕ
max_data_increase = 10240

-- The calls of a payer that has signed and has the funds, on an empty account of the system program and within the bound on its data, succeed, and do what they say. The account signs
-- with its seeds.
pub record IsRuntime (r : Runtime) : Type 0 where
  pub distinct : r.program_id ≢ r.system_id
  pub creates :
      (f : Funds) (lamports size : ℕ) (owner : Pubkey)
      → f.target.owner ≡ r.system_id
      → data_is_empty f.target.contents ≡ true
      → f.target.lamports ≡ 0
      → size ≤ max_data_increase
      → lamports ≤ f.payer
      → r.create_account f lamports size owner
        ≡ done (record {
          payer = f.payer - lamports;
          target = record { owner = owner; lamports = lamports; contents = zeroed size };
        })
  pub transfers :
      (f : Funds) (n : ℕ)
      → n ≤ f.payer
      → r.transfer f n
        ≡ done (record {
          payer = f.payer - n;
          target = record f.target { lamports = f.target.lamports + n };
        })
  pub allocates :
      (f : Funds) (size : ℕ)
      → f.target.owner ≡ r.system_id
      → data_is_empty f.target.contents ≡ true
      → size ≤ max_data_increase
      → r.allocate f size ≡ done (record f { target = record f.target { contents = zeroed size } })
  pub assigns :
      (f : Funds) (owner : Pubkey)
      → f.target.owner ≡ r.system_id
      → r.assign f owner ≡ done (record f { target = record f.target { owner = owner } })
