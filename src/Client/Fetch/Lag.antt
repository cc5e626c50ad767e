-- ===== src/Client/Fetch/Lag.antt =====
-- crates/certimining-client/src/fetch.rs: how far the log is behind a range of epochs.
use potash.Common.{
  ℕ, zero, suc, ◌+◌, ◌-◌, Bool, true, false, not, ◌&&◌, Option, none, some, List, [], ◌∷◌, ◌++◌,
  ltb, ◌==◌, if◌then◌else◌, length, take, drop, map, get_elem?,
}
use potash.Common.Early.{Early, stop, go, ◌>>=◌, ◌>>◌, stop_if, or_stop}
use potash.Program.Checkpoint.{Pubkey, LogConfig}
use potash.Client.Fetch.{
  Framework, Account, RootSource, Refused, Fetched, placed, not_accepted, absent, Unreachable,
  wrong_answers, config_refused, no_config, missing_entry, inconsistent_view, nothing_read,
  one_view_limit, of_decoded, checkpoint_address, config_address, decode_checkpoint, decode_config,
}

pub record Lag : Type 0 where
  pub start_epoch : ℕ
  pub last_published : ℕ
  pub before_log_start : List ℕ
  pub not_yet_published : List ℕ
  pub refused : List (ℕ × Refused)
  pub views : ℕ
  pub configuration_moved : Bool

unfoldable pub is_empty : {A : Type 0} → List A → Bool
is_empty [] = true
is_empty (x ∷ xs) = false

-- `Lag::is_empty`
unfoldable pub nothing_missing : Lag → Bool
nothing_missing lag =
    is_empty lag.before_log_start && is_empty lag.not_yet_published && is_empty lag.refused

unfoldable pub highest : List ℕ → ℕ → ℕ
highest [] so_far = so_far
highest (e ∷ es) so_far = highest es (if ltb so_far e then e else so_far)

unfoldable pub epochs_behind : Lag → ℕ
epochs_behind lag =
    if is_empty lag.not_yet_published
    then 0
    else highest lag.not_yet_published 0 - lag.last_published

-- `(first..=last).collect()`, and the list in pieces of `n`, on fuel.
unfoldable pub epochs_from : ℕ → ℕ → List ℕ
epochs_from first zero = []
epochs_from first (suc n) = first ∷ epochs_from (first + 1) n

unfoldable pub chunks : ℕ → ℕ → List ℕ → List (List ℕ)
chunks zero n xs = []
chunks (suc fuel) n [] = []
chunks (suc fuel) n (x ∷ xs) = take n (x ∷ xs) ∷ chunks fuel n (drop n (x ∷ xs))

-- An empty range still asks once.
unfoldable pub batches_of : List ℕ → List (List ℕ)
batches_of [] = [] ∷ []
batches_of (e ∷ es) = chunks (length (e ∷ es)) (one_view_limit - 1) (e ∷ es)

abbrev pub empty_lag : LogConfig → Lag
empty_lag config = record {
  start_epoch = config.start_epoch;
  last_published = config.last_epoch;
  before_log_start = [];
  not_yet_published = [];
  refused = [];
  views = 0;
  configuration_moved = false;
}

-- `lag.get_or_insert_with(..)`, with the bounds of this view.
abbrev pub with_bounds : LogConfig → Option Lag → Lag
with_bounds config none = empty_lag config
with_bounds config (some lag) = record lag {
  start_epoch = config.start_epoch;
  last_published = config.last_epoch;
}

-- The bounds of the first view and whether a later view's differed.
abbrev pub compare_bounds : LogConfig → Option (ℕ × ℕ) → Bool → Option (ℕ × ℕ) × Bool
compare_bounds config none moved = (some (config.start_epoch, config.last_epoch), moved)
compare_bounds config (some (start, last)) moved = (
  some (start, last),
  if start == config.start_epoch && last == config.last_epoch then moved else true,
)

pub record Reading : Type 0 where
  pub lag : Option Lag
  pub first_config : Option (ℕ × ℕ)
  pub read : ℕ
  pub moved : Bool

module _ (f : Framework) (program_id : Pubkey) where
  -- The owner and the program stand in each other's place in this call; they are only compared.
  unfoldable pub answer_for : ℕ → Option Account → Fetched
  answer_for epoch none = absent
  answer_for epoch (some (owner, bytes)) =
      of_decoded f (decode_checkpoint f program_id owner bytes epoch)

  unfoldable pub record_answer : ℕ → Lag → Fetched → Early Unreachable Lag
  record_answer epoch lag (placed checkpoint) = go lag
  record_answer epoch lag (not_accepted reason) =
      go (record lag { refused = lag.refused ++ ((epoch, reason) ∷ []) })
  record_answer epoch lag absent = stop inconsistent_view

  unfoldable pub judge_epoch :
      LogConfig → List (Option Account) → ℕ → Lag → ℕ → Early Unreachable Lag
  judge_epoch config accounts offset lag epoch =
      if ltb epoch config.start_epoch
      then go (record lag { before_log_start = lag.before_log_start ++ (epoch ∷ []) })
      else if ltb config.last_epoch epoch
      then go (record lag { not_yet_published = lag.not_yet_published ++ (epoch ∷ []) })
      else do
        entry ← or_stop (get_elem? accounts (offset + 1)) missing_entry
        record_answer epoch lag (answer_for epoch entry)

  unfoldable pub judge_batch :
      LogConfig → List (Option Account) → ℕ → Lag → List ℕ → Early Unreachable Lag
  judge_batch config accounts offset lag [] = go lag
  judge_batch config accounts offset lag (epoch ∷ rest) = do
    lag' ← judge_epoch config accounts offset lag epoch
    judge_batch config accounts (offset + 1) lag' rest

  abbrev pub config_of : List (Option Account) → Early Unreachable LogConfig
  config_of [] = stop no_config
  config_of (none ∷ rest) = stop no_config
  config_of (some (owner, bytes) ∷ rest) = elim (decode_config f program_id owner bytes) [
    | stop reason ↦ stop config_refused
    | go config ↦ go config
  ]

  unfoldable pub read_batch : RootSource → Reading → List ℕ → Early Unreachable Reading
  read_batch source reading batch =
      let addresses = config_address f program_id ∷ map (checkpoint_address f program_id) batch in
      do
        view ← source.accounts_at addresses
        stop_if (not (length view.accounts == length addresses)) wrong_answers
        config ← config_of view.accounts
        lag ← judge_batch config view.accounts 0 (with_bounds config reading.lag) batch
        let (first, moved) = compare_bounds config reading.first_config reading.moved
        go record { lag = some lag; first_config = first; read = reading.read + 1; moved = moved }

  unfoldable pub read_batches : RootSource → Reading → List (List ℕ) → Early Unreachable Reading
  read_batches source reading [] = go reading
  read_batches source reading (batch ∷ rest) = do
    reading' ← read_batch source reading batch
    read_batches source reading' rest

  unfoldable pub sequence_lag : RootSource → ℕ → ℕ → Early Unreachable Lag
  sequence_lag source first last = do
    reading ←
        read_batches source (record { lag = none; first_config = none; read = 0; moved = false })
          (batches_of (epochs_from first (last + 1 - first)))
    lag ← or_stop reading.lag nothing_read
    go (record lag { views = reading.read; configuration_moved = reading.moved })
