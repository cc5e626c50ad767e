-- ===== src/Client/Fetch/Batches.antt =====
-- crates/certimining-client/src/fetch.rs: what one view of a batch of epochs adds to the reading.
use potash.Common.{
  ℕ, ◌+◌, ◌≡◌, inl, inr, refl, sym, subst, ap, ◌∙◌, arith, Bool, false, Option, none, some, List,
  [], ◌∷◌, ◌++◌, append_assoc, map,
}
use potash.Common.Early.{go, Early-cases}
use potash.Program.Checkpoint.{Pubkey, LogConfig}
use potash.Client.Fetch.{Framework, Account, RootSource, config_address, checkpoint_address}
use potash.Client.Fetch.Lag.{
  Lag, Reading, judge_batch, read_batch, empty_lag, with_bounds, compare_bounds, config_of,
}
use potash.Client.Fetch.Missing.{
  before_start, after_last, before_start-cons, after_last-cons, judge_batch-Extends,
}

before_start-append :
    (start : ℕ) (xs ys : List ℕ)
    → before_start start (xs ++ ys) ≡ before_start start xs ++ before_start start ys
unfolding before_start
before_start-append start [] ys = refl
before_start-append start (x ∷ xs) ys =
    before_start-cons start x (xs ++ ys)
    ∙ ap (λ (t : List ℕ). before_start start (x ∷ []) ++ t) (before_start-append start xs ys)
    ∙ sym
        (append_assoc (before_start start (x ∷ [])) (before_start start xs) (before_start start ys))
    ∙ ap (λ (t : List ℕ). t ++ before_start start ys) (sym (before_start-cons start x xs))

after_last-append :
    (start last : ℕ) (xs ys : List ℕ)
    → after_last start last (xs ++ ys) ≡ after_last start last xs ++ after_last start last ys
unfolding after_last
after_last-append start last [] ys = refl
after_last-append start last (x ∷ xs) ys =
    after_last-cons start last x (xs ++ ys)
    ∙ ap (λ (t : List ℕ). after_last start last (x ∷ []) ++ t) (after_last-append start last xs ys)
    ∙ sym (
        append_assoc (after_last start last (x ∷ [])) (after_last start last xs)
          (after_last start last ys))
    ∙ ap (λ (t : List ℕ). t ++ after_last start last ys) (sym (after_last-cons start last x xs))

-- The reading's lag names the epochs read so far, under one pair of bounds.
pub record Kept (start last : ℕ) (epochs : List ℕ) (reading : Reading) : Type 0 where
  pub lag : Lag
  pub lag_here : reading.lag ≡ some lag
  pub before : lag.before_log_start ≡ before_start start epochs
  pub after : lag.not_yet_published ≡ after_last start last epochs
  pub start_here : lag.start_epoch ≡ start
  pub last_here : lag.last_published ≡ last
  pub bounds : reading.first_config ≡ some (start, last)

module _ (f : Framework) (program_id : Pubkey) (source : RootSource) where
  -- What reading a batch does to the reading.
  pub record Stepped (batch : List ℕ) (reading reading' : Reading) : Type 0 where
    pub config : LogConfig
    pub accounts : List (Option Account)
    pub lag : Lag
    pub judged :
        judge_batch f program_id config accounts 0 (with_bounds config reading.lag) batch ≡ go lag
    pub lag_here : reading'.lag ≡ some lag
    pub first_here :
        reading'.first_config ≡ (compare_bounds config reading.first_config reading.moved).0
    pub moved_here : reading'.moved ≡ (compare_bounds config reading.first_config reading.moved).1

  pub read_batch-Stepped :
      (batch : List ℕ) (reading reading' : Reading)
      → read_batch f program_id source reading batch ≡ go reading'
      → Stepped batch reading reading'
  unfolding read_batch
  read_batch-Stepped batch reading reading' h =
      elim (Early-cases (
        source.accounts_at
          (config_address f program_id ∷ map (checkpoint_address f program_id) batch))) [
            | inl (r, e) ↦ absurd (ground (arith, h, e))
            | inr (view, e) ↦ elim (Early-cases (config_of f program_id view.accounts)) [
              | inl (r, c) ↦ absurd (ground (arith, h, e, c))
              | inr (config, c) ↦
                  elim (Early-cases (
                    judge_batch f program_id config view.accounts 0 (with_bounds config reading.lag)
                      batch)) [
                        | inl (r, j) ↦ absurd (ground (arith, h, e, c, j))
                        | inr (lag, j) ↦
                            let (first, moved) =
                              compare_bounds config reading.first_config reading.moved in
                            let made : Reading = record {
                              lag = some lag;
                              first_config = first;
                              read = reading.read + 1;
                              moved = moved;
                            } in
                            let same : made ≡ reading' = ground (arith, h, e, c, j) in
                            subst (Stepped batch reading) same record {
                              config = config;
                              accounts = view.accounts;
                              lag = lag;
                              judged = j;
                              lag_here = refl;
                              first_here = refl;
                              moved_here = refl;
                            }
                      ]
            ]
          ]

  pub first_view :
      (batch : List ℕ) (reading reading' : Reading)
      → reading.lag ≡ none
      → reading.first_config ≡ none
      → (s : Stepped batch reading reading')
      → Kept s.config.start_epoch s.config.last_epoch batch reading'
  first_view batch reading reading' no_lag no_first s =
      let fresh =
        judge_batch-Extends f program_id s.config s.accounts batch 0 (empty_lag s.config) s.lag (
          ap
            (λ (o : Option Lag).
              judge_batch f program_id s.config s.accounts 0 (with_bounds s.config o) batch)
            (sym no_lag)
          ∙ s.judged) in
      record {
        lag = s.lag;
        lag_here = s.lag_here;
        before = fresh.before;
        after = fresh.after;
        start_here = fresh.start_kept;
        last_here = fresh.last_kept;
        bounds =
            s.first_here
            ∙ ap (λ (o : Option (ℕ × ℕ)). (compare_bounds s.config o reading.moved).0) no_first;
      }

  -- A view under other bounds leaves the mark that they moved, for good.
  unmoved :
      (start last : ℕ) (config : LogConfig) (moved : Bool)
      → (compare_bounds config (some (start, last)) moved).1 ≡ false
      → (config.start_epoch ≡ start) × (config.last_epoch ≡ last) × (moved ≡ false)
  unmoved start last config moved h = ground (arith, h)

  pub next_view :
      (start last : ℕ) (epochs batch : List ℕ) (reading reading' : Reading)
      → Kept start last epochs reading
      → Stepped batch reading reading'
      → reading'.moved ≡ false
      → Kept start last (epochs ++ batch) reading'
  next_view start last epochs batch reading reading' k s still =
      let (same_start, same_last, not_moved) = unmoved start last s.config reading.moved (
        ap (λ (o : Option (ℕ × ℕ)). (compare_bounds s.config o reading.moved).1) (sym k.bounds)
        ∙ sym s.moved_here
        ∙ still) in
      let more =
        judge_batch-Extends f program_id s.config s.accounts batch 0
          (with_bounds s.config (some k.lag)) s.lag
          (ap
              (λ (o : Option Lag).
                judge_batch f program_id s.config s.accounts 0 (with_bounds s.config o) batch)
              (sym k.lag_here)
            ∙ s.judged) in
      record {
        lag = s.lag;
        lag_here = s.lag_here;
        before =
            more.before
            ∙ ap (λ (t : List ℕ). t ++ before_start s.config.start_epoch batch) k.before
            ∙ ap (λ (n : ℕ). before_start start epochs ++ before_start n batch) same_start
            ∙ sym (before_start-append start epochs batch);
        after =
            more.after
            ∙ ap (λ (t : List ℕ). t ++ after_last s.config.start_epoch s.config.last_epoch batch)
                k.after
            ∙ ap (λ (n : ℕ). after_last start last epochs ++ after_last n s.config.last_epoch batch)
                same_start
            ∙ ap (λ (n : ℕ). after_last start last epochs ++ after_last start n batch) same_last
            ∙ sym (after_last-append start last epochs batch);
        start_here = more.start_kept ∙ same_start;
        last_here = more.last_kept ∙ same_last;
        bounds =
            s.first_here
            ∙ ap (λ (o : Option (ℕ × ℕ)). (compare_bounds s.config o reading.moved).0) k.bounds;
      }
