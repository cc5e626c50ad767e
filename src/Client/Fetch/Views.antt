-- ===== src/Client/Fetch/Views.antt =====
-- crates/certimining-client/src/fetch.rs: the lag over all the views of a range.
use potash.Common.{
  ℕ, ◌+◌, ◌-◌, ◌≡◌, inl, inr, refl, sym, subst, ap, ◌∙◌, arith, Bool, false, Option, none, some,
  List, [], ◌∷◌, ◌++◌, append_assoc, append-nil, Option-cases,
}
use potash.Common.Early.{go, Early-cases, go-injective}
use potash.Common.Maybe.{some_injective}
use potash.Program.Checkpoint.{Pubkey, LogConfig}
use potash.Client.Fetch.{Framework, RootSource}
use potash.Client.Fetch.Lag.{
  Lag, Reading, epochs_from, batches_of, read_batch, read_batches, sequence_lag, compare_bounds,
}
use potash.Client.Fetch.Missing.{before_start, after_last, concat_all, batches_all}
use potash.Client.Fetch.Batches.{Kept, read_batch-Stepped, first_view, next_view}

module _ (f : Framework) (program_id : Pubkey) (source : RootSource) where
  earlier_unmoved :
      (config : LogConfig) (o : Option (ℕ × ℕ)) (moved : Bool)
      → (compare_bounds config o moved).1 ≡ false
      → moved ≡ false
  earlier_unmoved config none moved h = h
  earlier_unmoved config (some (start, last)) moved h = ground (arith, h)

  all_unmoved :
      (batches : List (List ℕ)) (reading final : Reading)
      → read_batches f program_id source reading batches ≡ go final
      → final.moved ≡ false
      → reading.moved ≡ false
  unfolding read_batches
  all_unmoved [] reading final h still = ap (λ (r : Reading). r.moved) (go-injective h) ∙ still
  all_unmoved (batch ∷ rest) reading final h still =
      elim (Early-cases (read_batch f program_id source reading batch)) [
        | inl (r, e) ↦ absurd (ground (arith, h, e))
        | inr (mid, e) ↦
            let s = read_batch-Stepped f program_id source batch reading mid e in
            earlier_unmoved s.config reading.first_config reading.moved
              (sym s.moved_here ∙ all_unmoved rest mid final (ground (arith, h, e)) still)
      ]

  all_views :
      (batches : List (List ℕ)) (start last : ℕ) (epochs : List ℕ) (reading final : Reading)
      → Kept start last epochs reading
      → read_batches f program_id source reading batches ≡ go final
      → final.moved ≡ false
      → Kept start last (epochs ++ concat_all batches) final
  unfolding read_batches concat_all
  all_views [] start last epochs reading final k h still =
      subst (Kept start last (epochs ++ [])) (go-injective h)
        (subst (λ (t : List ℕ). Kept start last t reading) (sym (append-nil epochs)) k)
  all_views (batch ∷ rest) start last epochs reading final k h still =
      elim (Early-cases (read_batch f program_id source reading batch)) [
        | inl (r, e) ↦ absurd (ground (arith, h, e))
        | inr (mid, e) ↦
            let later : read_batches f program_id source mid rest ≡ go final =
              ground (arith, h, e) in
            subst (λ (t : List ℕ). Kept start last t final)
              (append_assoc epochs batch (concat_all rest))
              (all_views rest start last (epochs ++ batch) mid final
                (next_view f program_id source start last epochs batch reading mid k
                  (read_batch-Stepped f program_id source batch reading mid e)
                  (all_unmoved rest mid final later still))
                later still)
      ]

  abbrev nothing_yet : Reading
  nothing_yet = record { lag = none; first_config = none; read = 0; moved = false }

  from_the_first :
      (batch : List ℕ) (batches : List (List ℕ)) (final : Reading)
      → read_batches f program_id source nothing_yet (batch ∷ batches) ≡ go final
      → final.moved ≡ false
      → (start : ℕ) × (last : ℕ) × Kept start last (concat_all (batch ∷ batches)) final
  unfolding read_batches concat_all
  from_the_first batch batches final h still =
      elim (Early-cases (read_batch f program_id source nothing_yet batch)) [
        | inl (r, e) ↦ absurd (ground (arith, h, e))
        | inr (mid, e) ↦
            let s = read_batch-Stepped f program_id source batch nothing_yet mid e in
            (
              s.config.start_epoch,
              s.config.last_epoch,
              all_views batches s.config.start_epoch s.config.last_epoch batch mid final
                  (first_view f program_id source batch nothing_yet mid refl refl s)
                  (ground (arith, h, e)) still,
            )
      ]

  named :
      (batches : List (List ℕ)) (final : Reading) (lag : Lag)
      → read_batches f program_id source nothing_yet batches ≡ go final
      → final.lag ≡ some lag
      → final.moved ≡ false
      → (lag.before_log_start ≡ before_start lag.start_epoch (concat_all batches))
        × (lag.not_yet_published
            ≡ after_last lag.start_epoch lag.last_published (concat_all batches))
  unfolding read_batches
  named [] final lag h some_lag still =
      absurd (cc (ap (λ (r : Reading). r.lag) (go-injective h), some_lag))
  named (batch ∷ batches) final lag h some_lag still =
      let (start, last, k) = from_the_first batch batches final h still in
      let same : k.lag ≡ lag = some_injective (sym k.lag_here ∙ some_lag) in
      subst
        (λ (l : Lag).
          (l.before_log_start ≡ before_start l.start_epoch (concat_all (batch ∷ batches)))
          × (l.not_yet_published
              ≡ after_last l.start_epoch l.last_published (concat_all (batch ∷ batches))))
        same
        (
          k.before
              ∙ ap (λ (n : ℕ). before_start n (concat_all (batch ∷ batches))) (sym k.start_here),
          k.after
              ∙ ap (λ (n : ℕ). after_last n last (concat_all (batch ∷ batches))) (sym k.start_here)
              ∙ ap (λ (n : ℕ). after_last k.lag.start_epoch n (concat_all (batch ∷ batches)))
                  (sym k.last_here),
        )

  -- Over however many views, as long as they agree on the log's bounds, the lag of a range names as
  -- before the log's start exactly the epochs of the range before it, and as not yet published exactly
  -- those after its last, in order.
  pub sequence_lag-partition :
      (first last : ℕ) (lag : Lag)
      → sequence_lag f program_id source first last ≡ go lag
      → lag.configuration_moved ≡ false
      → (lag.before_log_start ≡ before_start lag.start_epoch (epochs_from first (last + 1 - first)))
        × (lag.not_yet_published
            ≡ after_last lag.start_epoch lag.last_published (epochs_from first (last + 1 - first)))
  unfolding sequence_lag
  sequence_lag-partition first last lag h still =
      elim (Early-cases (read_batches f program_id source nothing_yet (batches_of range))) [
        | inl (r, e) ↦ absurd (ground (arith, h, e))
        | inr (final, e) ↦ elim (Option-cases final.lag) [
          | inl n ↦ absurd (ground (arith, h, e, n))
          | inr (raw, n) ↦
              let same : (record raw { views = final.read; configuration_moved = final.moved })
                  ≡ lag =
                ground (arith, h, e, n) in
              let all =
                named (batches_of range) final raw e n
                  (ap (λ (l : Lag). l.configuration_moved) same ∙ still) in
              subst
                (λ (l : Lag).
                  (l.before_log_start ≡ before_start l.start_epoch range)
                  × (l.not_yet_published ≡ after_last l.start_epoch l.last_published range))
                same
                (
                  all.0 ∙ ap (before_start raw.start_epoch) (batches_all range),
                  all.1 ∙ ap (after_last raw.start_epoch raw.last_published) (batches_all range),
                )
        ]
      ]
    where
      range : List ℕ
      range = epochs_from first (last + 1 - first)
