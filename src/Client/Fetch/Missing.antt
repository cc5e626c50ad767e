-- ===== src/Client/Fetch/Missing.antt =====
-- crates/certimining-client/src/fetch.rs: which epochs of a range the lag names.
use potash.Common.{
  ℕ, zero, suc, ◌+◌, ◌≤◌, ◌≡◌, inl, inr, refl, sym, subst, ap, ◌∙◌, arith, false, ◌&&◌, not, Option,
  List, [], ◌∷◌, ◌++◌, append_assoc, append-nil, Option-cases, Bool-cases, ltb, if◌then◌else◌,
  length, take, drop, take-append-drop, length-drop, get_elem?,
}
use potash.Common.Early.{go, Early-cases, go-injective}
use potash.Program.Checkpoint.{Pubkey, LogConfig}
use potash.Client.Fetch.{Framework, Account, Fetched, placed, not_accepted, absent}
use potash.Client.Fetch.Lag.{
  Lag, chunks, batches_of, answer_for, record_answer, judge_epoch, judge_batch,
}

-- The epochs of a list that lie before a log's start, and those after its last.
unfoldable pub before_start : ℕ → List ℕ → List ℕ
before_start start [] = []
before_start start (e ∷ es) =
    if ltb e start then e ∷ before_start start es else before_start start es

unfoldable pub after_last : ℕ → ℕ → List ℕ → List ℕ
after_last start last [] = []
after_last start last (e ∷ es) =
    if not (ltb e start) && ltb last e
    then e ∷ after_last start last es
    else after_last start last es

-- The lists of a lag extended by those of some epochs, with the bounds kept.
pub record Extends (start last : ℕ) (epochs : List ℕ) (lag lag' : Lag) : Type 0 where
  pub before : lag'.before_log_start ≡ lag.before_log_start ++ before_start start epochs
  pub after : lag'.not_yet_published ≡ lag.not_yet_published ++ after_last start last epochs
  pub start_kept : lag'.start_epoch ≡ lag.start_epoch
  pub last_kept : lag'.last_published ≡ lag.last_published

plus_nil : (xs : List ℕ) → xs ≡ xs ++ []
plus_nil xs = sym (append-nil xs)

pub before_start-cons :
    (start e : ℕ) (es : List ℕ)
    → before_start start (e ∷ es) ≡ before_start start (e ∷ []) ++ before_start start es
unfolding before_start
before_start-cons start e es = elim (Bool-cases (ltb e start)) [
  | inl t ↦ rw t refl
  | inr t ↦ rw t refl
]

pub after_last-cons :
    (start last e : ℕ) (es : List ℕ)
    → after_last start last (e ∷ es) ≡ after_last start last (e ∷ []) ++ after_last start last es
unfolding after_last
after_last-cons start last e es = elim (Bool-cases (not (ltb e start) && ltb last e)) [
  | inl t ↦ rw t refl
  | inr t ↦ rw t refl
]

Extends-trans :
    (start last e : ℕ) (es : List ℕ) (lag mid lag' : Lag)
    → Extends start last (e ∷ []) lag mid
    → Extends start last es mid lag'
    → Extends start last (e ∷ es) lag lag'
Extends-trans start last e es lag mid lag' x y = record {
  before =
      y.before
      ∙ ap (λ (t : List ℕ). t ++ before_start start es) x.before
      ∙ append_assoc lag.before_log_start (before_start start (e ∷ [])) (before_start start es)
      ∙ ap (λ (t : List ℕ). lag.before_log_start ++ t) (sym (before_start-cons start e es));
  after =
      y.after
      ∙ ap (λ (t : List ℕ). t ++ after_last start last es) x.after
      ∙ append_assoc lag.not_yet_published (after_last start last (e ∷ []))
          (after_last start last es)
      ∙ ap (λ (t : List ℕ). lag.not_yet_published ++ t) (sym (after_last-cons start last e es));
  start_kept = y.start_kept ∙ x.start_kept;
  last_kept = y.last_kept ∙ x.last_kept;
}

-- An answer for an epoch in the range adds to neither list.
answered :
    (f : Framework) (program_id : Pubkey) (start last epoch : ℕ) (lag lag' : Lag)
    (fetched : Fetched)
    → ltb epoch start ≡ false
    → ltb last epoch ≡ false
    → record_answer f program_id epoch lag fetched ≡ go lag'
    → Extends start last (epoch ∷ []) lag lag'
unfolding record_answer before_start after_last
answered f program_id start last epoch lag lag' (placed c) b a h =
    subst (Extends start last (epoch ∷ []) lag) (go-injective h) record {
      before = rw b (plus_nil _);
      after = rw (b, a) (plus_nil _);
      start_kept = refl;
      last_kept = refl;
    }
answered f program_id start last epoch lag lag' (not_accepted r) b a h =
    subst (Extends start last (epoch ∷ []) lag) (go-injective h) record {
      before = rw b (plus_nil _);
      after = rw (b, a) (plus_nil _);
      start_kept = refl;
      last_kept = refl;
    }
answered f program_id start last epoch lag lag' absent b a h = absurd (cc h)

module _ (f : Framework) (program_id : Pubkey) (config : LogConfig)
    (accounts : List (Option Account)) where
  judge_epoch-Extends :
      (offset epoch : ℕ) (lag lag' : Lag)
      → judge_epoch f program_id config accounts offset lag epoch ≡ go lag'
      → Extends config.start_epoch config.last_epoch (epoch ∷ []) lag lag'
  unfolding judge_epoch before_start after_last
  judge_epoch-Extends offset epoch lag lag' h = elim (Bool-cases (ltb epoch config.start_epoch)) [
    | inl t ↦
        subst (Extends config.start_epoch config.last_epoch (epoch ∷ []) lag)
          (go-injective (rw t at h))
          record {
            before = rw t refl;
            after = rw t (plus_nil _);
            start_kept = refl;
            last_kept = refl;
          }
    | inr b ↦ elim (Bool-cases (ltb config.last_epoch epoch)) [
      | inl t ↦
          subst (Extends config.start_epoch config.last_epoch (epoch ∷ []) lag)
            (go-injective (rw (b, t) at h))
            record {
              before = rw b (plus_nil _);
              after = rw (b, t) refl;
              start_kept = refl;
              last_kept = refl;
            }
      | inr a ↦ elim (Option-cases (get_elem? accounts (offset + 1))) [
        | inl n ↦ absurd (ground (arith, h, b, a, n))
        | inr (entry, n) ↦
            answered f program_id config.start_epoch config.last_epoch epoch lag lag'
              (answer_for f program_id epoch entry) b a (ground (arith, h, b, a, n))
      ]
    ]
  ]

  pub judge_batch-Extends :
      (epochs : List ℕ) (offset : ℕ) (lag lag' : Lag)
      → judge_batch f program_id config accounts offset lag epochs ≡ go lag'
      → Extends config.start_epoch config.last_epoch epochs lag lag'
  unfolding judge_batch before_start after_last
  judge_batch-Extends [] offset lag lag' h =
      subst (Extends config.start_epoch config.last_epoch [] lag) (go-injective h)
        record { before = plus_nil _; after = plus_nil _; start_kept = refl; last_kept = refl }
  judge_batch-Extends (epoch ∷ epochs) offset lag lag' h =
      elim (Early-cases (judge_epoch f program_id config accounts offset lag epoch)) [
        | inl (r, e) ↦ absurd (ground (arith, h, e))
        | inr (mid, e) ↦
            Extends-trans config.start_epoch config.last_epoch epoch epochs lag mid lag'
              (judge_epoch-Extends offset epoch lag mid e)
              (judge_batch-Extends epochs (offset + 1) mid lag' (ground (arith, h, e)))
      ]

take_shorter :
    (n : ℕ) (x : ℕ) (xs : List ℕ) (fuel : ℕ)
    → length (x ∷ xs) ≤ suc fuel
    → length (drop (suc n) (x ∷ xs)) ≤ fuel
take_shorter n x xs fuel h = omega (arith, length-drop n xs)

unfoldable pub concat_all : List (List ℕ) → List ℕ
concat_all [] = []
concat_all (b ∷ bs) = b ++ concat_all bs

chunks_all :
    (fuel n : ℕ) (xs : List ℕ) → length xs ≤ fuel → concat_all (chunks fuel (suc n) xs) ≡ xs
unfolding concat_all chunks
chunks_all zero n [] h = refl
chunks_all zero n (x ∷ xs) h = absurd (omega arith)
chunks_all (suc fuel) n [] h = refl
chunks_all (suc fuel) n (x ∷ xs) h =
    ap (λ (t : List ℕ). x ∷ (take n xs ++ t))
      (chunks_all fuel n (drop n xs) (take_shorter n x xs fuel h))
    ∙ ap (λ (t : List ℕ). x ∷ t) (take-append-drop n xs)

-- Every epoch of the range is in one batch, once.
pub batches_all : (xs : List ℕ) → concat_all (batches_of xs) ≡ xs
unfolding concat_all batches_of
batches_all [] = refl
batches_all (x ∷ xs) = chunks_all (length (x ∷ xs)) 98 (x ∷ xs) (omega arith)
