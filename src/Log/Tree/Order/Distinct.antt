-- ===== src/Log/Tree/Order/Distinct.antt =====
-- Submissions of distinct identifiers: their order of arrival does not matter, and no two
-- neighbours of the sorted list share an identifier.
use mathlib.Core.List.{Permᴰ}
use mathlib.Core.Path.{subst, subst₂, ap₂}
use potash.Common.{◌≡◌, ◌≢◌, refl, sym, ap, ◌∙◌, false, List, [], ◌∷◌, suc, length, arith}
use potash.Common.{Bytes, bytes_eq, bytes_eq→eq, All, Bool-cases, inl, inr}
use potash.Log.Tree.Order.{
  bytes_leb, insert_by_id, sort_by_id, any_adjacent_equal, bytes_leb_total, bytes_leb_antisym,
  bytes_leb_trans,
}

abbrev pub Fresh : Bytes → List (Bytes × Bytes) → Type 0
Fresh id s = All (λ f. f.0 ≢ id) s

abbrev pub Distinct : List (Bytes × Bytes) → Type 0
Distinct [] = Unit
Distinct (e ∷ es) = Fresh e.0 es × Distinct es

pub All-insert :
    (P : Bytes × Bytes → Type 0) (e : Bytes × Bytes) (s : List (Bytes × Bytes))
    → P e
    → All P s
    → All P (insert_by_id e s)
unfolding insert_by_id
All-insert P e [] he hs = (he, tt)
All-insert P e (f ∷ fs) he hs = elim (Bool-cases (bytes_leb e.0 f.0)) [
  | inl before ↦ rw before (he, hs)
  | inr after ↦ rw after (hs.0, All-insert P e fs he hs.1)
]

pub All-sort :
    (P : Bytes × Bytes → Type 0) (s : List (Bytes × Bytes)) → All P s → All P (sort_by_id s)
unfolding sort_by_id
All-sort P [] h = tt
All-sort P (e ∷ es) h = All-insert P e (sort_by_id es) h.0 (All-sort P es h.1)

Distinct-insert :
    (e : Bytes × Bytes) (s : List (Bytes × Bytes))
    → Fresh e.0 s
    → Distinct s
    → Distinct (insert_by_id e s)
unfolding insert_by_id
Distinct-insert e [] new d = (tt, tt)
Distinct-insert e (f ∷ fs) new d = elim (Bool-cases (bytes_leb e.0 f.0)) [
  | inl before ↦ rw before (new, d)
  | inr after ↦ rw after (
    All-insert (λ g. g.0 ≢ f.0) e fs (λ same. new.0 (sym same)) d.0,
    Distinct-insert e fs new.1 d.1,
  )
]

pub Distinct-sort : (s : List (Bytes × Bytes)) → Distinct s → Distinct (sort_by_id s)
unfolding sort_by_id
Distinct-sort [] d = tt
Distinct-sort (e ∷ es) d =
    Distinct-insert e (sort_by_id es) (All-sort (λ f. f.0 ≢ e.0) es d.0) (Distinct-sort es d.1)

not_adjacent : (s : List (Bytes × Bytes)) → Distinct s → any_adjacent_equal s ≡ false
unfolding any_adjacent_equal
not_adjacent [] d = refl
not_adjacent (e ∷ []) d = refl
not_adjacent (e ∷ f ∷ rest) d = elim (Bool-cases (bytes_eq e.0 f.0)) [
  | inl same ↦ absurd (d.0.0 (sym (bytes_eq→eq e.0 f.0 same)))
  | inr differ ↦ rw differ (not_adjacent (f ∷ rest) d.1)
]

pub any_adjacent_equal-sort :
    (s : List (Bytes × Bytes)) → Distinct s → any_adjacent_equal (sort_by_id s) ≡ false
any_adjacent_equal-sort s d = not_adjacent (sort_by_id s) (Distinct-sort s d)

insert_comm :
    (e f : Bytes × Bytes) (s : List (Bytes × Bytes))
    → e.0 ≢ f.0
    → insert_by_id e (insert_by_id f s) ≡ insert_by_id f (insert_by_id e s)
unfolding insert_by_id
insert_comm e f [] differ =
    ground (arith, bytes_leb_total e.0 f.0, bytes_leb_antisym e.0 f.0, differ)
insert_comm e f (g ∷ gs) differ = ground (
  arith,
  bytes_leb_total e.0 f.0,
  bytes_leb_antisym e.0 f.0,
  bytes_leb_trans e.0 f.0 g.0,
  bytes_leb_trans f.0 e.0 g.0,
  bytes_leb_total e.0 g.0,
  bytes_leb_total f.0 g.0,
  bytes_leb_trans f.0 g.0 e.0,
  bytes_leb_trans e.0 g.0 f.0,
  insert_comm e f gs differ,
)

All-perm : (P : Bytes × Bytes → Type 0) {s t : List (Bytes × Bytes)} → Permᴰ s t → All P s → All P t
All-perm P Permᴰ.nil h = tt
All-perm P (Permᴰ.cons e d) h = (subst P e h.0, All-perm P d h.1)
All-perm P (Permᴰ.swap e f) h = (subst P f h.1.0, (subst P e h.0, h.1.1))
All-perm P (Permᴰ.trans d d') h = All-perm P d' (All-perm P d h)

Distinct-perm : {s t : List (Bytes × Bytes)} → Permᴰ s t → Distinct s → Distinct t
Distinct-perm Permᴰ.nil h = tt
Distinct-perm (Permᴰ.cons {l₂ = l} e d) h =
    (subst (λ b. Fresh b.0 l) e (All-perm (λ f. f.0 ≢ _) d h.0), Distinct-perm d h.1)
Distinct-perm (Permᴰ.swap {l} e f) h =
    subst₂ (λ x y. Distinct (x ∷ y ∷ l)) f e (((λ same. h.0.0 (sym same)), h.1.0), (h.0.1, h.1.1))
Distinct-perm (Permᴰ.trans d d') h = Distinct-perm d' (Distinct-perm d h)

pub length-perm : {s t : List (Bytes × Bytes)} → Permᴰ s t → length s ≡ length t
length-perm Permᴰ.nil = refl
length-perm (Permᴰ.cons e d) = ap suc (length-perm d)
length-perm (Permᴰ.swap e f) = refl
length-perm (Permᴰ.trans d d') = length-perm d ∙ length-perm d'

-- One set of submissions is sorted in one way.
pub sort-perm : {s t : List (Bytes × Bytes)} → Permᴰ s t → Distinct s → sort_by_id s ≡ sort_by_id t
unfolding sort_by_id
sort-perm Permᴰ.nil h = refl
sort-perm (Permᴰ.cons e d) h = ap₂ insert_by_id e (sort-perm d h.1)
sort-perm (Permᴰ.swap {a} {b} {l} e f) h =
    insert_comm a b (sort_by_id l) (λ same. h.0.0 (sym same))
    ∙ ap₂ (λ x y. insert_by_id x (insert_by_id y (sort_by_id l))) f e
sort-perm (Permᴰ.trans d d') h = sort-perm d h ∙ sort-perm d' (Distinct-perm d h)
