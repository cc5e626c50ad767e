-- ===== src/Log/Tree/Order.antt =====
-- The order in which `build` takes its submissions: ascending by identifier
-- (`sort_unstable_by_key`), and the search for two neighbours of one identifier.
use potash.Common.{
  ℕ, ◌≡◌, refl, ap, ◌∙◌, Bool, true, false, ◌&&◌, ◌||◌, List, [], ◌∷◌, Option, none, some, arith,
}
pub mod Distinct
use potash.Common.{
  Bytes, bytes_eq, bytes_eq_refl, bytes_eq→eq, ltb, ◌==◌, if◌then◌else◌, length, suc,
}

-- The order of byte arrays.
unfoldable pub bytes_leb : Bytes → Bytes → Bool
bytes_leb [] ys = true
bytes_leb (x ∷ xs) [] = false
bytes_leb (x ∷ xs) (y ∷ ys) = ltb x y || (x == y && bytes_leb xs ys)

unfoldable pub insert_by_id : Bytes × Bytes → List (Bytes × Bytes) → List (Bytes × Bytes)
insert_by_id e [] = e ∷ []
insert_by_id e (f ∷ fs) =
    let later = f ∷ insert_by_id e fs in if bytes_leb e.0 f.0 then e ∷ f ∷ fs else later

unfoldable pub sort_by_id : List (Bytes × Bytes) → List (Bytes × Bytes)
sort_by_id [] = []
sort_by_id (e ∷ es) = insert_by_id e (sort_by_id es)

-- `windows(2).any(|pair| left.0 == right.0)`
unfoldable pub any_adjacent_equal : List (Bytes × Bytes) → Bool
any_adjacent_equal [] = false
any_adjacent_equal (e ∷ []) = false
any_adjacent_equal (e ∷ f ∷ rest) = bytes_eq e.0 f.0 || any_adjacent_equal (f ∷ rest)

-- The leaf of the first submission with an identifier.
unfoldable pub leaf_of_id : Bytes → List (Bytes × Bytes) → Option Bytes
leaf_of_id id [] = none
leaf_of_id id ((i, leaf) ∷ rest) = if bytes_eq i id then some leaf else leaf_of_id id rest

bytes_leb_refl : (xs : Bytes) → bytes_leb xs xs ≡ true
unfolding bytes_leb
bytes_leb_refl [] = refl
bytes_leb_refl (x ∷ xs) = ground (arith, bytes_leb_refl xs)

pub bytes_leb_total : (xs ys : Bytes) → bytes_leb xs ys ≡ false → bytes_leb ys xs ≡ true
unfolding bytes_leb
bytes_leb_total [] ys h = cc
bytes_leb_total (x ∷ xs) [] h = refl
bytes_leb_total (x ∷ xs) (y ∷ ys) h = ground (arith, bytes_leb_total xs ys)

pub bytes_leb_antisym : (xs ys : Bytes) → bytes_leb xs ys ≡ true → bytes_leb ys xs ≡ true → xs ≡ ys
unfolding bytes_leb
bytes_leb_antisym [] [] h k = refl
bytes_leb_antisym [] (y ∷ ys) h k = cc
bytes_leb_antisym (x ∷ xs) [] h k = cc
bytes_leb_antisym (x ∷ xs) (y ∷ ys) h k = ground (arith, bytes_leb_antisym xs ys)

pub bytes_leb_trans :
    (xs ys zs : Bytes) → bytes_leb xs ys ≡ true → bytes_leb ys zs ≡ true → bytes_leb xs zs ≡ true
unfolding bytes_leb
bytes_leb_trans [] ys zs h k = refl
bytes_leb_trans (x ∷ xs) [] zs h k = cc
bytes_leb_trans (x ∷ xs) (y ∷ ys) [] h k = cc
bytes_leb_trans (x ∷ xs) (y ∷ ys) (z ∷ zs) h k = ground (arith, bytes_leb_trans xs ys zs)

leaf_of_id-insert :
    (id : Bytes) (e : Bytes × Bytes) (s : List (Bytes × Bytes))
    → leaf_of_id id (insert_by_id e s) ≡ (if bytes_eq e.0 id then some e.1 else leaf_of_id id s)
unfolding leaf_of_id insert_by_id
leaf_of_id-insert id e [] = refl
leaf_of_id-insert id e (f ∷ fs) =
    ground
      (arith, leaf_of_id-insert id e fs, bytes_leb_refl e.0, bytes_eq→eq e.0 id, bytes_eq→eq f.0 id)

-- Sorting does not change which leaf an identifier has.
pub leaf_of_id-sort :
    (id : Bytes) (real : List (Bytes × Bytes))
    → leaf_of_id id (sort_by_id real) ≡ leaf_of_id id real
unfolding leaf_of_id sort_by_id
leaf_of_id-sort id [] = refl
leaf_of_id-sort id (e ∷ es) =
    leaf_of_id-insert id e (sort_by_id es)
    ∙ ap (λ (rest : Option Bytes). if bytes_eq e.0 id then some e.1 else rest)
        (leaf_of_id-sort id es)

length-insert_by_id :
    (e : Bytes × Bytes) (s : List (Bytes × Bytes)) → length (insert_by_id e s) ≡ suc (length s)
unfolding insert_by_id
length-insert_by_id e [] = refl
length-insert_by_id e (f ∷ fs) = ground (arith, length-insert_by_id e fs)

pub length-sort_by_id : (s : List (Bytes × Bytes)) → length (sort_by_id s) ≡ length s
unfolding sort_by_id
length-sort_by_id [] = refl
length-sort_by_id (e ∷ es) = length-insert_by_id e (sort_by_id es) ∙ ap suc (length-sort_by_id es)
