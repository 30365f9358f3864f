-- ===== src/Common/Order/Laws.antt =====
-- What ORDER BY and LIMIT pick: an independent description of a page of rows.
use Prim.Native.Nat.{ℕ, zero, suc, ◌≤◌}
use mathlib.Core.Path.{◌≡◌, refl, ap}
use mathlib.Core.Bool.{Bool, true, false}
use mathlib.Core.List.{List, [], ◌∷◌, ◌++◌, Perm}
use mathlib.Core.List.Perm
use mathlib.Core.Logic.{◌⊎◌, inl, inr}
use native.Mathlib.Omega.{arith}
use fukulow.Common.Rows.{length, rows}
use fukulow.Common.RowLaws.{All}
use fukulow.Common.Tests.{Bool-cases}
use fukulow.Common.Order.{insert_sorted, sort_by, take}

-- The elements of a list for which `P` holds, all of them, as often and in the same order.
pub data IsPicked {A : Type 0} (P : A → Type 0) : List A → List A → Type 0 where
  nothing : IsPicked P [] []
  taken : {x : A} {xs ys : List A} → P x → IsPicked P xs ys → IsPicked P (x ∷ xs) (x ∷ ys)
  skipped : {x : A} {xs ys : List A} → ¬ P x → IsPicked P xs ys → IsPicked P (x ∷ xs) ys

-- Every element stands in the relation to every later one.
abbrev pub IsSorted : {A : Type 0} → (A → A → Type 0) → List A → Type 0
IsSorted R [] = Unit
IsSorted R (x ∷ xs) = All (R x) xs × IsSorted R xs

-- The first `limit` of the elements with `P`, in the order of `R`: `others` are those left out, and
-- there are none unless the page is full.
abbrev pub IsPage : {A : Type 0} → (A → Type 0) → (A → A → Type 0) → ℕ → List A → List A → Type 0
IsPage {A} P R limit all page =
    (matching : List A) × (others : List A) × IsPicked P all matching
    × Perm (page ++ others) matching
    × IsSorted R (page ++ others)
    × (length page ≤ limit)
    × ((others ≡ []) ⊎ (length page ≡ limit))

drop : {A : Type 0} → ℕ → List A → List A
drop zero xs = xs
drop (suc n) [] = []
drop (suc n) (x ∷ xs) = drop n xs

module _ {A : Type 0} where
  rows-IsPicked :
      (P : A → Type 0) (p : A → Bool) (xs : List A)
      → ((x : A) → p x ≡ true → P x)
      → ((x : A) → p x ≡ false → ¬ P x)
      → IsPicked P xs (rows p xs)
  rows-IsPicked P p [] yes_P no_P = nothing
  rows-IsPicked P p (x ∷ xs) yes_P no_P = elim (Bool-cases (p x)) [
    | inl e ↦ rw e (taken (yes_P x e) (rows-IsPicked P p xs yes_P no_P))
    | inr e ↦ rw e (skipped (no_P x e) (rows-IsPicked P p xs yes_P no_P))
  ]

  take-append-drop : (n : ℕ) (xs : List A) → take n xs ++ drop n xs ≡ xs
  unfolding take drop
  take-append-drop zero xs = refl
  take-append-drop (suc n) [] = refl
  take-append-drop (suc n) (x ∷ xs) = ap (◌∷◌ x) (take-append-drop n xs)

  take_full : (n : ℕ) (xs : List A) → (drop n xs ≡ []) ⊎ (length (take n xs) ≡ n)
  unfolding take drop
  take_full zero xs = inr refl
  take_full (suc n) [] = inl refl
  take_full (suc n) (x ∷ xs) = elim (take_full n xs) [
    | inl none_left ↦ inl none_left
    | inr full ↦ inr (ap suc full)
  ]

  length-take : (n : ℕ) (xs : List A) → length (take n xs) ≤ n
  unfolding take
  length-take zero xs = omega arith
  length-take (suc n) [] = omega arith
  length-take (suc n) (x ∷ xs) = omega (arith, length-take n xs)

  insert_sorted-perm :
      (before : A → A → Bool) (x : A) (xs : List A) → Perm (insert_sorted before x xs) (x ∷ xs)
  unfolding insert_sorted
  insert_sorted-perm before x [] = Perm.rfl
  insert_sorted-perm before x (y ∷ ys) = elim (Bool-cases (before x y)) [
    | inl e ↦ rw e Perm.rfl
    | inr e ↦ rw e (Perm.trans (Perm.cons y (insert_sorted-perm before x ys)) (Perm.swap x y ys))
  ]

  sort_by-perm : (before : A → A → Bool) (xs : List A) → Perm (sort_by before xs) xs
  unfolding sort_by
  sort_by-perm before [] = Perm.rfl
  sort_by-perm before (x ∷ xs) =
      Perm.trans (insert_sorted-perm before x (sort_by before xs))
        (Perm.cons x (sort_by-perm before xs))

  All-insert_sorted :
      (before : A → A → Bool) (P : A → Type 0) (x : A) (xs : List A)
      → P x
      → All P xs
      → All P (insert_sorted before x xs)
  unfolding insert_sorted
  All-insert_sorted before P x [] p h = (p, tt)
  All-insert_sorted before P x (y ∷ ys) p h = elim (Bool-cases (before x y)) [
    | inl e ↦ rw e (p, h)
    | inr e ↦ rw e (h.0, All-insert_sorted before P x ys p h.1)
  ]

  All-trans :
      (R : A → A → Type 0) (x y : A) (xs : List A)
      → ((a b c : A) → R a b → R b c → R a c)
      → R x y
      → All (R y) xs
      → All (R x) xs
  All-trans R x y [] trans r h = tt
  All-trans R x y (z ∷ zs) trans r h = (trans x y z r h.0, All-trans R x y zs trans r h.1)

-- A test that decides a total order.
module _ {A : Type 0} (before : A → A → Bool) (R : A → A → Type 0)
    (le : (x y : A) → before x y ≡ true → R x y) (ge : (x y : A) → before x y ≡ false → R y x)
    (trans : (a b c : A) → R a b → R b c → R a c) where
  insert_sorted-IsSorted :
      (x : A) (xs : List A) → IsSorted R xs → IsSorted R (insert_sorted before x xs)
  unfolding insert_sorted
  insert_sorted-IsSorted x [] s = (tt, tt)
  insert_sorted-IsSorted x (y ∷ ys) s = elim (Bool-cases (before x y)) [
    | inl e ↦ rw e ((le x y e, All-trans R x y ys trans (le x y e) s.0), s)
    | inr e ↦
        rw e (All-insert_sorted before (R y) x ys (ge x y e) s.0, insert_sorted-IsSorted x ys s.1)
  ]

  sort_by-IsSorted : (xs : List A) → IsSorted R (sort_by before xs)
  unfolding sort_by
  sort_by-IsSorted [] = tt
  sort_by-IsSorted (x ∷ xs) = insert_sorted-IsSorted x (sort_by before xs) (sort_by-IsSorted xs)

  -- WHERE, ORDER BY and LIMIT pick such a page.
  pub take-IsPage :
      (P : A → Type 0) (p : A → Bool) (limit : ℕ) (xs : List A)
      → ((x : A) → p x ≡ true → P x)
      → ((x : A) → p x ≡ false → ¬ P x)
      → IsPage P R limit xs (take limit (sort_by before (rows p xs)))
  take-IsPage P p limit xs yes_P no_P =
      let sorted = sort_by before (rows p xs) in
      let whole : take limit sorted ++ drop limit sorted ≡ sorted = take-append-drop limit sorted in
      (
        rows p xs,
        drop limit sorted,
        rows-IsPicked P p xs yes_P no_P,
        rw whole (sort_by-perm before (rows p xs)),
        rw whole (sort_by-IsSorted (rows p xs)),
        length-take limit sorted,
        take_full limit sorted,
      )
