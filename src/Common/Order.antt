-- ===== src/Common/Order.antt =====
-- ORDER BY and LIMIT: a stable insertion sort by a number, ascending or descending, and a prefix.
pub mod Laws
use Prim.Native.Nat.{ℕ, zero, suc}
use mathlib.Core.List.{List, [], ◌∷◌}
use mathlib.Core.Bool.{Bool}
use mathlib.Core.Logic.{inl, inr}
use fukulow.Common.Tests.{leb, if◌then◌else◌, Bool-cases}
use fukulow.Common.RowLaws.{All}

module _ {A : Type 0} (before : A → A → Bool) where
  pub insert_sorted : A → List A → List A
  insert_sorted x [] = x ∷ []
  insert_sorted x (y ∷ ys) = if before x y then x ∷ y ∷ ys else y ∷ insert_sorted x ys

  unfoldable pub sort_by : List A → List A
  unfolding insert_sorted
  sort_by [] = []
  sort_by (x ∷ xs) = insert_sorted x (sort_by xs)

module _ {A : Type 0} (before : A → A → Bool) (P : A → Type 0) where
  All-insert_sorted : (x : A) (xs : List A) → All P (insert_sorted before x xs) → P x × All P xs
  unfolding insert_sorted
  All-insert_sorted x [] h = h
  All-insert_sorted x (y ∷ ys) h = elim (Bool-cases (before x y)) [
    | inl e ↦ rw e at h
    | inr e ↦
        let h' = (rw e at h) in let (p, rest) = All-insert_sorted x ys h'.1 in (p, (h'.0, rest))
  ]

  -- What holds of every sorted row holds of every row.
  pub All-sort_by : (xs : List A) → All P (sort_by before xs) → All P xs
  unfolding sort_by
  All-sort_by [] h = h
  All-sort_by (x ∷ xs) h =
      let (p, rest) = All-insert_sorted x (sort_by before xs) h in (p, All-sort_by xs rest)

module _ {A : Type 0} (key : A → ℕ) where
  -- ORDER BY key ASC
  abbrev pub ascending : A → A → Bool
  ascending x y = leb (key x) (key y)

  -- ORDER BY key DESC
  abbrev pub descending : A → A → Bool
  descending x y = leb (key y) (key x)

-- LIMIT
unfoldable pub take {ℓ} : {A : Type ℓ} → ℕ → List A → List A
take zero xs = []
take (suc n) [] = []
take (suc n) (x ∷ xs) = x ∷ take n xs
