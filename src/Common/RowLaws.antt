-- ===== src/Common/RowLaws.antt =====
-- Laws of the row tests under INSERT, UPDATE and DELETE.
use mathlib.Core.Option.{some, some-injective}
use mathlib.Core.Path.{◌≡◌, refl, sym}
use mathlib.Core.Bool.{Bool, true, false, ◌&&◌, ◌||◌, not}
use mathlib.Core.List.{List, [], ◌∷◌}
use mathlib.Core.Logic.{inl, inr}
use native.Mathlib.Omega.{arith}
use fukulow.Common.Tests.{Bool-cases}
use fukulow.Common.Rows.{find, any, update, delete, insert}

module _ {ℓ κ} {A : Type ℓ} (P : A → Type κ) where
  abbrev pub All : List A → Type κ
  All [] = Unit
  All (x ∷ xs) = P x × All xs

module _ {ℓ} {A : Type ℓ} where
  pub any-insert : (q : A → Bool) (x : A) (xs : List A) → any q (insert x xs) ≡ (any q xs || q x)
  any-insert q x [] = ground arith
  any-insert q x (y ∷ ys) = ground (arith, any-insert q x ys)

  pub any-insert_old :
      (q : A → Bool) (x : A) (xs : List A) → any q xs ≡ true → any q (insert x xs) ≡ true
  any-insert_old q x xs h = ground (arith, any-insert q x xs)

  -- An update that keeps a test of each row keeps the test of the table.
  pub any-update :
      (q p : A → Bool) (f : A → A) (xs : List A)
      → ((x : A) → q (f x) ≡ q x)
      → any q (update p f xs) ≡ any q xs
  any-update q p f [] h = refl
  any-update q p f (x ∷ xs) h = ground (arith, h x, any-update q p f xs h)

  -- Where one test implies another.
  pub any-false :
      (p q : A → Bool) (xs : List A)
      → ((x : A) → p x ≡ true → q x ≡ true)
      → any q xs ≡ false
      → any p xs ≡ false
  any-false p q [] h e = refl
  any-false p q (x ∷ xs) h e = ground (arith, h x, any-false p q xs h)

  pub any-never : (p : A → Bool) (xs : List A) → ((x : A) → p x ≡ false) → any p xs ≡ false
  any-never p [] h = refl
  any-never p (x ∷ xs) h = ground (arith, h x, any-never p xs h)

  -- A row that no update or deletion hits stays.
  pub any-update_missed :
      (q p : A → Bool) (f : A → A) (xs : List A)
      → any (λ x. p x && q x) xs ≡ false
      → any q xs ≡ true
      → any q (update p f xs) ≡ true
  any-update_missed q p f [] miss h = h
  any-update_missed q p f (x ∷ xs) miss h = ground (arith, any-update_missed q p f xs)

  pub any-true :
      (p q : A → Bool) (xs : List A)
      → ((x : A) → p x ≡ true → q x ≡ true)
      → any p xs ≡ true
      → any q xs ≡ true
  any-true p q [] h e = e
  any-true p q (x ∷ xs) h e = ground (arith, h x, any-true p q xs h)

  -- An update that leaves a row's test true where it was.
  pub any-update_kept :
      (q p : A → Bool) (f : A → A) (xs : List A)
      → ((x : A) → q x ≡ true → q (f x) ≡ true)
      → any q xs ≡ true
      → any q (update p f xs) ≡ true
  any-update_kept q p f [] g h = h
  any-update_kept q p f (x ∷ xs) g h = ground (arith, g x, any-update_kept q p f xs g)

  pub any-delete_missed :
      (q p : A → Bool) (xs : List A)
      → any (λ x. p x && q x) xs ≡ false
      → any q xs ≡ true
      → any q (delete p xs) ≡ true
  any-delete_missed q p [] miss h = h
  any-delete_missed q p (x ∷ xs) miss h = ground (arith, any-delete_missed q p xs)

  module _ (P : A → Type 0) where
    pub All-insert : (xs : List A) {x : A} → All P xs → P x → All P (insert x xs)
    All-insert [] h p = (p, tt)
    All-insert (y ∷ ys) h p = (h.0, All-insert ys h.1 p)

    pub All-map : (Q : A → Type 0) (xs : List A) → ((x : A) → P x → Q x) → All P xs → All Q xs
    All-map Q [] f h = tt
    All-map Q (x ∷ xs) f h = (f x h.0, All-map Q xs f h.1)

    pub All-update :
        (p : A → Bool) (f : A → A) (xs : List A)
        → ((x : A) → P x → P (f x))
        → All P xs
        → All P (update p f xs)
    All-update p f [] g h = tt
    All-update p f (x ∷ xs) g h = elim (Bool-cases (p x)) [
      | inl e ↦ rw e (g x h.0, All-update p f xs g h.1)
      | inr e ↦ rw e (h.0, All-update p f xs g h.1)
    ]

    pub All-delete : (p : A → Bool) (xs : List A) → All P xs → All P (delete p xs)
    All-delete p [] h = tt
    All-delete p (x ∷ xs) h = elim (Bool-cases (p x)) [
      | inl e ↦ rw e (All-delete p xs h.1)
      | inr e ↦ rw e (h.0, All-delete p xs h.1)
    ]

    -- The rows that stay after a deletion did not pass its test.
    pub All-delete_kept :
        (Q : A → Type 0) (p : A → Bool) (xs : List A)
        → ((x : A) → p x ≡ false → P x → Q x)
        → All P xs
        → All Q (delete p xs)
    All-delete_kept Q p [] g h = tt
    All-delete_kept Q p (x ∷ xs) g h = elim (Bool-cases (p x)) [
      | inl e ↦ rw e (All-delete_kept Q p xs g h.1)
      | inr e ↦ rw e (g x e h.0, All-delete_kept Q p xs g h.1)
    ]

    -- An update whose new rows were tested first.
    pub All-update_tested :
        (p r : A → Bool) (f : A → A) (xs : List A)
        → any (λ x. p x && not (r x)) xs ≡ false
        → ((x : A) → r x ≡ true → P (f x))
        → All P xs
        → All P (update p f xs)
    All-update_tested p r f [] ok g h = tt
    All-update_tested p r f (x ∷ xs) ok g h = elim (Bool-cases (p x)) [
      | inl e ↦ rw e (g x (ground (arith, e)), All-update_tested p r f xs (ground arith) g h.1)
      | inr e ↦ rw e (h.0, All-update_tested p r f xs (ground arith) g h.1)
    ]

-- The row that is found passes the test.
pub find-test : {A : Type 0} (p : A → Bool) (xs : List A) (x : A) → find p xs ≡ some x → p x ≡ true
find-test p [] x h = absurd (ground arith)
find-test p (y ∷ ys) x h = elim (Bool-cases (p y)) [
  | inl e ↦ let same : y ≡ x = some-injective y x (rw e at h) in rw (sym same) e
  | inr e ↦ find-test p ys x (rw e at h)
]
