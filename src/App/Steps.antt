-- ===== src/App/Steps.antt =====
-- Rules that run a handler forward, for what holds where it ends: `R` on a status that it leaves
-- with, `Q` on its value.
use fukulow.Common.{◌≡◌, refl, ◌∙◌, ap, Option, none, some, ◌⊎◌, inl, inr}
use fukulow.Db.Schema.{Db}
use fukulow.Db.Transaction.{Result, ok, err, OperationError, M, Tx, run, outcome, opened}
use fukulow.Db.Steps.{Ensures}
use fukulow.App.Http.{StatusCode, H, ◌>>=◌, ok_or, pure, call, call_among, continue}

abbrev pub Ends :
    {A : Type 0}
    → (StatusCode → Db → Type 0)
    → (A → Db → Type 0)
    → Result StatusCode A × Db
    → Type 0
Ends R Q (ok a, db) = Q a db
Ends R Q (err status, db) = R status db

-- A call succeeds with what the operation ensures, or fails and stores nothing.
pub run-cases :
    {V A : Type 0} (m : M V A) (db : Db)
    → ((e : OperationError V) × (run m db ≡ (err e, db)))
      ⊎ ((a : A) × (t : Tx) × (m (opened db) ≡ ok (a, t)) × (run m db ≡ (ok a, t.stored)))
unfolding run
run-cases {V = V} {A = A} m db = split (m (opened db)) refl
  where
    split :
        (r : Result (OperationError V) (A × Tx))
        → m (opened db) ≡ r
        → ((e : OperationError V) × (◌≡◌ {A = Result (OperationError V) A × Db}
              (outcome db r)
              (err e, db)))
          ⊎ ((a : A) × (t : Tx) × (m (opened db) ≡ ok (a, t))
              × (◌≡◌ {A = Result (OperationError V) A × Db} (outcome db r) (ok a, t.stored)))
    split (ok (a, t)) e = inr (a, t, e, refl)
    split (err x) e = inl (x, refl)

-- What an operation ensures holds of the result that it has.
pub Ensures-ended :
    {E A : Type 0} (Q : A → Tx → Type 0) (r : Result E (A × Tx)) (a : A) (t : Tx)
    → r ≡ ok (a, t)
    → Ensures Q r
    → Q a t
Ensures-ended Q r a t e h = rw e at h

module _ (R : StatusCode → Db → Type 0) {A B : Type 0} (Q : B → Db → Type 0) (db : Db) where
  pub ok_or-then :
      (status : StatusCode) (o : Option A) (f : A → H B)
      → R status db
      → ((a : A) → o ≡ some a → Ends R Q (f a db))
      → Ends R Q ((ok_or status o >>= f) db)
  unfolding ◌>>=◌ ok_or
  ok_or-then status none f r h = r
  ok_or-then status (some a) f r h = h a refl

  continue-then :
      (P : A → Db → Type 0) (r : Result StatusCode A × Db) (f : A → H B)
      → Ends R P r
      → ((a : A) (db' : Db) → P a db' → Ends R Q (f a db'))
      → Ends R Q (continue r f)
  continue-then P (ok a, d) f p h = h a d p
  continue-then P (err status, d) f p h = p

  pub bind-then :
      (P : A → Db → Type 0) (m : H A) (f : A → H B)
      → Ends R P (m db)
      → ((a : A) (db' : Db) → P a db' → Ends R Q (f a db'))
      → Ends R Q ((m >>= f) db)
  unfolding ◌>>=◌
  bind-then P m f p h = continue-then P (m db) f p h

  -- A part that leaves the tables alone, for what its value is known to be.
  pub same-then :
      (X : A → Type 0) (m : H A) (f : A → H B)
      → Ends R (λ a d. (d ≡ db) × X a) (m db)
      → ((a : A) → X a → Ends R Q (f a db))
      → Ends R Q ((m >>= f) db)
  same-then X m f p h = bind-then _ m f p λ a d (same, x). rw same (h a x)

  pub call-then :
      {V : Type 0} (handler : OperationError V → StatusCode) (m : M V A) (f : A → H B)
      → ((e : OperationError V) → R (handler e) db)
      → ((a : A) (t : Tx)
          → m (opened db) ≡ ok (a, t)
          → run m db ≡ (ok a, t.stored)
          → Ends R Q (f a t.stored))
      → Ends R Q ((call handler m >>= f) db)
  unfolding ◌>>=◌ call
  call-then handler m f r h = elim (run-cases m db) [
    | inl (e, failed) ↦ rw failed (r e)
    | inr (a, t, ended, done) ↦ rw done (h a t ended done)
  ]

  -- One during which other requests commit.
  pub call_among-then :
      {V : Type 0} (meanwhile : Db → Db) (handler : OperationError V → StatusCode)
      (m : (Db → Db) → M V A) (f : A → H B)
      → ((e : OperationError V) → R (handler e) (meanwhile db))
      → ((a : A) (t : Tx)
          → m meanwhile (opened db) ≡ ok (a, t)
          → run (m meanwhile) db ≡ (ok a, t.stored)
          → Ends R Q (f a t.stored))
      → Ends R Q ((call_among meanwhile handler m >>= f) db)
  unfolding ◌>>=◌ call_among
  call_among-then meanwhile handler m f r h = elim (run-cases (m meanwhile) db) [
    | inl (e, failed) ↦ rw failed (r e)
    | inr (a, t, ended, done) ↦ rw done (h a t ended done)
  ]

  -- An operation that stores nothing.
  pub read_call-then :
      {V : Type 0} (handler : OperationError V → StatusCode) (m : M V A) (f : A → H B)
      → Ensures (λ _ t. t.stored ≡ db) (m (opened db))
      → ((e : OperationError V) → R (handler e) db)
      → ((a : A) (t : Tx) → m (opened db) ≡ ok (a, t) → Ends R Q (f a db))
      → Ends R Q ((call handler m >>= f) db)
  read_call-then handler m f same r h = call-then handler m f r λ a t ended ran.
      rw (Ensures-ended (λ _ t. t.stored ≡ db) (m (opened db)) a t ended same) (h a t ended)

-- A part of a handler that leaves the tables alone.
pub record Reads {A : Type 0} (m : H A) : Type 0 where
  pub apply : (db : Db) → (m db).1 ≡ db

pub ok_or-Reads : {A : Type 0} (status : StatusCode) (o : Option A) → Reads (ok_or status o)
unfolding ok_or
ok_or-Reads status none = record { apply = λ db. refl }
ok_or-Reads status (some a) = record { apply = λ db. refl }

pub pure-Reads : {A : Type 0} (a : A) → Reads (pure a)
unfolding pure
pure-Reads a = record { apply = λ db. refl }

continue-Reads :
    {A B : Type 0} (r : Result StatusCode A × Db) (f : A → H B) (db : Db)
    → r.1 ≡ db
    → ((a : A) → Reads (f a))
    → (continue r f).1 ≡ db
continue-Reads (ok a, d) f db e h = (h a).apply d ∙ e
continue-Reads (err status, d) f db e h = e

pub bind-Reads :
    {A B : Type 0} (m : H A) (f : A → H B) → Reads m → ((a : A) → Reads (f a)) → Reads (m >>= f)
unfolding ◌>>=◌
bind-Reads m f h g = record { apply = λ db. continue-Reads (m db) f db (h.apply db) g }

pub reads-then :
    (R : StatusCode → Db → Type 0) {A B : Type 0} (Q : B → Db → Type 0) (db : Db) (m : H A)
    (f : A → H B)
    → Reads m
    → ((status : StatusCode) → R status db)
    → ((a : A) → m db ≡ (ok a, db) → Ends R Q (f a db))
    → Ends R Q ((m >>= f) db)
unfolding ◌>>=◌
reads-then R {A = A} {B = B} Q db m f reads r h = split (m db) refl (reads.apply db)
  where
    split : (x : Result StatusCode A × Db) → m db ≡ x → x.1 ≡ db → Ends R Q (continue x f)
    split (ok a, d) e same = rw same (h a (e ∙ ap (λ x. (ok a, x)) same))
    split (err status, d) e same = rw same (r status)
