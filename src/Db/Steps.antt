-- ===== src/Db/Steps.antt =====
-- Rules that run an operation forward, statement by statement, for what holds when it succeeds.
-- Each rule goes on with the rest of the operation, after any number of statements `n`.
use fukulow.Common.{ℕ, ◌+◌, ◌≡◌, refl, Bool, true, false, Option, none, some, if◌then◌else◌}
use fukulow.Db.Schema.{Db}
use fukulow.Db.Context.{Settings, Context, configure, no_settings}
use fukulow.Db.Transaction.{
  Server, Tx, M, Result, ok, err, OperationError, database, SqlError, Statement, ◌>>=◌, pure, ok_or,
  refuse_if, execute_or, execute, fetch, set_context, begin, commit, rollback,
}

-- If the operation succeeds, its value and the transaction after it satisfy `Q`.
abbrev pub Ensures : {E A : Type 0} → (A → Tx → Type 0) → Result E (A × Tx) → Type 0
Ensures Q (ok (a, t)) = Q a t
Ensures Q (err e) = Unit

pub Ensures-map :
    {E A : Type 0} (P Q : A → Tx → Type 0) (r : Result E (A × Tx))
    → ((a : A) (t : Tx) → P a t → Q a t)
    → Ensures P r
    → Ensures Q r
Ensures-map P Q (ok (a, t)) f h = f a t h
Ensures-map P Q (err e) f h = tt

module _ {V B : Type 0} (Q : B → Tx → Type 0) (t : Tx) where
  pub refuse_if-then :
      (test : Bool) (v : V) (k : Unit → M V B)
      → (test ≡ false → Ensures Q (k tt t))
      → Ensures Q ((refuse_if test v >>= k) t)
  unfolding ◌>>=◌ refuse_if
  refuse_if-then true v k h = tt
  refuse_if-then false v k h = h refl

  pub if-then :
      (test : Bool) (k l : M V B)
      → (test ≡ true → Ensures Q (k t))
      → (test ≡ false → Ensures Q (l t))
      → Ensures Q ((if test then k else l) t)
  if-then true k l h g = h refl
  if-then false k l h g = g refl

module _ {V A B : Type 0} (Q : B → Tx → Type 0) (t : Tx) where
  pub ok_or-then :
      (e : OperationError V) (o : Option A) (f : A → M V B)
      → ((a : A) → o ≡ some a → Ensures Q (f a t))
      → Ensures Q ((ok_or e o >>= f) t)
  unfolding ◌>>=◌ ok_or
  ok_or-then e none f h = tt
  ok_or-then e (some a) f h = h a refl

  pub pure-then : (a : A) (f : A → M V B) → Ensures Q (f a t) → Ensures Q ((pure a >>= f) t)
  unfolding ◌>>=◌ pure
  pure-then a f h = h

  bind-then :
      (r : Result (OperationError V) (A × Tx)) (P : A → Tx → Type 0) (f : A → M V B)
      → Ensures P r
      → ((a : A) (t' : Tx) → P a t' → Ensures Q (f a t'))
      → Ensures Q (elim r [ ok (a, t') ↦ f a t' | err e ↦ err e ])
  bind-then (ok (a, t')) P f p g = g a t' p
  bind-then (err e) P f p g = tt

  -- A call whose own result is known.
  pub call-then :
      (m : M V A) (f : A → M V B) (P : A → Tx → Type 0)
      → Ensures P (m t)
      → ((a : A) (t' : Tx) → P a t' → Ensures Q (f a t'))
      → Ensures Q ((m >>= f) t)
  unfolding ◌>>=◌ bind-then
  call-then m f P h g = bind-then (m t) P f h g

-- A statement that fails is passed over.
pub unless_failed :
    {E A : Type 0} (Q : A → Tx → Type 0) (failed : Bool) (e : E) (r : Result E (A × Tx))
    → Ensures Q r
    → Ensures Q (if failed then err e else r)
unless_failed Q true e r h = tt
unless_failed Q false e r h = h

pub written :
    {E A : Type 0} (handler : SqlError → E) (t : Tx) (n : ℕ) (r : Result SqlError (A × Db))
    → Ensures
        (λ a t'. (db : Db) × (r ≡ ok (a, db)) × (t' ≡ record t { db = db; tick = n }))
        (elim r [ ok (a, db) ↦ ok (a, record t { db = db; tick = n }) | err e ↦ err (handler e) ])
written handler t n (ok (a, db)) = (db, refl, refl)
written handler t n (err e) = tt

module _ (server : Server) {V B : Type 0} (Q : B → Tx → Type 0) (t : Tx) where
  pub fetch-then :
      {A : Type 0} (read : Settings → Db → A) (f : A → M V B)
      → ((n : ℕ) → Ensures Q (f (read t.settings t.db) (record t { tick = n })))
      → Ensures Q ((fetch server read >>= f) t)
  unfolding fetch unless_failed
  fetch-then read f h =
      call-then Q t (fetch server read) f
        (λ a t'. (a ≡ read t.settings t.db) × (t' ≡ record t { tick = t.tick + 1 }))
        (unless_failed _ (server.fails t.tick) _ _ (refl, refl))
        (λ a t' (p, q). rw (p, q) (h (t.tick + 1)))

  pub begin-then :
      (context : Context) (k : Unit → M V B)
      → ((n : ℕ)
          → Ensures Q (
              k tt
                (record t { db = t.stored; settings = configure context no_settings; tick = n })))
      → Ensures Q ((begin server context >>= k) t)
  unfolding begin
  begin-then context k h =
      call-then Q t (begin server context) k
        (λ _ t'. t' ≡ record t {
          db = t.stored;
          settings = configure context no_settings;
          tick = t.tick + 1 + 1;
        })
        (unless_failed _ (server.fails t.tick) _ _
          (unless_failed _ (server.fails (t.tick + 1)) _ _ refl))
        (λ _ t' q. rw q (h (t.tick + 1 + 1)))

  pub set_context-then :
      (context : Context) (k : Unit → M V B)
      → ((n : ℕ)
          → Ensures Q (k tt (record t { settings = configure context t.settings; tick = n })))
      → Ensures Q ((set_context server context >>= k) t)
  unfolding set_context
  set_context-then context k h =
      call-then Q t (set_context server context) k
        (λ _ t'. t' ≡ record t { settings = configure context t.settings; tick = t.tick + 1 })
        (unless_failed _ (server.fails t.tick) _ _ refl) (λ _ t' q. rw q (h (t.tick + 1)))

  pub commit-then :
      (k : Unit → M V B)
      → ((n : ℕ) → Ensures Q (k tt (record t { stored = t.db; tick = n })))
      → Ensures Q ((commit server >>= k) t)
  unfolding commit
  commit-then k h =
      call-then Q t (commit server) k (λ _ t'. t' ≡ record t { stored = t.db; tick = t.tick + 1 })
        (unless_failed _ (server.fails t.tick) _ _ refl) (λ _ t' q. rw q (h (t.tick + 1)))

  pub rollback-then :
      (k : Unit → M V B)
      → ((n : ℕ) → Ensures Q (k tt (record t { db = t.stored; tick = n })))
      → Ensures Q ((rollback server >>= k) t)
  unfolding rollback
  rollback-then k h =
      call-then Q t (rollback server) k (λ _ t'. t' ≡ record t { db = t.stored; tick = t.tick + 1 })
        (unless_failed _ (server.fails t.tick) _ _ refl) (λ _ t' q. rw q (h (t.tick + 1)))

  pub execute_or-then :
      {A : Type 0} (handler : SqlError → OperationError V) (statement : Statement A) (f : A → M V B)
      → ((n : ℕ) (a : A) (db : Db)
          → statement t.settings t.db ≡ ok (a, db)
          → Ensures Q (f a (record t { db = db; tick = n })))
      → Ensures Q ((execute_or server handler statement >>= f) t)
  unfolding execute_or
  execute_or-then handler statement f h =
      call-then Q t (execute_or server handler statement) f _
        (unless_failed _ (server.fails t.tick) _ _ (written handler t (t.tick + 1) _))
        (λ a t' (db, p, q). rw q (h (t.tick + 1) a db p))

  pub execute-then :
      {A : Type 0} (statement : Statement A) (f : A → M V B)
      → ((n : ℕ) (a : A) (db : Db)
          → statement t.settings t.db ≡ ok (a, db)
          → Ensures Q (f a (record t { db = db; tick = n })))
      → Ensures Q ((execute server statement >>= f) t)
  unfolding execute
  execute-then statement f h = execute_or-then database statement f h

-- The last statement of an operation that returns nothing.
module _ (server : Server) (V : Type 0) (Q : Unit → Tx → Type 0) (t : Tx) where
  pub commit-ends :
      ((n : ℕ) → Q tt (record t { stored = t.db; tick = n })) → Ensures Q (commit server {V = V} t)
  unfolding commit
  commit-ends h = unless_failed Q (server.fails t.tick) _ _ (h (t.tick + 1))
