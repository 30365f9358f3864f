-- ===== src/Db/Keeps.antt =====
-- Properties of the tables that every statement of an operation keeps, so that the operation does.
use fukulow.Common.{◌+◌, ◌≡◌, refl, Bool, true, false, Option, none, some, if◌then◌else◌}
use fukulow.Db.Schema.{Db}
use fukulow.Db.Context.{Settings, Context}
use fukulow.Db.Transaction.{
  Server, Tx, M, Result, ok, err, OperationError, database, SqlError, Statement, opened, outcome,
  ◌>>=◌, pure, fail, ok_or, refuse_if, execute_or, execute, fetch, set_context, begin, commit,
  rollback, now_v7, run,
}
use fukulow.Db.Steps.{Ensures, call-then, unless_failed}

module _ (P : Db → Type 0) where
  abbrev pub Both : Tx → Type 0
  Both t = P t.stored × P t.db

  -- A statement that succeeds keeps the property.
  pub record Preserves {A : Type 0} (statement : Statement A) : Type 0 where
    pub apply :
        (s : Settings) (db : Db) (a : A) (db' : Db) → P db → statement s db ≡ ok (a, db') → P db'

  -- An operation that succeeds keeps it, in its own tables and in the stored ones.
  pub record Keeps {V A : Type 0} (m : M V A) : Type 0 where
    pub apply : (t : Tx) → Both t → Ensures (λ _ t'. Both t') (m t)

module _ {P : Db → Type 0} where
  pub pure-Keeps : {V A : Type 0} (a : A) → Keeps P (pure {V = V} a)
  unfolding pure
  pure-Keeps a = record { apply = λ t h. h }

  pub fail-Keeps : {V A : Type 0} (e : OperationError V) → Keeps P (fail {A = A} e)
  unfolding fail
  fail-Keeps e = record { apply = λ t h. tt }

  pub bind-Keeps :
      {V A B : Type 0} {m : M V A} {f : A → M V B}
      → Keeps P m
      → ((a : A) → Keeps P (f a))
      → Keeps P (m >>= f)
  bind-Keeps {m = m} {f = f} h g = record {
    apply = λ t both. call-then _ t m f _ (h.apply t both) (λ a t' both'. (g a).apply t' both');
  }

  pub if-Keeps :
      {V A : Type 0} (test : Bool) {m n : M V A}
      → Keeps P m
      → Keeps P n
      → Keeps P (if test then m else n)
  if-Keeps true h g = h
  if-Keeps false h g = g

  pub ok_or-Keeps : {V A : Type 0} (e : OperationError V) (o : Option A) → Keeps P (ok_or e o)
  unfolding ok_or
  ok_or-Keeps e none = record { apply = λ t h. tt }
  ok_or-Keeps e (some a) = record { apply = λ t h. h }

  pub refuse_if-Keeps : {V : Type 0} (test : Bool) (v : V) → Keeps P (refuse_if test v)
  unfolding refuse_if
  refuse_if-Keeps true v = record { apply = λ t h. tt }
  refuse_if-Keeps false v = record { apply = λ t h. h }

  pub fetch-Keeps :
      (server : Server) {V A : Type 0} (read : Settings → Db → A)
      → Keeps P (fetch server {V = V} read)
  unfolding fetch
  fetch-Keeps server read = record { apply = λ t h. unless_failed _ (server.fails t.tick) _ _ h }

  pub set_context-Keeps :
      (server : Server) {V : Type 0} (context : Context)
      → Keeps P (set_context server {V = V} context)
  unfolding set_context
  set_context-Keeps server context = record {
    apply = λ t h. unless_failed _ (server.fails t.tick) _ _ h;
  }

  pub begin-Keeps :
      (server : Server) {V : Type 0} (context : Context) → Keeps P (begin server {V = V} context)
  unfolding begin
  begin-Keeps server context = record {
    apply = λ t h.
        unless_failed _ (server.fails t.tick) _ _
          (unless_failed _ (server.fails (t.tick + 1)) _ _ (h.0, h.0));
  }

  pub commit-Keeps : (server : Server) (V : Type 0) → Keeps P (commit server {V = V})
  unfolding commit
  commit-Keeps server V = record {
    apply = λ t h. unless_failed _ (server.fails t.tick) _ _ (h.1, h.1);
  }

  pub rollback-Keeps : (server : Server) (V : Type 0) → Keeps P (rollback server {V = V})
  unfolding rollback
  rollback-Keeps server V = record {
    apply = λ t h. unless_failed _ (server.fails t.tick) _ _ (h.0, h.0);
  }

  pub now_v7-Keeps : (server : Server) (V : Type 0) → Keeps P (now_v7 server {V = V})
  unfolding now_v7
  now_v7-Keeps server V = record { apply = λ t h. h }

  settle :
      {E A : Type 0} (handler : SqlError → E) (t : Tx) (r : Result SqlError (A × Db))
      → P t.stored
      → ((a : A) (db : Db) → r ≡ ok (a, db) → P db)
      → Ensures
          (λ _ t'. Both P t')
          (elim r [
            | ok (a, db) ↦ ok (a, record t { db = db; tick = t.tick + 1 })
            | err e ↦ err (handler e)
          ])
  settle handler t (ok (a, db)) h g = (h, g a db refl)
  settle handler t (err e) h g = tt

  pub execute_or-Keeps :
      (server : Server) {V A : Type 0} (handler : SqlError → OperationError V)
      (statement : Statement A)
      → Preserves P statement
      → Keeps P (execute_or server handler statement)
  unfolding execute_or
  execute_or-Keeps server handler statement keep = record {
    apply = λ t h. unless_failed _ (server.fails t.tick) _ _ (
        settle handler t (statement t.settings t.db) h.0
          (λ a db e. keep.apply t.settings t.db a db h.1 e));
  }

  pub execute-Keeps :
      (server : Server) (V : Type 0) {A : Type 0} (statement : Statement A)
      → Preserves P statement
      → Keeps P (execute server {V = V} statement)
  unfolding execute
  execute-Keeps server V statement keep = execute_or-Keeps server database statement keep

module _ (P : Db → Type 0) where
  outcome-stored :
      {V A : Type 0} (db : Db) (r : Result (OperationError V) (A × Tx))
      → P db
      → Ensures (λ _ t. P t.stored) r
      → P (outcome db r).1
  outcome-stored db (ok (a, t)) h q = q
  outcome-stored db (err e) h q = h

  -- What holds before a call and after each success of it holds after every call.
  pub run-stored :
      {V A : Type 0} (m : M V A) (db : Db)
      → P db
      → Ensures (λ _ t. P t.stored) (m (opened db))
      → P (run m db).1
  unfolding run
  run-stored m db h q = outcome-stored db (m (opened db)) h q

  weaken :
      {E A : Type 0} (r : Result E (A × Tx))
      → Ensures (λ _ t'. Both P t') r
      → Ensures (λ _ t'. P t'.stored) r
  weaken (ok (a, t)) h = h.0
  weaken (err e) h = tt

  pub run-Keeps : {V A : Type 0} (m : M V A) (db : Db) → Keeps P m → P db → P (run m db).1
  run-Keeps m db keep h = run-stored m db h (weaken (m (opened db)) (keep.apply (opened db) (h, h)))

outcome-refused :
    {V A : Type 0} (db : Db) (r : Result (OperationError V) (A × Tx))
    → Ensures (λ _ _. ⊥) r
    → (e : OperationError V) × (outcome db r ≡ (err e, db))
outcome-refused db (ok (a, t)) h = absurd h
outcome-refused db (err e) h = (e, refl)

-- A call that cannot succeed returns an error and stores nothing.
pub run-refused :
    {V A : Type 0} (m : M V A) (db : Db)
    → Ensures (λ _ _. ⊥) (m (opened db))
    → (e : OperationError V) × (run m db ≡ (err e, db))
unfolding run
run-refused m db h = outcome-refused db (m (opened db)) h

pub ruleset keeping = (
  pure-Keeps, fail-Keeps, bind-Keeps, if-Keeps, ok_or-Keeps, refuse_if-Keeps, fetch-Keeps,
  set_context-Keeps, begin-Keeps, commit-Keeps, rollback-Keeps, now_v7-Keeps, execute_or-Keeps,
  execute-Keeps,
)
