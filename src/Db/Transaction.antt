-- ===== src/Db/Transaction.antt =====
-- Transactions of crates/db: an operation runs its statements on the tables of its transaction, and
-- only `commit` makes them the stored ones. Any statement may fail; the error then leaves the
-- operation, and the transaction is rolled back when it is dropped.
use fukulow.Common.{
  ℕ, ◌+◌, String, Bool, true, false, Option, none, some, List, [], ◌∷◌, str_eq, if◌then◌else◌,
}
use fukulow.Db.Schema.{Db}
use fukulow.Db.Context.{Settings, no_settings, Context, configure}

-- What `sqlx::Error` tells apart: a connection or a server that failed, a violated constraint by
-- name, a row that a policy or a trigger refused, and errors that the program makes itself.
pub data SqlError : Type 0 where
  unavailable : SqlError
  violates : String → SqlError
  denied out_of_range worker_crashed : SqlError
  protocol decode : String → SqlError

-- `constraint` of operations/errors.rs.
abbrev pub constraint : SqlError → String → Bool
constraint (violates c) name = str_eq c name
constraint unavailable name = false
constraint denied name = false
constraint out_of_range name = false
constraint worker_crashed name = false
constraint (protocol _) name = false
constraint (decode _) name = false

-- An enumeration of the macro `operation_error!`: its own variants, and `Database`.
pub data OperationError (V : Type 0) : Type 0 where
  refused : V → OperationError V
  database : SqlError → OperationError V

pub data Result (E A : Type 0) : Type 0 where
  ok : A → Result E A
  err : E → Result E A

-- What the program does not decide: which statements fail (by their number in the transaction),
-- the transaction's `now()` and its number, what `Uuid::now_v7()` draws, and PostgreSQL's `lower`.
pub record Server : Type 0 where
  pub fails : ℕ → Bool
  pub now : ℕ
  pub xact : ℕ
  pub new_id : ℕ → ℕ
  pub lower : String → String

-- The stored tables, the transaction's own, its settings, and the statements run so far.
pub record Tx : Type 0 where
  pub stored : Db
  pub db : Db
  pub settings : Settings
  pub tick : ℕ

abbrev pub M : Type 0 → Type 0 → Type 0
M V A = Tx → Result (OperationError V) (A × Tx)

module _ {V A B : Type 0} where
  infixl 5 ◌>>=◌
  unfoldable pub ◌>>=◌ : M V A → (A → M V B) → M V B
  ◌>>=◌ m f t = elim (m t) [ ok (a, t') ↦ f a t' | err e ↦ err e ]

  infixl 5 ◌>>◌
  abbrev pub ◌>>◌ : M V A → M V B → M V B
  m >> k = m >>= λ _. k

module _ {V A : Type 0} where
  unfoldable pub pure : A → M V A
  pure a t = ok (a, t)

  unfoldable pub fail : OperationError V → M V A
  fail e t = err e

  -- `Option::ok_or` on an error of the operation, and on one of sqlx.
  unfoldable pub ok_or : OperationError V → Option A → M V A
  ok_or e none t = err e
  ok_or e (some a) t = ok (a, t)

-- `if test { return Err(e) }`
unfoldable pub refuse_if : {V : Type 0} → Bool → V → M V (Unit {0})
refuse_if true v t = err (refused v)
refuse_if false v t = ok (tt, t)

-- A statement reads the settings and the tables, and may write.
abbrev pub Statement : Type 0 → Type 0
Statement A = Settings → Db → Result SqlError (A × Db)

module _ (server : Server) {V : Type 0} {A : Type 0} where
  -- `.execute(&mut *tx).await.map_err(handler)?`
  unfoldable pub execute_or : (SqlError → OperationError V) → Statement A → M V A
  execute_or handler statement t =
      if server.fails t.tick then err (handler unavailable) else (elim (statement t.settings t.db) [
        | ok (a, db) ↦ ok (a, record t { db = db; tick = t.tick + 1 })
        | err e ↦ err (handler e)
      ])

  -- With no handler the error is `Database`.
  unfoldable pub execute : Statement A → M V A
  unfolding execute_or
  execute = execute_or database

  -- A statement that only reads.
  unfoldable pub fetch : (Settings → Db → A) → M V A
  fetch read t =
      if server.fails t.tick
      then err (database unavailable)
      else ok (read t.settings t.db, record t { tick = t.tick + 1 })

module _ (server : Server) {V : Type 0} where
  -- `set_context` of context.rs.
  unfoldable pub set_context : Context → M V (Unit {0})
  set_context context t =
      if server.fails t.tick
      then err (database unavailable)
      else ok (tt, record t { settings = configure context t.settings; tick = t.tick + 1 })

  -- `begin` of context.rs, on the transaction that `pool.begin()` opens.
  unfoldable pub begin : Context → M V (Unit {0})
  unfolding set_context
  begin context t =
      if server.fails t.tick
      then err (database unavailable)
      else set_context context
          (record t { db = t.stored; settings = no_settings; tick = t.tick + 1 })

  -- `tx.commit()`
  unfoldable pub commit : M V (Unit {0})
  commit t =
      if server.fails t.tick
      then err (database unavailable)
      else ok (tt, record t { stored = t.db; tick = t.tick + 1 })

  -- `tx.rollback()`
  unfoldable pub rollback : M V (Unit {0})
  rollback t =
      if server.fails t.tick
      then err (database unavailable)
      else ok (tt, record t { db = t.stored; tick = t.tick + 1 })

  -- The id of a row that the next statement inserts.
  unfoldable pub now_v7 : M V ℕ
  now_v7 t = ok (server.new_id t.tick, t)

-- A row is inserted if every test passes; the first that fails names the error.
abbrev pub all_pass : {A : Type 0} → List (Bool × SqlError) → A → Result SqlError A
all_pass [] a = ok a
all_pass ((test, e) ∷ tests) a = if test then all_pass tests a else err e

-- The transaction over the stored tables that an operation begins with.
abbrev pub opened : Db → Tx
opened db = record { stored = db; db = db; settings = no_settings; tick = 0 }

-- What a call returns, and what is stored after it.
abbrev pub outcome :
    {V A : Type 0} → Db → Result (OperationError V) (A × Tx) → Result (OperationError V) A × Db
outcome db (ok (a, t)) = (ok a, t.stored)
outcome db (err e) = (err e, db)

unfoldable pub run : {V A : Type 0} → M V A → Db → Result (OperationError V) A × Db
run operation db = outcome db (operation (opened db))
