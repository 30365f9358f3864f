-- ===== src/App/Http.antt =====
-- Requests and responses, as the handlers of crates/app read and write them.
use fukulow.Common.{ℕ, String, Bool, Option, none, some, List}
use fukulow.Db.Schema.{Db}
use fukulow.Db.Transaction.{Result, ok, err, OperationError, M, run}
use fukulow.App.Crates.{Headers}

-- `axum::http::Method`, as far as the source names methods.
pub data Method : Type 0 where
  get head post put patch delete other : Method

-- `body` is `none` where reading the body failed.
pub record Request : Type 0 where
  pub method : Method
  pub path : List ℕ
  pub headers : Headers
  pub body : Option (List ℕ)

abbrev pub StatusCode : Type 0
StatusCode = ℕ

abbrev pub no_content : StatusCode
no_content = 204

abbrev pub unauthorized : StatusCode
unauthorized = 401

abbrev pub forbidden : StatusCode
forbidden = 403

abbrev pub not_found : StatusCode
not_found = 404

abbrev pub conflict : StatusCode
conflict = 409

abbrev pub unprocessable_entity : StatusCode
unprocessable_entity = 422

abbrev pub internal_server_error : StatusCode
internal_server_error = 500

pub data SameSite : Type 0 where
  strict lax : SameSite

-- `Cookie`, with its lifetime in seconds.
pub record Cookie : Type 0 where
  pub name : String
  pub value : String
  pub http_only : Bool
  pub secure : Bool
  pub same_site : SameSite
  pub path : String
  pub max_age : ℕ

-- A text carries its content type.
pub data Body (Value : Type 0) : Type 0 where
  no_body : Body Value
  json_body : Value → Body Value
  text_body : String → String → Body Value

pub record Response (Value : Type 0) : Type 0 where
  pub status : StatusCode
  pub cookie : Option Cookie
  pub body : Body Value

-- `StatusCode::into_response`
abbrev pub bare : {Value : Type 0} → StatusCode → Response Value
bare status = record { status = status; cookie = none; body = no_body }

-- The body of a handler: `?` leaves it with a status, and the tables are what is stored.
abbrev pub H : Type 0 → Type 0
H A = Db → Result StatusCode A × Db

module _ {A B : Type 0} where
  abbrev pub continue : Result StatusCode A × Db → (A → H B) → Result StatusCode B × Db
  continue (ok a, db) f = f a db
  continue (err status, db) f = (err status, db)

  infixl 5 ◌>>=◌
  unfoldable pub ◌>>=◌ : H A → (A → H B) → H B
  ◌>>=◌ m f db = continue (m db) f

  infixl 5 ◌>>◌
  abbrev pub ◌>>◌ : H A → H B → H B
  m >> k = m >>= λ _. k

module _ {A : Type 0} where
  unfoldable pub pure : A → H A
  pure a db = (ok a, db)

  -- `.ok_or(status)?`
  unfoldable pub ok_or : StatusCode → Option A → H A
  ok_or status none db = (err status, db)
  ok_or status (some a) db = (ok a, db)

  abbrev pub map_err :
      {V : Type 0}
      → (OperationError V → StatusCode)
      → Result (OperationError V) A × Db
      → Result StatusCode A × Db
  map_err handler (ok a, db) = (ok a, db)
  map_err handler (err e, db) = (err (handler e), db)

  -- An operation of crates/db in its transaction, with `map_err`.
  unfoldable pub call : {V : Type 0} → (OperationError V → StatusCode) → M V A → H A
  call handler operation db = map_err handler (run operation db)

  abbrev pub map_err_among :
      {V : Type 0}
      → Db
      → (OperationError V → StatusCode)
      → Result (OperationError V) A × Db
      → Result StatusCode A × Db
  map_err_among others handler (ok a, db) = (ok a, db)
  map_err_among others handler (err e, db) = (err (handler e), others)

  -- An operation of crates/db during which other requests commit, with `map_err`. If it fails it has
  -- written nothing, and what they have committed stays.
  unfoldable pub call_among :
      {V : Type 0} → (Db → Db) → (OperationError V → StatusCode) → ((Db → Db) → M V A) → H A
  call_among meanwhile handler operation db =
      map_err_among (meanwhile db) handler (run (operation meanwhile) db)
