-- ===== src/App/Crates.antt =====
-- What crates/app calls of other crates, and `StateData` of crates/app/src/sessions.rs.
use fukulow.Common.{ℕ, String, Bool, Option, List}
use fukulow.Common.Int.{ℤ}
use fukulow.Domain.Identifiers.{UuidCrate}
use fukulow.Db.Transaction.{Server}
use fukulow.Auth.{Crypto}
use fukulow.Operations.Calls.{Call}

-- The headers of a request in order, with names in lower case.
abbrev pub Headers : Type 0
Headers = List (String × List ℕ)

-- A JSON object, as `Map::get` gives its fields.
abbrev pub Fields : Type 0 → Type 0
Fields Value = String → Option Value

-- serde_json's `from_slice` and the readings of a `Value`, and what `json!` builds.
pub record Json (Value : Type 0) : Type 0 where
  pub from_slice : List ℕ → Option Value
  pub as_object : Value → Option (Fields Value)
  pub as_str : Value → Option String
  pub as_i64 : Value → Option ℤ
  pub null : Value
  pub text : String → Value
  pub number : ℕ → Value
  pub object : List (String × Value) → Value

-- `CookieJar::from_headers(…).get(name)`, `Uuid::parse_str` on the bytes of its text,
-- `Uuid::to_string`, and `format(&Rfc3339)` of a time in UTC.
pub record Crates : Type 0 where
  pub get_cookie : Headers → String → Option String
  pub parse_uuid : List ℕ → Option ℕ
  pub uuid_to_string : ℕ → String
  pub rfc3339 : ℕ → Option String

-- `StateData` while one request is served. `new_token`, `new_invite_token` and `now` are what
-- these functions return then. A worker thread may panic: `worker_runs` for the check of a
-- password, and `none` of `hash_invite_password`, whose inner `none` is a failure of the hasher.
-- The n-th transaction of the request runs on `servers n`, and `meanwhile` are the calls of
-- other requests that commit between its transactions, or while a sign-in checks the password.
pub record State (Value PasswordHash : Type 0) : Type 0 where
  pub origin : String
  pub new_token : Option (String × String)
  pub now : ℕ
  pub new_invite_token : Option (String × String)
  pub hash_invite_password : String → Option (Option String)
  pub worker_runs : Bool
  pub servers : ℕ → Server
  pub meanwhile : List (Server × Call)
  pub uuid : UuidCrate
  pub crypto : Crypto PasswordHash
  pub json : Json Value
  pub crates : Crates
