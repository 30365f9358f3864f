-- ===== src/App/Authenticated.antt =====
-- `Authenticated` of crates/app/src/sessions.rs: who is let in.
use fukulow.Common.RowLaws.{All, find-test}
use fukulow.Common.{
  Option, ltb, str_eq_iff, str_eq, ltb→lt, none, &&_split, not, is_some, rows, ◌<◌, true, ◌⊎◌, inl,
  inr, ℕ, ◌≡◌, refl, String, some, arith,
}
use fukulow.Db.Schema.{Db, Session}
use fukulow.Db.Context
use fukulow.Db.Context.{configure, no_settings}
use fukulow.Db.Transaction.{
  Server, Result, ok, err, Tx, opened, OperationError, refused, database, pure,
}
use fukulow.Db.Steps.{Ensures, begin-then, fetch-then, commit-then}
use fukulow.Db.Steps.{ok_or-then as ok_or-in}
use fukulow.Auth.{hash_session_token}
use fukulow.Operations.Sessions.{resolve_session, live_session, SessionError, no_session}
use fukulow.App.Crates.{State}
use fukulow.App.Http.{
  Request, StatusCode, unauthorized, internal_server_error, H, ◌>>=◌, pure as done,
}
use fukulow.App.Sessions.{authenticated, cookie_name, session_error}
use fukulow.App.Sessions
use fukulow.App.Invites
use fukulow.App.Routes.{routes, run_handler}
use fukulow.App.Steps.{Ends, ok_or-then, call-then, bind-then, Ensures-ended}

-- A session of the actor in the tables, under the hash, neither revoked nor expired.
pub record Finds (server : Server) (token_hash : String) (db : Db) (actor : ℕ) : Type 0 where
  pub row : Session
  pub found :
      live_session server.now token_hash
        (configure (Context.session_token token_hash) no_settings)
        db
      ≡ some row
  pub holder : row.actor_id ≡ actor
  pub hash : row.token_hash ≡ token_hash
  pub unrevoked : row.revoked_at ≡ none
  pub early : server.now < row.expires_at

never_revoked : (at : Option ℕ) → not (is_some at) ≡ true → at ≡ none
never_revoked none h = refl
never_revoked (some n) h = absurd (ground arith)

live_session-Finds :
    (server : Server) (token_hash : String) (db : Db) (row : Session)
    → live_session server.now token_hash
        (configure (Context.session_token token_hash) no_settings)
        db
      ≡ some row
    → Finds server token_hash db row.actor_id
unfolding live_session
live_session-Finds server token_hash db row found =
    let passed = find-test _ db.sessions row found in
    let (_, tested) = &&_split _ _ passed in
    let (standing, late) = &&_split _ (ltb server.now row.expires_at) tested in
    let (hashed, alive) = &&_split (str_eq row.token_hash token_hash) _ standing in
    record {
      row = row;
      found = found;
      holder = refl;
      hash = (str_eq_iff row.token_hash token_hash).0 hashed;
      unrevoked = never_revoked row.revoked_at alive;
      early = ltb→lt server.now row.expires_at late;
    }

abbrev pub Resolved : Server → String → Db → ℕ → Tx → Type 0
Resolved server token_hash db actor t = (t.stored ≡ db) × Finds server token_hash db actor

pub resolve_session-Finds :
    (server : Server) (token_hash : String) (db : Db)
    → Ensures (Resolved server token_hash db) (resolve_session server token_hash (opened db))
unfolding resolve_session pure
resolve_session-Finds server token_hash db = begin-then server _ _ _ _ λ _.
    fetch-then server _ _ _ _ λ _. ok_or-in _ _ _ _ _ λ row found.
      commit-then server _ _ _ λ _. (refl, live_session-Finds server token_hash db row found)

module _ {Value PasswordHash : Type 0} (state : State Value PasswordHash) (request : Request) where
  -- The request's cookie finds a session that is alive in the tables.
  abbrev pub HasSession : Db → ℕ × String → Type 0
  HasSession db (actor, token_hash) =
      (token : String) × (state.crates.get_cookie request.headers cookie_name ≡ some token)
      × (token_hash ≡ hash_session_token state.crypto token)
      × Finds (state.servers 0) token_hash db actor

  errors :
      (R : StatusCode → Db → Type 0) (db : Db)
      → R unauthorized db
      → R internal_server_error db
      → (e : OperationError SessionError) → R (session_error e) db
  errors R db none_sent failed (refused no_session) = none_sent
  errors R db none_sent failed (database _) = failed

  pub authenticated-HasSession :
      (R : StatusCode → Db → Type 0) (db : Db)
      → R unauthorized db
      → R internal_server_error db
      → Ends R (λ found d. (d ≡ db) × HasSession db found) (authenticated state request db)
  unfolding authenticated done
  authenticated-HasSession R db none_sent failed =
      ok_or-then R _ db unauthorized _ _ none_sent λ token sent.
        call-then R _ db session_error _ _ (errors R db none_sent failed) λ actor t ended _.
          let (same, found) =
            Ensures-ended (Resolved (state.servers 0) (hash_session_token state.crypto token) db) _
              actor t ended
              (resolve_session-Finds (state.servers 0) (hash_session_token state.crypto token)
                db) in
          (same, (token, sent, refl, found))

  -- What comes after `Authenticated` runs on the same tables, for a live session.
  pub authenticated-then :
      (R : StatusCode → Db → Type 0) {B : Type 0} (Q : B → Db → Type 0) (db : Db)
      (f : ℕ × String → H B)
      → R unauthorized db
      → R internal_server_error db
      → ((found : ℕ × String) → HasSession db found → Ends R Q (f found db))
      → Ends R Q ((authenticated state request >>= f) db)
  authenticated-then R Q db f none_sent failed h =
      bind-then R Q db _ _ f (authenticated-HasSession R db none_sent failed)
        λ found d (same, live). rw same (h found live)

  always :
      {B : Type 0} (X : Type 0) (Y : StatusCode → Db → Type 0) (r : Result StatusCode B × Db)
      → X
      → Ends (λ status d. X ⊎ Y status d) (λ _ _. X) r
  always X Y (ok b, d) x = x
  always X Y (err status, d) x = inl x

  -- The request has a live session.
  abbrev pub HasLive : Db → Type 0
  HasLive db = (found : ℕ × String) × HasSession db found

  abbrev pub IsRefused : Db → StatusCode → Db → Type 0
  IsRefused db status d = ((status ≡ unauthorized) ⊎ (status ≡ internal_server_error)) × (d ≡ db)

  -- A live session was found, or the answer is 401 or 500 and the tables are as they were.
  abbrev pub IsGuarded : {B : Type 0} → Db → Result StatusCode B × Db → Type 0
  IsGuarded db r = Ends (λ status d. HasLive db ⊎ IsRefused db status d) (λ _ _. HasLive db) r

  pub authenticated-IsGuarded :
      {B : Type 0} (f : ℕ × String → H B) (db : Db)
      → IsGuarded db ((authenticated state request >>= f) db)
  authenticated-IsGuarded f db =
      authenticated-then _ _ db f (inr (inl refl, refl)) (inr (inr refl, refl))
        λ found live. always (HasLive db) (IsRefused db) (f found db) (found, live)

-- Every route of the table marked `needs_session` answers 401 or 500 and leaves the tables as they
-- were, unless the request's session cookie finds a session that is neither revoked nor expired.
pub routes-IsGuarded :
    {Value PasswordHash : Type 0} (state : State Value PasswordHash) (request : Request) (db : Db)
    → All
        (λ r. IsGuarded state request db (run_handler state r.handler request db))
        (rows (λ r. r.needs_session) routes)
unfolding run_handler Sessions.sign_out Sessions.me Invites.create Invites.revoke
routes-IsGuarded state request db = (
  authenticated-IsGuarded state request _ db,
  (
    authenticated-IsGuarded state request _ db,
    (authenticated-IsGuarded state request _ db, (authenticated-IsGuarded state request _ db, tt)),
  ),
)
