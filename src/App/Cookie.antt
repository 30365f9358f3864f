-- ===== src/App/Cookie.antt =====
-- The session cookie of crates/app/src/sessions.rs from the answer that sets it to the request that
-- brings it back.
pub mod Bearer
use fukulow.Common.{
  ℕ, ◌≡◌, ◌<◌, refl, sym, String, Bool, true, false, Option, none, some, List, [], ◌∷◌, find, any,
  insert, str_eq, str_eq_iff, arith, if◌then◌else◌, Bool-cases, inl, inr, ◌+◌,
}
use mathlib.Core.Option.{some-injective}
use fukulow.Db.Schema.{Db, User, Session}
use fukulow.Db.Context
use fukulow.Db.Context.{Settings, configure, no_settings}
use fukulow.Db.Transaction.{Server, ok, run, begin, set_context, fetch, commit, ◌>>=◌, pure}
use fukulow.Db.Transaction.{ok_or as ok_or_in}
use fukulow.Db.Policies.{sees_session}
use fukulow.Operations.Sessions.{resolve_session, live_session, email_row}
use fukulow.Operations.SigningIn.{SignedIn, sign_in-SignedIn, new_session}
use fukulow.Common.RowLaws.{any-false}
use fukulow.Auth.{verify_password, hash_session_token}
use fukulow.Operations.Calls.{run_history}
use fukulow.App.Acceptance.{IsObject, HasText}
use fukulow.App.Crates.{Fields, State}
use fukulow.App.Fields.{filter}
use fukulow.App.Http.{Request, Response, pure as done, ok_or, call, ◌>>=◌ as bind}
use fukulow.App.Sessions
use fukulow.App.Sessions.{authenticated, cookie, cookie_name, session_lifetime}
use fukulow.App.Steps.{Ends, ok_or-then, call_among-then, Ensures-ended}
use fukulow.App.Cookie.Bearer.{live_session-insert, authenticated-finds}

filter-some :
    {A : Type 0} (test : A → Bool) (o : Option A) (a : A) → filter test o ≡ some a → o ≡ some a
filter-some test none a h = absurd (ground arith)
filter-some test (some b) a h = elim (Bool-cases (test b)) [
  | inl e ↦ rw e at h
  | inr e ↦ absurd (ground (arith, rw e at h))
]

ran-verified :
    (runs verdict : Bool) → (if runs then some verdict else none) ≡ some true → verdict ≡ true
ran-verified true verdict h = some-injective verdict true h
ran-verified false verdict h = absurd (ground (arith, h))

-- The user whose e-mail address and password the body of the request holds.
abbrev pub HasCredentials :
    {Value PasswordHash : Type 0} → State Value PasswordHash → Request → Db → User → Type 0
HasCredentials {Value} state request db u =
    (fields : Fields Value) × (email : String) × (password : String) × IsObject state.json
      request.body fields
    × HasText state.json fields "email" email
    × HasText state.json fields "password" password
    × (email_row (state.servers 0).lower email (configure (Context.sign_in_email email) no_settings)
          db
        ≡ some u)
    × (verify_password state.crypto password u.password_hash ≡ true)

-- What a sign-in that answers has left behind: the cookie with the token, and a session of the
-- user under its hash, where there was none in the tables as others have left them.
abbrev pub IsSignedIn :
    {Value PasswordHash : Type 0}
    → State Value PasswordHash
    → Request
    → Db
    → Response Value
    → Db
    → Type 0
IsSignedIn state request db response d =
    (u : User) × (token : String) × (token_hash : String) × (id : ℕ) × HasCredentials state request
      db u
    × (state.new_token ≡ some (token, token_hash))
    × (response.cookie ≡ some (cookie token session_lifetime))
    × (any (λ x. str_eq x.token_hash token_hash)
          (run_history state.uuid state.meanwhile db).sessions
        ≡ false)
    × (d ≡ record (run_history state.uuid state.meanwhile db) {
      sessions =
          insert (new_session id u.actor_id token_hash (state.now + session_lifetime))
            (run_history state.uuid state.meanwhile db).sessions;
    })

module _ {Value PasswordHash : Type 0} (state : State Value PasswordHash) (request : Request)
    (db : Db) where
  sign_in-IsSignedIn :
      Ends
        (λ _ _. Unit)
        (λ response d. IsSignedIn state request db response d)
        (Sessions.sign_in state request db)
  unfolding Sessions.sign_in done
  sign_in-IsSignedIn = ok_or-then _ _ db _ _ _ tt λ bytes sent.
      ok_or-then _ _ db _ _ _ tt λ value read. ok_or-then _ _ db _ _ _ tt λ object whole.
        ok_or-then _ _ db _ _ _ tt λ email has_email.
          ok_or-then _ _ db _ _ _ tt λ password has_password.
            call_among-then _ _ db _ _ _ _ (λ e. tt)
              λ (actor, token) t ended ran.
                let (u, id, token_hash, row, verified, same, drawn, present, known, fresh, after) =
                  Ensures-ended
                    (λ r t.
                      SignedIn (state.servers 0) email
                        (λ phc.
                          if state.worker_runs
                          then some (verify_password state.crypto password phc)
                          else none)
                        state.new_token (state.now + session_lifetime)
                        (run_history state.uuid state.meanwhile) db r t.stored)
                    _ (actor, token) t ended
                    (sign_in-SignedIn (state.servers 0) email _ state.new_token
                      (state.now + session_lifetime) (run_history state.uuid state.meanwhile) db) in
                let credentials : HasCredentials state request db u = (
                  object,
                  email,
                  password,
                  (bytes, value, sent, read, whole),
                  filter-some _ _ email has_email,
                  has_password,
                  row,
                  ran-verified state.worker_runs _ verified,
                ) in
                (u, token, token_hash, id, credentials, drawn, refl, fresh, rw same at after)

  -- The cookie of a sign-in lets its bearer in as the user who signed in, whatever other requests
  -- commit during the check of the password: the request's e-mail address and password are those of
  -- a user, and on a server without failures, before the session's end, a request that carries the
  -- cookie is that of the user's actor, and the tables stay. The new token's hash is taken to be that
  -- of its text.
  pub sign_in-authenticated :
      (response : Response Value) (d : Db) (token token_hash : String)
      → Sessions.sign_in state request db ≡ (ok response, d)
      → state.new_token ≡ some (token, token_hash)
      → token_hash ≡ hash_session_token state.crypto token
      → (later : State Value PasswordHash) (next : Request) → later.crypto ≡ state.crypto
      → ((n : ℕ) → (later.servers 0).fails n ≡ false)
      → (later.servers 0).now < state.now + session_lifetime
      → later.crates.get_cookie next.headers cookie_name ≡ some token
      → (response.cookie ≡ some (cookie token session_lifetime))
        × ((u : User) × HasCredentials state request db u
            × (authenticated later next d ≡ (ok (u.actor_id, token_hash), d)))
  unfolding authenticated done
  sign_in-authenticated response d token token_hash ended drawn hashed later next same calm early
        sent =
      let (u, token', hash', id, credentials, drawn', set, fresh, stored) : IsSignedIn state request
          db response d =
        rw ended at sign_in-IsSignedIn in
      let this : token' ≡ token = ground arith in
      let its : hash' ≡ token_hash = ground arith in
      let session = new_session id u.actor_id token_hash (state.now + session_lifetime) in
      (
        rw this at set,
        (
          u,
          credentials,
          authenticated-finds later next d token token_hash session calm sent (rw same (sym hashed))
              (rw (stored, its)
                (live_session-insert (later.servers 0).now
                  (run_history state.uuid state.meanwhile db) session (rw its at fresh) refl
                  early)),
        ),
      )
