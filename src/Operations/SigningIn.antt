-- ===== src/Operations/SigningIn.antt =====
-- What a sign-in has checked, and what it leaves behind.
use fukulow.Common.{
  ℕ, ◌≡◌, refl, Bool, true, false, not, String, Option, none, some, insert, arith, any, ◌==◌,
  str_eq,
}
use fukulow.Db.Schema.{Db, User, Session}
use fukulow.Db.Context
use fukulow.Db.Context.{Settings, configure, no_settings}
use fukulow.Db.Transaction.{Server, Tx, M, ◌>>=◌, pure, opened, ok}
use fukulow.Db.Steps.{
  Ensures, begin-then, fetch-then, set_context-then, execute-then, ok_or-then, refuse_if-then,
  commit-then,
}
use fukulow.Operations.Facts.{insert_session-ok}
use fukulow.Operations.Acceptance.{now_v7-then}
use fukulow.Operations.Support.{departed_row, lock_actor}
use fukulow.Operations.Sessions.{
  sign_in, email_row, filter_verified, is_present, wait, insert_session,
}

insert_session-new :
    (s : Settings) (db db' : Db) (row : Session) (u : Unit)
    → insert_session row s db ≡ ok (u, db')
    → any (λ x. str_eq x.token_hash row.token_hash) db.sessions ≡ false
unfolding insert_session
insert_session-new s db db' row u e = ground (arith, e)

wait-then :
    (meanwhile : Db → Db) {V B : Type 0} (Q : B → Tx → Type 0) (t : Tx) (k : Unit → M V B)
    → Ensures Q (k tt (record t { stored = meanwhile t.stored; db = meanwhile t.stored }))
    → Ensures Q ((wait meanwhile >>= k) t)
unfolding wait ◌>>=◌
wait-then meanwhile Q t k h = h

verified-person :
    (verified : Bool) (found : Option User) (u : User)
    → filter_verified verified found ≡ some u
    → (verified ≡ true) × (found ≡ some u)
verified-person true found u h = (refl, h)
verified-person false found u h = absurd (ground arith)

present-row : (row : Option Bool) → not (is_present row) ≡ false → row ≡ some false
present-row none h = absurd (ground arith)
present-row (some true) h = absurd (ground arith)
present-row (some false) h = refl

abbrev pub signing_in : String → ℕ → Settings
signing_in email actor =
    configure (Context.actor actor) (configure (Context.sign_in_email email) no_settings)

abbrev pub new_session : ℕ → ℕ → String → ℕ → Session
new_session id actor token_hash expires_at = record {
  id = id;
  actor_id = actor;
  token_hash = token_hash;
  expires_at = expires_at;
  revoked_at = none;
}

module _ (server : Server) {T : Type 0} (email : String) (verify : String → Option Bool)
    (new_token : Option (T × String)) (expires_at : ℕ) (meanwhile : Db → Db) (db : Db) where
  -- A person of that email whose password was verified, who has not left by then, and the session.
  abbrev pub SignedIn : ℕ × T → Db → Type 0
  SignedIn (actor, token) db' =
      (u : User) × (id : ℕ) × (token_hash : String) × (email_row server.lower email
          (configure (Context.sign_in_email email) no_settings) db
        ≡ some u)
      × (verify u.password_hash ≡ some true)
      × (actor ≡ u.actor_id)
      × (new_token ≡ some (token, token_hash))
      × (departed_row actor actor (signing_in email actor) (meanwhile db) ≡ some false)
      × (any (λ v. v.actor_id == actor) (meanwhile db).users ≡ true)
      × (any (λ x. str_eq x.token_hash token_hash) (meanwhile db).sessions ≡ false)
      × (db' ≡ record (meanwhile db) {
        sessions = insert (new_session id actor token_hash expires_at) (meanwhile db).sessions;
      })

  -- When a sign-in succeeds, whatever other transactions commit during its password check: a user
  -- of that email was found and their stored hash verified, the actor has not left the service and
  -- is still a user in the tables after those transactions, no session there is under the hash of the
  -- token, and one new session of that actor under
  -- the hash of the token that is returned is all that is added to them.
  pub sign_in-SignedIn :
      Ensures
        (λ r t. SignedIn r t.stored)
        (sign_in server email verify new_token expires_at meanwhile (opened db))
  unfolding sign_in lock_actor pure
  sign_in-SignedIn = begin-then server _ _ _ _ λ _. fetch-then server _ _ _ _ λ _.
      wait-then meanwhile _ _ _ (
        ok_or-then _ _ _ _ _ λ verified checked. ok_or-then _ _ _ _ _ λ u found.
          set_context-then server _ _ _ _ λ _. fetch-then server _ _ _ _ λ _.
            refuse_if-then _ _ _ _ _ λ present. fetch-then server _ _ _ _ λ _.
              refuse_if-then _ _ _ _ _ λ still.
                ok_or-then _ _ _ new_token _ λ (token, token_hash) drawn.
                  now_v7-then server _ _ _ λ id. execute-then server _ _ _ _ λ _ x db' done.
                    commit-then server _ _ _ λ _.
                      let (right, row) = verified-person verified _ u found in
                      let (_, known, after) =
                        insert_session-ok (signing_in email u.actor_id) (meanwhile db) db' _ x
                          done in
                      (
                        u,
                        id,
                        token_hash,
                        row,
                        rw (row, right) at checked,
                        refl,
                        drawn,
                        present-row _ present,
                        known,
                        insert_session-new (signing_in email u.actor_id) (meanwhile db) db' _ x
                            done,
                        after,
                      ))
