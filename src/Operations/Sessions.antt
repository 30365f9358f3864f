-- ===== src/Operations/Sessions.antt =====
-- crates/db/src/operations/sessions.rs. `verify` is the closure that runs argon2 on a blocking
-- thread: `none` if the thread panicked. What other transactions commit while it runs is a
-- parameter, `meanwhile`; the transaction has written nothing by then.
use fukulow.Common.{
  ℕ, ltb, String, Bool, true, false, ◌&&◌, not, Option, none, some, [], ◌∷◌, ◌==◌, str_eq, is_some,
  find, any, update, insert,
}
use fukulow.Domain.ActorType
use fukulow.Domain.ActorType.{ActorType}
use fukulow.Db.Schema.{Actor, User, Session, Db}
use fukulow.Db.Context
use fukulow.Db.Context.{Settings, is_self}
use fukulow.Db.Policies.{sees_actor, sees_user, sees_session}
use fukulow.Db.Transaction.{
  Server, M, ◌>>=◌, ◌>>◌, pure, ok_or, refuse_if, Statement, ok, refused, database, denied, decode,
  worker_crashed, violates, fetch, execute, set_context, begin, commit, all_pass, now_v7,
}
use fukulow.Operations.Support.{lock_actor}

pub data SignInError : Type 0 where
  invalid_credentials token_unavailable : SignInError

pub data SessionError : Type 0 where
  no_session : SessionError

abbrev pub dummy_password_hash : String
dummy_password_hash =
    "$argon2id$v=19$m=19456,t=2,p=1$ZnVrdWxvdy1kdW1teS1zYWx0$OA3QfvZgfeDS0Ga5mZRi0S3nzxuaKJZEOshVa7Yv68s"

-- SELECT actor_id, password_hash FROM users WHERE lower(email) = lower($1)
unfoldable pub email_row : (String → String) → String → Settings → Db → Option User
email_row lower email s db =
    find (λ u. sees_user lower s db u && str_eq (lower u.email) (lower email)) db.users

-- SELECT EXISTS (SELECT 1 FROM users WHERE actor_id = $1)
unfoldable pub is_person : (String → String) → ℕ → Settings → Db → Bool
is_person lower actor s db = any (λ u. sees_user lower s db u && u.actor_id == actor) db.users

-- INSERT INTO sessions (id, actor_id, token_hash, expires_at)
unfoldable pub insert_session : Session → Statement Unit
insert_session row s db =
    all_pass
      ((is_self s row.actor_id, denied)
        ∷ (not (any (λ x. x.id == row.id) db.sessions), violates "sessions_pkey")
        ∷ (
          not (any (λ x. str_eq x.token_hash row.token_hash) db.sessions),
          violates "sessions_token_hash_key",
        )
        ∷ (any (λ u. u.actor_id == row.actor_id) db.users, violates "sessions_actor_id_fkey")
        ∷ [])
      (tt, record db { sessions = insert row db.sessions })

-- SELECT actor_id FROM sessions WHERE token_hash = $1 AND revoked_at IS NULL AND expires_at > now()
unfoldable pub live_session : ℕ → String → Settings → Db → Option Session
live_session now token_hash s db =
    find
      (λ x.
        sees_session s db x
        && (str_eq x.token_hash token_hash && not (is_some x.revoked_at) && ltb now x.expires_at))
      db.sessions

abbrev pub is_session : ℕ → String → Session → Bool
is_session actor token_hash x = x.actor_id == actor && str_eq x.token_hash token_hash

abbrev pub coalesce : Option ℕ → ℕ → Option ℕ
coalesce none now = some now
coalesce (some at) now = some at

-- UPDATE sessions SET revoked_at = coalesce(revoked_at, now()) WHERE …, and whether no row was hit.
-- The policy on updates admits the actor's own rows.
unfoldable pub revoke_sessions : ℕ → ℕ → String → Statement Bool
revoke_sessions now actor token_hash s db = ok (
  not (any (λ x. is_self s x.actor_id && is_session actor token_hash x) db.sessions),
  record db {
    sessions =
        update (λ x. is_self s x.actor_id && is_session actor token_hash x)
          (λ x. record x { revoked_at = coalesce x.revoked_at now }) db.sessions;
  },
)

pub record Me : Type 0 where
  pub actor_id : ℕ
  pub actor_type : ActorType
  pub display_name : Option String
  pub email : Option String

-- SELECT … FROM actors a LEFT JOIN users u ON u.actor_id = a.id WHERE a.id = $1 AND a.deleted_at
-- IS NULL
unfoldable pub me_row : (String → String) → ℕ → Settings → Db → Option (Actor × Option User)
me_row lower actor s db =
    elim (find (λ a. sees_actor s db a && (a.id == actor && not (is_some a.deleted_at)))
      db.actors) [
        | none ↦ none
        | some a ↦ some (a, find (λ u. sees_user lower s db u && u.actor_id == a.id) db.users)
      ]

abbrev email_of : Option User → Option String
email_of none = none
email_of (some u) = some u.email

abbrev pub is_present : Option Bool → Bool
is_present (some false) = true
is_present (some true) = false
is_present none = false

-- `person.map_or(DUMMY_PASSWORD_HASH, …)`
abbrev pub stored_hash : Option User → String
stored_hash none = dummy_password_hash
stored_hash (some u) = u.password_hash

-- `person.filter(|_| verified)`
abbrev pub filter_verified : Bool → Option User → Option User
filter_verified true o = o
filter_verified false o = none

-- The other transactions that commit while this one waits.
unfoldable pub wait : {V : Type 0} → (Db → Db) → M V Unit
wait meanwhile t = ok (tt, record t { stored = meanwhile t.stored; db = meanwhile t.stored })

module _ (server : Server) where
  unfoldable pub sign_in :
      {T : Type 0}
      → String
      → (String → Option Bool)
      → Option (T × String)
      → ℕ
      → (Db → Db)
      → M SignInError (ℕ × T)
  sign_in email verify new_token expires_at meanwhile = do
    begin server (Context.sign_in_email email)
    found ← fetch server (email_row server.lower email)
    wait meanwhile
    verified ← ok_or (database worker_crashed) (verify (stored_hash found))
    person ← ok_or (refused invalid_credentials) (filter_verified verified found)
    set_context server (Context.actor person.actor_id)
    present ← lock_actor server person.actor_id person.actor_id
    refuse_if (not (is_present present)) invalid_credentials
    still_a_person ← fetch server (is_person server.lower person.actor_id)
    refuse_if (not still_a_person) invalid_credentials
    (token, token_hash) ← ok_or (refused token_unavailable) new_token
    id ← now_v7 server
    execute server (
        insert_session (record {
          id = id;
          actor_id = person.actor_id;
          token_hash = token_hash;
          expires_at = expires_at;
          revoked_at = none;
        }))
    commit server
    pure (person.actor_id, token)

  unfoldable pub resolve_session : String → M SessionError ℕ
  resolve_session token_hash = do
    begin server (Context.session_token token_hash)
    found ← fetch server (live_session server.now token_hash)
    row ← ok_or (refused no_session) found
    commit server
    pure row.actor_id

  unfoldable pub revoke_session : ℕ → String → M SessionError Unit
  revoke_session actor token_hash = do
    begin server (Context.actor actor)
    none_hit ← execute server (revoke_sessions server.now actor token_hash)
    refuse_if none_hit no_session
    commit server

  unfoldable pub me : ℕ → M SessionError Me
  me actor = do
    begin server (Context.actor actor)
    found ← fetch server (me_row server.lower actor)
    (a, u) ← ok_or (refused no_session) found
    actor_type ← ok_or (database (decode "invalid actor type")) (ActorType.parse a.actor_type)
    commit server
    pure (record {
      actor_id = a.id;
      actor_type = actor_type;
      display_name = a.display_name;
      email = email_of u;
    })
