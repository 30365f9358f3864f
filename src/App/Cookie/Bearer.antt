-- ===== src/App/Cookie/Bearer.antt =====
-- `Authenticated` of crates/app/src/sessions.rs on a session that has just been added.
use fukulow.Common.{
  ℕ, ◌≡◌, ◌<◌, refl, String, Bool, true, false, none, some, List, [], ◌∷◌, find, any, insert,
  str_eq, str_eq_iff, arith, Bool-cases, inl, inr,
}
use fukulow.Db.Schema.{Db, Session}
use fukulow.Db.Context
use fukulow.Db.Context.{Settings, configure, no_settings}
use fukulow.Db.Transaction.{Server, ok, run, begin, set_context, fetch, commit, ◌>>=◌, pure}
use fukulow.Db.Transaction.{ok_or as ok_or_in}
use fukulow.Db.Policies.{sees_session}
use fukulow.Operations.Sessions.{resolve_session, live_session}
use fukulow.Common.RowLaws.{any-false}
use fukulow.Auth.{hash_session_token}
use fukulow.App.Crates.{State}
use fukulow.App.Http.{Request, pure as done, ok_or, call, ◌>>=◌ as bind}
use fukulow.App.Sessions.{authenticated, cookie_name}

find-insert :
    {A : Type 0} (p : A → Bool) (x : A) (xs : List A)
    → any p xs ≡ false
    → p x ≡ true
    → find p (insert x xs) ≡ some x
find-insert p x [] h e = rw e refl
find-insert p x (y ∷ ys) h e = elim (Bool-cases (p y)) [
  | inl hit ↦ absurd (ground (arith, h, hit))
  | inr no_match ↦ rw no_match (find-insert p x ys (rw no_match at h) e)
]

-- A transaction none of whose statements fails.
resolve_session-calm :
    (server : Server) (token_hash : String) (db : Db) (row : Session)
    → ((n : ℕ) → server.fails n ≡ false)
    → live_session server.now token_hash
        (configure (Context.session_token token_hash) no_settings)
        db
      ≡ some row
    → run (resolve_session server token_hash) db ≡ (ok row.actor_id, db)
unfolding run resolve_session begin set_context fetch commit ok_or_in ◌>>=◌ pure
resolve_session-calm server token_hash db row calm found =
    rw
      (
        run,
        resolve_session,
        begin,
        set_context,
        fetch,
        commit,
        ok_or_in,
        ◌>>=◌,
        pure,
        calm 0,
        calm 1,
        calm 2,
        found,
        calm 3,
      )
      refl

-- The session that a sign-in adds is the one found under its hash.
pub live_session-insert :
    (now : ℕ) (d : Db) (row : Session)
    → any (λ x. str_eq x.token_hash row.token_hash) d.sessions ≡ false
    → row.revoked_at ≡ none
    → now < row.expires_at
    → live_session now row.token_hash
        (configure (Context.session_token row.token_hash) no_settings)
        (record d { sessions = insert row d.sessions })
      ≡ some row
unfolding live_session sees_session
live_session-insert now d row fresh unrevoked early =
    let same : str_eq row.token_hash row.token_hash ≡ true =
      (str_eq_iff row.token_hash row.token_hash).1 refl in
    find-insert _ row d.sessions
      (any-false _ (λ x. str_eq x.token_hash row.token_hash) d.sessions (λ x h. ground arith) fresh)
      (ground (arith, same, unrevoked))

pub authenticated-finds :
    {Value PasswordHash : Type 0} (later : State Value PasswordHash) (next : Request) (d : Db)
    (token token_hash : String) (row : Session)
    → ((n : ℕ) → (later.servers 0).fails n ≡ false)
    → later.crates.get_cookie next.headers cookie_name ≡ some token
    → hash_session_token later.crypto token ≡ token_hash
    → live_session
        (later.servers 0).now
        token_hash
        (configure (Context.session_token token_hash) no_settings)
        d
      ≡ some row
    → authenticated later next d ≡ (ok (row.actor_id, token_hash), d)
unfolding authenticated ok_or bind call done
authenticated-finds later next d token token_hash row calm sent hashed found =
    rw
      (
        authenticated,
        bind,
        ok_or,
        call,
        done,
        sent,
        hashed,
        resolve_session-calm (later.servers 0) token_hash d row calm found,
      )
      refl
