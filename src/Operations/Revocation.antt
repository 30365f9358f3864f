-- ===== src/Operations/Revocation.antt =====
-- What a revoked session is good for.
use fukulow.Common.{
  ℕ, ◌≡◌, refl, Bool, true, false, ◌&&◌, not, String, List, [], ◌∷◌, ◌==◌, any, update, is_some,
  arith,
}
use fukulow.Common.RowLaws.{any-true}
use fukulow.Db.Schema.{Db, Session}
use fukulow.Db.Transaction.{Server, opened}
use fukulow.Db.Steps.{Ensures, begin-then, execute-then, refuse_if-then, commit-ends}
use fukulow.Operations.Facts.{revoke_sessions-ok}
use fukulow.Operations.Support.Visibility.{acting}
use fukulow.Operations.Sessions.{revoke_session, is_session, coalesce}

abbrev pub is_live : ℕ → String → Session → Bool
is_live actor token_hash x = is_session actor token_hash x && not (is_some x.revoked_at)

revoked :
    (now actor : ℕ) (token_hash : String) (xs : List Session)
    → any (is_live actor token_hash) (
        update
          (λ x. x.actor_id == actor && is_session actor token_hash x)
          (λ x. record x { revoked_at = coalesce x.revoked_at now })
          xs)
      ≡ false
revoked now actor token_hash [] = refl
revoked now actor token_hash (x ∷ xs) =
    ground (arith, coalesced now x, revoked now actor token_hash xs)
  where
    coalesced : (now : ℕ) (x : Session) → is_some (coalesce x.revoked_at now) ≡ true
    coalesced now x = ground arith

-- A sign-out that succeeds has found the session of the actor under the hash and leaves none of
-- theirs unrevoked there; the sessions are all that it changes.
pub revoke_session-sessions :
    (server : Server) (actor : ℕ) (token_hash : String) (db : Db)
    → Ensures
        (λ _ t.
          (any (is_session actor token_hash) db.sessions ≡ true)
          × (any (is_live actor token_hash) t.stored.sessions ≡ false)
          × (t.stored ≡ record db { sessions = t.stored.sessions }))
        (revoke_session server actor token_hash (opened db))
unfolding revoke_session
revoke_session-sessions server actor token_hash db = begin-then server _ _ _ _ λ _.
    execute-then server _ _ _ _ λ _ missing db' done. refuse_if-then _ _ missing _ _ λ hit.
      commit-ends server _ _ _ λ _.
        let (tested, after) =
          revoke_sessions-ok (acting actor) db db' server.now actor token_hash missing done in
        (
          any-true (λ x. x.actor_id == actor && is_session actor token_hash x)
              (is_session actor token_hash) db.sessions (λ x p. ground arith)
              (ground (arith, tested, hit)),
          rw after (revoked server.now actor token_hash db.sessions),
          rw after refl,
        )
