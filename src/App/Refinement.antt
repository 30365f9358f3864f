-- ===== src/App/Refinement.antt =====
-- What a request does to the tables, handler by handler.
pub mod Serve
use fukulow.Common.{
  ◌≡◌, refl, sym, ap, ◌∙◌, List, [], ◌∷◌, ◌++◌, ℕ, ◌+◌, String, Bool, Option, Bool-cases, is_some,
  ◌⊎◌, inl, inr, true, false, arith,
}
use fukulow.Common.Int.{pos}
use fukulow.Domain.Identifiers.{UuidCrate}
use fukulow.Db.Schema.{Db}
use fukulow.Db.Transaction.{Server, Tx, M, Result, ok, err, opened, run, pure}
use fukulow.Db.Steps.{Ensures, begin-then, fetch-then, commit-then}
use fukulow.Db.Steps.{ok_or-then as ok_or-in}
use fukulow.Operations.Calls
use fukulow.Operations.Calls.{Call, step, run_history}
use fukulow.Operations.Sessions
use fukulow.Operations.Invites
use fukulow.App.Crates.{Fields, State}
use fukulow.App.Http.{Request, Response, StatusCode, H, ◌>>=◌, pure as done}
use fukulow.App.Sessions.{session_lifetime, elapse, sign_out, sign_in, me}
use fukulow.App.Invites.{max_uses_of, create, revoke, accept}
use fukulow.App.Fields.Reads.{object-Reads, integer-Reads, string-Reads, acceptance_fields-Reads}
use fukulow.App.PathIdentifier.{path_identifier}
use fukulow.Auth.{hash_invite_token}
use fukulow.App.Routes.{
  Handler, health, Matched, handled, answered, Axum, router, admits, protect, into_response,
  run_handler, answer, is_error, strip, serve,
}
use fukulow.Operations.Owners.Rows.{has_owner}
use fukulow.Operations.Owners.History.{has_owner-run_history}
use fukulow.Operations.Calls.AuditTrail.{Extends, audit_events-Extends}
use fukulow.Operations.Calls.Integrity.{IsWellFormed-run_history}
use fukulow.Operations.Calls.WellFormed.{IsWellFormed}
use fukulow.App.Steps.{Reads, reads-then, pure-Reads}
use fukulow.App.Steps.{Ends, ok_or-then, call-then, call_among-then, read_call-then}
use fukulow.App.Authenticated.{HasSession, authenticated-then}

me-stored :
    (server : Server) (actor : ℕ) (db : Db)
    → Ensures (λ _ t. t.stored ≡ db) (Sessions.me server actor (opened db))
unfolding Sessions.me pure
me-stored server actor db = begin-then server _ _ _ _ λ _. fetch-then server _ _ _ _ λ _.
    ok_or-in _ _ _ _ _
      λ (a, u) found. ok_or-in _ _ _ _ _ λ type known. commit-then server _ _ _ λ _. refl

pub usable-stored :
    (server : Server) (token_hash : String) (db : Db)
    → Ensures (λ _ t. t.stored ≡ db) (Invites.invite_is_usable server token_hash (opened db))
unfolding Invites.invite_is_usable pure
usable-stored server token_hash db =
    begin-then server _ _ _ _ λ _. fetch-then server _ _ _ _ λ _. commit-then server _ _ _ λ _. refl

module _ {Value PasswordHash : Type 0} (state : State Value PasswordHash) (request : Request)
    (db : Db) where
  -- The tables as they were, or as other requests have made them since.
  abbrev pub IsQuiet : Db → Type 0
  IsQuiet d = (d ≡ db) ⊎ (d ≡ run_history state.uuid state.meanwhile db)

  -- The calls that requests make: for the actor of the request's live session, or for a new person.
  abbrev pub IsRequested : Call → Type 0
  IsRequested (Calls.revoke_session actor token_hash) =
      HasSession state request db (actor, token_hash)
  IsRequested (Calls.create_invite actor organization token expires_at max_uses) =
      ((token_hash : String) × HasSession state request db (actor, token_hash))
      × (token ≡ state.new_invite_token)
  IsRequested (Calls.revoke_invite actor organization invite) =
      (token_hash : String) × HasSession state request db (actor, token_hash)
  IsRequested (Calls.accept_invite token_hash email password_hash display_name) = Unit
  IsRequested _ = ⊥

  -- A sign-in on the tables, with what other requests have committed during its password check.
  abbrev pub IsSignIn : Db → Type 0
  IsSignIn d =
      (email : String) × (verify : String → Option Bool) × (expires_at : ℕ) × (d
        ≡ (run
            (Sessions.sign_in (state.servers 0) email verify state.new_token expires_at
              (run_history state.uuid state.meanwhile))
            db).1)

  -- At most one call, on the tables as they were or as other requests have made them since.
  abbrev pub IsServed : Db → Type 0
  IsServed d =
      IsQuiet d
      ⊎ (((server : Server) × (call : Call) × (base : Db) × IsRequested call
            × IsQuiet base
            × (d ≡ step state.uuid server call base))
          ⊎ IsSignIn d)

  -- A handler that leaves with an error has written nothing, and one that returns has made one call
  -- at most and its status is no error.
  abbrev pub IsOrderly : Result StatusCode (Response Value) × Db → Type 0
  IsOrderly r =
      Ends (λ _ d. IsQuiet d) (λ response d. (is_error response.status ≡ false) × IsServed d) r

  max_uses_of-Reads : (fields : Fields Value) → Reads (max_uses_of state fields)
  unfolding max_uses_of
  max_uses_of-Reads fields = elim (Bool-cases (is_some (fields "max_uses"))) [
    | inl e ↦ rw e (integer-Reads state.json fields "max_uses" 1 100)
    | inr e ↦ rw e (pure-Reads 1)
  ]

  pub elapse-then :
      (R : StatusCode → Db → Type 0) {B : Type 0} (Q : B → Db → Type 0) (d : Db) (f : Unit → H B)
      → Ends R Q (f tt (run_history state.uuid state.meanwhile d))
      → Ends R Q ((elapse state >>= f) d)
  unfolding elapse ◌>>=◌
  elapse-then R Q d f h = h

  written :
      (server : Server) (call : Call) (base d : Db)
      → IsRequested call
      → IsQuiet base
      → step state.uuid server call base ≡ d
      → IsServed d
  written server call base d asked quiet e = inr (inl (server, call, base, asked, quiet, sym e))

  sign_out-IsOrderly : IsOrderly (sign_out state request db)
  unfolding sign_out done step
  sign_out-IsOrderly =
      authenticated-then state request _ _ db _ (inl refl) (inl refl) λ (actor, hash) live.
        elapse-then _ _ db _ (
          call-then _ _ _ _ _ _ (λ e. inr refl)
            λ _ t ended ran. (
              refl,
              written (state.servers 1) (Calls.revoke_session actor hash) _ t.stored live (inr refl)
                  (ap (λ r. r.1) ran),
            ))

  me-IsOrderly : IsOrderly (me state request db)
  unfolding me done
  me-IsOrderly =
      authenticated-then state request _ _ db _ (inl refl) (inl refl) λ (actor, hash) live.
        elapse-then _ _ db _ (
          read_call-then _ _ _ _ _ _ (me-stored (state.servers 1) actor _) (λ e. inr refl)
            λ row t ended. (refl, inl (inr refl)))

  sign_in-IsOrderly : IsOrderly (sign_in state request db)
  unfolding sign_in done
  sign_in-IsOrderly = ok_or-then _ _ db _ _ _ (inl refl) λ bytes _.
      ok_or-then _ _ db _ _ _ (inl refl) λ value _. ok_or-then _ _ db _ _ _ (inl refl) λ object _.
        ok_or-then _ _ db _ _ _ (inl refl) λ email _.
          ok_or-then _ _ db _ _ _ (inl refl) λ password _.
            call_among-then _ _ db _ _ _ _ (λ e. inr refl)
              λ _ t ended ran.
                (refl, inr (inr (email, _, state.now + session_lifetime, sym (ap (λ r. r.1) ran))))

  create-IsOrderly : IsOrderly (create state request db)
  unfolding create done step
  create-IsOrderly =
      authenticated-then state request _ _ db _ (inl refl) (inl refl) λ (actor, hash) live.
        reads-then _ _ db _ _ (object-Reads _ _) (λ _. inl refl)
          λ fields _.
            reads-then _ _ db _ _ (integer-Reads _ _ _ _ _) (λ _. inl refl)
              λ expires_in _.
                reads-then _ _ db _ _ (max_uses_of-Reads fields) (λ _. inl refl)
                  λ max_uses _. ok_or-then _ _ db _ _ _ (inl refl) λ organization _.
                    ok_or-then _ _ db _ _ _ (inl refl) λ formatted _. elapse-then _ _ db _ (
                      call-then _ _ _ _ _ _ (λ e. inr refl)
                        λ _ t ended ran. (
                          refl,
                          written (state.servers 1)
                              (Calls.create_invite actor organization state.new_invite_token
                                (state.now + expires_in) (pos max_uses))
                              _ t.stored ((hash, live), refl) (inr refl) (ap (λ r. r.1) ran),
                        ))

  revoke-IsOrderly : IsOrderly (revoke state request db)
  unfolding revoke done step
  revoke-IsOrderly =
      authenticated-then state request _ _ db _ (inl refl) (inl refl) λ (actor, hash) live.
        ok_or-then _ _ db _ _ _ (inl refl) λ organization _. elapse-then _ _ db _ (
          call-then _ _ _ _ _ _ (λ e. inr refl)
            λ _ t ended ran. (
              refl,
              written (state.servers 1)
                  (Calls.revoke_invite actor organization
                    (path_identifier state.crates.parse_uuid request.path 6))
                  _ t.stored (hash, live) (inr refl) (ap (λ r. r.1) ran),
            ))

  accept-IsOrderly : IsOrderly (accept state request db)
  unfolding accept done step
  accept-IsOrderly =
      reads-then _ _ db _ _ (object-Reads _ _) (λ _. inl refl)
        λ fields _.
          reads-then _ _ db _ _ (string-Reads _ _ _) (λ _. inl refl)
            λ token _.
              read_call-then _ _ db _ _ _ (usable-stored (state.servers 0) _ db) (λ e. inl refl)
                λ usable t ended. ok_or-then _ _ db _ _ _ (inl refl) λ _ _.
                  reads-then _ _ db _ _ (acceptance_fields-Reads _ fields) (λ _. inl refl)
                    λ (email, password, display_name) _.
                      ok_or-then _ _ db _ _ _ (inl refl) λ hashed _.
                        ok_or-then _ _ db _ _ _ (inl refl) λ password_hash _. elapse-then _ _ db _ (
                          call-then _ _ _ _ _ _ (λ e. inr refl)
                            λ _ t' ended' ran'. (
                              refl,
                              written (state.servers 1)
                                  (Calls.accept_invite (hash_invite_token state.crypto token) email
                                    password_hash display_name)
                                  _ t'.stored tt (inr refl) (ap (λ r. r.1) ran'),
                            ))

  pub me-Quiet :
      Ends
        (λ _ d. (d ≡ db) ⊎ (d ≡ run_history state.uuid state.meanwhile db))
        (λ _ d. (d ≡ db) ⊎ (d ≡ run_history state.uuid state.meanwhile db))
        (me state request db)
  unfolding me done
  me-Quiet = authenticated-then state request _ _ db _ (inl refl) (inl refl) λ (actor, hash) live.
      elapse-then _ _ db _ (
        read_call-then _ _ _ _ _ _ (me-stored (state.servers 1) actor _) (λ e. inr refl)
          λ row t ended. inr refl)

  pub run_handler-IsOrderly : (handler : Handler) → IsOrderly (run_handler state handler request db)
  unfolding run_handler done
  run_handler-IsOrderly health = (refl, inl (inl refl))
  run_handler-IsOrderly Handler.sign_in = sign_in-IsOrderly
  run_handler-IsOrderly Handler.sign_out = sign_out-IsOrderly
  run_handler-IsOrderly Handler.me = me-IsOrderly
  run_handler-IsOrderly Handler.create = create-IsOrderly
  run_handler-IsOrderly Handler.revoke = revoke-IsOrderly
  run_handler-IsOrderly Handler.accept = accept-IsOrderly
