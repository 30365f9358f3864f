-- ===== src/RequestExamples.antt =====
-- The theorems on crates/auth and crates/app at concrete requests.
use mathlib.Core.Bool.{true≢false}
use fukulow.Common.{sym, ap, ◌+◌, ◌≡◌, ◌↔◌, ◌⊎◌, refl, false, some, [], ◌∷◌, str_eq, arith, rows}
use fukulow.Common.Characters.{codes}
use fukulow.Common.RowLaws.{All}
use fukulow.Common.Utf8.{as_bytes}
use fukulow.Db.Schema.{Db, User}
use fukulow.Db.TokenHash.{from_bytes, char_at}
use fukulow.Db.TokenHash.Laws.{read_hex, read_hex-from_bytes}
use fukulow.Db.Policies.{sees_user, sees_actor, sees_member, active_in}
use fukulow.Operations.Sessions as Operations
use fukulow.Operations.Calls.{run_history, step}
use fukulow.Operations.Sessions.{wait, email_row, insert_session, is_person}
use fukulow.Operations.Support.{lock_actor, departed_row}
use fukulow.Db.Transaction.{
  ok, run, begin, fetch, commit, execute, execute_or, now_v7, pure, refuse_if, set_context,
  ◌>>=◌ as then_in, ok_or as or_error,
}
use fukulow.Auth.{
  verify_password, decide, verified, verify_with, new_session_token, new_invite_token,
  hash_session_token, hash_token, random_token, hex,
}
use fukulow.Auth.Laws.{Verdict, IsToken, verify_with-Verdict, new_session_token-IsToken}
use fukulow.Operations.SigningIn.{new_session}
use fukulow.App.Acceptance.{IsAccepted, accept-IsAccepted}
use fukulow.App.Authenticated.{IsGuarded, routes-IsGuarded}
use fukulow.App.Config.{UriCrate, validate_public_origin}
use fukulow.App.Config.Accepts.{validate_public_origin-IsOrigin}
use fukulow.App.Config.Laws.{IsOrigin}
use fukulow.App.Cookie.{HasCredentials, sign_in-authenticated}
use fukulow.App.Http.{
  ◌>>=◌ as then_do, ok_or as or_status, call_among, pure as answer_with, Response, get, post,
  delete, no_body, no_content, forbidden, bare,
}
use fukulow.App.Invites.{accept}
use fukulow.App.PathIdentifier.{path_identifier}
use fukulow.App.PathIdentifier.Laws.{Identifies, path_identifier-Identifies}
use fukulow.App.Protection.{same_origin-serve, serve-bare}
use fukulow.App.Refinement.{IsQuiet, IsServed}
use fukulow.App.Refinement.Serve.{serve-IsServed, serve-IsQuiet}
use fukulow.App.Routes.{routes, run_handler, serve, changes_state, same_origin, admits, protect}
use fukulow.App.Sessions
use fukulow.App.Sessions.{authenticated, cookie, session_lifetime}
use fukulow.App.Steps.{Ends}
use fukulow.RequestTests.{
  zeros, fill_zeros, fill_zeros-FillsBuffer, zeros-IsDigest, crypto, Document, state, interrupted,
  new_person, waiting_tables, same_origin_headers, foreign_headers, request_to, method_router,
  method_router-RoutesByMethod,
}
use fukulow.Tests.{tables}

serve-IsServed_example :
    IsServed state
      (request_to delete same_origin_headers)
      tables
      (serve state method_router (request_to delete same_origin_headers) tables).1
serve-IsServed_example =
    serve-IsServed state (request_to delete same_origin_headers) tables method_router

serve-IsQuiet_example :
    IsQuiet state
      (request_to post foreign_headers)
      tables
      (serve state method_router (request_to post foreign_headers) tables).1
unfolding str_eq as_bytes serve protect admits
serve-IsQuiet_example =
    serve-IsQuiet state (request_to post foreign_headers) tables method_router refl

same_origin-serve_example :
    (serve state method_router (request_to get foreign_headers) tables ≡ (bare forbidden, tables))
    ⊎ ((changes_state get ≡ false)
        × IsQuiet state
            (request_to get foreign_headers)
            tables
            (serve state method_router (request_to get foreign_headers) tables).1)
unfolding str_eq as_bytes
same_origin-serve_example =
    same_origin-serve state (request_to get foreign_headers) tables method_router
      method_router-RoutesByMethod
      (λ e. true≢false (sym (ap (same_origin "https://example.org") e)))

serve-bare_example :
    (serve state method_router (request_to post foreign_headers) tables).0
    ≡ bare (serve state method_router (request_to post foreign_headers) tables).0.status
unfolding str_eq as_bytes serve protect admits
serve-bare_example = serve-bare state (request_to post foreign_headers) tables method_router refl

routes-IsGuarded_example :
    All
      (λ r.
        IsGuarded state
          (request_to delete same_origin_headers)
          tables
          (run_handler state r.handler (request_to delete same_origin_headers) tables))
      (rows (λ r. r.needs_session) routes)
routes-IsGuarded_example = routes-IsGuarded state (request_to delete same_origin_headers) tables

accept-IsAccepted_example :
    Ends
      (λ _ _. Unit)
      (λ response d.
        (response ≡ bare no_content)
        × IsAccepted new_person (request_to post same_origin_headers) waiting_tables d)
      (accept new_person (request_to post same_origin_headers) waiting_tables)
accept-IsAccepted_example =
    accept-IsAccepted new_person (request_to post same_origin_headers) waiting_tables

-- The answer to a sign-in of the actor 1, and the tables then.
abbrev signed_in : Response Document
signed_in = record {
  status = no_content;
  cookie = some (cookie "token" session_lifetime);
  body = no_body;
}

abbrev signed_in_tables : Db
signed_in_tables = record tables {
  sessions =
      record { id = 30; actor_id = 1; token_hash = "t"; expires_at = 200; revoked_at = some 100 }
      ∷ new_session 1006 1 (hash_session_token crypto "token") (100 + session_lifetime)
      ∷ [];
}

signs_in :
    Sessions.sign_in interrupted (request_to post same_origin_headers) tables
    ≡ (ok signed_in, signed_in_tables)
unfolding Sessions.sign_in then_do or_status codes call_among run Operations.sign_in then_in begin
    fetch wait or_error verify_password email_row sees_user str_eq lock_actor answer_with cookie
    decide verify_with active_in sees_actor sees_member commit execute execute_or now_v7 pure
    refuse_if set_context insert_session is_person departed_row hash_session_token hash_token
    from_bytes char_at run_history step Operations.revoke_session Operations.revoke_sessions
signs_in = refl

sign_in-authenticated_example :
    (signed_in.cookie ≡ some (cookie "token" session_lifetime))
    × ((u : User) × HasCredentials interrupted (request_to post same_origin_headers) tables u
        × (authenticated interrupted (request_to get same_origin_headers) signed_in_tables
            ≡ (ok (u.actor_id, hash_session_token crypto "token"), signed_in_tables)))
sign_in-authenticated_example =
    sign_in-authenticated interrupted (request_to post same_origin_headers) tables signed_in
      signed_in_tables "token" (hash_session_token crypto "token") signs_in refl refl interrupted
      (request_to get same_origin_headers) refl (λ n. refl) (omega arith) refl

path_identifier-Identifies_example :
    (path_identifier (λ text. some 10) (as_bytes "/a/%31b") 2 ≡ some 10)
    ↔ Identifies (λ text. some 10) (as_bytes "/a/%31b") 2 10
path_identifier-Identifies_example =
    path_identifier-Identifies (λ text. some 10) (as_bytes "/a/%31b") 2 10

-- A reading of one origin.
abbrev one_origin : UriCrate Unit
one_origin = record {
  parse = λ value. some tt;
  host = λ uri. some (codes "example.org");
  authority = λ uri. some (codes "example.org:8443");
  scheme_str = λ uri. some (codes "https");
}

validate_public_origin-IsOrigin_example :
    (validate_public_origin one_origin (codes "https://example.org:8443") ≡ ok tt)
    ↔ IsOrigin one_origin (codes "https://example.org:8443")
validate_public_origin-IsOrigin_example =
    validate_public_origin-IsOrigin one_origin (codes "https://example.org:8443")

verify_with-Verdict_example :
    Verdict crypto
      (λ password hash. verified)
      "secret"
      "phc"
      tt
      (verify_with crypto (λ password hash. verified) "secret" "phc")
verify_with-Verdict_example =
    verify_with-Verdict crypto (λ password hash. verified) "secret" "phc" tt refl

new_session_token-IsToken_example :
    IsToken crypto fill_zeros (from_bytes (zeros 32)) (from_bytes (zeros 32))
    × (new_invite_token crypto fill_zeros ≡ some (from_bytes (zeros 32), from_bytes (zeros 32)))
unfolding new_session_token hash_session_token hash_token random_token hex from_bytes char_at
    as_bytes
new_session_token-IsToken_example =
    new_session_token-IsToken crypto fill_zeros (from_bytes (zeros 32)) (from_bytes (zeros 32))
      fill_zeros-FillsBuffer zeros-IsDigest refl

read_hex-from_bytes_example : read_hex (from_bytes (0 ∷ 255 ∷ [])) ≡ 0 ∷ 255 ∷ []
read_hex-from_bytes_example = read_hex-from_bytes (0 ∷ 255 ∷ []) (omega arith, (omega arith, tt))
