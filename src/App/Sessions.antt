-- ===== src/App/Sessions.antt =====
-- crates/app/src/sessions.rs
use fukulow.Common.{
  ℕ, ◌+◌, ◌*◌, String, true, not, Option, none, some, List, [], ◌∷◌, ◌++◌, if◌then◌else◌,
}
use fukulow.Domain.ActorType
use fukulow.Domain.ActorType.{ActorType}
use fukulow.Db.Transaction.{ok, OperationError, refused, database}
use fukulow.Auth.{verify_password, hash_session_token}
use fukulow.Operations.Calls.{run_history}
use fukulow.Operations.Sessions
use fukulow.Operations.Sessions.{
  SignInError, invalid_credentials, token_unavailable, SessionError, no_session, Me,
}
use fukulow.App.Crates.{Json, State}
use fukulow.App.Fields.{filter, and_then, has_nul}
use fukulow.App.Http.{
  Request, StatusCode, no_content, unauthorized, unprocessable_entity, internal_server_error,
  strict, Cookie, no_body, json_body, Response, H, ◌>>=◌, ◌>>◌, pure, ok_or, call, call_among,
}

abbrev pub cookie_name : String
cookie_name = "__Host-fukulow_session"

-- `Duration::days(14)`, in seconds
abbrev pub session_lifetime : ℕ
session_lifetime = 14 * 86400

unfoldable pub cookie : String → ℕ → Cookie
cookie value lifetime = record {
  name = cookie_name;
  value = value;
  http_only = true;
  secure = true;
  same_site = strict;
  path = "/";
  max_age = lifetime;
}

abbrev pub session_error : OperationError SessionError → StatusCode
session_error (refused no_session) = unauthorized
session_error (database _) = internal_server_error

abbrev pub sign_in_error : OperationError SignInError → StatusCode
sign_in_error (refused invalid_credentials) = unauthorized
sign_in_error (refused token_unavailable) = internal_server_error
sign_in_error (database _) = internal_server_error

-- The display name of `json!`, which is `null` where there is none.
abbrev optional_text : {Value : Type 0} → Json Value → Option String → Value
optional_text json none = json.null
optional_text json (some s) = json.text s

-- The object that `me_json` begins with, and `value["user"]`.
abbrev actor_fields :
    {Value PasswordHash : Type 0} → State Value PasswordHash → Me → List (String × Value)
actor_fields state me =
    (
      "actor",
      state.json.object (
          ("id", state.json.text (state.crates.uuid_to_string me.actor_id))
          ∷ ("type", state.json.text (ActorType.as_str me.actor_type))
          ∷ ("display_name", optional_text state.json me.display_name)
          ∷ []),
    )
    ∷ []

abbrev user_fields : {Value : Type 0} → Json Value → Option String → List (String × Value)
user_fields json none = []
user_fields json (some email) = ("user", json.object (("email", json.text email) ∷ [])) ∷ []

module _ {Value PasswordHash : Type 0} (state : State Value PasswordHash) where
  unfoldable pub me_json : Me → Value
  me_json me = state.json.object (actor_fields state me ++ user_fields state.json me.email)

  -- Other requests commit between two transactions of this one.
  unfoldable pub elapse : H (Unit {0})
  elapse db = (ok tt, run_history state.uuid state.meanwhile db)

  -- `Authenticated`: the actor, and the hash that finds the session.
  unfoldable pub authenticated : Request → H (ℕ × String)
  authenticated request = do
    token ← ok_or unauthorized (state.crates.get_cookie request.headers cookie_name)
    actor ←
        call session_error
          (Sessions.resolve_session (state.servers 0) (hash_session_token state.crypto token))
    pure (actor, hash_session_token state.crypto token)

  -- Other requests commit while its transaction waits for the check of the password.
  unfoldable pub sign_in : Request → H (Response Value)
  sign_in request = do
    bytes ← ok_or unprocessable_entity request.body
    value ← ok_or unprocessable_entity (state.json.from_slice bytes)
    object ← ok_or unprocessable_entity (state.json.as_object value)
    email ←
        ok_or unprocessable_entity
          (filter (λ email. not (has_nul email)) (and_then (object "email") state.json.as_str))
    password ← ok_or unprocessable_entity (and_then (object "password") state.json.as_str)
    (actor, token) ← call_among (run_history state.uuid state.meanwhile) sign_in_error (
        Sessions.sign_in (state.servers 0) email
          (λ phc.
            if state.worker_runs then some (verify_password state.crypto password phc) else none)
          state.new_token (state.now + session_lifetime))
    pure (record {
      status = no_content;
      cookie = some (cookie token session_lifetime);
      body = no_body;
    })

  unfoldable pub sign_out : Request → H (Response Value)
  unfolding elapse
  sign_out request = do
    (actor, token_hash) ← authenticated request
    elapse
    call session_error (Sessions.revoke_session (state.servers 1) actor token_hash)
    pure (record { status = no_content; cookie = some (cookie "" 0); body = no_body })

  unfoldable pub me : Request → H (Response Value)
  me request = do
    (actor, token_hash) ← authenticated request
    elapse
    row ← call session_error (Sessions.me (state.servers 1) actor)
    pure (record { status = 200; cookie = none; body = json_body (me_json row) })
