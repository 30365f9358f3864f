-- ===== src/App/Invites.antt =====
-- crates/app/src/invites.rs. The text of `format!` for the link is `link`.
use Prim.Native.String.{◌++◌}
use fukulow.Common.{ℕ, ◌+◌, String, none, some, [], ◌∷◌, if◌then◌else◌, is_some}
use fukulow.Common.Int.{pos}
use fukulow.Db.Transaction.{OperationError, refused, database}
use fukulow.Auth.{hash_invite_token}
use fukulow.Operations.Invites
use fukulow.Operations.Invites.{
  CreateInviteError, RevokeInviteError, AcceptInviteError, AccessError,
}
use fukulow.App.Crates.{Fields, State}
use fukulow.App.Fields.{object, integer, string, acceptance_fields}
use fukulow.App.PathIdentifier.{path_identifier}
use fukulow.App.Sessions.{authenticated, elapse}
use fukulow.App.Http.{
  Request, StatusCode, no_content, forbidden, not_found, conflict, internal_server_error, json_body,
  Response, bare, H, ◌>>=◌, ◌>>◌, pure, ok_or, call,
}

abbrev pub create_error : OperationError CreateInviteError → StatusCode
create_error (refused CreateInviteError.not_a_member) = not_found
create_error (refused CreateInviteError.forbidden) = forbidden
create_error (refused CreateInviteError.token_unavailable) = internal_server_error
create_error (database _) = internal_server_error

abbrev pub revoke_error : OperationError RevokeInviteError → StatusCode
revoke_error (refused RevokeInviteError.forbidden) = forbidden
revoke_error (refused RevokeInviteError.not_a_member) = not_found
revoke_error (refused RevokeInviteError.not_found) = not_found
revoke_error (database _) = internal_server_error

abbrev pub accept_error : OperationError AcceptInviteError → StatusCode
accept_error (refused AcceptInviteError.invite_unusable) = not_found
accept_error (refused AcceptInviteError.email_taken) = conflict
accept_error (database _) = internal_server_error

abbrev pub usable_error : OperationError AccessError → StatusCode
usable_error _ = internal_server_error

abbrev pub link : String → String → String
link origin token = origin ++ "/invite#" ++ token

module _ {Value PasswordHash : Type 0} (state : State Value PasswordHash) where
  unfoldable pub max_uses_of : Fields Value → H ℕ
  max_uses_of fields =
      if is_some (fields "max_uses") then integer state.json fields "max_uses" 1 100 else pure 1

  -- The body of the answer to `create`.
  unfoldable pub created : ℕ → String → String → ℕ → Value
  created id token expires_at max_uses = state.json.object (
      ("id", state.json.text (state.crates.uuid_to_string id))
      ∷ ("token", state.json.text token)
      ∷ ("link", state.json.text (link state.origin token))
      ∷ ("expires_at", state.json.text expires_at)
      ∷ ("max_uses", state.json.number max_uses)
      ∷ [])

  unfoldable pub create : Request → H (Response Value)
  create request = do
    (actor, _) ← authenticated state request
    fields ← object state.json request.body
    expires_in ← integer state.json fields "expires_in" 300 604800
    max_uses ← max_uses_of fields
    organization ← ok_or not_found (path_identifier state.crates.parse_uuid request.path 4)
    formatted ← ok_or internal_server_error (state.crates.rfc3339 (state.now + expires_in))
    elapse state
    (id, token) ← call create_error (
        Invites.create_invite (state.servers 1) actor organization state.new_invite_token
          (state.now + expires_in) (pos max_uses))
    pure (record {
      status = 201;
      cookie = none;
      body = json_body (created id token formatted max_uses);
    })

  unfoldable pub revoke : Request → H (Response Value)
  revoke request = do
    (actor, _) ← authenticated state request
    organization ← ok_or not_found (path_identifier state.crates.parse_uuid request.path 4)
    elapse state
    call revoke_error (
        Invites.revoke_invite (state.servers 1) actor organization
          (path_identifier state.crates.parse_uuid request.path 6))
    pure (bare no_content)

  unfoldable pub accept : Request → H (Response Value)
  accept request = do
    fields ← object state.json request.body
    token ← string state.json fields "token"
    usable ←
        call usable_error
          (Invites.invite_is_usable (state.servers 0) (hash_invite_token state.crypto token))
    ok_or not_found (if usable then some tt else none)
    (email, password, display_name) ← acceptance_fields state.json fields
    hashed ← ok_or internal_server_error (state.hash_invite_password password)
    password_hash ← ok_or internal_server_error hashed
    elapse state
    call accept_error (
        Invites.accept_invite (state.servers 1) (hash_invite_token state.crypto token) email
          password_hash display_name)
    pure (bare no_content)
