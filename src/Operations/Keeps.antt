-- ===== src/Operations/Keeps.antt =====
-- Each operation keeps what its statements keep.
pub mod Leaving
pub mod Membership
pub mod Messages
use fukulow.Common.Int.{ℤ}
use fukulow.Common.{ℕ, ◌≡◌, refl, String, Bool, true, false, Option, none, some, List, [], ◌∷◌}
use fukulow.Domain.OrganizationRole.{OrganizationRole, Capability}
use fukulow.Domain.MemberStatus.{MemberStatus}
use fukulow.Domain.TeamRole.{TeamRole}
use fukulow.Domain.Owners.{OwnerChange, OwnerCheck}
use fukulow.Domain.Owners
use fukulow.Domain.Identifiers.{ChannelScope, MessageId, UuidCrate}
use fukulow.Db.Schema.{Db, AuditEvent, OrganizationMember, StoredMessage}
use fukulow.Db.Transaction.{Server, Tx, M, Result, ok, err, ok_or, OperationError}
use fukulow.Db.Steps.{Ensures}
use fukulow.Db.Keeps.{Preserves, Keeps, keeping, execute-Keeps, bind-Keeps, pure-Keeps, fail-Keeps}
use fukulow.Audit.{write, Event, insert_audit, audit_row}
use fukulow.Operations.Support.{
  Access, lock_organization, lock_actor, active_owners, authorize, access_of,
}
use fukulow.Operations.Stable.{Stable, StableMembers, StableMessages}
use fukulow.Operations.Teams
use fukulow.Operations.Channels
use fukulow.Operations.Identity
use fukulow.Operations.Invites
use fukulow.Operations.Sessions

mapped :
    {V W A : Type 0} (Q : A → Tx → Type 0) (handler : OperationError V → OperationError W)
    (r : Result (OperationError V) (A × Tx))
    → Ensures Q r
    → Ensures {E = OperationError W} Q (elim r [ ok a ↦ ok a | err e ↦ err (handler e) ])
mapped Q handler (ok a) h = h
mapped Q handler (err e) h = tt

module _ {P : Db → Type 0} (stable : Stable P) (server : Server) where
  pub write-Keeps :
      (V : Type 0) (e : Event) (organization performed_by : ℕ)
      → Keeps P (write server {V = V} e organization performed_by)
  unfolding write
  write-Keeps V e organization performed_by = record {
    apply = λ t h.
        (execute-Keeps server V
            (insert_audit (audit_row (server.new_id t.tick) e organization performed_by))
            (stable.audit _)).apply
          t h;
  }

  pub create_team-Keeps :
      (performed_by organization : ℕ) (name : String)
      → Keeps P (Teams.create_team server performed_by organization name)
  unfolding Teams.create_team lock_actor lock_organization
  create_team-Keeps performed_by organization name =
      search (keeping, write-Keeps, stable.team) depth 40

  pub add_team_member-Keeps :
      (performed_by organization team actor : ℕ) (role : TeamRole)
      → Keeps P (Teams.add_team_member server performed_by organization team actor role)
  unfolding Teams.add_team_member lock_actor lock_organization
  add_team_member-Keeps performed_by organization team actor role =
      search (keeping, write-Keeps, stable.team_member) depth 40

  pub change_team_member_role-Keeps :
      (performed_by organization team actor : ℕ) (role : TeamRole)
      → Keeps P (Teams.change_team_member_role server performed_by organization team actor role)
  unfolding Teams.change_team_member_role Teams.set_team_role lock_actor lock_organization
  change_team_member_role-Keeps performed_by organization team actor role =
      search (keeping, write-Keeps, stable.team_role) depth 40

  pub remove_team_member-Keeps :
      (performed_by organization team actor : ℕ)
      → Keeps P (Teams.remove_team_member server performed_by organization team actor)
  unfolding Teams.remove_team_member lock_actor lock_organization
  remove_team_member-Keeps performed_by organization team actor =
      search (keeping, write-Keeps, stable.team_removal) depth 40

  scope_team-Keeps :
      (organization : ℕ) (scope : ChannelScope)
      → Keeps P (Channels.scope_team server organization scope)
  unfolding Channels.scope_team
  scope_team-Keeps organization ChannelScope.organization = search keeping
  scope_team-Keeps organization (ChannelScope.team team) = search keeping depth 20

  pub create_channel-Keeps :
      (performed_by organization : ℕ) (scope : ChannelScope) (name : String)
      → Keeps P (Channels.create_channel server performed_by organization scope name)
  unfolding Channels.create_channel lock_actor lock_organization
  create_channel-Keeps performed_by organization scope name =
      search (keeping, write-Keeps, stable.channel, scope_team-Keeps) depth 40

  refuse_departed-Keeps : (departed : Option Bool) → Keeps P (Channels.refuse_departed departed)
  refuse_departed-Keeps none = search keeping
  refuse_departed-Keeps (some true) = search keeping
  refuse_departed-Keeps (some false) = search keeping

  pub add_channel_member-Keeps :
      (performed_by organization channel actor : ℕ)
      → Keeps P (Channels.add_channel_member server performed_by organization channel actor)
  unfolding Channels.add_channel_member lock_actor lock_organization
  add_channel_member-Keeps performed_by organization channel actor =
      search (keeping, write-Keeps, stable.channel_member, refuse_departed-Keeps) depth 40

  pub create_person-Keeps :
      (email password_hash display_name : String)
      → Keeps P (Identity.create_person server email password_hash display_name)
  unfolding Identity.create_person
  create_person-Keeps email password_hash display_name =
      search (keeping, stable.actor, stable.user) depth 40

  require_present-Keeps : (departed : Option Bool) → Keeps P (Identity.require_present departed)
  require_present-Keeps none = search keeping
  require_present-Keeps (some true) = search keeping
  require_present-Keeps (some false) = search keeping

  pub create_organization-Keeps :
      (creator : ℕ) (name slug : String)
      → Keeps P (Identity.create_organization server creator name slug)
  unfolding Identity.create_organization lock_actor
  create_organization-Keeps creator name slug =
      search (keeping, write-Keeps, stable.organization, stable.member, require_present-Keeps) depth
        40

  access_of-Keeps :
      (V : Type 0) (row : Option OrganizationMember) (capability : Capability)
      → Keeps P (access_of server {V = V} row capability)
  unfolding access_of
  access_of-Keeps V none capability = search keeping
  access_of-Keeps V (some row) capability = search keeping depth 20

  authorize-Keeps :
      (V : Type 0) (actor organization : ℕ) (capability : Capability)
      → Keeps P (authorize server {V = V} actor organization capability)
  unfolding authorize
  authorize-Keeps V actor organization capability = search (keeping, access_of-Keeps) depth 20

  allow_create-Keeps : (access : Access) → Keeps P (Invites.allow_create access)
  allow_create-Keeps Access.allowed = search keeping
  allow_create-Keeps Access.forbidden = search keeping
  allow_create-Keeps Access.not_a_member = search keeping

  allow_revoke-Keeps : (access : Access) → Keeps P (Invites.allow_revoke access)
  allow_revoke-Keeps Access.allowed = search keeping
  allow_revoke-Keeps Access.forbidden = search keeping
  allow_revoke-Keeps Access.not_a_member = search keeping

  pub create_invite-Keeps :
      {T : Type 0} (performed_by organization : ℕ) (new_token : Option (T × String))
      (expires_at : ℕ) (max_uses : ℤ)
      → Keeps P
          (Invites.create_invite server performed_by organization new_token expires_at max_uses)
  unfolding Invites.create_invite lock_actor lock_organization
  create_invite-Keeps performed_by organization new_token expires_at max_uses =
      search (keeping, write-Keeps, stable.invite, authorize-Keeps, allow_create-Keeps) depth 50

  revoke_row-Keeps :
      (performed_by organization invite : ℕ) (revoked_at : Option ℕ)
      → Keeps P (Invites.revoke_row server performed_by organization invite revoked_at)
  unfolding Invites.revoke_row
  revoke_row-Keeps performed_by organization invite (some at) = search keeping
  revoke_row-Keeps performed_by organization invite none =
      search (keeping, write-Keeps, stable.invite_revocation) depth 20

  pub revoke_invite-Keeps :
      (performed_by organization : ℕ) (invite : Option ℕ)
      → Keeps P (Invites.revoke_invite server performed_by organization invite)
  unfolding Invites.revoke_invite lock_actor lock_organization
  revoke_invite-Keeps performed_by organization invite =
      search (keeping, authorize-Keeps, allow_revoke-Keeps, revoke_row-Keeps) depth 50

  map_err-Keeps :
      {V W A : Type 0} (handler : OperationError V → OperationError W) (m : M V A)
      → Keeps P m
      → Keeps P (Invites.map_err handler m)
  unfolding Invites.map_err
  map_err-Keeps handler m h = record { apply = λ t both. mapped _ handler (m t) (h.apply t both) }

  pub accept_invite-Keeps :
      (token_hash email password_hash display_name : String)
      → Keeps P (Invites.accept_invite server token_hash email password_hash display_name)
  unfolding Invites.accept_invite
  accept_invite-Keeps token_hash email password_hash display_name =
      search
        (keeping, write-Keeps, stable.invite_use, stable.member, create_person-Keeps, map_err-Keeps)
        depth 50

  pub revoke_session-Keeps :
      (actor : ℕ) (token_hash : String) → Keeps P (Sessions.revoke_session server actor token_hash)
  unfolding Sessions.revoke_session
  revoke_session-Keeps actor token_hash = search (keeping, stable.session_revocation) depth 30

  wait-Keeps :
      (V : Type 0) (meanwhile : Db → Db)
      → ((db : Db) → P db → P (meanwhile db))
      → Keeps P (Sessions.wait {V = V} meanwhile)
  unfolding Sessions.wait
  wait-Keeps V meanwhile keep = record { apply = λ t h. (keep t.stored h.0, keep t.stored h.0) }

  pub sign_in-Keeps :
      {T : Type 0} (email : String) (verify : String → Option Bool)
      (new_token : Option (T × String)) (expires_at : ℕ) (meanwhile : Db → Db)
      → ((db : Db) → P db → P (meanwhile db))
      → Keeps P (Sessions.sign_in server email verify new_token expires_at meanwhile)
  unfolding Sessions.sign_in lock_actor
  sign_in-Keeps email verify new_token expires_at meanwhile keep =
      search (keeping, stable.session, wait-Keeps) depth 60
