-- ===== src/Operations/Stable.antt =====
-- The statements of the operations, by what they write: a property that all of them keep is kept by
-- every operation.
use fukulow.Common.{ℕ, ◌+◌, ◌≡◌, String, none, some}
use fukulow.Db.Schema.{
  Db, Actor, User, Organization, OrganizationMember, Team, TeamMember, Invite, Session, Channel,
  StoredMessage, AuditEvent,
}
use fukulow.Db.Transaction.{Server}
use fukulow.Db.Keeps.{Preserves}
use fukulow.Audit.{insert_audit}
use fukulow.Operations.Membership.{update_member}
use fukulow.Operations.Teams.{insert_team, insert_team_member, update_team_role, delete_team_member}
use fukulow.Operations.Channels.{insert_channel, insert_channel_member}
use fukulow.Operations.Messages.{advance_counter, insert_message}
use fukulow.Operations.Identity.{insert_actor, insert_user, insert_organization, insert_member}
use fukulow.Operations.Invites.{insert_invite_select, update_invites, is_invite, is_usable}
use fukulow.Operations.Sessions.{insert_session, revoke_sessions}
use fukulow.Operations.Leaving.{delete_team_rows, delete_listings, delete_user, mark_departed}

-- All statements but those of the next two records.
pub record Stable (P : Db → Type 0) : Type 0 where
  pub audit : (row : AuditEvent) → Preserves P (insert_audit row)
  pub team : (row : Team) → Preserves P (insert_team row)
  pub team_member : (row : TeamMember) → Preserves P (insert_team_member row)
  pub team_role :
      (organization team actor : ℕ) (role : String)
      → Preserves P (update_team_role organization team actor role)
  pub team_removal :
      (organization team actor : ℕ) → Preserves P (delete_team_member organization team actor)
  pub channel :
      (lower : String → String) (row : Channel)
      → row.next_message_seq ≡ 0
      → Preserves P (insert_channel lower row)
  pub channel_member :
      (organization channel actor : ℕ)
      → Preserves P (insert_channel_member organization channel actor)
  pub actor : (row : Actor) → Preserves P (insert_actor row)
  pub user : (lower : String → String) (row : User) → Preserves P (insert_user lower row)
  pub organization : (row : Organization) → Preserves P (insert_organization row)
  pub member : (server : Server) (row : OrganizationMember) → Preserves P (insert_member server row)
  pub invite : (row : Invite) → row.used_count ≡ 0 → Preserves P (insert_invite_select row)
  pub invite_use :
      (server : Server) (token_hash : String)
      → Preserves P (
          update_invites server
            (is_usable server.now token_hash)
            (λ i. record i { used_count = i.used_count + 1 }))
  pub invite_revocation :
      (server : Server) (organization invite : ℕ)
      → Preserves P (
          update_invites server
            (is_invite organization invite)
            (λ i. record i { revoked_at = some server.now }))
  pub session : (row : Session) → Preserves P (insert_session row)
  pub session_revocation :
      (now actor : ℕ) (token_hash : String) → Preserves P (revoke_sessions now actor token_hash)
  pub team_rows : (organization actor : ℕ) → Preserves P (delete_team_rows organization actor)
  pub listing_rows : (organization actor : ℕ) → Preserves P (delete_listings organization actor)
  pub user_removal : (actor : ℕ) → Preserves P (delete_user actor)
  pub departure : (now actor : ℕ) → Preserves P (mark_departed now actor)

-- The updates of memberships.
pub record StableMembers (P : Db → Type 0) : Type 0 where
  pub role :
      (organization actor : ℕ) (role : String)
      → Preserves P (update_member organization actor (λ m. record m { role = role }))
  pub status :
      (organization actor : ℕ) (status : String)
      → Preserves P (update_member organization actor (λ m. record m { status = status }))
  pub departure :
      (organization actor : ℕ)
      → Preserves P (
          update_member organization actor (λ m. record m { status = "left"; display_name = none }))

-- The two writes of a new message.
pub record StableMessages (P : Db → Type 0) : Type 0 where
  pub counter : (organization channel : ℕ) → Preserves P (advance_counter organization channel)
  pub message : (row : StoredMessage) → Preserves P (insert_message row)
