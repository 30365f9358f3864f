-- ===== src/Audit.antt =====
-- crates/db/src/audit.rs: the events, and their insertion.
pub mod Steps
use fukulow.Common.{ℕ, String, not, [], ◌∷◌, ◌==◌, any, insert}
use fukulow.Domain.OrganizationRole
use fukulow.Domain.OrganizationRole.{OrganizationRole}
use fukulow.Domain.TeamRole
use fukulow.Domain.TeamRole.{TeamRole}
use fukulow.Domain.InviteKind
use fukulow.Domain.Identifiers.{ChannelScope, scope_as_str}
use fukulow.Db.Schema.{Metadata, uuid, text, number, AuditEvent}
use fukulow.Db.Policies.{may_insert_audit}
use fukulow.Db.Transaction.{Server, M, Statement, denied, violates, all_pass, execute}

pub data RemovalReason : Type 0 where
  removed left_service : RemovalReason

pub record Event : Type 0 where
  pub action : String
  pub target_type : String
  pub target_id : ℕ
  pub metadata : Metadata

abbrev about : String → String → ℕ → Metadata → Event
about action target_type id metadata = record {
  action = action;
  target_type = target_type;
  target_id = id;
  metadata = metadata;
}

abbrev pub invite_created : ℕ → ℕ → ℕ → Event
invite_created organization invite max_uses = about "invite.created" "organization" organization (
    ("invite_id", uuid invite)
    ∷ ("kind", text (InviteKind.as_str InviteKind.organization))
    ∷ ("max_uses", number max_uses)
    ∷ [])

abbrev pub invite_revoked : ℕ → ℕ → Event
invite_revoked organization invite =
    about "invite.revoked" "organization" organization (("invite_id", uuid invite) ∷ [])

abbrev pub member_invited : ℕ → ℕ → Event
member_invited actor invite = about "organization.member.added" "actor" actor (
    ("role", text (OrganizationRole.as_str OrganizationRole.member))
    ∷ ("invite_id", uuid invite)
    ∷ [])

abbrev pub organization_created : ℕ → Event
organization_created id = about "organization.created" "organization" id []

abbrev pub member_added : ℕ → OrganizationRole → Event
member_added id role =
    about "organization.member.added" "actor" id
      (("role", text (OrganizationRole.as_str role)) ∷ [])

abbrev pub member_role_changed : ℕ → OrganizationRole → OrganizationRole → Event
member_role_changed id from to =
    about "organization.member.role_changed" "actor" id (
      ("from", text (OrganizationRole.as_str from))
      ∷ ("to", text (OrganizationRole.as_str to))
      ∷ [])

abbrev pub member_suspended : ℕ → Event
member_suspended id = about "organization.member.suspended" "actor" id []

abbrev pub member_reactivated : ℕ → Event
member_reactivated id = about "organization.member.reactivated" "actor" id []

abbrev pub member_left : ℕ → Event
member_left id = about "organization.member.left" "actor" id []

abbrev pub team_created : ℕ → Event
team_created id = about "team.created" "team" id []

abbrev pub team_member_added : ℕ → ℕ → TeamRole → Event
team_member_added id team role =
    about "team.member.added" "actor" id
      (("team_id", uuid team) ∷ ("role", text (TeamRole.as_str role)) ∷ [])

abbrev pub team_member_role_changed : ℕ → ℕ → TeamRole → TeamRole → Event
team_member_role_changed id team from to = about "team.member.role_changed" "actor" id (
    ("team_id", uuid team)
    ∷ ("from", text (TeamRole.as_str from))
    ∷ ("to", text (TeamRole.as_str to))
    ∷ [])

abbrev reason_text : RemovalReason → String
reason_text removed = "removed"
reason_text left_service = "left_service"

abbrev pub team_member_removed : ℕ → ℕ → RemovalReason → Event
team_member_removed id team reason =
    about "team.member.removed" "actor" id
      (("team_id", uuid team) ∷ ("reason", text (reason_text reason)) ∷ [])

abbrev scope_metadata : ChannelScope → Metadata
scope_metadata ChannelScope.organization =
    ("scope", text (scope_as_str ChannelScope.organization)) ∷ []
scope_metadata (ChannelScope.team team) =
    ("scope", text (scope_as_str (ChannelScope.team team))) ∷ ("team_id", uuid team) ∷ []

abbrev pub channel_created : ℕ → ChannelScope → Event
channel_created id scope = about "channel.created" "channel" id (scope_metadata scope)

abbrev pub channel_member_added : ℕ → ℕ → Event
channel_member_added id channel =
    about "channel.member.added" "actor" id (("channel_id", uuid channel) ∷ [])

abbrev pub channel_member_left : ℕ → ℕ → Event
channel_member_left id channel =
    about "channel.member.removed" "actor" id
      (("channel_id", uuid channel) ∷ ("reason", text "left_service") ∷ [])

-- The row that `Event::write` inserts.
abbrev pub audit_row : ℕ → Event → ℕ → ℕ → AuditEvent
audit_row id e organization performed_by = record {
  id = id;
  organization_id = organization;
  actor_id = performed_by;
  action = e.action;
  target_type = e.target_type;
  target_id = e.target_id;
  metadata = e.metadata;
}

-- INSERT INTO audit_events, with its policy, key and references. The CHECKs on `action` and
-- `target_type` hold of the literals above.
unfoldable pub insert_audit : AuditEvent → Statement Unit
insert_audit row settings db =
    all_pass
      ((may_insert_audit settings db row, denied)
        ∷ (not (any (λ e. e.id == row.id) db.audit_events), violates "audit_events_pkey")
        ∷ (
          any (λ o. o.id == row.organization_id) db.organizations,
          violates "audit_events_organization_id_fkey",
        )
        ∷ (any (λ a. a.id == row.actor_id) db.actors, violates "audit_events_actor_id_fkey")
        ∷ [])
      (tt, record db { audit_events = insert row db.audit_events })

-- `Event::write`
unfoldable pub write : Server → {V : Type 0} → Event → ℕ → ℕ → M V Unit
write server e organization performed_by t =
    execute server (insert_audit (audit_row (server.new_id t.tick) e organization performed_by)) t
