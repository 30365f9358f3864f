-- ===== src/Operations/Frames.antt =====
-- A property that does not read a table is kept by the statements that write that table alone.
use fukulow.Common.{ℕ, ◌≡◌, String, Bool, arith}
use fukulow.Db.Schema.{
  Db, Actor, User, Organization, OrganizationMember, Team, TeamMember, Invite, Session, Channel,
  StoredMessage, AuditEvent,
}
use fukulow.Db.Context.{Settings}
use fukulow.Db.Transaction.{Server, ok, Statement}
use fukulow.Db.Keeps.{Preserves}
use fukulow.Audit.{insert_audit}
use fukulow.Operations.Membership.{update_member}
use fukulow.Operations.Teams.{insert_team, insert_team_member, update_team_role, delete_team_member}
use fukulow.Operations.Channels.{insert_channel, insert_channel_member}
use fukulow.Operations.Messages.{advance_counter, insert_message}
use fukulow.Operations.Identity.{insert_actor, insert_user, insert_organization, insert_member}
use fukulow.Operations.Invites.{insert_invite_select, update_invites}
use fukulow.Operations.Sessions.{insert_session, revoke_sessions}
use fukulow.Operations.Leaving.{delete_team_rows, delete_listings, delete_user, mark_departed}

-- The tables change in one place.
abbrev pub Writes : {A : Type 0} → (Db → Db → Type 0) → Statement A → Type 0
Writes {A} R statement =
    (s : Settings) (db : Db) (a : A) (db' : Db) → statement s db ≡ ok (a, db') → R db db'

pub framed :
    {A : Type 0} (P : Db → Type 0) (set : Db → Db → Db) {statement : Statement A}
    → ((db db' : Db) → P db → P (set db db'))
    → Writes (λ db db'. db' ≡ set db db') statement
    → Preserves P statement
framed P set keep writes = record {
  apply = λ s db a db' h e. rw (writes s db a db' e) (keep db db' h);
}

pub audit-Writes :
    (row : AuditEvent)
    → Writes (λ db db'. db' ≡ record db { audit_events = db'.audit_events }) (insert_audit row)
unfolding insert_audit
audit-Writes row s db a db' h = ground arith

pub team-Writes :
    (row : Team) → Writes (λ db db'. db' ≡ record db { teams = db'.teams }) (insert_team row)
unfolding insert_team
team-Writes row s db a db' h = ground arith

pub team_member-Writes :
    (row : TeamMember)
    → Writes
        (λ db db'. db' ≡ record db { team_members = db'.team_members })
        (insert_team_member row)
unfolding insert_team_member
team_member-Writes row s db a db' h = ground arith

pub team_role-Writes :
    (organization team actor : ℕ) (role : String)
    → Writes
        (λ db db'. db' ≡ record db { team_members = db'.team_members })
        (update_team_role organization team actor role)
unfolding update_team_role
team_role-Writes organization team actor role s db a db' h = ground arith

pub team_removal-Writes :
    (organization team actor : ℕ)
    → Writes
        (λ db db'. db' ≡ record db { team_members = db'.team_members })
        (delete_team_member organization team actor)
unfolding delete_team_member
team_removal-Writes organization team actor s db a db' h = ground arith

pub channel-Writes :
    (lower : String → String) (row : Channel)
    → Writes (λ db db'. db' ≡ record db { channels = db'.channels }) (insert_channel lower row)
unfolding insert_channel
channel-Writes lower row s db a db' h = ground arith

pub channel_member-Writes :
    (organization channel actor : ℕ)
    → Writes
        (λ db db'. db' ≡ record db { channel_members = db'.channel_members })
        (insert_channel_member organization channel actor)
unfolding insert_channel_member
channel_member-Writes organization channel actor s db a db' h = ground arith

pub actor-Writes :
    (row : Actor) → Writes (λ db db'. db' ≡ record db { actors = db'.actors }) (insert_actor row)
unfolding insert_actor
actor-Writes row s db a db' h = ground arith

pub user-Writes :
    (lower : String → String) (row : User)
    → Writes (λ db db'. db' ≡ record db { users = db'.users }) (insert_user lower row)
unfolding insert_user
user-Writes lower row s db a db' h = ground arith

pub organization-Writes :
    (row : Organization)
    → Writes
        (λ db db'. db' ≡ record db { organizations = db'.organizations })
        (insert_organization row)
unfolding insert_organization
organization-Writes row s db a db' h = ground arith

pub member-Writes :
    (server : Server) (row : OrganizationMember)
    → Writes
        (λ db db'. db' ≡ record db { organization_members = db'.organization_members })
        (insert_member server row)
unfolding insert_member
member-Writes server row s db a db' h = ground arith

pub invite-Writes :
    (row : Invite)
    → Writes (λ db db'. db' ≡ record db { invites = db'.invites }) (insert_invite_select row)
unfolding insert_invite_select
invite-Writes row s db a db' h = ground arith

pub updated_invites-Writes :
    (server : Server) (test : Invite → Bool) (set : Invite → Invite)
    → Writes (λ db db'. db' ≡ record db { invites = db'.invites }) (update_invites server test set)
unfolding update_invites
updated_invites-Writes server test set s db a db' h = ground arith

pub session-Writes :
    (row : Session)
    → Writes (λ db db'. db' ≡ record db { sessions = db'.sessions }) (insert_session row)
unfolding insert_session
session-Writes row s db a db' h = ground arith

pub session_revocation-Writes :
    (now actor : ℕ) (token_hash : String)
    → Writes
        (λ db db'. db' ≡ record db { sessions = db'.sessions })
        (revoke_sessions now actor token_hash)
unfolding revoke_sessions
session_revocation-Writes now actor token_hash s db a db' h = ground arith

pub team_rows-Writes :
    (organization actor : ℕ)
    → Writes
        (λ db db'. db' ≡ record db { team_members = db'.team_members })
        (delete_team_rows organization actor)
unfolding delete_team_rows
team_rows-Writes organization actor s db a db' h = ground arith

pub listing_rows-Writes :
    (organization actor : ℕ)
    → Writes
        (λ db db'. db' ≡ record db { channel_members = db'.channel_members })
        (delete_listings organization actor)
unfolding delete_listings
listing_rows-Writes organization actor s db a db' h = ground arith

pub departure-Writes :
    (now actor : ℕ)
    → Writes (λ db db'. db' ≡ record db { actors = db'.actors }) (mark_departed now actor)
unfolding mark_departed
departure-Writes now actor s db a db' h = ground arith

pub counter-Writes :
    (organization channel : ℕ)
    → Writes
        (λ db db'. db' ≡ record db { channels = db'.channels })
        (advance_counter organization channel)
unfolding advance_counter
counter-Writes organization channel s db a db' h = ground arith

pub message-Writes :
    (row : StoredMessage)
    → Writes (λ db db'. db' ≡ record db { messages = db'.messages }) (insert_message row)
unfolding insert_message
message-Writes row s db a db' h = ground arith

pub member_update-Writes :
    (organization actor : ℕ) (set : OrganizationMember → OrganizationMember)
    → Writes
        (λ db db'. db' ≡ record db { organization_members = db'.organization_members })
        (update_member organization actor set)
unfolding update_member
member_update-Writes organization actor set s db a db' h = ground arith

pub user_removal-Writes :
    (actor : ℕ)
    → Writes
        (λ db db'. db' ≡ record db { users = db'.users; sessions = db'.sessions })
        (delete_user actor)
unfolding delete_user
user_removal-Writes actor s db a db' h = ground arith
