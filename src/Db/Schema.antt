-- ===== src/Db/Schema.antt =====
-- The tables of migrations/, with the constraints that the operations meet, as rows in insertion
-- order. `created_at` columns are left out but for messages, which are read back with theirs. A
-- timestamp is a number, a `uuid` is a number, and an integer column that a CHECK keeps at zero or
-- above is a natural number. `xmin` is PostgreSQL's column with the transaction that wrote the row,
-- which a policy on invites reads.
use fukulow.Common.{ℕ, String, Option, List}

pub record Actor : Type 0 where
  pub id : ℕ
  pub actor_type : String
  pub display_name : Option String
  pub deleted_at : Option ℕ

pub record User : Type 0 where
  pub actor_id : ℕ
  pub email : String
  pub password_hash : String

pub record Organization : Type 0 where
  pub id : ℕ
  pub name : String
  pub slug : String

pub record OrganizationMember : Type 0 where
  pub organization_id : ℕ
  pub actor_id : ℕ
  pub role : String
  pub status : String
  pub display_name : Option String

pub record Team : Type 0 where
  pub id : ℕ
  pub organization_id : ℕ
  pub name : String

pub record TeamMember : Type 0 where
  pub team_id : ℕ
  pub actor_id : ℕ
  pub organization_id : ℕ
  pub role : String

pub record Invite : Type 0 where
  pub id : ℕ
  pub organization_id : ℕ
  pub kind : String
  pub target_team_id : Option ℕ
  pub token_hash : String
  pub expires_at : ℕ
  pub max_uses : ℕ
  pub used_count : ℕ
  pub revoked_at : Option ℕ
  pub created_by_actor_id : ℕ
  pub xmin : ℕ

pub record Session : Type 0 where
  pub id : ℕ
  pub actor_id : ℕ
  pub token_hash : String
  pub expires_at : ℕ
  pub revoked_at : Option ℕ

pub record Channel : Type 0 where
  pub id : ℕ
  pub organization_id : ℕ
  pub team_id : Option ℕ
  pub scope : String
  pub name : String
  pub next_message_seq : ℕ

pub record ChannelMember : Type 0 where
  pub channel_id : ℕ
  pub channel_scope : String
  pub organization_id : ℕ
  pub actor_id : ℕ

pub record StoredMessage : Type 0 where
  pub id : ℕ
  pub organization_id : ℕ
  pub channel_id : ℕ
  pub channel_seq : ℕ
  pub sender_actor_id : ℕ
  pub body : String
  pub created_at : ℕ

-- A value of the JSON object in `audit_events.metadata`.
pub data Field : Type 0 where
  uuid : ℕ → Field
  text : String → Field
  number : ℕ → Field

abbrev pub Metadata : Type 0
Metadata = List (String × Field)

pub record AuditEvent : Type 0 where
  pub id : ℕ
  pub organization_id : ℕ
  pub actor_id : ℕ
  pub action : String
  pub target_type : String
  pub target_id : ℕ
  pub metadata : Metadata

pub record Db : Type 0 where
  pub actors : List Actor
  pub users : List User
  pub organizations : List Organization
  pub organization_members : List OrganizationMember
  pub teams : List Team
  pub team_members : List TeamMember
  pub invites : List Invite
  pub sessions : List Session
  pub channels : List Channel
  pub channel_members : List ChannelMember
  pub messages : List StoredMessage
  pub audit_events : List AuditEvent
