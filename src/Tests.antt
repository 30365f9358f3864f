-- ===== src/Tests.antt =====
-- Concrete tables for crates/db, and a history of calls on them.
use fukulow.Common.{ℕ, ◌+◌, ◌*◌, refl, false, String, none, some, List, [], ◌∷◌, ◌==◌}
use fukulow.Common.Int.{pos}
use fukulow.Domain.Identifiers
use fukulow.Domain.Identifiers.{UuidCrate, MessageId, ChannelSeq}
use fukulow.Domain.OrganizationRole
use fukulow.Db.Schema.{Db, Actor, OrganizationMember, StoredMessage}
use fukulow.Db.Transaction.{Server}
use fukulow.Operations.Calls
use fukulow.Operations.Calls.{Call, step, run_history}
use fukulow.Operations.Calls.WellFormed.{IsWellFormed}

abbrev pub uuid_crate : UuidCrate
uuid_crate = record {
  get_version = λ u. some Identifiers.sort_rand;
  get_variant = λ u. Identifiers.rfc4122;
}

-- A server on which every statement runs.
abbrev pub calm : Server
calm = record { fails = λ n. false; now = 100; xact = 7; new_id = λ n. 1000 + n; lower = λ s. s }

-- One whose fifth statement fails.
abbrev broken : Server
broken = record calm { fails = λ n. n == 4 }

abbrev person : ℕ → Actor
person id = record { id = id; actor_type = "human"; display_name = none; deleted_at = none }

abbrev listed : ℕ → String → OrganizationMember
listed actor role = record {
  organization_id = 10;
  actor_id = actor;
  role = role;
  status = "active";
  display_name = none;
}

-- The organization 10 with the owners 1 and 2 and the member 3; the actor 4 is no member.
abbrev pub tables : Db
tables = record {
  actors = person 1 ∷ person 2 ∷ person 3 ∷ person 4 ∷ [];
  users = record { actor_id = 1; email = "a@example.org"; password_hash = "h" } ∷ [];
  organizations = record { id = 10; name = "Ten"; slug = "ten" } ∷ [];
  organization_members = listed 1 "owner" ∷ listed 2 "owner" ∷ listed 3 "member" ∷ [];
  teams = record { id = 20; organization_id = 10; name = "Team" } ∷ [];
  team_members = record { team_id = 20; actor_id = 3; organization_id = 10; role = "member" } ∷ [];
  invites = [];
  sessions =
      record { id = 30; actor_id = 1; token_hash = "t"; expires_at = 200; revoked_at = none } ∷ [];
  channels =
      record {
        id = 40;
        organization_id = 10;
        team_id = none;
        scope = "organization";
        name = "general";
        next_message_seq = 5;
      }
      ∷ [];
  channel_members = [];
  messages = [];
  audit_events = [];
}

pub tables-IsWellFormed : IsWellFormed tables
tables-IsWellFormed = record {
  members = (refl, (refl, (refl, tt)));
  within = (refl, (refl, (refl, tt)));
  uses = tt;
  holders = (refl, tt);
  enrolled = (refl, tt);
}

-- An invite under the hash "i".
abbrev pub invited_tables : Db
invited_tables = record tables {
  invites =
      record {
        id = 60;
        organization_id = 10;
        kind = "organization";
        target_team_id = none;
        token_hash = "i";
        expires_at = 200;
        max_uses = 2;
        used_count = 1;
        revoked_at = none;
        created_by_actor_id = 1;
        xmin = 3;
      }
      ∷ [];
}

-- The member 2 is a suspended one.
abbrev pub suspended_tables : Db
suspended_tables = record tables {
  organization_members =
      listed 1 "owner"
      ∷ (record (listed 2 "owner") { status = "suspended" })
      ∷ listed 3 "member"
      ∷ [];
}

abbrev pub stored : ℕ → ℕ → StoredMessage
stored channel seq = record {
  id = 500 + 10 * channel + seq;
  organization_id = 10;
  channel_id = channel;
  channel_seq = seq;
  sender_actor_id = 3;
  body = "Hello";
  created_at = 90;
}

-- Messages of the channel 40, and one of another channel.
abbrev pub spoken_tables : Db
spoken_tables = record tables {
  messages = stored 40 1 ∷ stored 40 3 ∷ stored 41 2 ∷ stored 40 2 ∷ stored 40 4 ∷ [];
}

-- The owner 1 suspends the owner 2, the member 3 becomes an owner, and the owner 1 leaves.
abbrev pub history : List (Server × Call)
history =
    (calm, Calls.suspend_member 1 10 2)
    ∷ (calm, Calls.change_member_role 1 10 3 OrganizationRole.owner)
    ∷ (broken, Calls.create_team 1 10 "Second")
    ∷ (calm, Calls.leave_service 1)
    ∷ []

abbrev pub hello : MessageId
hello = record { value = 50 }

abbrev pub fourth : ChannelSeq
fourth = record { value = pos 4 }
