-- ===== src/Operations/Calls.antt =====
-- The operations of crates/db that change what is stored, as one type of calls, and histories of
-- calls, one transaction after the other, each under its own `Server`. The requests of crates/app
-- arrive at these.
pub mod Invariants
pub mod AuditTrail
pub mod WellFormed
pub mod Integrity
use fukulow.Common.{ℕ, String, Bool, Option, List, [], ◌∷◌}
use fukulow.Common.Int.{ℤ}
use fukulow.Domain.OrganizationRole.{OrganizationRole}
use fukulow.Domain.TeamRole.{TeamRole}
use fukulow.Domain.Identifiers.{ChannelScope, MessageId, UuidCrate}
use fukulow.Db.Schema.{Db}
use fukulow.Db.Transaction.{Server, run}
use fukulow.Operations.Membership
use fukulow.Operations.Teams
use fukulow.Operations.Channels
use fukulow.Operations.Messages
use fukulow.Operations.Identity
use fukulow.Operations.Invites
use fukulow.Operations.Sessions
use fukulow.Operations.Leaving

pub data Call : Type 0 where
  create_organization : ℕ → String → String → Call
  change_member_role : ℕ → ℕ → ℕ → OrganizationRole → Call
  suspend_member reactivate_member : ℕ → ℕ → ℕ → Call
  create_team : ℕ → ℕ → String → Call
  add_team_member change_team_member_role : ℕ → ℕ → ℕ → ℕ → TeamRole → Call
  remove_team_member : ℕ → ℕ → ℕ → ℕ → Call
  create_channel : ℕ → ℕ → ChannelScope → String → Call
  add_channel_member : ℕ → ℕ → ℕ → ℕ → Call
  post_message : ℕ → ℕ → ℕ → MessageId → String → Call
  create_invite : ℕ → ℕ → Option (String × String) → ℕ → ℤ → Call
  revoke_invite : ℕ → ℕ → Option ℕ → Call
  accept_invite : String → String → String → String → Call
  sign_in : String → (String → Option Bool) → Option (String × String) → ℕ → Call
  revoke_session : ℕ → String → Call
  leave_service : ℕ → Call

module _ (uuid : UuidCrate) where
  unfoldable pub step : Server → Call → Db → Db
  step server (create_organization by name slug) db =
      (run (Identity.create_organization server by name slug) db).1
  step server (change_member_role by organization actor role) db =
      (run (Membership.change_member_role server by organization actor role) db).1
  step server (suspend_member by organization actor) db =
      (run (Membership.suspend_member server by organization actor) db).1
  step server (reactivate_member by organization actor) db =
      (run (Membership.reactivate_member server by organization actor) db).1
  step server (create_team by organization name) db =
      (run (Teams.create_team server by organization name) db).1
  step server (add_team_member by organization team actor role) db =
      (run (Teams.add_team_member server by organization team actor role) db).1
  step server (change_team_member_role by organization team actor role) db =
      (run (Teams.change_team_member_role server by organization team actor role) db).1
  step server (remove_team_member by organization team actor) db =
      (run (Teams.remove_team_member server by organization team actor) db).1
  step server (create_channel by organization scope name) db =
      (run (Channels.create_channel server by organization scope name) db).1
  step server (add_channel_member by organization channel actor) db =
      (run (Channels.add_channel_member server by organization channel actor) db).1
  step server (post_message organization channel sender id body) db =
      (run (Messages.post_message uuid server organization channel sender id body) db).1
  step server (create_invite by organization token expires_at max_uses) db =
      (run (Invites.create_invite server by organization token expires_at max_uses) db).1
  step server (revoke_invite by organization invite) db =
      (run (Invites.revoke_invite server by organization invite) db).1
  step server (accept_invite token_hash email password_hash display_name) db =
      (run (Invites.accept_invite server token_hash email password_hash display_name) db).1
  step server (sign_in email verify token expires_at) db =
      (run (Sessions.sign_in server email verify token expires_at (λ d. d)) db).1
  step server (revoke_session actor token_hash) db =
      (run (Sessions.revoke_session server actor token_hash) db).1
  step server (leave_service actor) db = (run (Leaving.leave_service server actor) db).1

  unfoldable pub run_history : List (Server × Call) → Db → Db
  run_history [] db = db
  run_history ((server, call) ∷ rest) db = run_history rest (step server call db)
