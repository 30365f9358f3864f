-- ===== src/Examples.antt =====
-- The theorems on crates/domain and crates/db at the concrete tables.
use fukulow.Common.{any, ◌↔◌, ℕ, ◌≡◌, refl, true, false, String, none, some, [], ◌∷◌, str_eq}
use mathlib.Core.List.{Mem}
use fukulow.Domain.Identifiers
use fukulow.Domain.Identifiers.{UuidCrate, MessageId}
use fukulow.Domain.OrganizationRole
use fukulow.Domain.MemberStatus
use fukulow.Domain.Owners
use fukulow.Db.Policies.{active_in}
use fukulow.Db.Transaction.{OperationError, opened, run, err}
use fukulow.Db.Steps.{Ensures}
use fukulow.Operations.Support.Visibility.{acting}
use fukulow.Operations.Membership.{
  SuspendMemberError, suspend_member, reactivate_member, change_member_role,
}
use fukulow.Operations.Membership.Effects.{
  Suspended, Reactivated, RoleChanged, suspend_member-Suspended, reactivate_member-Reactivated,
  change_member_role-RoleChanged,
}
use fukulow.Operations.Membership.SelfSuspension.{suspend_member_self}
use fukulow.Operations.Messages.{
  post_message, MessagesBeforeError, MessagesAfterError, messages_before, messages_after,
}
use fukulow.Operations.Reading.{active_in-messages}
use fukulow.Operations.Reading.Picks.{IsBefore, IsAfter, Newer, Older}
use fukulow.Operations.Reading.Pages.{Lists, messages_before-Lists, messages_after-Lists}
use fukulow.Operations.Sessions.{revoke_session, is_session, sign_in}
use fukulow.Operations.Revocation.{is_live, revoke_session-sessions}
use fukulow.Operations.SigningIn.{SignedIn, sign_in-SignedIn}
use fukulow.Operations.Invites.{accept_invite}
use fukulow.Operations.Identity.{create_organization}
use fukulow.Operations.Founding.{Founded, create_organization-Founded}
use fukulow.Domain.TeamRole
use fukulow.Operations.Teams.{add_team_member}
use fukulow.Operations.TeamEffects.{Joined, add_team_member-Joined}
use fukulow.Operations.Acceptance.{Accepted, accept_invite-Accepted}
use fukulow.Operations.Posting.{Posted, post_message-Posted}
use fukulow.Operations.Owners.Rows.{has_owner}
use fukulow.Operations.Owners.History.{has_owner-run_history}
use fukulow.Operations.Tenancy.{is_outsider-step}
use fukulow.Operations.Calls.AuditTrail.{Extends, audit_events-Extends}
use fukulow.Operations.Calls.Integrity.{IsWellFormed-run_history}
use fukulow.Operations.Calls
use fukulow.Operations.Calls.{Call, step, run_history}
use fukulow.Operations.Calls.WellFormed.{IsWellFormed}
use fukulow.Tests.{
  uuid_crate, calm, tables, invited_tables, suspended_tables, spoken_tables, tables-IsWellFormed,
  history, hello, fourth,
}

has_owner-run_history_example : has_owner (run_history uuid_crate history tables) 10 ≡ true
unfolding str_eq
has_owner-run_history_example =
    has_owner-run_history uuid_crate 10 history tables tables-IsWellFormed refl

outsider : active_in (acting 4) tables 10 ≡ false
unfolding active_in str_eq
outsider = refl

is_outsider-step_example : step uuid_crate calm (Calls.suspend_member 4 10 2) tables ≡ tables
is_outsider-step_example =
    is_outsider-step uuid_crate calm (Calls.suspend_member 4 10 2) tables (rw outsider refl)

audit_events-Extends_example : Extends tables.audit_events (run_history uuid_crate history tables)
audit_events-Extends_example = audit_events-Extends uuid_crate history tables

IsWellFormed-run_history_example : IsWellFormed (run_history uuid_crate history tables)
IsWellFormed-run_history_example =
    IsWellFormed-run_history uuid_crate history tables tables-IsWellFormed

suspend_member-Suspended_example :
    Ensures (λ _ t. Suspended 1 10 2 tables t.stored) (suspend_member calm 1 10 2 (opened tables))
suspend_member-Suspended_example = suspend_member-Suspended calm 1 10 2 tables

reactivate_member-Reactivated_example :
    Ensures
      (λ _ t. Reactivated 1 10 2 suspended_tables t.stored)
      (reactivate_member calm 1 10 2 (opened suspended_tables))
reactivate_member-Reactivated_example = reactivate_member-Reactivated calm 1 10 2 suspended_tables

change_member_role-RoleChanged_example :
    Ensures
      (λ _ t. RoleChanged 1 10 3 OrganizationRole.owner tables t.stored)
      (change_member_role calm 1 10 3 OrganizationRole.owner (opened tables))
change_member_role-RoleChanged_example =
    change_member_role-RoleChanged calm 1 10 3 OrganizationRole.owner tables

suspend_member_self_example :
    (e : OperationError SuspendMemberError) × (run (suspend_member calm 1 10 1) tables
      ≡ (err e, tables))
suspend_member_self_example = suspend_member_self calm 10 1 tables

post_message-Posted_example :
    Ensures
      (λ p t. Posted uuid_crate calm 10 40 3 hello "Hello" tables p t.stored)
      (post_message uuid_crate calm 10 40 3 hello "Hello" (opened tables))
post_message-Posted_example = post_message-Posted uuid_crate calm 10 40 3 hello "Hello" tables

check_owner_change-Mem_example :
    (owner : ℕ) × Mem owner (1 ∷ 2 ∷ []) × ¬ (owner ≡ Owners.subject (Owners.suspend 1))
unfolding Owners.check_owner_change
check_owner_change-Mem_example = Owners.check_owner_change-Mem (1 ∷ 2 ∷ []) (Owners.suspend 1) refl

organization_role_iff_example :
    (OrganizationRole.parse "admin" ≡ some OrganizationRole.admin)
    ↔ ("admin" ≡ OrganizationRole.as_str OrganizationRole.admin)
organization_role_iff_example =
    OrganizationRole.organization_role_iff "admin" OrganizationRole.admin

member_status_iff_example :
    (MemberStatus.parse "gone" ≡ some MemberStatus.left)
    ↔ ("gone" ≡ MemberStatus.as_str MemberStatus.left)
member_status_iff_example = MemberStatus.member_status_iff "gone" MemberStatus.left

active_in-messages_example :
    ((e : OperationError MessagesBeforeError) × (run
          (messages_before uuid_crate calm 4 10 40 none 50)
          tables
        ≡ (err e, tables)))
    × ((e : OperationError MessagesAfterError) × (run
            (messages_after uuid_crate calm 4 10 40 Identifiers.beginning 50)
            tables
          ≡ (err e, tables)))
active_in-messages_example =
    active_in-messages uuid_crate calm 4 10 40 none Identifiers.beginning 50 tables outsider

messages_before-Lists_example :
    Ensures
      (λ ms t.
        Lists uuid_crate 3 10 40 (IsBefore (some fourth)) Newer 2 spoken_tables ms
        × (t.stored ≡ spoken_tables))
      (messages_before uuid_crate calm 3 10 40 (some fourth) 2 (opened spoken_tables))
messages_before-Lists_example =
    messages_before-Lists uuid_crate calm 3 10 40 (some fourth) 2 spoken_tables

messages_after-Lists_example :
    Ensures
      (λ ms t.
        Lists uuid_crate 3 10 40 (IsAfter Identifiers.beginning) Older 0 spoken_tables ms
        × (t.stored ≡ spoken_tables))
      (messages_after uuid_crate calm 3 10 40 Identifiers.beginning 0 (opened spoken_tables))
messages_after-Lists_example =
    messages_after-Lists uuid_crate calm 3 10 40 Identifiers.beginning 0 spoken_tables

revoke_session-sessions_example :
    Ensures
      (λ _ t.
        (any (is_session 1 "t") tables.sessions ≡ true)
        × (any (is_live 1 "t") t.stored.sessions ≡ false)
        × (t.stored ≡ record tables { sessions = t.stored.sessions }))
      (revoke_session calm 1 "t" (opened tables))
revoke_session-sessions_example = revoke_session-sessions calm 1 "t" tables

accept_invite-Accepted_example :
    Ensures
      (λ r t. Accepted calm "i" "d@example.org" "h" "Dee" invited_tables r t.stored)
      (accept_invite calm "i" "d@example.org" "h" "Dee" (opened invited_tables))
accept_invite-Accepted_example =
    accept_invite-Accepted calm "i" "d@example.org" "h" "Dee" invited_tables

sign_in-SignedIn_example :
    Ensures
      (λ r t.
        SignedIn calm {T = String} "a@example.org"
          (λ h. some true)
          (some ("secret", "n"))
          300
          (λ d. d)
          tables
          r
          t.stored)
      (sign_in calm {T = String} "a@example.org"
        (λ h. some true)
        (some ("secret", "n"))
        300
        (λ d. d)
        (opened tables))
sign_in-SignedIn_example =
    sign_in-SignedIn calm {T = String} "a@example.org" (λ h. some true) (some ("secret", "n")) 300
      (λ d. d) tables

create_organization-Founded_example :
    Ensures
      (λ organization t. Founded 4 "New" "new" tables organization t.stored)
      (create_organization calm 4 "New" "new" (opened tables))
create_organization-Founded_example = create_organization-Founded calm 4 "New" "new" tables

add_team_member-Joined_example :
    Ensures
      (λ _ t. Joined 1 10 20 2 TeamRole.manager tables t.stored)
      (add_team_member calm 1 10 20 2 TeamRole.manager (opened tables))
add_team_member-Joined_example = add_team_member-Joined calm 1 10 20 2 TeamRole.manager tables
