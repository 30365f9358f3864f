-- ===== src/Runs.antt =====
-- Runs of the operations of crates/db/src/operations/ on the concrete tables.
use fukulow.Common.{◌≡◌, refl, str_eq}
use fukulow.Domain.OrganizationRole
use fukulow.Domain.MemberStatus
use fukulow.Domain.Owners
use fukulow.Db.Policies.{
  active_in, sees_member, sees_organization, sees_actor, sees_message, may_insert_audit,
  may_update_member, may_insert_member, used_here, sees_channel, sees_invite, sees_user,
  has_members, sees_team_member, sees_channel_member,
}
use fukulow.Db.Transaction.{
  run, ok, begin, set_context, fetch, execute, execute_or, commit, ok_or, refuse_if, pure, fail,
  ◌>>=◌,
}
use fukulow.Audit.{write, insert_audit}
use fukulow.Operations.Support.{
  organization_row, departed_row, member_row, owner_rows, lock_actor, lock_organization,
  active_owners,
}
use fukulow.Operations.Membership.{
  suspend_member, reactivate_member, update_member, member, decode, guard_owner,
}
use fukulow.Common.{ℕ, ◌+◌, ◌*◌, String, some, true, [], ◌∷◌}
use fukulow.Common.Int.{pos}
use fukulow.Common.Order.{sort_by, take}
use fukulow.Domain.Identifiers
use fukulow.Domain.InviteKind
use fukulow.Common.Characters.{char_count}
use fukulow.Db.Transaction.{now_v7}
use fukulow.Operations.Channels.{channel_row}
use fukulow.Operations.Messages.{
  Message, messages_before, messages_after, rows_before, rows_after, collect, posted, post_message,
  settle_post, try_from, advance_counter, insert_message,
}
use fukulow.Operations.Sessions.{
  revoke_session, revoke_sessions, sign_in, wait, is_person, email_row, insert_session,
}
use fukulow.Operations.Identity.{create_person, insert_actor, insert_user, insert_member}
use fukulow.Operations.Invites.{accept_invite, update_invites, accepts_new_person, map_err}
use fukulow.Operations.Leaving.{
  leave_service, depart, actor_row, active_organizations, check_owners, memberships,
  channel_organizations, leave_memberships, leave_organization, delete_team_rows, write_removals,
  write_left, leave_all_channels, leave_channels, mark_left, delete_user, mark_departed,
}
use fukulow.Tests.{
  calm, tables, invited_tables, suspended_tables, spoken_tables, fourth, hello, uuid_crate,
}

-- The owner 1 suspends the owner 2.
suspension_runs : (run (suspend_member calm 1 10 2) tables).0 ≡ ok tt
unfolding run suspend_member str_eq active_in sees_member sees_organization sees_actor
    may_insert_audit begin set_context fetch execute execute_or commit ok_or refuse_if pure fail
    ◌>>=◌ write insert_audit organization_row departed_row member_row owner_rows lock_actor
    lock_organization active_owners update_member member decode guard_owner OrganizationRole.parse
    MemberStatus.parse Owners.check_owner_change may_update_member
suspension_runs = refl

-- The owner 1 lets the suspended member 2 in again.
reactivation_runs : (run (reactivate_member calm 1 10 2) suspended_tables).0 ≡ ok tt
unfolding run reactivate_member str_eq active_in sees_member sees_organization sees_actor
    may_insert_audit begin set_context fetch execute execute_or commit ok_or refuse_if pure fail
    ◌>>=◌ write insert_audit organization_row departed_row member_row owner_rows lock_actor
    lock_organization active_owners update_member member decode guard_owner OrganizationRole.parse
    MemberStatus.parse Owners.check_owner_change may_update_member
reactivation_runs = refl

abbrev read_as : ℕ → Message
read_as seq = record {
  id = record { value = 500 + 10 * 40 + seq };
  channel_id = 40;
  channel_seq = record { value = pos seq };
  sender_actor_id = 3;
  body = "Hello";
  created_at = 90;
}

-- The member 3 reads the last two messages before the fourth, and the first one of all.
page_before_runs :
    (run (messages_before uuid_crate calm 3 10 40 (some fourth) 2) spoken_tables).0
    ≡ ok (read_as 3 ∷ read_as 2 ∷ [])
unfolding run str_eq active_in begin set_context fetch commit ok_or refuse_if pure ◌>>=◌
    messages_before channel_row rows_before take sort_by collect try_from Identifiers.from_client
    Identifiers.new sees_channel sees_message
page_before_runs = refl

page_after_runs :
    (run (messages_after uuid_crate calm 3 10 40 Identifiers.beginning 0) spoken_tables).0
    ≡ ok (read_as 1 ∷ [])
unfolding run str_eq active_in begin set_context fetch commit ok_or refuse_if pure ◌>>=◌
    messages_after channel_row rows_after take sort_by collect try_from Identifiers.from_client
    Identifiers.new sees_channel sees_message
page_after_runs = refl

-- The member 3 posts, under the number after 5.
post_runs :
    (run (post_message uuid_crate calm 10 40 3 hello "Hello") tables).0
    ≡ ok (
        posted (record {
          id = hello;
          channel_id = 40;
          channel_seq = record { value = pos 6 };
          sender_actor_id = 3;
          body = "Hello";
          created_at = 100;
        }))
unfolding run str_eq active_in begin set_context fetch execute execute_or commit ok_or refuse_if
    pure fail ◌>>=◌ post_message settle_post try_from advance_counter insert_message
    Identifiers.from_client Identifiers.new sees_channel char_count
post_runs = refl

-- The actor 1 signs out, and in again.
sign_out_runs : (run (revoke_session calm 1 "t") tables).0 ≡ ok tt
unfolding run str_eq active_in begin set_context fetch execute execute_or commit ok_or refuse_if
    pure fail ◌>>=◌ revoke_session revoke_sessions
sign_out_runs = refl

sign_in_runs :
    (run
      (sign_in calm {T = String} "a@example.org"
        (λ h. some true)
        (some ("secret", "n"))
        300
        (λ d. d))
      tables).0
    ≡ ok (1, "secret")
unfolding run str_eq active_in begin set_context fetch execute execute_or commit ok_or refuse_if
    pure fail ◌>>=◌ sign_in wait now_v7 lock_actor departed_row is_person email_row insert_session
    sees_user sees_actor sees_member
sign_in_runs = refl

-- A new person comes in by the invite.
acceptance_runs :
    (run (accept_invite calm "i" "d@example.org" "h" "Dee") invited_tables).0 ≡ ok (1004, 10)
unfolding run str_eq active_in begin set_context fetch execute execute_or commit ok_or refuse_if
    pure fail ◌>>=◌ accept_invite update_invites accepts_new_person map_err create_person now_v7
    insert_actor insert_user insert_member write insert_audit may_insert_audit may_insert_member
    used_here sees_invite has_members InviteKind.parse
acceptance_runs = refl

-- The owner 1 leaves, since the owner 2 remains.
departure_runs : (run (leave_service calm 1) tables).0 ≡ ok tt
unfolding run str_eq active_in begin set_context fetch execute execute_or commit ok_or refuse_if
    pure fail ◌>>=◌ leave_service depart actor_row active_organizations check_owners active_owners
    owner_rows memberships channel_organizations leave_memberships leave_organization
    delete_team_rows write_removals write_left leave_all_channels leave_channels mark_left
    delete_user mark_departed write insert_audit may_insert_audit update_member may_update_member
    sees_member sees_organization sees_actor sort_by MemberStatus.parse Owners.check_owner_change
    sees_team_member sees_channel_member
departure_runs = refl
