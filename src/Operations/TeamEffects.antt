-- ===== src/Operations/TeamEffects.antt =====
-- What adding a member to a team has checked, and what it changes.
use fukulow.Common.{ℕ, ◌≡◌, refl, true, false, some, insert, arith, is_some}
use fukulow.Domain.MemberStatus
use fukulow.Domain.MemberStatus.{MemberStatus}
use fukulow.Domain.TeamRole
use fukulow.Domain.TeamRole.{TeamRole}
use fukulow.Db.Schema.{Db, OrganizationMember, TeamMember}
use fukulow.Db.Policies.{active_in}
use fukulow.Db.Transaction.{Server, opened}
use fukulow.Db.Steps.{
  Ensures, begin-then, fetch-then, refuse_if-then, ok_or-then, execute_or-then, commit-ends,
}
use fukulow.Audit.{team_member_added, audit_row}
use fukulow.Audit.Steps.{with_audit, write-then}
use fukulow.Operations.Facts.{insert_team_member-ok}
use fukulow.Operations.Support.{departed_row, member_row, lock_actor, lock_organization}
use fukulow.Operations.Support.Visibility.{acting, organization_row-active}
use fukulow.Operations.Membership.{is_true}
use fukulow.Operations.Membership.Steps.{same_status→eq}
use fukulow.Operations.Teams.{add_team_member, team_row}

abbrev pub team_member : ℕ → ℕ → ℕ → TeamRole → TeamMember
team_member organization team actor role = record {
  team_id = team;
  actor_id = actor;
  organization_id = organization;
  role = TeamRole.as_str role;
}

abbrev pub Joined : ℕ → ℕ → ℕ → ℕ → TeamRole → Db → Db → Type 0
Joined performed_by organization team actor role db db' =
    (row : OrganizationMember) × (id : ℕ) × (active_in (acting performed_by) db organization ≡ true)
    × (is_some (team_row organization team (acting performed_by) db) ≡ true)
    × (member_row organization actor (acting performed_by) db ≡ some row)
    × (MemberStatus.parse row.status ≡ some MemberStatus.active)
    × (is_true (departed_row actor performed_by (acting performed_by) db) ≡ false)
    × (db'
        ≡ with_audit
            (record db {
              team_members = insert (team_member organization team actor role) db.team_members;
            })
            (audit_row id (team_member_added actor team role) organization performed_by))

-- When adding a member to a team succeeds: the performer is an active member of the organization,
-- the team is one of the organization, the actor is an active member there who is not seen to have left the
-- service, the row of the team member is added, and exactly that event is recorded. Nothing else
-- changes.
pub add_team_member-Joined :
    (server : Server) (performed_by organization team actor : ℕ) (role : TeamRole) (db : Db)
    → Ensures
        (λ _ t. Joined performed_by organization team actor role db t.stored)
        (add_team_member server performed_by organization team actor role (opened db))
unfolding add_team_member lock_actor lock_organization
add_team_member-Joined server performed_by organization team actor role db =
    begin-then server _ _ _ _ λ _. fetch-then server _ _ _ _ λ _. fetch-then server _ _ _ _ λ _.
      refuse_if-then _ _ _ _ _ λ visible. fetch-then server _ _ _ _ λ _.
        fetch-then server _ _ _ _ λ _. refuse_if-then _ _ _ _ _ λ team_seen.
          ok_or-then _ _ _ _ _ λ row found. refuse_if-then _ _ _ _ _ λ here.
            ok_or-then _ _ _ _ _ λ status read. refuse_if-then _ _ _ _ _ λ active.
              execute_or-then server _ _ _ _ _ λ _ u db' done.
                write-then server _ _ _ _ _ _ λ _ id _. commit-ends server _ _ _ λ _. (
                  row,
                  id,
                  organization_row-active organization (acting performed_by) db (ground arith),
                  ground (arith, team_seen),
                  found,
                  rw (same_status→eq status MemberStatus.active (ground arith)) at read,
                  here,
                  rw (insert_team_member-ok (acting performed_by) db db' _ u done).1 refl,
                )
