-- ===== src/Operations/Teams.antt =====
-- crates/db/src/operations/teams.rs
use fukulow.Common.{
  ℕ, String, Bool, true, false, ◌&&◌, not, Option, [], ◌∷◌, ◌==◌, if◌then◌else◌, is_some, find, any,
  update, delete, insert,
}
use fukulow.Domain.MemberStatus
use fukulow.Domain.MemberStatus.{MemberStatus}
use fukulow.Domain.TeamRole
use fukulow.Domain.TeamRole.{TeamRole}
use fukulow.Db.Schema.{Team, TeamMember, Db}
use fukulow.Db.Context
use fukulow.Db.Context.{Settings}
use fukulow.Db.Policies.{active_in, sees_team, sees_team_member, updates_team_member}
use fukulow.Db.Transaction.{
  Server, M, ◌>>=◌, ◌>>◌, pure, ok_or, refuse_if, Statement, ok, SqlError, OperationError, refused,
  database, protocol, denied, violates, constraint, fetch, execute, execute_or, begin, commit,
  all_pass, now_v7,
}
use fukulow.Audit.{
  removed, team_created, team_member_added, team_member_role_changed, team_member_removed, write,
}
use fukulow.Operations.Support.{member_row, lock_organization, for_update, lock_actor}
use fukulow.Operations.Membership.{is_true, same_status}

pub data CreateTeamError : Type 0 where
  not_found : CreateTeamError

pub data AddTeamMemberError : Type 0 where
  not_found not_an_active_member already_member actor_departed : AddTeamMemberError

pub data ChangeTeamMemberRoleError : Type 0 where
  not_found : ChangeTeamMemberRoleError

pub data RemoveTeamMemberError : Type 0 where
  not_found : RemoveTeamMemberError

-- INSERT INTO teams (id, organization_id, name)
unfoldable pub insert_team : Team → Statement Unit
insert_team row settings db =
    all_pass
      ((active_in settings db row.organization_id, denied)
        ∷ (not (any (λ t. t.id == row.id) db.teams), violates "teams_pkey")
        ∷ (
          any (λ o. o.id == row.organization_id) db.organizations,
          violates "teams_organization_id_fkey",
        )
        ∷ [])
      (tt, record db { teams = insert row db.teams })

-- SELECT id FROM teams WHERE organization_id = $1 AND id = $2
unfoldable pub team_row : ℕ → ℕ → Settings → Db → Option Team
team_row organization team s db =
    find (λ t. sees_team s db t && (t.organization_id == organization && t.id == team)) db.teams

abbrev pub in_team : ℕ → ℕ → ℕ → TeamMember → Bool
in_team organization team actor m =
    m.organization_id == organization && m.team_id == team && m.actor_id == actor

-- INSERT INTO team_members (team_id, actor_id, organization_id, role)
unfoldable pub insert_team_member : TeamMember → Statement Unit
insert_team_member row settings db =
    all_pass
      ((active_in settings db row.organization_id, denied)
        ∷ (
          not (any (λ m. m.team_id == row.team_id && m.actor_id == row.actor_id) db.team_members),
          violates "team_members_pkey",
        )
        ∷ (any (λ a. a.id == row.actor_id) db.actors, violates "team_members_actor_id_fkey")
        ∷ (
          any (λ o. o.id == row.organization_id) db.organizations,
          violates "team_members_organization_id_fkey",
        )
        ∷ (
          any (λ t. t.id == row.team_id && t.organization_id == row.organization_id) db.teams,
          violates "team_members_team_id_organization_id_fkey",
        )
        ∷ (
          any (λ m. m.organization_id == row.organization_id && m.actor_id == row.actor_id)
              db.organization_members,
          violates "team_members_organization_id_actor_id_fkey",
        )
        ∷ [])
      (tt, record db { team_members = insert row db.team_members })

-- SELECT role FROM team_members WHERE organization_id = $1 AND team_id = $2 AND actor_id = $3
unfoldable pub team_member_row : ℕ → ℕ → ℕ → Settings → Db → Option TeamMember
team_member_row organization team actor s db =
    find (λ m. sees_team_member s db m && in_team organization team actor m) db.team_members

-- UPDATE team_members SET role = $4 WHERE …; a row is updated if both policies show it.
unfoldable pub update_team_role : ℕ → ℕ → ℕ → String → Statement Unit
update_team_role organization team actor role s db = ok (
  tt,
  record db {
    team_members =
        update (λ m. updates_team_member s db m && in_team organization team actor m)
          (λ m. record m { role = role }) db.team_members;
  },
)

-- DELETE FROM team_members WHERE …, with `rows_affected() == 0`
unfoldable pub delete_team_member : ℕ → ℕ → ℕ → Statement Bool
delete_team_member organization team actor s db = ok (
  not (any (λ m. sees_team_member s db m && in_team organization team actor m) db.team_members),
  record db {
    team_members =
        delete (λ m. sees_team_member s db m && in_team organization team actor m) db.team_members;
  },
)

abbrev same_team_role : TeamRole → TeamRole → Bool
same_team_role TeamRole.manager TeamRole.manager = true
same_team_role TeamRole.member TeamRole.member = true
same_team_role _ _ = false

abbrev pub already_member_error : SqlError → OperationError AddTeamMemberError
already_member_error e =
    if constraint e "team_members_pkey" then refused already_member else database e

module _ (server : Server) where
  unfoldable pub create_team : ℕ → ℕ → String → M CreateTeamError ℕ
  create_team performed_by organization name = do
    begin server (Context.actor performed_by)
    lock_actor server performed_by performed_by
    found ← lock_organization server organization for_update
    refuse_if (not found) not_found
    team ← now_v7 server
    execute server (insert_team (record { id = team; organization_id = organization; name = name }))
    write server (team_created team) organization performed_by
    commit server
    pure team

  unfoldable pub add_team_member : ℕ → ℕ → ℕ → ℕ → TeamRole → M AddTeamMemberError Unit
  add_team_member performed_by organization team actor role = do
    begin server (Context.actor performed_by)
    departed ← lock_actor server actor performed_by
    found ← lock_organization server organization for_update
    refuse_if (not found) not_found
    team_found ← fetch server (team_row organization team)
    member_found ← fetch server (member_row organization actor)
    refuse_if (not (is_some team_found)) not_found
    member ← ok_or (refused not_found) member_found
    refuse_if (is_true departed) actor_departed
    status ←
        ok_or (database (protocol "invalid stored membership status"))
          (MemberStatus.parse member.status)
    refuse_if (not (same_status status MemberStatus.active)) not_an_active_member
    execute_or server already_member_error (
        insert_team_member (record {
          team_id = team;
          actor_id = actor;
          organization_id = organization;
          role = TeamRole.as_str role;
        }))
    write server (team_member_added actor team role) organization performed_by
    commit server

  -- What follows the test that the role changes.
  unfoldable pub set_team_role :
      ℕ → ℕ → ℕ → ℕ → TeamRole → TeamRole → M ChangeTeamMemberRoleError Unit
  set_team_role performed_by organization team actor from role = do
    execute server (update_team_role organization team actor (TeamRole.as_str role))
    write server (team_member_role_changed actor team from role) organization performed_by
    commit server

  unfoldable pub change_team_member_role :
      ℕ → ℕ → ℕ → ℕ → TeamRole → M ChangeTeamMemberRoleError Unit
  unfolding set_team_role
  change_team_member_role performed_by organization team actor role = do
    begin server (Context.actor performed_by)
    lock_actor server performed_by performed_by
    found ← lock_organization server organization for_update
    refuse_if (not found) not_found
    row_found ← fetch server (team_member_row organization team actor)
    row ← ok_or (refused not_found) row_found
    from ← ok_or (database (protocol "invalid stored team role")) (TeamRole.parse row.role)
    if same_team_role from role
        then commit server
        else set_team_role performed_by organization team actor from role

  unfoldable pub remove_team_member : ℕ → ℕ → ℕ → ℕ → M RemoveTeamMemberError Unit
  remove_team_member performed_by organization team actor = do
    begin server (Context.actor performed_by)
    lock_actor server performed_by performed_by
    found ← lock_organization server organization for_update
    refuse_if (not found) not_found
    none_removed ← execute server (delete_team_member organization team actor)
    refuse_if none_removed not_found
    write server (team_member_removed actor team removed) organization performed_by
    commit server
