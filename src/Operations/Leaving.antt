-- ===== src/Operations/Leaving.antt =====
-- crates/db/src/operations/leaving.rs
use fukulow.Common.{
  ℕ, Bool, ◌&&◌, Option, none, some, List, [], ◌∷◌, map, ◌==◌, str_eq, if◌then◌else◌, is_some, find,
  any, rows, update, delete,
}
use fukulow.Common.Order.{sort_by, ascending}
use fukulow.Domain.MemberStatus
use fukulow.Domain.MemberStatus.{MemberStatus}
use fukulow.Domain.Owners
use fukulow.Domain.Owners.{OwnerCheck, check_owner_change}
use fukulow.Db.Schema.{Actor, OrganizationMember, TeamMember, ChannelMember, Db}
use fukulow.Db.Context
use fukulow.Db.Context.{Settings, is_self}
use fukulow.Db.Policies.{
  sees_organization, sees_member, sees_actor, sees_team_member, sees_channel_member,
}
use fukulow.Db.Transaction.{
  Server, M, ◌>>=◌, ◌>>◌, pure, fail, ok_or, refuse_if, Statement, ok, refused, database, protocol,
  fetch, execute, begin, commit,
}
use fukulow.Audit.{left_service, member_left, team_member_removed, channel_member_left, write}
use fukulow.Operations.Support.{active_owners}
use fukulow.Operations.Membership.{update_member, same_status}

pub data LeaveServiceError : Type 0 where
  not_found : LeaveServiceError
  last_owner : ℕ → LeaveServiceError

-- SELECT deleted_at FROM actors WHERE id = $1 FOR UPDATE
unfoldable pub actor_row : ℕ → Settings → Db → Option Actor
actor_row actor s db = find (λ a. sees_actor s db a && a.id == actor) db.actors

-- SELECT id FROM organizations o WHERE EXISTS (an active membership of the actor) ORDER BY id
unfoldable pub active_organizations : ℕ → Settings → Db → List ℕ
active_organizations actor s db =
    map (λ o. o.id)
      (sort_by (ascending (λ o. o.id)) (
        rows
          (λ o.
            sees_organization s db o
            && any
                (λ m.
                  sees_member s db m
                  && (m.organization_id == o.id && m.actor_id == actor && str_eq m.status "active"))
                db.organization_members)
          db.organizations))

-- SELECT organization_id, status FROM organization_members WHERE actor_id = $1 ORDER BY
-- organization_id
unfoldable pub memberships : ℕ → Settings → Db → List OrganizationMember
memberships actor s db =
    sort_by (ascending (λ m. m.organization_id))
      (rows (λ m. sees_member s db m && m.actor_id == actor) db.organization_members)

-- DISTINCT
distinct : List ℕ → List ℕ
distinct [] = []
distinct (x ∷ xs) = x ∷ delete (λ y. y == x) (distinct xs)

-- SELECT DISTINCT organization_id FROM channel_members WHERE actor_id = $1 ORDER BY organization_id
unfoldable pub channel_organizations : ℕ → Settings → Db → List ℕ
unfolding distinct
channel_organizations actor s db = sort_by (ascending (λ o. o)) (
    distinct (
      map (λ m. m.organization_id)
        (rows (λ m. sees_channel_member s db m && m.actor_id == actor) db.channel_members)))

abbrev pub own_team_row : Settings → Db → ℕ → ℕ → TeamMember → Bool
own_team_row s db organization actor m =
    sees_team_member s db m && (m.organization_id == organization && m.actor_id == actor)

-- DELETE FROM team_members WHERE organization_id = $1 AND actor_id = $2 RETURNING team_id
unfoldable pub delete_team_rows : ℕ → ℕ → Statement (List ℕ)
delete_team_rows organization actor s db = ok (
  map (λ m. m.team_id) (rows (own_team_row s db organization actor) db.team_members),
  record db { team_members = delete (own_team_row s db organization actor) db.team_members },
)

abbrev pub own_listing : Settings → Db → ℕ → ℕ → ChannelMember → Bool
own_listing s db organization actor m =
    sees_channel_member s db m && (m.organization_id == organization && m.actor_id == actor)

-- SELECT channel_id FROM channel_members WHERE … ORDER BY channel_id
unfoldable pub listings : ℕ → ℕ → Settings → Db → List ℕ
listings organization actor s db =
    map (λ m. m.channel_id)
      (sort_by (ascending (λ m. m.channel_id))
        (rows (own_listing s db organization actor) db.channel_members))

-- DELETE FROM channel_members WHERE organization_id = $1 AND actor_id = $2
unfoldable pub delete_listings : ℕ → ℕ → Statement Unit
delete_listings organization actor s db = ok (
  tt,
  record db { channel_members = delete (own_listing s db organization actor) db.channel_members },
)

-- DELETE FROM users WHERE actor_id = $1, which deletes the actor's sessions too
unfoldable pub delete_user : ℕ → Statement Unit
delete_user actor s db = ok (
  tt,
  record db {
    users = delete (λ u. is_self s u.actor_id && u.actor_id == actor) db.users;
    sessions =
        delete
          (λ x.
            x.actor_id == actor
            && any (λ u. is_self s u.actor_id && u.actor_id == x.actor_id) db.users)
          db.sessions;
  },
)

-- UPDATE actors SET display_name = NULL, deleted_at = now() WHERE id = $1
unfoldable pub mark_departed : ℕ → ℕ → Statement Unit
mark_departed now actor s db = ok (
  tt,
  record db {
    actors =
        update (λ a. sees_actor s db a && a.id == actor)
          (λ a. record a { display_name = none; deleted_at = some now }) db.actors;
  },
)

-- `map_err` on the check for one organization
abbrev pub or_last_owner : ℕ → OwnerCheck → M LeaveServiceError Unit
or_last_owner organization OwnerCheck.ok = pure tt
or_last_owner organization (OwnerCheck.err _) = fail (refused (last_owner organization))

module _ (server : Server) (actor : ℕ) where
  unfoldable pub check_owners : List ℕ → M LeaveServiceError Unit
  check_owners [] = pure tt
  check_owners (organization ∷ rest) = do
    owners ← active_owners server organization
    or_last_owner organization (check_owner_change owners (Owners.leave actor))
    check_owners rest

  unfoldable pub write_removals : ℕ → List ℕ → M LeaveServiceError Unit
  write_removals organization [] = pure tt
  write_removals organization (team ∷ rest) = do
    write server (team_member_removed actor team left_service) organization actor
    write_removals organization rest

  unfoldable pub leave_organization : ℕ → M LeaveServiceError Unit
  leave_organization organization = do
    removed ← execute server (delete_team_rows organization actor)
    write_removals organization removed

  unfoldable pub write_listings : ℕ → List ℕ → M LeaveServiceError Unit
  write_listings organization [] = pure tt
  write_listings organization (channel ∷ rest) = do
    write server (channel_member_left actor channel) organization actor
    write_listings organization rest

  unfoldable pub leave_channels : ℕ → M LeaveServiceError Unit
  leave_channels organization = do
    found ← fetch server (listings organization actor)
    write_listings organization found
    execute server (delete_listings organization actor)

  -- `if status != MemberStatus::Left`
  unfoldable pub write_left : ℕ → MemberStatus → M LeaveServiceError Unit
  write_left organization status =
      if same_status status MemberStatus.left
      then pure tt
      else write server (member_left actor) organization actor

  unfoldable pub leave_memberships : List OrganizationMember → M LeaveServiceError Unit
  leave_memberships [] = pure tt
  leave_memberships (row ∷ rest) = do
    leave_organization row.organization_id
    status ←
        ok_or (database (protocol "invalid stored membership status"))
          (MemberStatus.parse row.status)
    write_left row.organization_id status
    leave_memberships rest

  unfoldable pub leave_all_channels : List ℕ → M LeaveServiceError Unit
  leave_all_channels [] = pure tt
  leave_all_channels (organization ∷ rest) = do leave_channels organization; leave_all_channels rest

  unfoldable pub mark_left : List OrganizationMember → M LeaveServiceError Unit
  mark_left [] = pure tt
  mark_left (row ∷ rest) = do
    execute server (
        update_member row.organization_id actor
          (λ m. record m { status = "left"; display_name = none }))
    mark_left rest

  -- What follows the owner checks.
  unfoldable pub depart : M LeaveServiceError Unit
  depart = do
    members ← fetch server (memberships actor)
    channels ← fetch server (channel_organizations actor)
    leave_memberships members
    leave_all_channels channels
    mark_left members
    execute server (delete_user actor)
    execute server (mark_departed server.now actor)
    commit server

  unfoldable pub leave_service : M LeaveServiceError Unit
  unfolding depart
  leave_service = do
    begin server (Context.actor actor)
    found ← fetch server (actor_row actor)
    row ← ok_or (refused not_found) found
    refuse_if (is_some row.deleted_at) not_found
    organizations ← fetch server (active_organizations actor)
    check_owners organizations
    depart
