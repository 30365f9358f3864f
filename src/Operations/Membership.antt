-- ===== src/Operations/Membership.antt =====
-- crates/db/src/operations/membership.rs
pub mod Steps
pub mod Effects
pub mod SelfSuspension
use fukulow.Common.{
  ℕ, String, Bool, true, false, ◌&&◌, ◌||◌, not, Option, none, some, List, [], ◌∷◌, ◌==◌, str_eq,
  if◌then◌else◌, find, any, rows, update,
}
use fukulow.Domain.OrganizationRole
use fukulow.Domain.OrganizationRole.{OrganizationRole}
use fukulow.Domain.MemberStatus
use fukulow.Domain.MemberStatus.{MemberStatus}
use fukulow.Domain.Owners
use fukulow.Domain.Owners.{OwnerChange, OwnerCheck, check_owner_change}
use fukulow.Db.Schema.{OrganizationMember, Db}
use fukulow.Db.Context
use fukulow.Db.Context.{Settings}
use fukulow.Db.Policies.{sees_member, may_update_member}
use fukulow.Db.Transaction.{
  Server, M, ◌>>=◌, ◌>>◌, pure, fail, ok_or, refuse_if, Statement, Result, ok, err, OperationError,
  refused, database, protocol, denied, fetch, execute, begin, commit, run,
}
use fukulow.Audit.{member_role_changed, member_suspended, member_reactivated, write}
use fukulow.Operations.Support.{
  member_row, lock_organization, for_update, active_owners, lock_actor,
}

pub data ChangeMemberRoleError : Type 0 where
  not_found last_owner : ChangeMemberRoleError

pub data SuspendMemberError : Type 0 where
  not_found not_active last_owner : SuspendMemberError

pub data ReactivateMemberError : Type 0 where
  not_found not_suspended actor_departed : ReactivateMemberError

abbrev pub is_member : ℕ → ℕ → OrganizationMember → Bool
is_member organization actor m = m.organization_id == organization && m.actor_id == actor

-- UPDATE organization_members SET … WHERE organization_id = $1 AND actor_id = $2: the policy and
-- the trigger pass every new row, or nothing is written.
unfoldable pub update_member : ℕ → ℕ → (OrganizationMember → OrganizationMember) → Statement Unit
update_member organization actor set settings db =
    if any
      (λ m.
        sees_member settings db m
        && is_member organization actor m
        && not (may_update_member settings db m (set m)))
      db.organization_members
    then err denied
    else ok (
      tt,
      record db {
        organization_members =
            update (λ m. sees_member settings db m && is_member organization actor m) set
              db.organization_members;
      },
    )

-- `OrganizationRole::parse` and `MemberStatus::parse` on a row; a failure is `sqlx::Error::Protocol`.
unfoldable pub decode :
    {V : Type 0} → Option OrganizationMember → M V (Option (OrganizationRole × MemberStatus))
decode none = pure none
decode (some row) = do
  role ←
      ok_or (database (protocol "invalid stored organization role"))
        (OrganizationRole.parse row.role)
  status ←
      ok_or (database (protocol "invalid stored membership status")) (MemberStatus.parse row.status)
  pure (some (role, status))

abbrev pub same_role : OrganizationRole → OrganizationRole → Bool
same_role OrganizationRole.owner OrganizationRole.owner = true
same_role OrganizationRole.admin OrganizationRole.admin = true
same_role OrganizationRole.member OrganizationRole.member = true
same_role _ _ = false

abbrev pub same_status : MemberStatus → MemberStatus → Bool
same_status MemberStatus.active MemberStatus.active = true
same_status MemberStatus.suspended MemberStatus.suspended = true
same_status MemberStatus.left MemberStatus.left = true
same_status _ _ = false

-- `departed == Some(true)`
abbrev pub is_true : Option Bool → Bool
is_true (some b) = b
is_true none = false

-- `?` on `Result<(), LastOwner>`
abbrev pub or_last_owner : {V : Type 0} → V → OwnerCheck → M V Unit
or_last_owner v OwnerCheck.ok = pure tt
or_last_owner v (OwnerCheck.err _) = fail (refused v)

module _ (server : Server) where
  unfoldable pub member : {V : Type 0} → ℕ → ℕ → M V (Option (OrganizationRole × MemberStatus))
  unfolding decode
  member organization actor = do row ← fetch server (member_row organization actor); decode row

  -- The last-owner check, which the two callers make only for an active owner.
  unfoldable pub guard_owner : {V : Type 0} → V → Bool → ℕ → OwnerChange → M V Unit
  guard_owner v true organization change = do
    owners ← active_owners server organization
    or_last_owner v (check_owner_change owners change)
  guard_owner v false organization change = pure tt

  -- What follows the test that the role changes.
  unfoldable pub set_role :
      ℕ → ℕ → ℕ → OrganizationRole → OrganizationRole → MemberStatus → M ChangeMemberRoleError Unit
  unfolding guard_owner
  set_role performed_by organization actor from role status = do
    guard_owner last_owner
        (same_status status MemberStatus.active
          && same_role from OrganizationRole.owner
          && not (same_role role OrganizationRole.owner))
        organization (Owners.demote actor)
    execute server
        (update_member organization actor (λ m. record m { role = OrganizationRole.as_str role }))
    write server (member_role_changed actor from role) organization performed_by
    commit server

  unfoldable pub change_member_role : ℕ → ℕ → ℕ → OrganizationRole → M ChangeMemberRoleError Unit
  unfolding set_role member
  change_member_role performed_by organization actor role = do
    begin server (Context.actor performed_by)
    lock_actor server performed_by performed_by
    found ← lock_organization server organization for_update
    refuse_if (not found) not_found
    row ← member organization actor
    (from, status) ← ok_or (refused not_found) row
    refuse_if (same_status status MemberStatus.left) not_found
    if same_role from role
        then commit server
        else set_role performed_by organization actor from role status

  unfoldable pub suspend_member : ℕ → ℕ → ℕ → M SuspendMemberError Unit
  unfolding guard_owner member
  suspend_member performed_by organization actor = do
    begin server (Context.actor performed_by)
    lock_actor server performed_by performed_by
    found ← lock_organization server organization for_update
    refuse_if (not found) not_found
    row ← member organization actor
    (role, status) ← ok_or (refused not_found) row
    refuse_if (not (same_status status MemberStatus.active)) not_active
    guard_owner last_owner (same_role role OrganizationRole.owner) organization
        (Owners.suspend actor)
    execute server (update_member organization actor (λ m. record m { status = "suspended" }))
    write server (member_suspended actor) organization performed_by
    commit server

  unfoldable pub reactivate_member : ℕ → ℕ → ℕ → M ReactivateMemberError Unit
  unfolding member
  reactivate_member performed_by organization actor = do
    begin server (Context.actor performed_by)
    departed ← lock_actor server actor performed_by
    found ← lock_organization server organization for_update
    refuse_if (not found) not_found
    row ← member organization actor
    (role, status) ← ok_or (refused not_found) row
    refuse_if (is_true departed) actor_departed
    refuse_if (not (same_status status MemberStatus.suspended)) not_suspended
    execute server (update_member organization actor (λ m. record m { status = "active" }))
    write server (member_reactivated actor) organization performed_by
    commit server
