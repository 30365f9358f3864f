-- ===== src/Operations/Support.antt =====
-- Helpers of crates/db/src/operations/mod.rs and authorization.rs. A row lock reads its row; what
-- it makes other transactions wait for does not show in one transaction.
pub mod Visibility
use fukulow.Common.{
  ℕ, String, Bool, true, false, ◌&&◌, ◌||◌, Option, none, some, List, [], ◌∷◌, map, ◌==◌, str_eq,
  is_some, if◌then◌else◌, find, rows,
}
use fukulow.Domain.OrganizationRole
use fukulow.Domain.OrganizationRole.{OrganizationRole, Capability, holds}
use fukulow.Db.Schema.{Actor, OrganizationMember, Db}
use fukulow.Db.Context.{Settings}
use fukulow.Db.Policies.{sees_organization, sees_actor, sees_member}
use fukulow.Db.Transaction.{Server, M, ◌>>=◌, pure, ok_or, fetch, database, protocol}

pub data OrganizationLock : Type 0 where
  for_update for_share : OrganizationLock

-- SELECT id FROM organizations WHERE id = $1
unfoldable pub organization_row : ℕ → Settings → Db → Bool
unfolding sees_organization
organization_row organization s db =
    is_some (find (λ o. sees_organization s db o && o.id == organization) db.organizations)

-- SELECT id, deleted_at FROM actors WHERE id = $1 OR id = $2 ORDER BY id, then the row of `actor`
unfoldable pub departed_row : ℕ → ℕ → Settings → Db → Option Bool
departed_row actor performed_by s db =
    elim (find (λ a. a.id == actor)
      (rows (λ a. sees_actor s db a && (a.id == actor || a.id == performed_by)) db.actors)) [
        | none ↦ none
        | some a ↦ some (is_some a.deleted_at)
      ]

-- SELECT … FROM organization_members WHERE organization_id = $1 AND actor_id = $2
unfoldable pub member_row : ℕ → ℕ → Settings → Db → Option OrganizationMember
member_row organization actor s db =
    find (λ m. sees_member s db m && (m.organization_id == organization && m.actor_id == actor))
      db.organization_members

-- SELECT actor_id FROM organization_members WHERE organization_id = $1 AND role = 'owner' AND
-- status = 'active'
unfoldable pub owner_rows : ℕ → Settings → Db → List ℕ
owner_rows organization s db =
    map (λ m. m.actor_id)
      (rows
        (λ m.
          sees_member s db m
          && (m.organization_id == organization
              && str_eq m.role "owner"
              && str_eq m.status "active"))
        db.organization_members)

module _ (server : Server) {V : Type 0} where
  unfoldable pub lock_organization : ℕ → OrganizationLock → M V Bool
  lock_organization organization for_update = fetch server (organization_row organization)
  lock_organization organization for_share = fetch server (organization_row organization)

  unfoldable pub active_owners : ℕ → M V (List ℕ)
  active_owners organization = fetch server (owner_rows organization)

  unfoldable pub lock_actor : ℕ → ℕ → M V (Option Bool)
  lock_actor actor performed_by = fetch server (departed_row actor performed_by)

pub data Access : Type 0 where
  allowed forbidden not_a_member : Access

-- SELECT role FROM organization_members WHERE … AND status = 'active' FOR SHARE
unfoldable pub active_member_row : ℕ → ℕ → Settings → Db → Option OrganizationMember
active_member_row organization actor s db =
    find
      (λ m.
        sees_member s db m
        && (m.organization_id == organization && m.actor_id == actor && str_eq m.status "active"))
      db.organization_members

module _ (server : Server) {V : Type 0} where
  unfoldable pub access_of : Option OrganizationMember → Capability → M V Access
  access_of none capability = pure not_a_member
  access_of (some row) capability = do
    role ← ok_or (database (protocol "invalid organization role")) (OrganizationRole.parse row.role)
    pure (if holds role capability then allowed else forbidden)

  unfoldable pub authorize : ℕ → ℕ → Capability → M V Access
  unfolding access_of
  authorize actor organization capability = do
    row ← fetch server (active_member_row organization actor)
    access_of row capability
