-- ===== src/Operations/Keeps/Leaving.antt =====
-- `leave_service` keeps what its statements keep.
use fukulow.Common.{ℕ, none, List, [], ◌∷◌}
use fukulow.Domain.MemberStatus.{MemberStatus}
use fukulow.Domain.Owners.{OwnerCheck}
use fukulow.Db.Schema.{Db, OrganizationMember}
use fukulow.Db.Transaction.{Server}
use fukulow.Db.Keeps.{Preserves, Keeps, keeping, bind-Keeps}
use fukulow.Operations.Support.{active_owners}
use fukulow.Operations.Membership.{update_member}
use fukulow.Operations.Stable.{Stable}
use fukulow.Operations.Keeps.{write-Keeps}
use fukulow.Operations.Leaving.{
  or_last_owner, check_owners, write_removals, leave_organization, write_listings, leave_channels,
  write_left, leave_memberships, leave_all_channels, mark_left, depart, leave_service,
}

or_last_owner-Keeps :
    {P : Db → Type 0} (organization : ℕ) (check : OwnerCheck)
    → Keeps P (or_last_owner organization check)
or_last_owner-Keeps organization OwnerCheck.ok = search keeping
or_last_owner-Keeps organization (OwnerCheck.err e) = search keeping

module _ {P : Db → Type 0} (stable : Stable P) (server : Server) (actor : ℕ) where
  pub check_owners-Keeps :
      (organizations : List ℕ) → Keeps P (check_owners server actor organizations)
  unfolding check_owners active_owners
  check_owners-Keeps [] = search keeping
  check_owners-Keeps (o ∷ os) =
      bind-Keeps (search keeping)
        λ owners. bind-Keeps (or_last_owner-Keeps o _) λ _. check_owners-Keeps os

  write_removals-Keeps :
      (organization : ℕ) (teams : List ℕ) → Keeps P (write_removals server actor organization teams)
  unfolding write_removals
  write_removals-Keeps organization [] = search keeping
  write_removals-Keeps organization (team ∷ rest) =
      bind-Keeps (write-Keeps stable server _ _ _ _) λ _. write_removals-Keeps organization rest

  leave_organization-Keeps :
      (organization : ℕ) → Keeps P (leave_organization server actor organization)
  unfolding leave_organization
  leave_organization-Keeps organization =
      search (keeping, stable.team_rows, write_removals-Keeps) depth 10

  write_listings-Keeps :
      (organization : ℕ) (channels : List ℕ)
      → Keeps P (write_listings server actor organization channels)
  unfolding write_listings
  write_listings-Keeps organization [] = search keeping
  write_listings-Keeps organization (channel ∷ rest) =
      bind-Keeps (write-Keeps stable server _ _ _ _) λ _. write_listings-Keeps organization rest

  leave_channels-Keeps : (organization : ℕ) → Keeps P (leave_channels server actor organization)
  unfolding leave_channels
  leave_channels-Keeps organization =
      search (keeping, stable.listing_rows, write_listings-Keeps) depth 10

  write_left-Keeps :
      (organization : ℕ) (status : MemberStatus)
      → Keeps P (write_left server actor organization status)
  unfolding write_left
  write_left-Keeps organization status = search (keeping, write-Keeps stable) depth 10

  pub leave_memberships-Keeps :
      (members : List OrganizationMember) → Keeps P (leave_memberships server actor members)
  unfolding leave_memberships
  leave_memberships-Keeps [] = search keeping
  leave_memberships-Keeps (row ∷ rest) =
      bind-Keeps (leave_organization-Keeps row.organization_id) λ _.
        bind-Keeps (search keeping) λ status.
          bind-Keeps (write_left-Keeps row.organization_id status) λ _. leave_memberships-Keeps rest

  pub leave_all_channels-Keeps :
      (organizations : List ℕ) → Keeps P (leave_all_channels server actor organizations)
  unfolding leave_all_channels
  leave_all_channels-Keeps [] = search keeping
  leave_all_channels-Keeps (o ∷ os) =
      bind-Keeps (leave_channels-Keeps o) λ _. leave_all_channels-Keeps os

  module _
      (departed : (organization : ℕ)
        → Preserves P (
            update_member organization actor
              (λ m. record m { status = "left"; display_name = none }))) where
    pub mark_left-Keeps : (rows : List OrganizationMember) → Keeps P (mark_left server actor rows)
    unfolding mark_left
    mark_left-Keeps [] = search keeping
    mark_left-Keeps (row ∷ rest) = bind-Keeps (search (keeping, departed)) λ _. mark_left-Keeps rest

    pub depart-Keeps : Keeps P (depart server actor)
    unfolding depart
    depart-Keeps =
        search
          (
            keeping, leave_memberships-Keeps, leave_all_channels-Keeps, mark_left-Keeps,
            stable.user_removal, stable.departure,
          )
          depth 60

    pub leave_service-Keeps : Keeps P (leave_service server actor)
    unfolding leave_service
    leave_service-Keeps = search (keeping, check_owners-Keeps, depart-Keeps) depth 60
