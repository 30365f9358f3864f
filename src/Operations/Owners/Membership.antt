-- ===== src/Operations/Owners/Membership.antt =====
-- The membership operations leave every organization its owner.
use fukulow.Common.{
  ℕ, ◌≡◌, inl, inr, refl, Bool, true, false, ◌&&◌, some, List, ◌==◌, any, arith, Bool-cases, str_eq,
  sym, ap, update, String, ==_iff,
}
use mathlib.Core.Option.{some-injective}
use fukulow.Common.RowLaws.{any-true, any-update_kept, any-update_missed, any-never}
use fukulow.Domain.OrganizationRole
use fukulow.Domain.OrganizationRole.{OrganizationRole}
use fukulow.Domain.MemberStatus
use fukulow.Domain.MemberStatus.{MemberStatus}
use fukulow.Domain.Owners
use fukulow.Db.Schema.{OrganizationMember, Db}
use fukulow.Db.Policies.{sees_member}
use fukulow.Audit.{Event}
use fukulow.Operations.Support.{member_row}
use fukulow.Operations.Support.Visibility.{acting}
use fukulow.Operations.Membership.{same_role, same_status, is_member}
use fukulow.Operations.Membership.Steps.{same_role→eq}
use fukulow.Operations.Membership.Effects.{Changed, Found, Suspended, Reactivated, RoleChanged}
use fukulow.Operations.Calls.WellFormed.{IsUnique}
use fukulow.Operations.Owners.Rows.{
  owns, owns_beside, has_owner, has_other_owner, check_owner_change-other, found-other,
}

module _ (organization actor : ℕ) (sees : OrganizationMember → Bool)
    (set : OrganizationMember → OrganizationMember) (ms : List OrganizationMember) where
  -- The owners of other organizations are not touched.
  pub elsewhere-kept :
      (place : ℕ)
      → (organization == place) ≡ false
      → any (owns place) ms ≡ true
      → any (owns place) (update (λ m. sees m && is_member organization actor m) set ms) ≡ true
  elsewhere-kept place apart h =
      any-update_missed (owns place) _ set ms
        (any-never (λ m. (sees m && is_member organization actor m) && owns place m) ms
          (λ m. ground (arith, apart)))
        h

  -- An owner other than the actor is not touched.
  pub beside-kept :
      any (owns_beside organization actor) ms ≡ true
      → any
          (owns_beside organization actor)
          (update (λ m. sees m && is_member organization actor m) set ms)
        ≡ true
  beside-kept h =
      any-update_missed _ _ set ms
        (any-never
          (λ m. (sees m && is_member organization actor m) && owns_beside organization actor m) ms
          (λ m. ground arith))
        h

owner-beside :
    (organization actor : ℕ) (ms : List OrganizationMember)
    → any (owns_beside organization actor) ms ≡ true
    → any (owns organization) ms ≡ true
owner-beside organization actor ms h = any-true _ (owns organization) ms (λ m. ground arith) h

owner_is_owner : str_eq "owner" "owner" ≡ true
unfolding str_eq
owner_is_owner = refl

not_owner :
    (value : String) (role : OrganizationRole)
    → OrganizationRole.parse value ≡ some role
    → same_role role OrganizationRole.owner ≡ false
    → str_eq value "owner" ≡ false
unfolding OrganizationRole.parse
not_owner value role e h = elim (Bool-cases (str_eq value "owner")) [
  | inl owner ↦ absurd (
      ground
        (arith, ap (λ r. same_role r OrganizationRole.owner) (some-injective _ _ (rw owner at e))))
  | inr other ↦ other
]

not_active :
    (value : String) (status : MemberStatus)
    → MemberStatus.parse value ≡ some status
    → same_status status MemberStatus.active ≡ false
    → str_eq value "active" ≡ false
unfolding MemberStatus.parse
not_active value status e h = elim (Bool-cases (str_eq value "active")) [
  | inl active ↦ absurd (
      ground
        (arith, ap (λ r. same_status r MemberStatus.active) (some-injective _ _ (rw active at e))))
  | inr other ↦ other
]

module _ (performed_by organization actor : ℕ) (set : OrganizationMember → OrganizationMember)
    (e : Event) (db db' : Db) (c : Changed performed_by organization actor set e db db')
    (place : ℕ) where
  changed-here : has_other_owner db organization actor ≡ true → has_owner db' organization ≡ true
  changed-here other = rw c.result (
      owner-beside organization actor _ (
        beside-kept organization actor (sees_member (acting performed_by) db) set
          db.organization_members other))

  pub changed-other :
      ((organization ≡ place) → has_other_owner db organization actor ≡ true)
      → has_owner db place ≡ true
      → has_owner db' place ≡ true
  changed-other other h = elim (Bool-cases (organization == place)) [
    | inl same ↦
        let here = (==_iff organization place).0 same in rw here at (changed-here (other here))
    | inr apart ↦ rw c.result (
        elsewhere-kept organization actor (sees_member (acting performed_by) db) set
          db.organization_members place apart h)
  ]

  pub changed-owning :
      ((m : OrganizationMember) → owns place m ≡ true → owns place (set m) ≡ true)
      → has_owner db place ≡ true
      → has_owner db' place ≡ true
  changed-owning keep h =
      rw c.result (any-update_kept (owns place) _ set db.organization_members keep h)

-- The actor's own row is no active owner, so that an owner is someone else.
pub Found-beside :
    (performed_by organization actor : ℕ) (db : Db) (role : OrganizationRole)
    (status : MemberStatus)
    → IsUnique db.organization_members
    → Found performed_by organization actor db role status
    → (same_status status MemberStatus.active && same_role role OrganizationRole.owner) ≡ false
    → has_owner db organization ≡ true
    → has_other_owner db organization actor ≡ true
unfolding member_row
Found-beside performed_by organization actor db role status u (row, e, (p, q)) passive h =
    found-other organization actor (sees_member (acting performed_by) db) row
      db.organization_members u e
      (ground (arith, not_owner row.role role p, not_active row.status status q)) h

module _ (performed_by organization actor : ℕ) (db : Db) (db' : Db)
    (u : IsUnique db.organization_members) (place : ℕ) (h : has_owner db place ≡ true) where
  pub Suspended-owner :
      Suspended performed_by organization actor db db' → has_owner db' place ≡ true
  Suspended-owner (role, found, kept, c) =
      changed-other performed_by organization actor _ _ db db' c place
        (λ same. elim (Bool-cases (same_role role OrganizationRole.owner)) [
          | inl owner ↦
              check_owner_change-other organization (acting performed_by) db (Owners.suspend actor)
                (kept owner)
          | inr other ↦
              Found-beside performed_by organization actor db role MemberStatus.active u found
                (ground (arith, other)) (rw (sym same) at h)
        ])
        h

  pub Reactivated-owner :
      Reactivated performed_by organization actor db db' → has_owner db' place ≡ true
  unfolding str_eq
  Reactivated-owner (role, found, c) =
      changed-owning performed_by organization actor _ _ db db' c place (λ m. ground arith) h

  pub RoleChanged-owner :
      (role : OrganizationRole)
      → RoleChanged performed_by organization actor role db db'
      → has_owner db' place ≡ true
  RoleChanged-owner role (from, status, found, present, inl (same, kept)) = rw kept h
  RoleChanged-owner role (from, status, found, present, inr (kept, c)) =
      elim (Bool-cases
        (same_status status MemberStatus.active && same_role from OrganizationRole.owner)) [
          | inl owning ↦ elim (Bool-cases (same_role role OrganizationRole.owner)) [
            | inl owner ↦
                changed-owning performed_by organization actor _ _ db db' c place
                  (rw (same_role→eq role OrganizationRole.owner owner)
                    (λ m. ground (arith, owner_is_owner)))
                  h
            | inr other ↦
                changed-other performed_by organization actor _ _ db db' c place
                  (λ same.
                    check_owner_change-other organization (acting performed_by) db
                      (Owners.demote actor) (kept (ground (arith, owning, other))))
                  h
          ]
          | inr passive ↦
              changed-other performed_by organization actor _ _ db db' c place
                (λ same.
                  Found-beside performed_by organization actor db from status u found passive
                    (rw (sym same) at h))
                h
        ]
