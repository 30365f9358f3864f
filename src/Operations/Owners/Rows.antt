-- ===== src/Operations/Owners/Rows.antt =====
-- Owners among the rows of `organization_members`.
use fukulow.Common.{
  ℕ, ◌≡◌, Bool, true, false, ◌&&◌, not, some, List, [], ◌∷◌, map, ◌==◌, str_eq, find, any, rows,
  arith, Bool-cases, inl, inr,
}
use fukulow.Common.RowLaws.{any-false}
use fukulow.Domain.Owners.{OwnerChange, OwnerCheck, subject, check_owner_change}
use fukulow.Db.Schema.{Db, OrganizationMember}
use fukulow.Db.Context.{Settings}
use fukulow.Db.Policies.{sees_member}
use fukulow.Operations.Support.{owner_rows}
use fukulow.Operations.Membership.{is_member}
use fukulow.Operations.Calls.WellFormed.{IsUnique, same_key}

abbrev pub is_active_owner : OrganizationMember → Bool
is_active_owner m = str_eq m.role "owner" && str_eq m.status "active"

abbrev pub owns : ℕ → OrganizationMember → Bool
owns organization m = m.organization_id == organization && is_active_owner m

abbrev pub has_owner : Db → ℕ → Bool
has_owner db organization = any (owns organization) db.organization_members

abbrev pub owns_beside : ℕ → ℕ → OrganizationMember → Bool
owns_beside organization actor m = owns organization m && not (m.actor_id == actor)

-- An active owner other than the actor.
abbrev pub has_other_owner : Db → ℕ → ℕ → Bool
has_other_owner db organization actor = any (owns_beside organization actor) db.organization_members

owner_rows-other :
    (organization actor : ℕ) (sees : OrganizationMember → Bool) (ms : List OrganizationMember)
    → any
        (λ owner. not (owner == actor))
        (map
          (λ m. m.actor_id)
          (rows
            (λ m.
              sees m
              && (m.organization_id == organization
                  && str_eq m.role "owner"
                  && str_eq m.status "active"))
            ms))
      ≡ true
    → any (owns_beside organization actor) ms ≡ true
owner_rows-other organization actor sees [] h = h
owner_rows-other organization actor sees (m ∷ ms) h =
    ground (arith, owner_rows-other organization actor sees ms)

-- What the last-owner check has found when it passes.
pub check_owner_change-other :
    (organization : ℕ) (s : Settings) (db : Db) (change : OwnerChange)
    → check_owner_change (owner_rows organization s db) change ≡ OwnerCheck.ok
    → has_other_owner db organization (subject change) ≡ true
unfolding check_owner_change owner_rows
check_owner_change-other organization s db change h =
    owner_rows-other organization (subject change) (sees_member s db) db.organization_members
      (ground arith)

any-found :
    (p q : OrganizationMember → Bool) (ms : List OrganizationMember) (row : OrganizationMember)
    → ((m : OrganizationMember) → p m ≡ true → q m ≡ true)
    → find p ms ≡ some row
    → any q ms ≡ true
any-found p q [] row g h = ground arith
any-found p q (m ∷ ms) row g h = ground (arith, g m, any-found p q ms row g)

-- Where the actor's one row is no active owner, an active owner is someone else.
none_of_actor :
    (organization actor : ℕ) (ms : List OrganizationMember)
    → any (is_member organization actor) ms ≡ false
    → any (owns organization) ms ≡ true
    → any (owns_beside organization actor) ms ≡ true
none_of_actor organization actor [] h g = g
none_of_actor organization actor (m ∷ ms) h g = ground (arith, none_of_actor organization actor ms)

-- A row that the key of the first one finds has that key.
same_member :
    (organization actor : ℕ) (m n : OrganizationMember)
    → is_member organization actor m ≡ true
    → is_member organization actor n ≡ true
    → same_key m n ≡ true
same_member organization actor m n h g = ground arith

module _ (organization actor : ℕ) (sees : OrganizationMember → Bool)
    (row : OrganizationMember) where
  abbrev is_seen_member : OrganizationMember → Bool
  is_seen_member m = sees m && (m.organization_id == organization && m.actor_id == actor)

  pub found-other :
      (ms : List OrganizationMember)
      → IsUnique ms
      → find is_seen_member ms ≡ some row
      → is_active_owner row ≡ false
      → any (owns organization) ms ≡ true
      → any (owns_beside organization actor) ms ≡ true
  found-other [] u f h g = g
  found-other (m ∷ ms) u f h g = elim (Bool-cases (is_member organization actor m)) [
    | inl mine ↦
        let alone =
          any-false (is_member organization actor) (same_key m) ms
            (λ n. same_member organization actor m n mine) u.0 in
        elim (Bool-cases (sees m)) [
          | inl seen ↦ ground (arith, none_of_actor organization actor ms alone)
          | inr unseen ↦ absurd (
              ground (
                arith,
                any-found is_seen_member (is_member organization actor) ms row
                    (λ n p. ground arith),
              ))
        ]
    | inr other ↦ ground (arith, found-other ms u.1)
  ]
