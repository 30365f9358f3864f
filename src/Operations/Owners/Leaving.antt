-- ===== src/Operations/Owners/Leaving.antt =====
-- A departure leaves every organization its owner.
use fukulow.Common.{
  ℕ, ◌≡◌, inl, inr, refl, Bool, true, false, ◌&&◌, List, [], ◌∷◌, map, ◌==◌, ==_iff, ==_refl, any,
  rows, arith, Bool-cases, str_eq,
}
use fukulow.Common.RowLaws.{All, any-true, any-never, any-update_missed}
use fukulow.Common.Order.{ascending, All-sort_by}
use fukulow.Domain.Owners
use fukulow.Domain.Owners.{OwnerCheck, check_owner_change}
use fukulow.Db.Schema.{OrganizationMember, Organization, Db}
use fukulow.Db.Policies.{active_in, sees_member, sees_organization}
use fukulow.Db.Transaction.{Server, Tx, M, opened, pure, fail}
use fukulow.Db.Keeps.{Preserves, Keeps}
use fukulow.Db.Steps.{
  Ensures, Ensures-map, call-then, begin-then, fetch-then, refuse_if-then, ok_or-then,
}
use fukulow.Operations.Support.{active_owners}
use fukulow.Operations.Support.Visibility.{acting}
use fukulow.Operations.Membership.{update_member, is_member}
use fukulow.Operations.Membership.Steps.{update_member-ok}
use fukulow.Operations.Leaving.{
  or_last_owner, check_owners, active_organizations, depart, leave_service,
}
use fukulow.Operations.Keeps.Leaving.{depart-Keeps}
use fukulow.Operations.Calls.WellFormed.{IsWellFormed, IsWithin}
use fukulow.Operations.Owners.Rows.{
  owns, owns_beside, has_owner, has_other_owner, check_owner_change-other,
}
use fukulow.Operations.Owners.Frames.{Passes, Passes-Stable}

or_last_owner-Ensures :
    (organization : ℕ) (Q : Unit → Tx → Type 0) (t : Tx) (check : OwnerCheck)
    → (check ≡ OwnerCheck.ok → Q tt t)
    → Ensures Q (or_last_owner organization check t)
unfolding pure fail
or_last_owner-Ensures organization Q t OwnerCheck.ok h = h refl
or_last_owner-Ensures organization Q t (OwnerCheck.err e) h = tt

-- Every organization that was checked has another owner.
check_owners-Ensures :
    (server : Server) (actor : ℕ) (organizations : List ℕ) (t : Tx)
    → Ensures
        (λ _ t'.
          (n : ℕ) × (t' ≡ record t { tick = n })
          × All (λ o. has_other_owner t.db o actor ≡ true) organizations)
        (check_owners server actor organizations t)
unfolding check_owners active_owners pure
check_owners-Ensures server actor [] t = (t.tick, refl, tt)
check_owners-Ensures server actor (o ∷ os) t = fetch-then server _ t _ _ λ n.
    call-then _ (record t { tick = n }) (or_last_owner o _) _
      (λ _ t'. (t' ≡ record t { tick = n }) × (has_other_owner t.db o actor ≡ true))
      (or_last_owner-Ensures o
        (λ _ t'. (t' ≡ record t { tick = n }) × (has_other_owner t.db o actor ≡ true))
        (record t { tick = n }) _
        λ e. (refl, check_owner_change-other o t.settings t.db (Owners.leave actor) e))
      λ _ t' (same, other). rw same (
        Ensures-map _ _ (check_owners server actor os (record t { tick = n }))
          (λ _ t'' (m, done, rest). (m, done, (other, rest)))
          (check_owners-Ensures server actor os (record t { tick = n })))

module _ (P : ℕ → Type 0) where
  All-ids : (os : List Organization) → All P (map (λ o. o.id) os) → All (λ o. P o.id) os
  All-ids [] h = tt
  All-ids (o ∷ os) h = (h.0, All-ids os h.1)

  -- A row that the test picks.
  All-picked :
      (place : ℕ) (test : Organization → Bool) (os : List Organization)
      → All (λ o. P o.id) (rows test os)
      → any (λ o. test o && o.id == place) os ≡ true
      → P place
  All-picked place test [] h e = absurd (ground arith)
  All-picked place test (o ∷ os) h e = elim (Bool-cases (test o)) [
    | inl picked ↦
        let h' = (rw picked at h) in
        elim (Bool-cases (o.id == place)) [
          | inl same ↦ rw ((==_iff o.id place).0 same) at h'.0
          | inr other ↦ All-picked place test os h'.1 (ground (arith, picked, other))
        ]
    | inr passed ↦ All-picked place test os (rw passed at h) (ground (arith, passed))
  ]

module _ (actor : ℕ) (db : Db) (place : ℕ) where
  -- Where the actor is no active member, an active owner is someone else.
  passive-other :
      active_in (acting actor) db place ≡ false
      → has_owner db place ≡ true
      → has_other_owner db place actor ≡ true
  unfolding active_in
  passive-other passive h = beside db.organization_members passive h
    where
      beside :
          (ms : List OrganizationMember)
          → any
              (λ m. m.actor_id == actor && str_eq m.status "active" && m.organization_id == place)
              ms
            ≡ false
          → any (owns place) ms ≡ true
          → any (owns_beside place actor) ms ≡ true
      beside [] p q = q
      beside (m ∷ ms) p q = ground (arith, beside ms)

  abbrev active_here : OrganizationMember → Bool
  active_here m = m.actor_id == actor && str_eq m.status "active" && m.organization_id == place

  within-exists :
      (os : List Organization) (ms : List OrganizationMember)
      → All (IsWithin os) ms
      → any active_here ms ≡ true
      → any (λ o. o.id == place) os ≡ true
  within-exists os [] w h = absurd (ground arith)
  within-exists os (m ∷ ms) w h = elim (Bool-cases (m.organization_id == place)) [
    | inl same ↦ rw ((==_iff m.organization_id place).0 same) at w.0
    | inr other ↦ within-exists os ms w.1 (ground (arith, other))
  ]

  abbrev own_membership : Organization → OrganizationMember → Bool
  own_membership o m =
      sees_member (acting actor) db m
      && (m.organization_id == o.id && m.actor_id == actor && str_eq m.status "active")

  active-seen :
      (o : Organization)
      → active_in (acting actor) db place ≡ true
      → o.id ≡ place
      → (sees_organization (acting actor) db o
          && any (own_membership o) db.organization_members
          && (o.id == place))
        ≡ true
  unfolding sees_organization sees_member active_in
  active-seen o active same = rw same (
      ground (
        arith,
        ==_refl place,
        active,
        any-true active_here
            (λ m.
              sees_member (acting actor) db m
              && (m.organization_id == place && m.actor_id == actor && str_eq m.status "active"))
            db.organization_members (λ m p. ground arith) active,
      ))

  -- The organization is among those that the owners are checked for.
  active-checked :
      (P : ℕ → Type 0)
      → IsWellFormed db
      → active_in (acting actor) db place ≡ true
      → All P (active_organizations actor (acting actor) db)
      → P place
  unfolding active_organizations active_in
  active-checked P w active all =
      All-picked P place _ db.organizations
        (All-sort_by (ascending (λ o. o.id)) (λ o. P o.id) _ (All-ids P _ all))
        (any-true (λ o. o.id == place) _ db.organizations
          (λ o e. active-seen o active ((==_iff o.id place).0 e))
          (within-exists db.organizations db.organization_members w.within active))

  -- What the checks of a departure have found.
  checked-other :
      IsWellFormed db
      → has_owner db place ≡ true
      → All (λ o. has_other_owner db o actor ≡ true) (active_organizations actor (acting actor) db)
      → has_other_owner db place actor ≡ true
  checked-other w h all = elim (Bool-cases (active_in (acting actor) db place)) [
    | inl active ↦ active-checked (λ o. has_other_owner db o actor ≡ true) w active all
    | inr passive ↦ passive-other passive h
  ]

  beside-departed :
      (organization : ℕ) (set : OrganizationMember → OrganizationMember)
      → Preserves (Passes (owns_beside place actor)) (update_member organization actor set)
  beside-departed organization set = record {
    apply = λ s db₀ u db' h e. rw (update_member-ok organization actor set s db₀ u db' e) (
        any-update_missed (owns_beside place actor) _ set db₀.organization_members
          (any-never
            (λ m.
              (sees_member s db₀ m && is_member organization actor m) && owns_beside place actor m)
            db₀.organization_members (λ m. ground arith))
          h);
  }

from-Keeps :
    {V A : Type 0} (P : Db → Type 0) (m : M V A) (t : Tx)
    → Keeps P m
    → P t.stored
    → P t.db
    → Ensures (λ _ t'. P t'.stored) (m t)
from-Keeps P m t keep h g = Ensures-map _ _ (m t) (λ _ _ both. both.0) (keep.apply t (h, g))

module _ (server : Server) (actor : ℕ) (db : Db) (place : ℕ) where
  abbrev OtherRemains : Db → Type 0
  OtherRemains = Passes (owns_beside place actor)

  leave_service-other :
      IsWellFormed db
      → has_owner db place ≡ true
      → Ensures (λ _ t. OtherRemains t.stored) (leave_service server actor (opened db))
  unfolding leave_service
  leave_service-other w h = begin-then server _ _ _ _ λ n. fetch-then server _ _ _ _ λ n.
      ok_or-then _ _ _ _ _ λ row found. refuse_if-then _ _ _ _ _ λ here.
        fetch-then server _ _ _ _ λ n.
          call-then _ _ (check_owners server actor _) _ _ (check_owners-Ensures server actor _ _)
            λ _ t' (m, same, all).
              let other = checked-other actor db place w h all in
              rw same (
                from-Keeps OtherRemains (depart server actor)
                  (record (opened db) { settings = acting actor; tick = m })
                  (depart-Keeps (Passes-Stable (owns_beside place actor)) server actor
                    (λ o. beside-departed actor db place o _))
                  other other)

  -- In tables that satisfy their invariant, an organization with an active owner still has one after
  -- an actor has left the service.
  pub leave_service-owner :
      IsWellFormed db
      → has_owner db place ≡ true
      → Ensures (λ _ t. has_owner t.stored place ≡ true) (leave_service server actor (opened db))
  leave_service-owner w h =
      Ensures-map _ _ (leave_service server actor (opened db))
        (λ _ t other.
          any-true (owns_beside place actor) (owns place) t.stored.organization_members
            (λ m. ground arith) other)
        (leave_service-other w h)
