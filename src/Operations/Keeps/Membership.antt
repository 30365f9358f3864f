-- ===== src/Operations/Keeps/Membership.antt =====
-- The membership operations keep what their statements keep.
use fukulow.Common.{ℕ, Bool, true, false, Option, none, some}
use fukulow.Domain.OrganizationRole.{OrganizationRole}
use fukulow.Domain.MemberStatus.{MemberStatus}
use fukulow.Domain.Owners.{OwnerChange, OwnerCheck}
use fukulow.Db.Schema.{Db, OrganizationMember}
use fukulow.Db.Transaction.{Server}
use fukulow.Db.Keeps.{Keeps, keeping, bind-Keeps}
use fukulow.Operations.Support.{active_owners, lock_organization, lock_actor}
use fukulow.Operations.Stable.{Stable, StableMembers}
use fukulow.Operations.Keeps.{write-Keeps}
use fukulow.Operations.Membership.{
  or_last_owner, decode, member, guard_owner, set_role, change_member_role, suspend_member,
  reactivate_member,
}

module _ {P : Db → Type 0} where
  or_last_owner-Keeps : {V : Type 0} (v : V) (check : OwnerCheck) → Keeps P (or_last_owner v check)
  or_last_owner-Keeps v OwnerCheck.ok = search keeping
  or_last_owner-Keeps v (OwnerCheck.err e) = search keeping

  decode-Keeps : (V : Type 0) (row : Option OrganizationMember) → Keeps P (decode {V = V} row)
  unfolding decode
  decode-Keeps V none = search keeping
  decode-Keeps V (some row) = search keeping depth 20

  guard_owner-Keeps :
      (server : Server) {V : Type 0} (v : V) (guarded : Bool) (organization : ℕ)
      (change : OwnerChange)
      → Keeps P (guard_owner server v guarded organization change)
  unfolding guard_owner active_owners
  guard_owner-Keeps server v true organization change =
      bind-Keeps (search keeping) λ owners. or_last_owner-Keeps v _
  guard_owner-Keeps server v false organization change = search keeping

  member-Keeps :
      (server : Server) (V : Type 0) (organization actor : ℕ)
      → Keeps P (member server {V = V} organization actor)
  unfolding member
  member-Keeps server V organization actor = search (keeping, decode-Keeps) depth 10

module _ {P : Db → Type 0} (stable : Stable P) (members : StableMembers P) (server : Server) where
  set_role-Keeps :
      (performed_by organization actor : ℕ) (from role : OrganizationRole) (status : MemberStatus)
      → Keeps P (set_role server performed_by organization actor from role status)
  unfolding set_role
  set_role-Keeps performed_by organization actor from role status =
      bind-Keeps (guard_owner-Keeps server _ _ _ _)
        λ _. search (keeping, write-Keeps stable, members.role) depth 20

  pub change_member_role-Keeps :
      (performed_by organization actor : ℕ) (role : OrganizationRole)
      → Keeps P (change_member_role server performed_by organization actor role)
  unfolding change_member_role lock_actor lock_organization
  change_member_role-Keeps performed_by organization actor role =
      search (keeping, member-Keeps, set_role-Keeps) depth 40

  pub suspend_member-Keeps :
      (performed_by organization actor : ℕ)
      → Keeps P (suspend_member server performed_by organization actor)
  unfolding suspend_member lock_actor lock_organization
  suspend_member-Keeps performed_by organization actor =
      search (keeping, write-Keeps stable, member-Keeps, guard_owner-Keeps, members.status) depth 40

  pub reactivate_member-Keeps :
      (performed_by organization actor : ℕ)
      → Keeps P (reactivate_member server performed_by organization actor)
  unfolding reactivate_member lock_actor lock_organization
  reactivate_member-Keeps performed_by organization actor =
      search (keeping, write-Keeps stable, member-Keeps, members.status) depth 40
