-- ===== src/Operations/Membership/Effects.antt =====
-- What the membership operations change when they succeed, whatever statements may fail.
use fukulow.Common.{ℕ, ◌≡◌, ◌⊎◌, inl, inr, ◌&&◌, refl, true, false, not, some, arith}
use fukulow.Domain.OrganizationRole
use fukulow.Domain.OrganizationRole.{OrganizationRole}
use fukulow.Domain.MemberStatus.{MemberStatus}
use fukulow.Domain.Owners
use fukulow.Domain.Owners.{OwnerCheck, check_owner_change}
use fukulow.Db.Schema.{OrganizationMember, Db}
use fukulow.Db.Policies.{active_in, may_insert_audit}
use fukulow.Db.Transaction.{Server, ok, opened}
use fukulow.Db.Steps.{
  Ensures, begin-then, fetch-then, refuse_if-then, if-then, ok_or-then, execute-then, commit-ends,
}
use fukulow.Audit.{member_suspended, member_reactivated, member_role_changed, audit_row, Event}
use fukulow.Audit.Steps.{with_audit, write-then}
use fukulow.Operations.Support.{organization_row, owner_rows, lock_organization, lock_actor}
use fukulow.Operations.Support.Visibility.{acting, organization_row-active}
use fukulow.Operations.Membership.{
  update_member, set_role, suspend_member, same_role, same_status, reactivate_member,
  change_member_role,
}
use fukulow.Operations.Membership.Steps.{
  updated, update_member-ok, Member-found, same_status→eq, same_role→eq, Member, member-then,
  guard_owner-then,
}

-- The performer is an active member, the rows of the actor are set, and the event is recorded, by
-- someone who may still record it then.
pub record Changed (performed_by organization actor : ℕ)
    (set : OrganizationMember → OrganizationMember) (e : Event) (db db' : Db) : Type 0 where
  pub id : ℕ
  pub performer : active_in (acting performed_by) db organization ≡ true
  pub result :
      db'
      ≡ with_audit
          (updated organization actor set (acting performed_by) db)
          (audit_row id e organization performed_by)
  pub admitted :
      may_insert_audit
        (acting performed_by)
        (updated organization actor set (acting performed_by) db)
        (audit_row id e organization performed_by)
      ≡ true

changed :
    (performed_by organization actor : ℕ) (set : OrganizationMember → OrganizationMember)
    (e : Event) (db db' : Db) (u : Unit) (id : ℕ)
    → not (organization_row organization (acting performed_by) db) ≡ false
    → update_member organization actor set (acting performed_by) db ≡ ok (u, db')
    → may_insert_audit (acting performed_by) db' (audit_row id e organization performed_by) ≡ true
    → Changed performed_by organization actor set e db
        (with_audit db' (audit_row id e organization performed_by))
changed performed_by organization actor set e db db' u id visible done admitted =
    let same = update_member-ok organization actor set (acting performed_by) db u db' done in
    record {
      id = id;
      performer = organization_row-active organization _ db (ground arith);
      result = rw same refl;
      admitted = rw same at admitted;
    }

-- The row of the actor, whose texts decode to the role and the status.
abbrev pub Found : ℕ → ℕ → ℕ → Db → OrganizationRole → MemberStatus → Type 0
Found performed_by organization actor db role status =
    Member organization actor (acting performed_by) db (some (role, status))

abbrev pub OwnerRemains : ℕ → ℕ → ℕ → Db → (ℕ → Owners.OwnerChange) → Type 0
OwnerRemains performed_by organization actor db change =
    check_owner_change (owner_rows organization (acting performed_by) db) (change actor)
    ≡ OwnerCheck.ok

abbrev pub Suspended : ℕ → ℕ → ℕ → Db → Db → Type 0
Suspended performed_by organization actor db db' =
    (role : OrganizationRole) × Found performed_by organization actor db role MemberStatus.active
    × (same_role role OrganizationRole.owner ≡ true
        → OwnerRemains performed_by organization actor db Owners.suspend)
    × Changed performed_by organization actor (λ m. record m { status = "suspended" })
        (member_suspended actor) db db'

-- When suspending a member succeeds, whatever else may fail: the performer is an active member of
-- the organization, the member's row was active, another active owner is there if the member was
-- one, the member's status is now suspended, and exactly that event is recorded. Nothing else
-- changes.
pub suspend_member-Suspended :
    (server : Server) (performed_by organization actor : ℕ) (db : Db)
    → Ensures
        (λ _ t. Suspended performed_by organization actor db t.stored)
        (suspend_member server performed_by organization actor (opened db))
unfolding suspend_member lock_actor lock_organization
suspend_member-Suspended server performed_by organization actor db = begin-then server _ _ _ _ λ _.
    fetch-then server _ _ _ _ λ _. fetch-then server _ _ _ _ λ _.
      refuse_if-then _ _ _ _ _ λ visible. member-then server _ _ _ _ _ λ _ r m.
        ok_or-then _ _ _ r _ λ (role, status) found. refuse_if-then _ _ _ _ _ λ active.
          guard_owner-then server _ _ _ _ _ _ _ λ _ kept.
            execute-then server _ _ _ _ λ _ u db' done.
              write-then server _ _ _ _ _ _ λ _ id admitted. commit-ends server _ _ _ λ _. (
                role,
                rw (same_status→eq status MemberStatus.active (ground arith)) at
                    (Member-found organization actor _ db r role status m found),
                kept,
                changed performed_by organization actor _ _ db db' u id visible done admitted,
              )

abbrev pub Reactivated : ℕ → ℕ → ℕ → Db → Db → Type 0
Reactivated performed_by organization actor db db' =
    (role : OrganizationRole) × Found performed_by organization actor db role MemberStatus.suspended
    × Changed performed_by organization actor (λ m. record m { status = "active" })
        (member_reactivated actor) db db'

-- When reactivating a member succeeds: the performer is an active member of the organization, the
-- member's row was suspended, the member's status is now active, and exactly that event is
-- recorded. Nothing else changes.
pub reactivate_member-Reactivated :
    (server : Server) (performed_by organization actor : ℕ) (db : Db)
    → Ensures
        (λ _ t. Reactivated performed_by organization actor db t.stored)
        (reactivate_member server performed_by organization actor (opened db))
unfolding reactivate_member lock_actor lock_organization
reactivate_member-Reactivated server performed_by organization actor db =
    begin-then server _ _ _ _ λ _. fetch-then server _ _ _ _ λ _. fetch-then server _ _ _ _ λ _.
      refuse_if-then _ _ _ _ _ λ visible. member-then server _ _ _ _ _ λ _ r m.
        ok_or-then _ _ _ r _ λ (role, status) found. refuse_if-then _ _ _ _ _ λ present.
          refuse_if-then _ _ _ _ _ λ suspended. execute-then server _ _ _ _ λ _ u db' done.
            write-then server _ _ _ _ _ _ λ _ id admitted. commit-ends server _ _ _ λ _. (
              role,
              rw (same_status→eq status MemberStatus.suspended (ground arith)) at
                  (Member-found organization actor _ db r role status m found),
              changed performed_by organization actor _ _ db db' u id visible done admitted,
            )

-- What a role that differs from the current one changes.
abbrev pub RoleSet :
    ℕ → ℕ → ℕ → OrganizationRole → OrganizationRole → MemberStatus → Db → Db → Type 0
RoleSet performed_by organization actor from role status db db' =
    ((same_status status MemberStatus.active
          && same_role from OrganizationRole.owner
          && not (same_role role OrganizationRole.owner))
        ≡ true
      → OwnerRemains performed_by organization actor db Owners.demote)
    × Changed performed_by organization actor
        (λ m. record m { role = OrganizationRole.as_str role })
        (member_role_changed actor from role) db db'

abbrev pub RoleChanged : ℕ → ℕ → ℕ → OrganizationRole → Db → Db → Type 0
RoleChanged performed_by organization actor role db db' =
    (from : OrganizationRole) × (status : MemberStatus) × Found performed_by organization actor db
      from status
    × (same_status status MemberStatus.left ≡ false)
    × (((from ≡ role) × (db' ≡ db))
        ⊎ RoleSet performed_by organization actor from role status db db')

-- When changing a member's role succeeds: the member's row has not left, and either it had the
-- role and nothing changes, or the performer is an active member, another active owner is there if
-- an active owner loses that role, the role is set, and exactly that event is recorded.
pub change_member_role-RoleChanged :
    (server : Server) (performed_by organization actor : ℕ) (role : OrganizationRole) (db : Db)
    → Ensures
        (λ _ t. RoleChanged performed_by organization actor role db t.stored)
        (change_member_role server performed_by organization actor role (opened db))
unfolding change_member_role set_role lock_actor lock_organization
change_member_role-RoleChanged server performed_by organization actor role db =
    begin-then server _ _ _ _ λ _. fetch-then server _ _ _ _ λ _. fetch-then server _ _ _ _ λ _.
      refuse_if-then _ _ _ _ _ λ visible. member-then server _ _ _ _ _ λ _ r m.
        ok_or-then _ _ _ r _ λ (from, status) found. refuse_if-then _ _ _ _ _ λ present.
          let row = Member-found organization actor _ db r from status m found in
          if-then _ _ (same_role from role) _ _
            (λ same.
              commit-ends server _ _ _
                λ _. (from, status, row, present, inl (same_role→eq from role same, refl)))
            (λ other. guard_owner-then server _ _ _ _ _ _ _ λ _ kept.
              execute-then server _ _ _ _ λ _ u db' done.
                write-then server _ _ _ _ _ _ λ _ id admitted. commit-ends server _ _ _ λ _. (
                  from,
                  status,
                  row,
                  present,
                  inr (
                    kept,
                    changed performed_by organization actor _ _ db db' u id visible done admitted,
                  ),
                ))
