-- ===== src/Operations/Membership/SelfSuspension.antt =====
-- A suspension by the suspended member.
use fukulow.Common.{
  ℕ, ◌≡◌, refl, Bool, true, false, ◌&&◌, List, [], ◌∷◌, any, update, arith, str_eq, ◌==◌,
}
use fukulow.Db.Schema.{OrganizationMember, Db}
use fukulow.Db.Context.{is_self}
use fukulow.Db.Policies.{active_in, sees_member, may_insert_audit}
use fukulow.Db.Transaction.{Server, OperationError, err, run, opened}
use fukulow.Db.Keeps.{run-refused}
use fukulow.Db.Steps.{Ensures-map}
use fukulow.Audit.{member_suspended, audit_row}
use fukulow.Operations.Support.Visibility.{acting}
use fukulow.Operations.Membership.{SuspendMemberError, suspend_member, is_member}
use fukulow.Operations.Membership.Steps.{updated}
use fukulow.Operations.Membership.Effects.{Suspended, suspend_member-Suspended}

any-update_cleared :
    (q p : OrganizationMember → Bool) (f : OrganizationMember → OrganizationMember)
    (ms : List OrganizationMember)
    → ((m : OrganizationMember) → q m ≡ true → p m ≡ true)
    → ((m : OrganizationMember) → q (f m) ≡ false)
    → any q (update p f ms) ≡ false
any-update_cleared q p f [] g h = refl
any-update_cleared q p f (m ∷ ms) g h = ground (arith, g m, h m, any-update_cleared q p f ms g h)

-- The member that is suspended is no active member any more.
suspended-passive :
    (organization actor : ℕ) (db : Db)
    → active_in
        (acting actor)
        (updated organization actor (λ m. record m { status = "suspended" }) (acting actor) db)
        organization
      ≡ false
unfolding active_in sees_member str_eq
suspended-passive organization actor db =
    any-update_cleared
      (λ m.
        is_self (acting actor) m.actor_id
        && str_eq m.status "active"
        && m.organization_id == organization)
      (λ m. sees_member (acting actor) db m && is_member organization actor m)
      (λ m. record m { status = "suspended" }) db.organization_members (λ m q. ground arith)
      (λ m. ground arith)

-- The record of the suspension is refused, since it is no departure.
suspension-refused :
    (id organization actor : ℕ) (db : Db)
    → active_in (acting actor) db organization ≡ false
    → may_insert_audit (acting actor) db (audit_row id (member_suspended actor) organization actor)
      ≡ false
unfolding may_insert_audit str_eq
suspension-refused id organization actor db passive = ground (arith, passive)

refused_after :
    (organization actor : ℕ) (db db' : Db) → Suspended actor organization actor db db' → ⊥
refused_after organization actor db db' (role, found, kept, c) = absurd (
    ground (
      arith,
      c.admitted,
      suspension-refused c.id organization actor
          (updated organization actor (λ m. record m { status = "suspended" }) (acting actor) db)
          (suspended-passive organization actor db),
    ))

-- A member never suspends themselves: the audit event comes after the change of status, and its
-- policy then refuses the row, so that the call returns an error and the tables stay as they are.
pub suspend_member_self :
    (server : Server) (organization actor : ℕ) (db : Db)
    → (e : OperationError SuspendMemberError) × (run
          (suspend_member server actor organization actor)
          db
        ≡ (err e, db))
suspend_member_self server organization actor db = run-refused _ db (
    Ensures-map _ _ (suspend_member server actor organization actor (opened db))
      (λ _ t c. refused_after organization actor db t.stored c)
      (suspend_member-Suspended server actor organization actor db))
