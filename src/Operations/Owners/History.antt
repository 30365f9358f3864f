-- ===== src/Operations/Owners/History.antt =====
-- An organization that has an active owner keeps one.
use fukulow.Common.{ℕ, ◌≡◌, true, List}
use fukulow.Domain.Identifiers.{UuidCrate}
use fukulow.Db.Schema.{Db}
use fukulow.Db.Transaction.{Server, opened}
use fukulow.Db.Keeps.{run-Keeps, run-stored}
use fukulow.Db.Steps.{Ensures-map}
use fukulow.Operations.Membership
use fukulow.Operations.Membership.Effects.{
  suspend_member-Suspended, reactivate_member-Reactivated, change_member_role-RoleChanged,
}
use fukulow.Operations.Keeps.Messages.{post_message-Keeps}
use fukulow.Operations.Calls.{
  Call, change_member_role, suspend_member, reactivate_member, post_message, leave_service, step,
  run_history,
}
use fukulow.Operations.Calls.Invariants.{Entangled, step-Stable, history-induction}
use fukulow.Operations.Calls.WellFormed.{IsWellFormed}
use fukulow.Operations.Calls.Integrity.{step-IsWellFormed}
use fukulow.Operations.Owners.Rows.{owns, has_owner}
use fukulow.Operations.Owners.Frames.{Passes, Passes-Stable, Passes-StableMessages}
use fukulow.Operations.Owners.Membership.{Suspended-owner, Reactivated-owner, RoleChanged-owner}
use fukulow.Operations.Owners.Leaving.{leave_service-owner}

module _ (uuid : UuidCrate) (place : ℕ) where
  abbrev Owned : Db → Type 0
  Owned = Passes (owns place)

  module _ (server : Server) (db : Db) (w : IsWellFormed db) (h : Owned db) where
    Entangled-Owned : (call : Call) → Entangled call → Owned (step uuid server call db)
    unfolding step
    Entangled-Owned (change_member_role by o a r) e = run-stored Owned _ db h (
        Ensures-map _ _ (Membership.change_member_role server by o a r (opened db))
          (λ _ t c. RoleChanged-owner by o a db t.stored w.members place h r c)
          (change_member_role-RoleChanged server by o a r db))
    Entangled-Owned (suspend_member by o a) e = run-stored Owned _ db h (
        Ensures-map _ _ (Membership.suspend_member server by o a (opened db))
          (λ _ t c. Suspended-owner by o a db t.stored w.members place h c)
          (suspend_member-Suspended server by o a db))
    Entangled-Owned (reactivate_member by o a) e = run-stored Owned _ db h (
        Ensures-map _ _ (Membership.reactivate_member server by o a (opened db))
          (λ _ t c. Reactivated-owner by o a db t.stored w.members place h c)
          (reactivate_member-Reactivated server by o a db))
    Entangled-Owned (leave_service a) e =
        run-stored Owned _ db h (leave_service-owner server a db place w h)
    Entangled-Owned (post_message o c a id body) e =
        run-Keeps Owned _ db
          (post_message-Keeps Owned uuid (Passes-StableMessages (owns place)) server o c a id body)
          h
    Entangled-Owned call e = absurd e

  step-Owned :
      (server : Server) (call : Call) (db : Db)
      → IsWellFormed db × Owned db
      → IsWellFormed (step uuid server call db) × Owned (step uuid server call db)
  step-Owned server call db (w, h) = (
    step-IsWellFormed uuid server call db w,
    step-Stable uuid (Passes-Stable (owns place)) call server db h
        (Entangled-Owned server db w h call),
  )

-- In tables that satisfy their invariant, an organization that has an active owner still has one
-- after any history of calls, whichever of their statements fail.
pub has_owner-run_history :
    (uuid : UuidCrate) (organization : ℕ) (history : List (Server × Call)) (db : Db)
    → IsWellFormed db
    → has_owner db organization ≡ true
    → has_owner (run_history uuid history db) organization ≡ true
has_owner-run_history uuid organization history db w h =
    (history-induction uuid (λ db. IsWellFormed db × (has_owner db organization ≡ true))
      (step-Owned uuid organization) history db (w, h)).1
