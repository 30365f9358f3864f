-- ===== src/Operations/Founding.antt =====
-- What the creation of an organization leaves behind.
use fukulow.Common.{
  ℕ, ◌≡◌, refl, Bool, true, false, String, Option, none, some, insert, arith, ==_refl, str_eq,
}
use fukulow.Common.RowLaws.{any-insert}
use fukulow.Domain.OrganizationRole
use fukulow.Db.Schema.{Db, OrganizationMember}
use fukulow.Db.Transaction.{Server, Tx, opened, pure, fail}
use fukulow.Db.Steps.{
  Ensures, call-then, begin-then, fetch-then, execute-then, execute_or-then, commit-then,
}
use fukulow.Audit.{organization_created, member_added, audit_row}
use fukulow.Audit.Steps.{with_audit, write-then}
use fukulow.Operations.Facts.{insert_member-ok, insert_organization-ok}
use fukulow.Operations.Support.{departed_row, lock_actor}
use fukulow.Operations.Support.Visibility.{acting}
use fukulow.Operations.Identity.{create_organization, require_present}
use fukulow.Operations.Acceptance.{now_v7-then}
use fukulow.Operations.Owners.Rows.{has_owner, owns}

require_present-Ensures :
    (row : Option Bool) (t : Tx)
    → Ensures (λ _ t'. (row ≡ some false) × (t' ≡ t)) (require_present row t)
unfolding pure fail
require_present-Ensures none t = tt
require_present-Ensures (some true) t = tt
require_present-Ensures (some false) t = (refl, refl)

abbrev pub founder : ℕ → ℕ → OrganizationMember
founder organization actor = record {
  organization_id = organization;
  actor_id = actor;
  role = "owner";
  status = "active";
  display_name = none;
}

abbrev pub Founded : ℕ → String → String → Db → ℕ → Db → Type 0
Founded creator name slug db organization db' =
    (first : ℕ) × (second : ℕ) × (departed_row creator creator (acting creator) db ≡ some false)
    × (db'
        ≡ with_audit
            (with_audit
              (record db {
                organizations =
                    insert (record { id = organization; name = name; slug = slug })
                      db.organizations;
                organization_members =
                    insert (founder organization creator) db.organization_members;
              })
              (audit_row first (organization_created organization) organization creator))
            (audit_row second (member_added creator OrganizationRole.owner) organization creator))
    × (has_owner db' organization ≡ true)

-- When creating an organization succeeds: the creator has not left the service, one organization
-- is added with the creator as its active owner, the two events are recorded in that order, nothing
-- else changes, and so the organization has an active owner.
pub create_organization-Founded :
    (server : Server) (creator : ℕ) (name slug : String) (db : Db)
    → Ensures
        (λ organization t. Founded creator name slug db organization t.stored)
        (create_organization server creator name slug (opened db))
unfolding create_organization lock_actor pure str_eq
create_organization-Founded server creator name slug db = begin-then server _ _ _ _ λ _.
    fetch-then server _ _ _ _ λ n.
      call-then _ _ (require_present _) _ _ (require_present-Ensures _ _) λ _ t' (present, same).
        rw same (
          now_v7-then server _ _ _ λ organization. execute_or-then server _ _ _ _ _ λ _ u db₁ added.
            execute-then server _ _ _ _ λ _ u' db₂ joined.
              write-then server _ _ _ _ _ _ λ _ first _. write-then server _ _ _ _ _ _ λ _ second _.
                commit-then server _ _ _ λ _.
                  let (_, _, _, member) =
                    insert_member-ok (acting creator) db₁ db₂ server _ u' joined in
                  let after = insert_organization-ok (acting creator) db db₁ _ u added in
                  (
                    first,
                    second,
                    present,
                    rw (member, after) refl,
                    rw (member, after)
                        (ground (
                          arith,
                          ==_refl organization,
                          any-insert (owns organization) (founder organization creator)
                              db.organization_members,
                        )),
                  ))
