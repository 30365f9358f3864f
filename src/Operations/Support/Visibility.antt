-- ===== src/Operations/Support/Visibility.antt =====
-- What a transaction sees of the tables when its actor is, or is not, an active member.
use fukulow.Common.{
  ℕ, ◌≡◌, true, ◌&&◌, List, [], ◌∷◌, ◌==◌, ==_iff, is_some, find, arith, Bool-cases, inl, inr,
  &&_split,
}
use fukulow.Db.Schema.{Organization, Db}
use fukulow.Db.Context
use fukulow.Db.Context.{Settings, configure, no_settings, is_self}
use fukulow.Db.Policies.{active_in, sees_organization}
use fukulow.Operations.Support.{organization_row}

-- The settings of a transaction begun with `Context::Actor(actor)`.
abbrev pub acting : ℕ → Settings
acting actor = configure (Context.actor actor) no_settings

find_in :
    (organization : ℕ) (s : Settings) (db : Db) (os : List Organization)
    → is_some (find (λ o. sees_organization s db o && o.id == organization) os) ≡ true
    → active_in s db organization ≡ true
unfolding sees_organization
find_in organization s db [] h = ground arith
find_in organization s db (o ∷ os) h =
    elim (Bool-cases (active_in s db o.id && o.id == organization)) [
      | inl hit ↦
          let (seen, same) = &&_split _ (o.id == organization) hit in
          rw ((==_iff o.id organization).0 same) at seen
      | inr miss ↦ find_in organization s db os (rw miss at h)
    ]

-- An organization is seen by its active members alone.
pub organization_row-active :
    (organization : ℕ) (s : Settings) (db : Db)
    → organization_row organization s db ≡ true
    → active_in s db organization ≡ true
unfolding organization_row
organization_row-active organization s db h = find_in organization s db db.organizations h
