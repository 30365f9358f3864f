-- ===== src/Operations/Identity.antt =====
-- crates/db/src/operations/identity.rs
use fukulow.Common.{
  ℕ, leb, String, Bool, true, false, ◌&&◌, ◌||◌, not, Option, none, some, List, [], ◌∷◌, ◌==◌,
  str_eq, if◌then◌else◌, any, insert,
}
use fukulow.Common.Characters.{char_count, codes}
use fukulow.Domain.OrganizationRole.{OrganizationRole}
use fukulow.Db.Schema.{Actor, User, Organization, OrganizationMember}
use fukulow.Db.Context
use fukulow.Db.Context.{Settings, is_self}
use fukulow.Db.Policies.{may_insert_member}
use fukulow.Db.Transaction.{
  Server, M, ◌>>=◌, ◌>>◌, pure, fail, Statement, SqlError, OperationError, refused, database,
  denied, violates, constraint, fetch, execute, execute_or, set_context, begin, commit, all_pass,
  now_v7,
}
use fukulow.Audit.{organization_created, member_added, write}
use fukulow.Operations.Support.{lock_actor}

pub data CreatePersonError : Type 0 where
  email_taken : CreatePersonError

pub data CreateOrganizationError : Type 0 where
  invalid_slug slug_taken actor_not_found actor_departed : CreateOrganizationError

-- INSERT INTO actors (id, type, display_name) VALUES ($1, 'human', $2)
unfoldable pub insert_actor : Actor → Statement Unit
insert_actor row settings db =
    all_pass ((not (any (λ a. a.id == row.id) db.actors), violates "actors_pkey") ∷ [])
      (tt, record db { actors = insert row db.actors })

-- INSERT INTO users (actor_id, actor_type, email, password_hash)
unfoldable pub insert_user : (String → String) → User → Statement Unit
insert_user lower row settings db =
    all_pass
      ((is_self settings row.actor_id, denied)
        ∷ (not (any (λ u. u.actor_id == row.actor_id) db.users), violates "users_pkey")
        ∷ (
          not (any (λ u. str_eq (lower u.email) (lower row.email)) db.users),
          violates "users_email_lower_key",
        )
        ∷ (
          any (λ a. a.id == row.actor_id && str_eq a.actor_type "human") db.actors,
          violates "users_actor_id_actor_type_fkey",
        )
        ∷ [])
      (tt, record db { users = insert row db.users })

-- A character of `[a-z0-9]`
abbrev slug_character : ℕ → Bool
slug_character c = (leb b'a' c && leb c b'z') || (leb b'0' c && leb c b'9')

-- After the first character: `([a-z0-9-]{0,30}[a-z0-9])?`, whatever the length.
slug_rest : List ℕ → Bool
slug_rest [] = true
slug_rest (c ∷ []) = slug_character c
slug_rest (c ∷ d ∷ rest) = (slug_character c || c == b'-') && slug_rest (d ∷ rest)

-- `slug ~ '^[a-z0-9]([a-z0-9-]{0,30}[a-z0-9])?$'`
unfoldable pub slug_format : List ℕ → Bool
unfolding slug_rest
slug_format [] = false
slug_format (c ∷ rest) = slug_character c && slug_rest rest

-- INSERT INTO organizations (id, name, slug)
unfoldable pub insert_organization : Organization → Statement Unit
insert_organization row settings db =
    all_pass
      (((elim settings.actor_id [ none ↦ false | some _ ↦ true ]), denied)
        ∷ (
          slug_format (codes row.slug) && leb (char_count row.slug) 32,
          violates "organizations_slug_format",
        )
        ∷ (not (any (λ o. o.id == row.id) db.organizations), violates "organizations_pkey")
        ∷ (
          not (any (λ o. str_eq o.slug row.slug) db.organizations),
          violates "organizations_slug_key",
        )
        ∷ [])
      (tt, record db { organizations = insert row db.organizations })

-- INSERT INTO organization_members, at the transaction's time and under its number.
unfoldable pub insert_member : Server → OrganizationMember → Statement Unit
insert_member server row settings db =
    all_pass
      ((may_insert_member server.now server.xact settings db row, denied)
        ∷ (
          not (
              any (λ m. m.organization_id == row.organization_id && m.actor_id == row.actor_id)
                db.organization_members),
          violates "organization_members_pkey",
        )
        ∷ (
          any (λ o. o.id == row.organization_id) db.organizations,
          violates "organization_members_organization_id_fkey",
        )
        ∷ (any (λ a. a.id == row.actor_id) db.actors, violates "organization_members_actor_id_fkey")
        ∷ [])
      (tt, record db { organization_members = insert row db.organization_members })

abbrev pub email_taken_error : SqlError → OperationError CreatePersonError
email_taken_error e =
    if constraint e "users_email_lower_key" then refused email_taken else database e

abbrev pub slug_error : SqlError → OperationError CreateOrganizationError
slug_error e =
    if constraint e "organizations_slug_format"
    then refused invalid_slug
    else if constraint e "organizations_slug_key"
    then refused slug_taken
    else database e

-- `match lock_actor(…)` of `create_organization`
abbrev pub require_present : Option Bool → M CreateOrganizationError Unit
require_present none = fail (refused actor_not_found)
require_present (some true) = fail (refused actor_departed)
require_present (some false) = pure tt

module _ (server : Server) where
  -- The savepoint and its release are the first and the last statement; an error inside leaves the
  -- caller's transaction as it was at the savepoint.
  unfoldable pub create_person : String → String → String → M CreatePersonError ℕ
  create_person email password_hash display_name = do
    fetch server (λ _ _. tt)
    actor ← now_v7 server
    execute server (
        insert_actor (record {
          id = actor;
          actor_type = "human";
          display_name = some display_name;
          deleted_at = none;
        }))
    set_context server (Context.actor actor)
    execute_or server email_taken_error (
        insert_user server.lower
          (record { actor_id = actor; email = email; password_hash = password_hash }))
    fetch server (λ _ _. tt)
    pure actor

  unfoldable pub create_organization : ℕ → String → String → M CreateOrganizationError ℕ
  create_organization creator name slug = do
    begin server (Context.actor creator)
    departed ← lock_actor server creator creator
    require_present departed
    organization ← now_v7 server
    execute_or server slug_error
        (insert_organization (record { id = organization; name = name; slug = slug }))
    execute server (
        insert_member server (record {
          organization_id = organization;
          actor_id = creator;
          role = "owner";
          status = "active";
          display_name = none;
        }))
    write server (organization_created organization) organization creator
    write server (member_added creator OrganizationRole.owner) organization creator
    commit server
    pure organization
