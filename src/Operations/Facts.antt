-- ===== src/Operations/Facts.antt =====
-- What a statement that succeeded has checked, and the tables that it leaves.
use fukulow.Common.{
  ℕ, ◌≡◌, ◌⊎◌, Bool, true, false, ◌&&◌, not, String, Option, none, some, List, map, rows, ◌==◌,
  find, any, insert, update, delete, arith, leb, ltb,
}
use fukulow.Db.Schema.{Db, Organization, OrganizationMember, Invite, Session, TeamMember, User}
use fukulow.Db.Transaction.{Server, ok}
use fukulow.Db.Context.{Settings, is_self}
use fukulow.Db.Policies.{
  may_insert_member, sees_invite, sees_actor, sees_team_member, updates_team_member,
}
use fukulow.Operations.Identity.{insert_member, insert_user, insert_organization}
use fukulow.Operations.Invites.{insert_invite_select, update_invites, guard_invite_use}
use fukulow.Operations.Sessions.{insert_session, revoke_sessions, is_session, coalesce}
use fukulow.Operations.Teams.{insert_team_member, update_team_role, delete_team_member, in_team}
use fukulow.Operations.Leaving.{
  delete_team_rows, delete_listings, delete_user, mark_departed, own_team_row, own_listing,
}

module _ (s : Settings) (db : Db) (db' : Db) where
  pub insert_member-ok :
      (server : Server) (row : OrganizationMember) (u : Unit)
      → insert_member server row s db ≡ ok (u, db')
      → (may_insert_member server.now server.xact s db row ≡ true)
        × (any
              (λ m. m.organization_id == row.organization_id && m.actor_id == row.actor_id)
              db.organization_members
            ≡ false)
        × (any (λ o. o.id == row.organization_id) db.organizations ≡ true)
        × (db' ≡ record db { organization_members = insert row db.organization_members })
  unfolding insert_member
  insert_member-ok server row u e = ground arith

  pub insert_invite_select-ok :
      (row : Invite) (o : Option ℕ)
      → insert_invite_select row s db ≡ ok (o, db')
      → ((db' ≡ db)
          ⊎ ((ltb 0 row.max_uses ≡ true) × (db' ≡ record db { invites = insert row db.invites })))
  unfolding insert_invite_select
  insert_invite_select-ok row o e = ground arith

  pub update_invites-ok :
      (server : Server) (test : Invite → Bool) (f : Invite → Invite) (o : Option Invite)
      → update_invites server test f s db ≡ ok (o, db')
      → (any
            (λ i.
              sees_invite s db i
              && test i
              && not (guard_invite_use server.now i (f i) && leb (f i).used_count (f i).max_uses))
            db.invites
          ≡ false)
        × (o ≡ find (λ i. sees_invite s db i && test i) db.invites)
        × (db' ≡ record db {
          invites =
              update
                (λ i. sees_invite s db i && test i)
                (λ i. record (f i) { xmin = server.xact })
                db.invites;
        })
  unfolding update_invites
  update_invites-ok server test f o e = ground arith

  pub insert_session-ok :
      (row : Session) (u : Unit)
      → insert_session row s db ≡ ok (u, db')
      → (is_self s row.actor_id ≡ true)
        × (any (λ v. v.actor_id == row.actor_id) db.users ≡ true)
        × (db' ≡ record db { sessions = insert row db.sessions })
  unfolding insert_session
  insert_session-ok row u e = ground arith

  pub insert_user-ok :
      (lower : String → String) (row : User) (u : Unit)
      → insert_user lower row s db ≡ ok (u, db')
      → db' ≡ record db { users = insert row db.users }
  unfolding insert_user
  insert_user-ok lower row u e = ground arith

  pub insert_team_member-ok :
      (row : TeamMember) (u : Unit)
      → insert_team_member row s db ≡ ok (u, db')
      → (any
            (λ m. m.organization_id == row.organization_id && m.actor_id == row.actor_id)
            db.organization_members
          ≡ true)
        × (db' ≡ record db { team_members = insert row db.team_members })
  unfolding insert_team_member
  insert_team_member-ok row u e = ground arith

  pub revoke_sessions-ok :
      (now actor : ℕ) (token_hash : String) (hit : Bool)
      → revoke_sessions now actor token_hash s db ≡ ok (hit, db')
      → (hit ≡ not (any (λ x. is_self s x.actor_id && is_session actor token_hash x) db.sessions))
        × (db' ≡ record db {
          sessions =
              update
                (λ x. is_self s x.actor_id && is_session actor token_hash x)
                (λ x. record x { revoked_at = coalesce x.revoked_at now })
                db.sessions;
        })
  unfolding revoke_sessions
  revoke_sessions-ok now actor token_hash hit e = ground arith

  pub update_team_role-ok :
      (organization team actor : ℕ) (role : String) (u : Unit)
      → update_team_role organization team actor role s db ≡ ok (u, db')
      → db' ≡ record db {
        team_members =
            update
              (λ m. updates_team_member s db m && in_team organization team actor m)
              (λ m. record m { role = role })
              db.team_members;
      }
  unfolding update_team_role
  update_team_role-ok organization team actor role u e = ground arith

  pub delete_team_member-ok :
      (organization team actor : ℕ) (none_removed : Bool)
      → delete_team_member organization team actor s db ≡ ok (none_removed, db')
      → (none_removed
          ≡ not (
              any
                (λ m. sees_team_member s db m && in_team organization team actor m)
                db.team_members))
        × (db' ≡ record db {
          team_members =
              delete
                (λ m. sees_team_member s db m && in_team organization team actor m)
                db.team_members;
        })
  unfolding delete_team_member
  delete_team_member-ok organization team actor none_removed e = ground arith

  pub delete_team_rows-ok :
      (organization actor : ℕ) (teams : List ℕ)
      → delete_team_rows organization actor s db ≡ ok (teams, db')
      → (teams ≡ map (λ m. m.team_id) (rows (own_team_row s db organization actor) db.team_members))
        × (db' ≡ record db {
          team_members = delete (own_team_row s db organization actor) db.team_members;
        })
  unfolding delete_team_rows
  delete_team_rows-ok organization actor teams e = ground arith

  pub delete_listings-ok :
      (organization actor : ℕ) (u : Unit)
      → delete_listings organization actor s db ≡ ok (u, db')
      → db' ≡ record db {
        channel_members = delete (own_listing s db organization actor) db.channel_members;
      }
  unfolding delete_listings
  delete_listings-ok organization actor u e = ground arith

  pub delete_user-ok :
      (actor : ℕ) (u : Unit)
      → delete_user actor s db ≡ ok (u, db')
      → db' ≡ record db {
        users = delete (λ v. is_self s v.actor_id && v.actor_id == actor) db.users;
        sessions =
            delete
              (λ x.
                x.actor_id == actor
                && any (λ v. is_self s v.actor_id && v.actor_id == x.actor_id) db.users)
              db.sessions;
      }
  unfolding delete_user
  delete_user-ok actor u e = ground arith

  pub mark_departed-ok :
      (now actor : ℕ) (u : Unit)
      → mark_departed now actor s db ≡ ok (u, db')
      → db' ≡ record db {
        actors =
            update
              (λ a. sees_actor s db a && a.id == actor)
              (λ a. record a { display_name = none; deleted_at = some now })
              db.actors;
      }
  unfolding mark_departed
  mark_departed-ok now actor u e = ground arith

  pub insert_organization-ok :
      (row : Organization) (u : Unit)
      → insert_organization row s db ≡ ok (u, db')
      → db' ≡ record db { organizations = insert row db.organizations }
  unfolding insert_organization
  insert_organization-ok row u e = ground arith
