-- ===== src/Operations/Calls/Integrity.antt =====
-- The invariant of the tables after any history.
use fukulow.Common.{
  ℕ, ◌≡◌, ◌⊎◌, refl, true, false, ◌&&◌, String, List, ◌==◌, any, arith, Bool-cases, inl, inr,
  delete,
}
use fukulow.Common.RowLaws.{
  any-false, any-never, any-delete_missed, All-update, All-delete, All-delete_kept,
}
use fukulow.Domain.Identifiers.{UuidCrate}
use fukulow.Db.Schema.{Db, Session, User}
use fukulow.Db.Transaction.{Server}
use fukulow.Db.Context.{Settings, is_self}
use fukulow.Db.Policies.{updates_team_member}
use fukulow.Db.Keeps.{Preserves}
use fukulow.Operations.Facts.{
  revoke_sessions-ok, update_team_role-ok, delete_team_member-ok, delete_team_rows-ok,
  delete_user-ok,
}
use fukulow.Operations.Sessions.{revoke_sessions, coalesce, is_session}
use fukulow.Operations.Teams.{update_team_role, delete_team_member, in_team}
use fukulow.Operations.Leaving.{delete_user, delete_team_rows}
use fukulow.Operations.Stable.{Stable, StableMembers, StableMessages}
use fukulow.Operations.Frames.{
  framed, audit-Writes, team-Writes, channel-Writes, channel_member-Writes, actor-Writes,
  listing_rows-Writes, departure-Writes, counter-Writes, message-Writes,
}
use fukulow.Operations.Calls.{Call, step, run_history}
use fukulow.Operations.Calls.Invariants.{step-Stable_all, history-induction}
use fukulow.Operations.Calls.WellFormed.{
  IsWellFormed, HasUser, IsEnrolled, member-IsWellFormed, member_update-IsWellFormed,
  invite-IsWellFormed, invites-IsWellFormed, session-IsWellFormed, user-IsWellFormed,
  team_member-IsWellFormed, organization-IsWellFormed,
}

session_revocation-IsWellFormed :
    (now actor : ℕ) (token_hash : String)
    → Preserves IsWellFormed (revoke_sessions now actor token_hash)
session_revocation-IsWellFormed now actor token_hash = record {
  apply = λ s db hit db' w e.
      rw (revoke_sessions-ok s db db' now actor token_hash hit e).1 (record {
        members = w.members;
        within = w.within;
        uses = w.uses;
        holders =
            All-update (HasUser db.users)
              (λ x. is_self s x.actor_id && is_session actor token_hash x)
              (λ x. record x { revoked_at = coalesce x.revoked_at now }) db.sessions (λ x h. h)
              w.holders;
        enrolled = w.enrolled;
      });
}

team_role-IsWellFormed :
    (organization team actor : ℕ) (role : String)
    → Preserves IsWellFormed (update_team_role organization team actor role)
team_role-IsWellFormed organization team actor role = record {
  apply = λ s db u db' w e.
      rw (update_team_role-ok s db db' organization team actor role u e) (record {
        members = w.members;
        within = w.within;
        uses = w.uses;
        holders = w.holders;
        enrolled =
            All-update (IsEnrolled db.organization_members)
              (λ m. updates_team_member s db m && in_team organization team actor m)
              (λ m. record m { role = role }) db.team_members (λ x h. h) w.enrolled;
      });
}

team_removal-IsWellFormed :
    (organization team actor : ℕ)
    → Preserves IsWellFormed (delete_team_member organization team actor)
team_removal-IsWellFormed organization team actor = record {
  apply = λ s db u db' w e.
      rw (delete_team_member-ok s db db' organization team actor u e).1 (record {
        members = w.members;
        within = w.within;
        uses = w.uses;
        holders = w.holders;
        enrolled = All-delete _ _ db.team_members w.enrolled;
      });
}

team_rows-IsWellFormed :
    (organization actor : ℕ) → Preserves IsWellFormed (delete_team_rows organization actor)
team_rows-IsWellFormed organization actor = record {
  apply = λ s db u db' w e. rw (delete_team_rows-ok s db db' organization actor u e).1 (record {
    members = w.members;
    within = w.within;
    uses = w.uses;
    holders = w.holders;
    enrolled = All-delete _ _ db.team_members w.enrolled;
  });
}

-- A session that the cascade leaves still has its user.
HasUser-delete :
    (s : Settings) (actor : ℕ) (users : List User) (x : Session)
    → (x.actor_id == actor && any (λ v. is_self s v.actor_id && v.actor_id == x.actor_id) users)
      ≡ false
    → HasUser users x
    → HasUser (delete (λ v. is_self s v.actor_id && v.actor_id == actor) users) x
HasUser-delete s actor users x kept h =
    any-delete_missed (λ v. v.actor_id == x.actor_id) _ users (missed (Bool-cases _)) h
  where
    missed :
        ((x.actor_id == actor) ≡ true) ⊎ ((x.actor_id == actor) ≡ false)
        → any (λ v. (is_self s v.actor_id && v.actor_id == actor) && v.actor_id == x.actor_id) users
          ≡ false
    missed (inl e) =
        any-false _ (λ v. is_self s v.actor_id && v.actor_id == x.actor_id) users
          (λ v p. ground (arith, p)) (rw e at kept)
    missed (inr e) = any-never _ users (λ v. ground (arith, e))

user_removal-IsWellFormed : (actor : ℕ) → Preserves IsWellFormed (delete_user actor)
user_removal-IsWellFormed actor = record {
  apply = λ s db u db' w e. rw (delete_user-ok s db db' actor u e) (record {
    members = w.members;
    within = w.within;
    uses = w.uses;
    holders = All-delete_kept _ _ _ db.sessions (HasUser-delete s actor db.users) w.holders;
    enrolled = w.enrolled;
  });
}

IsWellFormed-Stable : Stable IsWellFormed
IsWellFormed-Stable = record {
  audit = λ row. framed IsWellFormed _ (λ _ _ w. w) (audit-Writes row);
  team = λ row. framed IsWellFormed _ (λ _ _ w. w) (team-Writes row);
  team_member = λ row. team_member-IsWellFormed row;
  team_role = λ o t a r. team_role-IsWellFormed o t a r;
  team_removal = λ o t a. team_removal-IsWellFormed o t a;
  channel = λ lower row _. framed IsWellFormed _ (λ _ _ w. w) (channel-Writes lower row);
  channel_member = λ o c a. framed IsWellFormed _ (λ _ _ w. w) (channel_member-Writes o c a);
  actor = λ row. framed IsWellFormed _ (λ _ _ w. w) (actor-Writes row);
  user = λ lower row. user-IsWellFormed lower row;
  organization = λ row. organization-IsWellFormed row;
  member = λ server row. member-IsWellFormed server row;
  invite = λ row unused. invite-IsWellFormed row unused;
  invite_use = λ server hash. invites-IsWellFormed server _ _;
  invite_revocation = λ server o i. invites-IsWellFormed server _ _;
  session = λ row. session-IsWellFormed row;
  session_revocation = λ now a hash. session_revocation-IsWellFormed now a hash;
  team_rows = λ o a. team_rows-IsWellFormed o a;
  listing_rows = λ o a. framed IsWellFormed _ (λ _ _ w. w) (listing_rows-Writes o a);
  user_removal = λ a. user_removal-IsWellFormed a;
  departure = λ now a. framed IsWellFormed _ (λ _ _ w. w) (departure-Writes now a);
}

IsWellFormed-StableMembers : StableMembers IsWellFormed
IsWellFormed-StableMembers = record {
  role = λ o a r. member_update-IsWellFormed o a _ (λ _. refl) (λ _. refl);
  status = λ o a r. member_update-IsWellFormed o a _ (λ _. refl) (λ _. refl);
  departure = λ o a. member_update-IsWellFormed o a _ (λ _. refl) (λ _. refl);
}

IsWellFormed-StableMessages : StableMessages IsWellFormed
IsWellFormed-StableMessages = record {
  counter = λ o c. framed IsWellFormed _ (λ _ _ w. w) (counter-Writes o c);
  message = λ row. framed IsWellFormed _ (λ _ _ w. w) (message-Writes row);
}

pub step-IsWellFormed :
    (uuid : UuidCrate) (server : Server) (call : Call) (db : Db)
    → IsWellFormed db
    → IsWellFormed (step uuid server call db)
step-IsWellFormed uuid server call =
    step-Stable_all uuid IsWellFormed-Stable IsWellFormed-StableMembers IsWellFormed-StableMessages
      call server

-- Where the invariant of the tables holds, it holds after any history of calls, whichever of their
-- statements fail:
-- one membership for an organization and an actor,
-- each of an organization that exists, no invite used more often than it allows, a user
-- for every session, and every team member listed in the team's organization.
pub IsWellFormed-run_history :
    (uuid : UuidCrate) (history : List (Server × Call)) (db : Db)
    → IsWellFormed db
    → IsWellFormed (run_history uuid history db)
IsWellFormed-run_history uuid history db h =
    history-induction uuid IsWellFormed (step-IsWellFormed uuid) history db h
