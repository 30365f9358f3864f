-- ===== src/Operations/Acceptance.antt =====
-- What the acceptance of an invite leaves behind.
use fukulow.Common.{
  ℕ, ◌+◌, ◌≡◌, refl, true, ◌&&◌, String, none, some, find, insert, update, arith, sym,
}
use fukulow.Db.Schema.{Db, Actor, User, OrganizationMember, Invite}
use fukulow.Db.Context
use fukulow.Db.Context.{Settings, configure, no_settings}
use fukulow.Db.Policies.{sees_invite}
use fukulow.Db.Transaction.{
  Server, Tx, M, Result, ok, err, OperationError, ◌>>=◌, pure, now_v7, opened,
}
use fukulow.Db.Steps.{
  Ensures, call-then, begin-then, fetch-then, set_context-then, execute-then, execute_or-then,
  ok_or-then, refuse_if-then, commit-then,
}
use fukulow.Audit.{member_invited, audit_row}
use fukulow.Audit.Steps.{with_audit, write-then}
use fukulow.Operations.Facts.{insert_user-ok, insert_member-ok, update_invites-ok}
use fukulow.Operations.Identity.{create_person, insert_actor}
use fukulow.Operations.Invites.{accept_invite, accepts_new_person, is_usable, map_err}

pub now_v7-then :
    (server : Server) {V B : Type 0} (Q : B → Tx → Type 0) (t : Tx) (f : ℕ → M V B)
    → ((id : ℕ) → Ensures Q (f id t))
    → Ensures Q ((now_v7 server >>= f) t)
unfolding now_v7 ◌>>=◌
now_v7-then server Q t f h = h (server.new_id t.tick)

map_err-Ensures :
    {V W A : Type 0} (P : A → Tx → Type 0) (handler : OperationError V → OperationError W)
    (m : M V A) (t : Tx)
    → Ensures P (m t)
    → Ensures P (map_err handler m t)
unfolding map_err
map_err-Ensures {V} {W} {A} P handler m t h = mapped (m t) h
  where
    mapped :
        (r : Result (OperationError V) (A × Tx))
        → Ensures P r
        → Ensures P (elim r [ ok x ↦ ok x | err e ↦ err (handler e) ])
    mapped (ok (a, t')) p = p
    mapped (err e) p = tt

abbrev pub new_actor : ℕ → String → Actor
new_actor actor display_name = record {
  id = actor;
  actor_type = "human";
  display_name = some display_name;
  deleted_at = none;
}

abbrev pub new_user : ℕ → String → String → User
new_user actor email password_hash = record {
  actor_id = actor;
  email = email;
  password_hash = password_hash;
}

abbrev pub with_person : ℕ → String → String → String → Db → Db
with_person actor email password_hash display_name db = record db {
  actors = insert (new_actor actor display_name) db.actors;
  users = insert (new_user actor email password_hash) db.users;
}

insert_actor-ok :
    (row : Actor) (s : Settings) (db : Db) (u : Unit) (db' : Db)
    → insert_actor row s db ≡ ok (u, db')
    → db' ≡ record db { actors = insert row db.actors }
unfolding insert_actor
insert_actor-ok row s db u db' h = ground arith

create_person-Ensures :
    (server : Server) (email password_hash display_name : String) (t : Tx)
    → Ensures
        (λ actor t'.
          (t'.db ≡ with_person actor email password_hash display_name t.db)
          × (t'.stored ≡ t.stored)
          × (t'.settings ≡ configure (Context.actor actor) t.settings))
        (create_person server email password_hash display_name t)
unfolding create_person pure
create_person-Ensures server email password_hash display_name t = fetch-then server _ t _ _ λ _.
    now_v7-then server _ _ _ λ actor. execute-then server _ _ _ _ λ _ u db₁ added.
      set_context-then server _ _ _ _ λ _. execute_or-then server _ _ _ _ _ λ _ u' db₂ registered.
        fetch-then server _ _ _ _ λ _. (
          rw
              (
                insert_user-ok _ db₁ db₂ server.lower _ u' registered,
                insert_actor-ok _ _ t.db u db₁ added,
              )
              refl,
          refl,
          refl,
        )

abbrev pub new_member : ℕ → ℕ → OrganizationMember
new_member organization actor = record {
  organization_id = organization;
  actor_id = actor;
  role = "member";
  status = "active";
  display_name = none;
}

-- The invite is counted as used once more, in this transaction.
abbrev pub with_use : Server → String → Settings → Db → Db
with_use server token_hash s db = record db {
  invites =
      update (λ i. sees_invite s db i && is_usable server.now token_hash i)
        (λ i. record i { used_count = i.used_count + 1; xmin = server.xact }) db.invites;
}

abbrev pub invited : String → Settings
invited token_hash = configure (Context.invite_token token_hash) no_settings

-- An invite that the token opens and that is usable now; the tables with its use, the new person,
-- the membership and the event.
abbrev pub Accepted : Server → String → String → String → String → Db → ℕ × ℕ → Db → Type 0
Accepted server token_hash email password_hash display_name db (actor, organization) db' =
    (i : Invite) × (id : ℕ) × (find
        (λ i. sees_invite (invited token_hash) db i && is_usable server.now token_hash i) db.invites
      ≡ some i)
    × (accepts_new_person i.kind ≡ true)
    × (organization ≡ i.organization_id)
    × (db'
        ≡ with_audit
            (record (with_person actor email password_hash display_name
              (with_use server token_hash (invited token_hash) db)) {
                organization_members =
                    insert (new_member organization actor) db.organization_members;
              })
            (audit_row id (member_invited actor i.id) organization actor))

-- When accepting an invite succeeds, an invite under the token's hash was usable, of a kind that
-- admits new people; it is counted once more, one new person with one user is added, and for that
-- person an active membership with the role `member` in the invite's organization, and exactly that
-- event is recorded. Nothing else changes.
pub accept_invite-Accepted :
    (server : Server) (token_hash email password_hash display_name : String) (db : Db)
    → Ensures
        (λ r t. Accepted server token_hash email password_hash display_name db r t.stored)
        (accept_invite server token_hash email password_hash display_name (opened db))
unfolding accept_invite pure
accept_invite-Accepted server token_hash email password_hash display_name db =
    begin-then server _ _ _ _ λ _. execute-then server _ _ _ _ λ _ used db₁ counted.
      ok_or-then _ _ _ used _ λ row found. refuse_if-then _ _ _ _ _ λ kind.
        call-then _ _ (map_err _ _) _ _
          (map_err-Ensures _ _ (create_person server email password_hash display_name) _
            (create_person-Ensures server email password_hash display_name _))
          λ actor t' (created, stored, settings). execute-then server _ t' _ _ λ _ u db₂ joined.
            write-then server _ _ _ _ _ _ λ _ id admitted. commit-then server _ _ _ λ _.
              let (_, picked, after) =
                update_invites-ok (invited token_hash) db db₁ server _ _ used counted in
              let (_, _, _, member) = insert_member-ok t'.settings t'.db db₂ server _ u joined in
              (
                row,
                id,
                rw (sym picked) found,
                ground (arith, kind),
                refl,
                rw (member, created, after) refl,
              )
