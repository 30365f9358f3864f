-- ===== src/Operations/Calls/WellFormed.antt =====
-- The invariant of the tables, and that every statement keeps it.
use fukulow.Common.{
  ℕ, ◌≤◌, ◌≡◌, refl, Bool, true, false, ◌&&◌, String, List, [], ◌∷◌, ◌==◌, any, insert, update,
  arith, leb→le, &&_split, Bool-cases, inl, inr, leb,
}
use fukulow.Common.RowLaws.{
  All, any-insert, any-insert_old, any-update, All-insert, All-map, All-update, All-update_tested,
}
use fukulow.Db.Schema.{Db, Organization, OrganizationMember, Invite, Session, TeamMember, User}
use fukulow.Db.Transaction.{Server}
use fukulow.Db.Policies.{sees_invite}
use fukulow.Db.Keeps.{Preserves}
use fukulow.Operations.Membership.{update_member}
use fukulow.Operations.Membership.Steps.{update_member-ok}
use fukulow.Operations.Facts.{
  insert_member-ok, insert_invite_select-ok, update_invites-ok, insert_session-ok, insert_user-ok,
  insert_team_member-ok, insert_organization-ok,
}
use fukulow.Operations.Identity.{insert_member, insert_user, insert_organization}
use fukulow.Operations.Invites.{insert_invite_select, update_invites, guard_invite_use}
use fukulow.Operations.Sessions.{insert_session}
use fukulow.Operations.Teams.{insert_team_member}

abbrev pub same_key : OrganizationMember → OrganizationMember → Bool
same_key m n = n.organization_id == m.organization_id && n.actor_id == m.actor_id

-- The primary key of `organization_members`.
abbrev pub IsUnique : List OrganizationMember → Type 0
IsUnique [] = Unit
IsUnique (m ∷ ms) = (any (same_key m) ms ≡ false) × IsUnique ms

abbrev pub HasUser : List User → Session → Type 0
HasUser users x = any (λ u. u.actor_id == x.actor_id) users ≡ true

abbrev pub IsEnrolled : List OrganizationMember → TeamMember → Type 0
IsEnrolled members m =
    any (λ o. o.organization_id == m.organization_id && o.actor_id == m.actor_id) members ≡ true

-- One membership for an organization and an actor, of an organization that exists; no invite used more often than it allows; every
-- session is of a user; every team member is listed in the team's organization.
abbrev pub IsWithin : List Organization → OrganizationMember → Type 0
IsWithin organizations m = any (λ o. o.id == m.organization_id) organizations ≡ true

pub record AreWellFormed (organizations : List Organization)
    (organization_members : List OrganizationMember) (invites : List Invite) (users : List User)
    (sessions : List Session) (team_members : List TeamMember) : Type 0 where
  pub members : IsUnique organization_members
  pub within : All (IsWithin organizations) organization_members
  pub uses : All (λ i. i.used_count ≤ i.max_uses) invites
  pub holders : All (HasUser users) sessions
  pub enrolled : All (IsEnrolled organization_members) team_members

abbrev pub IsWellFormed : Db → Type 0
IsWellFormed db =
    AreWellFormed db.organizations db.organization_members db.invites db.users db.sessions
      db.team_members

insert-IsUnique :
    (m : OrganizationMember) (ms : List OrganizationMember)
    → any (same_key m) ms ≡ false
    → IsUnique ms
    → IsUnique (insert m ms)
insert-IsUnique m [] h u = (refl, tt)
insert-IsUnique m (n ∷ ms) h u =
    (ground (arith, any-insert (same_key n) m ms), insert-IsUnique m ms (ground arith) u.1)

update-IsUnique :
    (p : OrganizationMember → Bool) (f : OrganizationMember → OrganizationMember)
    (ms : List OrganizationMember)
    → ((m : OrganizationMember) → (f m).organization_id ≡ m.organization_id)
    → ((m : OrganizationMember) → (f m).actor_id ≡ m.actor_id)
    → IsUnique ms
    → IsUnique (update p f ms)
update-IsUnique p f [] ho ha u = tt
update-IsUnique p f (m ∷ ms) ho ha u = elim (Bool-cases (p m)) [
  | inl e ↦ rw e (
    rw (any-update (same_key (f m)) p f ms (λ n. rw (ho n, ha n))) (rw (ho m, ha m) u.0),
    update-IsUnique p f ms ho ha u.1,
  )
  | inr e ↦ rw e (
    rw (any-update (same_key m) p f ms (λ n. rw (ho n, ha n))) u.0,
    update-IsUnique p f ms ho ha u.1,
  )
]

abbrev same_row : ℕ → ℕ → OrganizationMember → Bool
same_row organization actor m = m.organization_id == organization && m.actor_id == actor

pub member-IsWellFormed :
    (server : Server) (row : OrganizationMember) → Preserves IsWellFormed (insert_member server row)
member-IsWellFormed server row = record {
  apply = λ s db u db' w e.
      let (_, new, known, done) = insert_member-ok s db db' server row u e in
      rw done (record {
        members = insert-IsUnique row db.organization_members new w.members;
        within = All-insert _ db.organization_members w.within known;
        uses = w.uses;
        holders = w.holders;
        enrolled =
            All-map _ _ db.team_members
              (λ m h. any-insert_old (same_row m.organization_id m.actor_id) row _ h) w.enrolled;
      });
}

pub member_update-IsWellFormed :
    (organization actor : ℕ) (f : OrganizationMember → OrganizationMember)
    → ((m : OrganizationMember) → (f m).organization_id ≡ m.organization_id)
    → ((m : OrganizationMember) → (f m).actor_id ≡ m.actor_id)
    → Preserves IsWellFormed (update_member organization actor f)
member_update-IsWellFormed organization actor f ho ha = record {
  apply = λ s db u db' w e. rw (update_member-ok organization actor f s db u db' e) (record {
    members = update-IsUnique _ f db.organization_members ho ha w.members;
    within =
        All-update (IsWithin db.organizations) _ f db.organization_members (λ m h. rw (ho m) h)
          w.within;
    uses = w.uses;
    holders = w.holders;
    enrolled =
        All-map _ _ db.team_members
          (λ m h.
            rw
              (any-update (same_row m.organization_id m.actor_id) _ f db.organization_members
                (λ n. rw (ho n, ha n)))
              h)
          w.enrolled;
  });
}

pub invite-IsWellFormed :
    (row : Invite) → row.used_count ≡ 0 → Preserves IsWellFormed (insert_invite_select row)
invite-IsWellFormed row unused = record {
  apply = λ s db o db' w e. elim (insert_invite_select-ok s db db' row o e) [
    | inl same ↦ rw same w
    | inr (_, done) ↦ rw done (record {
      members = w.members;
      within = w.within;
      uses = All-insert _ db.invites w.uses (omega arith);
      holders = w.holders;
      enrolled = w.enrolled;
    })
  ];
}

pub invites-IsWellFormed :
    (server : Server) (test : Invite → Bool) (f : Invite → Invite)
    → Preserves IsWellFormed (update_invites server test f)
invites-IsWellFormed server test f = record {
  apply = λ s db o db' w e.
      let (checked, _, done) = update_invites-ok s db db' server test f o e in
      rw done (record {
        members = w.members;
        within = w.within;
        uses =
            All-update_tested _ (λ i. sees_invite s db i && test i)
              (λ i. guard_invite_use server.now i (f i) && leb (f i).used_count (f i).max_uses) _
              db.invites checked (λ i h. leb→le (f i).used_count (f i).max_uses (&&_split _ _ h).1)
              w.uses;
        holders = w.holders;
        enrolled = w.enrolled;
      });
}

pub session-IsWellFormed : (row : Session) → Preserves IsWellFormed (insert_session row)
session-IsWellFormed row = record {
  apply = λ s db u db' w e.
      let (_, known, done) = insert_session-ok s db db' row u e in
      rw done (record {
        members = w.members;
        within = w.within;
        uses = w.uses;
        holders = All-insert _ db.sessions w.holders known;
        enrolled = w.enrolled;
      });
}

pub user-IsWellFormed :
    (lower : String → String) (row : User) → Preserves IsWellFormed (insert_user lower row)
user-IsWellFormed lower row = record {
  apply = λ s db u db' w e. rw (insert_user-ok s db db' lower row u e) (record {
    members = w.members;
    within = w.within;
    uses = w.uses;
    holders =
        All-map _ _ db.sessions
          (λ x h. any-insert_old (λ v. v.actor_id == x.actor_id) row db.users h) w.holders;
    enrolled = w.enrolled;
  });
}

pub team_member-IsWellFormed : (row : TeamMember) → Preserves IsWellFormed (insert_team_member row)
team_member-IsWellFormed row = record {
  apply = λ s db u db' w e.
      let (listed, done) = insert_team_member-ok s db db' row u e in
      rw done (record {
        members = w.members;
        within = w.within;
        uses = w.uses;
        holders = w.holders;
        enrolled = All-insert _ db.team_members w.enrolled listed;
      });
}

pub organization-IsWellFormed :
    (row : Organization) → Preserves IsWellFormed (insert_organization row)
organization-IsWellFormed row = record {
  apply = λ s db u db' w e. rw (insert_organization-ok s db db' row u e) (record {
    members = w.members;
    within =
        All-map _ _ db.organization_members
          (λ m h. any-insert_old (λ o. o.id == m.organization_id) row db.organizations h) w.within;
    uses = w.uses;
    holders = w.holders;
    enrolled = w.enrolled;
  });
}
