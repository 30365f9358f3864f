-- ===== src/Operations/InviteEffects.antt =====
-- What the creation of an invite has checked, and what it adds.
use fukulow.Common.{
  ℕ, ◌≡◌, ◌<◌, refl, String, Bool, true, false, not, Option, none, some, insert, arith, is_some,
  if◌then◌else◌,
}
use fukulow.Common.Int.{ℤ, pos, negsuc, pos_part}
use fukulow.Domain.OrganizationRole
use fukulow.Domain.OrganizationRole.{invite_member, holds}
use fukulow.Db.Schema.{Db, Invite, OrganizationMember}
use fukulow.Db.Transaction.{Server, Tx, ok, opened, pure, fail}
use fukulow.Db.Context.{Settings}
use fukulow.Db.Steps.{
  Ensures, call-then, begin-then, fetch-then, execute-then, ok_or-then, refuse_if-then, commit-then,
}
use fukulow.Audit.{invite_created, audit_row}
use fukulow.Audit.Steps.{with_audit, write-then}
use fukulow.Operations.Support.{
  Access, active_member_row, access_of, authorize, lock_actor, lock_organization,
}
use fukulow.Operations.Support.Visibility.{acting}
use fukulow.Operations.Invites.{create_invite, allow_create, insert_invite_select}
use fukulow.Operations.Acceptance.{now_v7-then}

-- The performer's active membership, with a role that may invite.
abbrev pub MayInvite : ℕ → ℕ → Db → Type 0
MayInvite performed_by organization db =
    (m : OrganizationMember) × (role : OrganizationRole.OrganizationRole) × (active_member_row
        organization performed_by (acting performed_by) db
      ≡ some m)
    × (OrganizationRole.parse m.role ≡ some role)
    × (holds role invite_member ≡ true)

-- The result of `authorize` for an access, in a transaction that differs in its tick alone.
abbrev Authorized : ℕ → ℕ → Tx → Access → Tx → Type 0
Authorized performed_by organization t access t' =
    (n : ℕ) × (t' ≡ record t { tick = n })
    × (access ≡ Access.allowed
        → (m : OrganizationMember) × (role : OrganizationRole.OrganizationRole) × (active_member_row
              organization performed_by t.settings t.db
            ≡ some m)
          × (OrganizationRole.parse m.role ≡ some role)
          × (holds role invite_member ≡ true))

allowed-holds :
    (b : Bool) → (if b then Access.allowed else Access.forbidden) ≡ Access.allowed → b ≡ true
allowed-holds true h = refl
allowed-holds false h = absurd (ground (arith, h))

access_of-Authorized :
    (server : Server) (performed_by organization : ℕ) (t : Tx) (n : ℕ)
    (row : Option OrganizationMember) (V : Type 0)
    → active_member_row organization performed_by t.settings t.db ≡ row
    → Ensures
        (Authorized performed_by organization t)
        (access_of server {V = V} row invite_member (record t { tick = n }))
unfolding access_of pure
access_of-Authorized server performed_by organization t n none V e =
    (n, refl, λ h. absurd (ground (arith, h)))
access_of-Authorized server performed_by organization t n (some m) V e =
    ok_or-then _ _ _ _ _ λ role parsed.
      (n, refl, λ h. (m, role, e, parsed, allowed-holds (holds role invite_member) h))

authorize-Authorized :
    (server : Server) (performed_by organization : ℕ) (t : Tx) (V : Type 0)
    → Ensures
        (Authorized performed_by organization t)
        (authorize server {V = V} performed_by organization invite_member t)
unfolding authorize
authorize-Authorized server performed_by organization t V =
    fetch-then server _ _ _ _
      λ n. access_of-Authorized server performed_by organization t n _ V refl

allow_create-Ensures :
    (access : Access) (t : Tx)
    → Ensures (λ _ t'. (access ≡ Access.allowed) × (t' ≡ t)) (allow_create access t)
unfolding pure fail
allow_create-Ensures Access.allowed t = (refl, refl)
allow_create-Ensures Access.forbidden t = tt
allow_create-Ensures Access.not_a_member t = tt

inserted-ok :
    (s : Settings) (db db' : Db) (row : Invite) (o : Option ℕ)
    → insert_invite_select row s db ≡ ok (o, db')
    → not (is_some o) ≡ false
    → (0 < row.max_uses) × (db' ≡ record db { invites = insert row db.invites })
unfolding insert_invite_select
inserted-ok s db db' row o e there = (ground (arith, e, there), ground (arith, e, there))

positive : (z : ℤ) → 0 < pos_part z → z ≡ pos (pos_part z)
positive (pos n) h = refl
positive (negsuc n) h = absurd (omega arith)

abbrev pub new_invite : Server → ℕ → ℕ → String → ℕ → ℕ → ℕ → Invite
new_invite server performed_by organization token_hash expires_at max_uses id = record {
  id = id;
  organization_id = organization;
  kind = "organization";
  target_team_id = none;
  token_hash = token_hash;
  expires_at = expires_at;
  max_uses = max_uses;
  used_count = 0;
  revoked_at = none;
  created_by_actor_id = performed_by;
  xmin = server.xact;
}

module _ (server : Server) {T : Type 0} (performed_by organization : ℕ)
    (new_token : Option (T × String)) (expires_at : ℕ) (max_uses : ℤ) (db : Db) where
  abbrev pub Invited : ℕ × T → Db → Type 0
  Invited (id, token) db' =
      (token_hash : String) × (event : ℕ) × (uses : ℕ) × (max_uses ≡ pos uses)
      × (0 < uses)
      × (new_token ≡ some (token, token_hash))
      × MayInvite performed_by organization db
      × (db'
          ≡ with_audit
              (record db {
                invites =
                    insert
                      (new_invite server performed_by organization token_hash expires_at uses id)
                      db.invites;
              })
              (audit_row event (invite_created organization id uses) organization performed_by))

  -- When creating an invite succeeds: the performer is an active member of the organization with a
  -- role that may invite, the number of uses is positive, one unused invite under the hash of the token
  -- that is returned is added with that number, its creation is recorded, and nothing else changes.
  pub create_invite-Invited :
      Ensures
        (λ r t. Invited r t.stored)
        (create_invite server performed_by organization new_token expires_at max_uses (opened db))
  unfolding create_invite lock_actor lock_organization pure
  create_invite-Invited = begin-then server _ _ _ _ λ _. fetch-then server _ _ _ _ λ _.
      fetch-then server _ _ _ _ λ _. refuse_if-then _ _ _ _ _ λ here.
        call-then _ _ (authorize server performed_by organization invite_member) _ _
          (authorize-Authorized server performed_by organization _ _)
          λ access t₁ (n, same, may).
            call-then _ _ (allow_create access) _ _ (allow_create-Ensures access t₁)
              λ _ t₂ (allowed, kept).
                rw (kept, same)
                  (ok_or-then _ _ _ new_token _ λ (token, token_hash) drawn.
                    now_v7-then server _ _ _ λ id.
                      execute-then server _ _ _ _ λ _ inserted db₁ done.
                        refuse_if-then _ _ _ _ _ λ there. write-then server _ _ _ _ _ _ λ _ event _.
                          commit-then server _ _ _ λ _.
                            let (some_uses, after) =
                              inserted-ok (acting performed_by) db db₁ _ inserted done there in
                            (
                              token_hash,
                              event,
                              pos_part max_uses,
                              positive max_uses some_uses,
                              some_uses,
                              drawn,
                              may allowed,
                              rw after refl,
                            ))
