-- ===== src/Operations/Invites.antt =====
-- crates/db/src/operations/invites.rs. `new_token` is the closure's result: `none` if the random
-- generator failed, else the token and its hash. `max_uses` is an `i32`; a column that holds one is
-- positive, so a row has a natural number.
use fukulow.Common.{
  ℕ, ◌+◌, leb, ltb, String, Bool, true, false, ◌&&◌, not, Option, none, some, [], ◌∷◌, ◌==◌, str_eq,
  if◌then◌else◌, is_some, find, any, update, insert,
}
use fukulow.Common.Int.{ℤ, pos_part}
use fukulow.Domain.OrganizationRole.{invite_member}
use fukulow.Domain.InviteKind
use fukulow.Domain.InviteKind.{InviteKind}
use fukulow.Db.Schema.{Invite, Db}
use fukulow.Db.Context
use fukulow.Db.Context.{Settings}
use fukulow.Db.Policies.{active_in, sees_invite}
use fukulow.Db.Transaction.{
  Server, M, ◌>>=◌, ◌>>◌, pure, fail, ok_or, refuse_if, Statement, ok, err, OperationError, refused,
  database, denied, violates, fetch, execute, begin, commit, all_pass, now_v7,
}
use fukulow.Audit.{invite_created, invite_revoked, member_invited, write}
use fukulow.Operations.Support.{
  Access, authorize, organization_row, lock_organization, for_share, lock_actor,
}
use fukulow.Operations.Identity.{CreatePersonError, create_person, insert_member}

pub data CreateInviteError : Type 0 where
  not_a_member forbidden token_unavailable : CreateInviteError

pub data RevokeInviteError : Type 0 where
  not_a_member forbidden not_found : RevokeInviteError

pub data AcceptInviteError : Type 0 where
  invite_unusable email_taken : AcceptInviteError

-- `AccessError` has no variant of its own.
pub data AccessError : Type 0 where

-- The INSERT of `create_invite`. Its policy is that of the organization that it reads.
insert_invite : Invite → Statement (Option ℕ)
insert_invite row settings db =
    all_pass
      ((active_in settings db row.organization_id, denied)
        ∷ (ltb 0 row.max_uses, violates "invites_max_uses_check")
        ∷ (not (any (λ i. i.id == row.id) db.invites), violates "invites_pkey")
        ∷ (
          not (any (λ i. str_eq i.token_hash row.token_hash) db.invites),
          violates "invites_token_hash_key",
        )
        ∷ (
          any (λ a. a.id == row.created_by_actor_id) db.actors,
          violates "invites_created_by_actor_id_fkey",
        )
        ∷ [])
      (some row.id, record db { invites = insert row db.invites })

-- INSERT INTO invites … SELECT … FROM organizations WHERE id = $2 RETURNING id
unfoldable pub insert_invite_select : Invite → Statement (Option ℕ)
unfolding insert_invite
insert_invite_select row settings db =
    if organization_row row.organization_id settings db
    then insert_invite row settings db
    else ok (none, db)

-- The trigger `fukulow_guard_invite_use` on an update.
abbrev pub guard_invite_use : ℕ → Invite → Invite → Bool
guard_invite_use now old new =
    if not (new.used_count == old.used_count)
    then new.used_count == (old.used_count + 1)
      && ltb old.used_count old.max_uses
      && not (is_some old.revoked_at)
      && ltb now old.expires_at
      && not (is_some new.revoked_at)
    else not (is_some old.revoked_at) && is_some new.revoked_at

-- UPDATE invites SET … WHERE test, under the number of the transaction that writes.
unfoldable pub update_invites :
    Server → (Invite → Bool) → (Invite → Invite) → Statement (Option Invite)
update_invites server test set s db =
    if any
      (λ i.
        sees_invite s db i
        && test i
        && not (guard_invite_use server.now i (set i) && leb (set i).used_count (set i).max_uses))
      db.invites
    then err denied
    else ok (
      find (λ i. sees_invite s db i && test i) db.invites,
      record db {
        invites =
            update (λ i. sees_invite s db i && test i) (λ i. record (set i) { xmin = server.xact })
              db.invites;
      },
    )

abbrev pub is_invite : ℕ → ℕ → Invite → Bool
is_invite organization invite i = i.organization_id == organization && i.id == invite

-- SELECT revoked_at FROM invites WHERE organization_id = $1 AND id = $2 FOR UPDATE
unfoldable pub invite_row : ℕ → ℕ → Settings → Db → Option Invite
invite_row organization invite s db =
    find (λ i. sees_invite s db i && is_invite organization invite i) db.invites

-- `used_count < max_uses AND revoked_at IS NULL AND expires_at > now()`, by token hash
abbrev pub is_usable : ℕ → String → Invite → Bool
is_usable now token_hash i =
    str_eq i.token_hash token_hash
    && ltb i.used_count i.max_uses
    && not (is_some i.revoked_at)
    && ltb now i.expires_at

-- The query of `invite_is_usable`.
unfoldable pub usable_row : ℕ → String → Settings → Db → Option Invite
usable_row now token_hash s db =
    find (λ i. sees_invite s db i && is_usable now token_hash i && str_eq i.kind "organization")
      db.invites

unfoldable pub accepts_new_person : String → Bool
accepts_new_person kind = elim (InviteKind.parse kind) [
  | none ↦ false
  | some InviteKind.organization ↦ true
  | some InviteKind.team ↦ false
]

-- The `match` on `authorize` of `create_invite`, and of `revoke_invite`.
abbrev pub allow_create : Access → M CreateInviteError Unit
allow_create Access.allowed = pure tt
allow_create Access.forbidden = fail (refused CreateInviteError.forbidden)
allow_create Access.not_a_member = fail (refused CreateInviteError.not_a_member)

abbrev pub allow_revoke : Access → M RevokeInviteError Unit
allow_revoke Access.allowed = pure tt
allow_revoke Access.forbidden = fail (refused RevokeInviteError.forbidden)
allow_revoke Access.not_a_member = fail (refused RevokeInviteError.not_a_member)

-- `map_err` on `create_person`
abbrev pub person_error : OperationError CreatePersonError → OperationError AcceptInviteError
person_error (refused CreatePersonError.email_taken) = refused AcceptInviteError.email_taken
person_error (database e) = database e

unfoldable pub map_err : {V W A : Type 0} → (OperationError V → OperationError W) → M V A → M W A
map_err handler m t = elim (m t) [ ok r ↦ ok r | err e ↦ err (handler e) ]

module _ (server : Server) where
  -- Where `max_uses` is negative the row has 0, which the same check refuses.
  unfoldable pub create_invite :
      {T : Type 0} → ℕ → ℕ → Option (T × String) → ℕ → ℤ → M CreateInviteError (ℕ × T)
  create_invite performed_by organization new_token expires_at max_uses = do
    begin server (Context.actor performed_by)
    lock_actor server performed_by performed_by
    found ← lock_organization server organization for_share
    refuse_if (not found) CreateInviteError.not_a_member
    access ← authorize server performed_by organization invite_member
    allow_create access
    (token, token_hash) ← ok_or (refused token_unavailable) new_token
    id ← now_v7 server
    inserted ← execute server (
        insert_invite_select (record {
          id = id;
          organization_id = organization;
          kind = "organization";
          target_team_id = none;
          token_hash = token_hash;
          expires_at = expires_at;
          max_uses = pos_part max_uses;
          used_count = 0;
          revoked_at = none;
          created_by_actor_id = performed_by;
          xmin = server.xact;
        }))
    refuse_if (not (is_some inserted)) CreateInviteError.not_a_member
    write server (invite_created organization id (pos_part max_uses)) organization performed_by
    commit server
    pure (id, token)

  -- `if row.revoked_at.is_none()`
  unfoldable pub revoke_row : ℕ → ℕ → ℕ → Option ℕ → M RevokeInviteError Unit
  revoke_row performed_by organization invite (some _) = pure tt
  revoke_row performed_by organization invite none = do
    execute server (
        update_invites server (is_invite organization invite)
          (λ i. record i { revoked_at = some server.now }))
    write server (invite_revoked organization invite) organization performed_by

  unfoldable pub revoke_invite : ℕ → ℕ → Option ℕ → M RevokeInviteError Unit
  unfolding revoke_row
  revoke_invite performed_by organization invite_id = do
    begin server (Context.actor performed_by)
    lock_actor server performed_by performed_by
    found ← lock_organization server organization for_share
    refuse_if (not found) RevokeInviteError.not_a_member
    access ← authorize server performed_by organization invite_member
    allow_revoke access
    invite ← ok_or (refused not_found) invite_id
    row_found ← fetch server (invite_row organization invite)
    row ← ok_or (refused not_found) row_found
    revoke_row performed_by organization invite row.revoked_at
    commit server

  unfoldable pub invite_is_usable : String → M AccessError Bool
  invite_is_usable token_hash = do
    begin server (Context.invite_token token_hash)
    found ← fetch server (usable_row server.now token_hash)
    commit server
    pure (is_some found)

  unfoldable pub accept_invite : String → String → String → String → M AcceptInviteError (ℕ × ℕ)
  accept_invite token_hash email password_hash display_name = do
    begin server (Context.invite_token token_hash)
    used ← execute server (
        update_invites server (is_usable server.now token_hash)
          (λ i. record i { used_count = i.used_count + 1 }))
    row ← ok_or (refused invite_unusable) used
    refuse_if (not (accepts_new_person row.kind)) invite_unusable
    actor ← map_err person_error (create_person server email password_hash display_name)
    execute server (
        insert_member server (record {
          organization_id = row.organization_id;
          actor_id = actor;
          role = "member";
          status = "active";
          display_name = none;
        }))
    write server (member_invited actor row.id) row.organization_id actor
    commit server
    pure (actor, row.organization_id)
