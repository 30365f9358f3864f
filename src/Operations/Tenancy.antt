-- ===== src/Operations/Tenancy.antt =====
-- The operations of an organization are for its active members.
use fukulow.Common.{
  ℕ, ◌≡◌, refl, Bool, true, false, not, Option, some, List, [], ◌∷◌, find, ==_iff, arith,
  Bool-cases, Option-cases, String, inl, inr,
}
use fukulow.Domain.Identifiers.{UuidCrate, MessageId}
use fukulow.Db.Schema.{Db, Channel}
use fukulow.Db.Context
use fukulow.Db.Context.{Settings}
use fukulow.Db.Policies.{active_in, sees_channel}
use fukulow.Db.Transaction.{
  Server, Tx, M, Result, ok, err, ◌>>=◌, ◌>>◌, OperationError, opened, outcome, begin, refuse_if,
  run,
}
use fukulow.Db.Steps.{Ensures, begin-then, fetch-then, refuse_if-then, execute-then, ok_or-then}
use fukulow.Operations.Support.{
  OrganizationLock, for_update, for_share, lock_organization, lock_actor,
}
use fukulow.Operations.Support.Visibility.{acting, organization_row-active}
use fukulow.Operations.Membership
use fukulow.Operations.Teams
use fukulow.Operations.Channels
use fukulow.Operations.Messages
use fukulow.Operations.Messages.{is_channel, advance_counter}
use fukulow.Operations.Invites
use fukulow.Operations.Calls.{
  Call, change_member_role, suspend_member, reactivate_member, create_team, add_team_member,
  change_team_member_role, remove_team_member, create_channel, add_channel_member, post_message,
  create_invite, revoke_invite, step,
}

pub always : {E A : Type 0} (P : Type 0) (r : Result E (A × Tx)) → P → Ensures (λ _ _. P) r
always P (ok (a, t)) p = p
always P (err e) p = tt

-- The way the operations of an organization begin: a success has met an active member.
gate :
    (server : Server) {V B : Type 0} (lock : OrganizationLock) (by organization actor : ℕ) (v : V)
    (k : Option Bool → M V B) (db : Db)
    → Ensures
        (λ _ _. active_in (acting by) db organization ≡ true)
        ((begin server (Context.actor by)
            >> (lock_actor server actor by >>= λ departed.
                lock_organization server organization lock >>= λ found.
                refuse_if (not found) v >> k departed))
          (opened db))
unfolding lock_actor lock_organization
gate server for_update by organization actor v k db = begin-then server _ _ _ _ λ _.
    fetch-then server _ _ _ _ λ _. fetch-then server _ _ _ _ λ _.
      refuse_if-then _ _ _ _ _
        λ visible. always _ _ (organization_row-active organization (acting by) db (ground arith))
gate server for_share by organization actor v k db = begin-then server _ _ _ _ λ _.
    fetch-then server _ _ _ _ λ _. fetch-then server _ _ _ _ λ _.
      refuse_if-then _ _ _ _ _
        λ visible. always _ _ (organization_row-active organization (acting by) db (ground arith))

-- A call that only an active member completes leaves the tables to an outsider as they are.
unchanged :
    {V A : Type 0} (db : Db) (member : Bool) (m : M V A)
    → Ensures (λ _ _. member ≡ true) (m (opened db))
    → not member ≡ true
    → (run m db).1 ≡ db
unfolding run
unchanged {V} {A} db member m h outside = settled (m (opened db)) h
  where
    settled :
        (r : Result (OperationError V) (A × Tx))
        → Ensures (λ _ _. member ≡ true) r
        → (outcome db r).1 ≡ db
    settled (ok (a, t)) p = absurd (ground (arith, p, outside))
    settled (err e) p = refl

pub found_channel :
    (organization channel : ℕ) (s : Settings) (db : Db) (cs : List Channel) (c : Channel)
    → find (is_channel s db organization channel) cs ≡ some c
    → active_in s db organization ≡ true
unfolding sees_channel
found_channel organization channel s db [] c h = absurd (ground arith)
found_channel organization channel s db (x ∷ xs) c h =
    elim (Bool-cases (is_channel s db organization channel x)) [
      | inl hit ↦
          rw ((==_iff x.organization_id organization).0 (ground (arith, hit))) at (seen x hit)
      | inr miss ↦ found_channel organization channel s db xs c (rw miss at h)
    ]
  where
    seen :
        (x : Channel)
        → is_channel s db organization channel x ≡ true
        → active_in s db x.organization_id ≡ true
    seen x hit = ground (arith, hit)

-- Whether the call is an operation of an organization whose performer is no active member.
abbrev pub is_outsider : Db → Call → Bool
is_outsider db (change_member_role by o a r) = not (active_in (acting by) db o)
is_outsider db (suspend_member by o a) = not (active_in (acting by) db o)
is_outsider db (reactivate_member by o a) = not (active_in (acting by) db o)
is_outsider db (create_team by o name) = not (active_in (acting by) db o)
is_outsider db (add_team_member by o t a r) = not (active_in (acting by) db o)
is_outsider db (change_team_member_role by o t a r) = not (active_in (acting by) db o)
is_outsider db (remove_team_member by o t a) = not (active_in (acting by) db o)
is_outsider db (create_channel by o scope name) = not (active_in (acting by) db o)
is_outsider db (add_channel_member by o c a) = not (active_in (acting by) db o)
is_outsider db (create_invite by o token expires max) = not (active_in (acting by) db o)
is_outsider db (revoke_invite by o i) = not (active_in (acting by) db o)
is_outsider db (post_message o c sender id body) = not (active_in (acting sender) db o)
is_outsider db _ = false

advance_counter-active :
    (organization channel : ℕ) (s : Settings) (db : Db) (counter : Option ℕ) (db' : Db) (seq : ℕ)
    → advance_counter organization channel s db ≡ ok (counter, db')
    → counter ≡ some seq
    → active_in s db organization ≡ true
unfolding advance_counter
advance_counter-active organization channel s db counter db' seq h e =
    elim (Option-cases (find (is_channel s db organization channel) db.channels)) [
      | inl missing ↦ absurd (ground (arith, rw missing at h, e))
      | inr (c, found) ↦ found_channel organization channel s db db.channels c found
    ]

post_message-active :
    (uuid : UuidCrate) (server : Server) (organization channel sender : ℕ) (id : MessageId)
    (body : String) (db : Db)
    → Ensures
        (λ _ _. active_in (acting sender) db organization ≡ true)
        (Messages.post_message uuid server organization channel sender id body (opened db))
unfolding Messages.post_message
post_message-active uuid server organization channel sender id body db =
    refuse_if-then _ _ _ _ _ λ short. begin-then server _ _ _ _ λ _.
      execute-then server _ _ _ _ λ _ counter db' done. ok_or-then _ _ _ counter _ λ seq counted.
        always _ _ (
          advance_counter-active organization channel (acting sender) db counter db' seq done
            counted)

-- An operation of an organization leaves the tables as they are when its performer is not an active
-- member there.
pub is_outsider-step :
    (uuid : UuidCrate) (server : Server) (call : Call) (db : Db)
    → is_outsider db call ≡ true
    → step uuid server call db ≡ db
unfolding step Membership.change_member_role Membership.suspend_member Membership.reactivate_member
    Teams.create_team Teams.add_team_member Teams.change_team_member_role Teams.remove_team_member
    Channels.create_channel Channels.add_channel_member Invites.create_invite Invites.revoke_invite
is_outsider-step uuid server (change_member_role by o a r) db out =
    unchanged db _ _ (gate server for_update by o by _ _ db) out
is_outsider-step uuid server (suspend_member by o a) db out =
    unchanged db _ _ (gate server for_update by o by _ _ db) out
is_outsider-step uuid server (reactivate_member by o a) db out =
    unchanged db _ _ (gate server for_update by o a _ _ db) out
is_outsider-step uuid server (create_team by o name) db out =
    unchanged db _ _ (gate server for_update by o by _ _ db) out
is_outsider-step uuid server (add_team_member by o t a r) db out =
    unchanged db _ _ (gate server for_update by o a _ _ db) out
is_outsider-step uuid server (change_team_member_role by o t a r) db out =
    unchanged db _ _ (gate server for_update by o by _ _ db) out
is_outsider-step uuid server (remove_team_member by o t a) db out =
    unchanged db _ _ (gate server for_update by o by _ _ db) out
is_outsider-step uuid server (create_channel by o scope name) db out =
    unchanged db _ _ (gate server for_update by o by _ _ db) out
is_outsider-step uuid server (add_channel_member by o c a) db out =
    unchanged db _ _ (gate server for_update by o a _ _ db) out
is_outsider-step uuid server (create_invite by o token expires max) db out =
    unchanged db _ _ (gate server for_share by o by _ _ db) out
is_outsider-step uuid server (revoke_invite by o i) db out =
    unchanged db _ _ (gate server for_share by o by _ _ db) out
is_outsider-step uuid server (post_message o c sender id body) db out =
    unchanged db _ _ (post_message-active uuid server o c sender id body db) out
is_outsider-step uuid server call db out = absurd (ground arith)
