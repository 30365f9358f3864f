-- ===== src/Operations/Membership/Steps.antt =====
-- Rules that run the helpers of the membership operations forward.
use fukulow.Common.{ℕ, ◌≡◌, refl, Bool, true, false, Option, none, some, arith, update, ◌&&◌}
use fukulow.Domain.OrganizationRole
use fukulow.Domain.OrganizationRole.{OrganizationRole}
use fukulow.Domain.MemberStatus
use fukulow.Domain.MemberStatus.{MemberStatus}
use fukulow.Domain.Owners.{OwnerChange, OwnerCheck, check_owner_change}
use fukulow.Db.Schema.{OrganizationMember, Db}
use fukulow.Db.Context.{Settings}
use fukulow.Db.Policies.{sees_member}
use fukulow.Db.Transaction.{Server, Tx, M, ok, ◌>>=◌, pure, fail}
use fukulow.Db.Steps.{Ensures, call-then, pure-then, fetch-then, ok_or-then}
use fukulow.Operations.Support.{member_row, owner_rows, active_owners}
use fukulow.Operations.Membership.{
  same_role, same_status, member, decode, guard_owner, update_member, is_member, or_last_owner,
}

abbrev pub updated : ℕ → ℕ → (OrganizationMember → OrganizationMember) → Settings → Db → Db
updated organization actor set settings db = record db {
  organization_members =
      update (λ m. sees_member settings db m && is_member organization actor m) set
        db.organization_members;
}

pub update_member-ok :
    (organization actor : ℕ) (set : OrganizationMember → OrganizationMember) (settings : Settings)
    (db : Db) (u : Unit) (db' : Db)
    → update_member organization actor set settings db ≡ ok (u, db')
    → db' ≡ updated organization actor set settings db
unfolding update_member
update_member-ok organization actor set settings db u db' h = ground arith

-- A row that is found decodes to its role and status.
abbrev pub Decoded : OrganizationMember → OrganizationRole → MemberStatus → Type 0
Decoded row role status =
    (OrganizationRole.parse row.role ≡ some role) × (MemberStatus.parse row.status ≡ some status)

abbrev pub Member : ℕ → ℕ → Settings → Db → Option (OrganizationRole × MemberStatus) → Type 0
Member organization actor s db none = member_row organization actor s db ≡ none
Member organization actor s db (some (role, status)) =
    (row : OrganizationMember) × (member_row organization actor s db ≡ some row)
    × Decoded row role status

decode-Ensures :
    (V : Type 0) (organization actor : ℕ) (s : Settings) (db : Db)
    (P : Option (OrganizationRole × MemberStatus) → Tx → Type 0) (t : Tx)
    (o : Option OrganizationMember)
    → member_row organization actor s db ≡ o
    → ((r : Option (OrganizationRole × MemberStatus)) → Member organization actor s db r → P r t)
    → Ensures P (decode {V = V} o t)
unfolding decode pure
decode-Ensures V organization actor s db P t none e h = h none e
decode-Ensures V organization actor s db P t (some row) e h =
    ok_or-then _ t _ (OrganizationRole.parse row.role) _ λ role p.
      ok_or-then _ t _ (MemberStatus.parse row.status) _
        λ status q. h (some (role, status)) (row, e, (p, q))

or_last_owner-Ensures :
    {V : Type 0} (v : V) (Q : Unit → Tx → Type 0) (t : Tx) (check : OwnerCheck)
    → (check ≡ OwnerCheck.ok → Q tt t)
    → Ensures Q (or_last_owner v check t)
unfolding pure fail
or_last_owner-Ensures v Q t OwnerCheck.ok h = h refl
or_last_owner-Ensures v Q t (OwnerCheck.err e) h = tt

module _ (server : Server) {V B : Type 0} (Q : B → Tx → Type 0) (t : Tx) where
  pub member-then :
      (organization actor : ℕ) (f : Option (OrganizationRole × MemberStatus) → M V B)
      → ((n : ℕ) (r : Option (OrganizationRole × MemberStatus))
          → Member organization actor t.settings t.db r
          → Ensures Q (f r (record t { tick = n })))
      → Ensures Q ((member server organization actor >>= f) t)
  unfolding member
  member-then organization actor f h =
      call-then Q t (member server organization actor) f
        (λ r t'.
          (n : ℕ) × Member organization actor t.settings t.db r × (t' ≡ record t { tick = n }))
        (fetch-then server _ t _ _ λ n.
          decode-Ensures V organization actor t.settings t.db _ (record t { tick = n }) _ refl
            λ r m. (n, m, refl))
        (λ r t' (n, m, e). rw e (h n r m))

  pub guard_owner-then :
      (v : V) (guarded : Bool) (organization : ℕ) (change : OwnerChange) (f : Unit → M V B)
      → ((n : ℕ)
          → (guarded ≡ true
              → check_owner_change (owner_rows organization t.settings t.db) change ≡ OwnerCheck.ok)
          → Ensures Q (f tt (record t { tick = n })))
      → Ensures Q ((guard_owner server v guarded organization change >>= f) t)
  unfolding guard_owner active_owners
  guard_owner-then v true organization change f h =
      call-then Q t (guard_owner server v true organization change) f
        (λ _ t'.
          (n : ℕ) × (check_owner_change (owner_rows organization t.settings t.db) change
            ≡ OwnerCheck.ok)
          × (t' ≡ record t { tick = n }))
        (fetch-then server _ t _ _
          λ n. or_last_owner-Ensures v _ (record t { tick = n }) _ λ e. (n, e, refl))
        (λ u t' (n, e, q). rw q (h n λ _. e))
  guard_owner-then v false organization change f h = pure-then Q t tt f (h t.tick λ e. cc)

pub Member-found :
    (organization actor : ℕ) (s : Settings) (db : Db) (r : Option (OrganizationRole × MemberStatus))
    (role : OrganizationRole) (status : MemberStatus)
    → Member organization actor s db r
    → r ≡ some (role, status)
    → Member organization actor s db (some (role, status))
Member-found organization actor s db r role status m e = rw e at m

pub same_status→eq : (a b : MemberStatus) → same_status a b ≡ true → a ≡ b
same_status→eq MemberStatus.active MemberStatus.active h = refl
same_status→eq MemberStatus.suspended MemberStatus.suspended h = refl
same_status→eq MemberStatus.left MemberStatus.left h = refl
same_status→eq MemberStatus.active MemberStatus.suspended h = ground arith
same_status→eq MemberStatus.active MemberStatus.left h = ground arith
same_status→eq MemberStatus.suspended MemberStatus.active h = ground arith
same_status→eq MemberStatus.suspended MemberStatus.left h = ground arith
same_status→eq MemberStatus.left MemberStatus.active h = ground arith
same_status→eq MemberStatus.left MemberStatus.suspended h = ground arith

pub same_role→eq : (a b : OrganizationRole) → same_role a b ≡ true → a ≡ b
same_role→eq OrganizationRole.owner OrganizationRole.owner h = refl
same_role→eq OrganizationRole.admin OrganizationRole.admin h = refl
same_role→eq OrganizationRole.member OrganizationRole.member h = refl
same_role→eq OrganizationRole.owner OrganizationRole.admin h = ground arith
same_role→eq OrganizationRole.owner OrganizationRole.member h = ground arith
same_role→eq OrganizationRole.admin OrganizationRole.owner h = ground arith
same_role→eq OrganizationRole.admin OrganizationRole.member h = ground arith
same_role→eq OrganizationRole.member OrganizationRole.owner h = ground arith
same_role→eq OrganizationRole.member OrganizationRole.admin h = ground arith
