-- ===== src/Operations/RevokedInvites.antt =====
-- A revoked invite, over histories of calls.
use fukulow.Common.{
  ℕ, ◌+◌, ◌≡◌, String, Bool, true, ◌&&◌, some, List, ◌==◌, ==_refl, any, is_some, arith, inl, inr,
}
use fukulow.Common.RowLaws.{any-insert_old, any-update_missed, any-never, any-false}
use fukulow.Domain.Identifiers.{UuidCrate}
use fukulow.Db.Schema.{Db, Invite}
use fukulow.Db.Transaction.{Server}
use fukulow.Db.Policies.{sees_invite}
use fukulow.Db.Keeps.{Preserves}
use fukulow.Operations.Facts.{insert_invite_select-ok, update_invites-ok}
use fukulow.Operations.Invites.{insert_invite_select, update_invites, is_invite, is_usable}
use fukulow.Operations.Stable.{Stable, StableMembers, StableMessages}
use fukulow.Operations.Frames.{
  framed, audit-Writes, team-Writes, team_member-Writes, team_role-Writes, team_removal-Writes,
  channel-Writes, channel_member-Writes, actor-Writes, user-Writes, organization-Writes,
  member-Writes, session-Writes, session_revocation-Writes, team_rows-Writes, listing_rows-Writes,
  departure-Writes, counter-Writes, message-Writes, member_update-Writes, user_removal-Writes,
}
use fukulow.Operations.Calls.{Call, run_history}
use fukulow.Operations.Calls.Invariants.{step-Stable_all, history-induction}

-- The invite of an id, revoked, with so many uses.
abbrev pub is_revoked : ℕ → ℕ → Invite → Bool
is_revoked id uses i = i.id == id && is_some i.revoked_at && i.used_count == uses

module _ (id uses : ℕ) where
  abbrev pub IsRevoked : Db → Type 0
  IsRevoked db = any (is_revoked id uses) db.invites ≡ true

  insert-IsRevoked : (row : Invite) → Preserves IsRevoked (insert_invite_select row)
  insert-IsRevoked row = record {
    apply = λ s db o db' h e. elim (insert_invite_select-ok s db db' row o e) [
      | inl same ↦ rw same h
      | inr (_, done) ↦ rw done (any-insert_old (is_revoked id uses) row db.invites h)
    ];
  }

  use-IsRevoked :
      (server : Server) (token_hash : String)
      → Preserves IsRevoked (
          update_invites server
            (is_usable server.now token_hash)
            (λ i. record i { used_count = i.used_count + 1 }))
  use-IsRevoked server token_hash = record {
    apply = λ s db o db' h e.
        let (_, _, done) = update_invites-ok s db db' server _ _ o e in
        rw done (
          any-update_missed (is_revoked id uses) _ _ db.invites
            (any-never
              (λ i.
                (sees_invite s db i && is_usable server.now token_hash i) && is_revoked id uses i)
              db.invites (λ i. ground arith))
            h);
  }

  revocation-IsRevoked :
      (server : Server) (organization invite : ℕ)
      → Preserves IsRevoked (
          update_invites server
            (is_invite organization invite)
            (λ i. record i { revoked_at = some server.now }))
  revocation-IsRevoked server organization invite = record {
    apply = λ s db o db' h e.
        let (checked, _, done) = update_invites-ok s db db' server _ _ o e in
        rw done (
          any-update_missed (is_revoked id uses) _ _ db.invites
            (any-false
              (λ i. (sees_invite s db i && is_invite organization invite i) && is_revoked id uses i)
              _ db.invites (λ i hit. ground (arith, hit, ==_refl i.used_count)) checked)
            h);
  }

  IsRevoked-Stable : Stable IsRevoked
  IsRevoked-Stable = record {
    audit = λ row. framed IsRevoked _ (λ _ _ h. h) (audit-Writes row);
    team = λ row. framed IsRevoked _ (λ _ _ h. h) (team-Writes row);
    team_member = λ row. framed IsRevoked _ (λ _ _ h. h) (team_member-Writes row);
    team_role = λ o t a r. framed IsRevoked _ (λ _ _ h. h) (team_role-Writes o t a r);
    team_removal = λ o t a. framed IsRevoked _ (λ _ _ h. h) (team_removal-Writes o t a);
    channel = λ lower row _. framed IsRevoked _ (λ _ _ h. h) (channel-Writes lower row);
    channel_member = λ o c a. framed IsRevoked _ (λ _ _ h. h) (channel_member-Writes o c a);
    actor = λ row. framed IsRevoked _ (λ _ _ h. h) (actor-Writes row);
    user = λ lower row. framed IsRevoked _ (λ _ _ h. h) (user-Writes lower row);
    organization = λ row. framed IsRevoked _ (λ _ _ h. h) (organization-Writes row);
    member = λ server row. framed IsRevoked _ (λ _ _ h. h) (member-Writes server row);
    invite = λ row _. insert-IsRevoked row;
    invite_use = use-IsRevoked;
    invite_revocation = revocation-IsRevoked;
    session = λ row. framed IsRevoked _ (λ _ _ h. h) (session-Writes row);
    session_revocation =
        λ now a hash. framed IsRevoked _ (λ _ _ h. h) (session_revocation-Writes now a hash);
    team_rows = λ o a. framed IsRevoked _ (λ _ _ h. h) (team_rows-Writes o a);
    listing_rows = λ o a. framed IsRevoked _ (λ _ _ h. h) (listing_rows-Writes o a);
    user_removal = λ a. framed IsRevoked _ (λ _ _ h. h) (user_removal-Writes a);
    departure = λ now a. framed IsRevoked _ (λ _ _ h. h) (departure-Writes now a);
  }

  IsRevoked-StableMembers : StableMembers IsRevoked
  IsRevoked-StableMembers = record {
    role = λ o a r. framed IsRevoked _ (λ _ _ h. h) (member_update-Writes o a _);
    status = λ o a r. framed IsRevoked _ (λ _ _ h. h) (member_update-Writes o a _);
    departure = λ o a. framed IsRevoked _ (λ _ _ h. h) (member_update-Writes o a _);
  }

  IsRevoked-StableMessages : StableMessages IsRevoked
  IsRevoked-StableMessages = record {
    counter = λ o c. framed IsRevoked _ (λ _ _ h. h) (counter-Writes o c);
    message = λ row. framed IsRevoked _ (λ _ _ h. h) (message-Writes row);
  }

  -- An invite that is revoked stays so, and is used no more: after any history of calls, whichever of
  -- their statements fail, it is there, revoked, with the number of uses that it had.
  pub IsRevoked-run_history :
      (uuid : UuidCrate) (history : List (Server × Call)) (db : Db)
      → IsRevoked db
      → IsRevoked (run_history uuid history db)
  IsRevoked-run_history uuid history db h =
      history-induction uuid IsRevoked
        (λ server call.
          step-Stable_all uuid IsRevoked-Stable IsRevoked-StableMembers IsRevoked-StableMessages
            call server)
        history db h
