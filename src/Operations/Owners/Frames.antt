-- ===== src/Operations/Owners/Frames.antt =====
-- A test that some membership passes is kept by every statement but the updates of memberships.
use fukulow.Common.{◌≡◌, Bool, true, any}
use fukulow.Common.RowLaws.{any-insert_old}
use fukulow.Db.Schema.{Db, OrganizationMember}
use fukulow.Db.Transaction.{Server}
use fukulow.Db.Keeps.{Preserves}
use fukulow.Operations.Identity.{insert_member}
use fukulow.Operations.Facts.{insert_member-ok}
use fukulow.Operations.Stable.{Stable, StableMessages}
use fukulow.Operations.Frames.{
  framed, audit-Writes, team-Writes, team_member-Writes, team_role-Writes, team_removal-Writes,
  channel-Writes, channel_member-Writes, actor-Writes, user-Writes, organization-Writes,
  invite-Writes, updated_invites-Writes, session-Writes, session_revocation-Writes,
  team_rows-Writes, listing_rows-Writes, departure-Writes, counter-Writes, message-Writes,
  user_removal-Writes,
}

module _ (test : OrganizationMember → Bool) where
  abbrev pub Passes : Db → Type 0
  Passes db = any test db.organization_members ≡ true

  insert_member-Passes :
      (server : Server) (row : OrganizationMember) → Preserves Passes (insert_member server row)
  insert_member-Passes server row = record {
    apply = λ s db u db' h e.
        let (_, _, _, done) = insert_member-ok s db db' server row u e in
        rw done (any-insert_old test row db.organization_members h);
  }

  pub Passes-Stable : Stable Passes
  Passes-Stable = record {
    audit = λ row. framed Passes _ (λ _ _ h. h) (audit-Writes row);
    team = λ row. framed Passes _ (λ _ _ h. h) (team-Writes row);
    team_member = λ row. framed Passes _ (λ _ _ h. h) (team_member-Writes row);
    team_role = λ o t a r. framed Passes _ (λ _ _ h. h) (team_role-Writes o t a r);
    team_removal = λ o t a. framed Passes _ (λ _ _ h. h) (team_removal-Writes o t a);
    channel = λ lower row _. framed Passes _ (λ _ _ h. h) (channel-Writes lower row);
    channel_member = λ o c a. framed Passes _ (λ _ _ h. h) (channel_member-Writes o c a);
    actor = λ row. framed Passes _ (λ _ _ h. h) (actor-Writes row);
    user = λ lower row. framed Passes _ (λ _ _ h. h) (user-Writes lower row);
    organization = λ row. framed Passes _ (λ _ _ h. h) (organization-Writes row);
    member = λ server row. insert_member-Passes server row;
    invite = λ row _. framed Passes _ (λ _ _ h. h) (invite-Writes row);
    invite_use = λ server hash. framed Passes _ (λ _ _ h. h) (updated_invites-Writes server _ _);
    invite_revocation =
        λ server o i. framed Passes _ (λ _ _ h. h) (updated_invites-Writes server _ _);
    session = λ row. framed Passes _ (λ _ _ h. h) (session-Writes row);
    session_revocation =
        λ now a hash. framed Passes _ (λ _ _ h. h) (session_revocation-Writes now a hash);
    team_rows = λ o a. framed Passes _ (λ _ _ h. h) (team_rows-Writes o a);
    listing_rows = λ o a. framed Passes _ (λ _ _ h. h) (listing_rows-Writes o a);
    user_removal = λ a. framed Passes _ (λ _ _ h. h) (user_removal-Writes a);
    departure = λ now a. framed Passes _ (λ _ _ h. h) (departure-Writes now a);
  }

  pub Passes-StableMessages : StableMessages Passes
  Passes-StableMessages = record {
    counter = λ o c. framed Passes _ (λ _ _ h. h) (counter-Writes o c);
    message = λ row. framed Passes _ (λ _ _ h. h) (message-Writes row);
  }
