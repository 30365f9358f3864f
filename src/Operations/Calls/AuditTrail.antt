-- ===== src/Operations/Calls/AuditTrail.antt =====
-- The audit trail only grows.
use fukulow.Common.{◌≡◌, sym, ap, ◌∙◌, List, [], ◌∷◌, ◌++◌}
use mathlib.Core.List.{append_assoc, append-nil}
use fukulow.Domain.Identifiers.{UuidCrate}
use fukulow.Db.Schema.{Db, AuditEvent}
use fukulow.Db.Transaction.{Server}
use fukulow.Db.Keeps.{Preserves}
use fukulow.Audit.{insert_audit}
use fukulow.Audit.Steps.{insert_audit-ok}
use fukulow.Operations.Stable.{Stable, StableMembers, StableMessages}
use fukulow.Operations.Frames.{
  framed, team-Writes, team_member-Writes, team_role-Writes, team_removal-Writes, channel-Writes,
  channel_member-Writes, actor-Writes, user-Writes, organization-Writes, member-Writes,
  invite-Writes, updated_invites-Writes, session-Writes, session_revocation-Writes,
  team_rows-Writes, listing_rows-Writes, departure-Writes, counter-Writes, message-Writes,
  member_update-Writes, user_removal-Writes,
}
use fukulow.Operations.Calls.{Call, run_history}
use fukulow.Operations.Calls.Invariants.{step-Stable_all, history-induction}

-- The events begin with `before`.
abbrev pub Extends : List AuditEvent → Db → Type 0
Extends before db = (added : List AuditEvent) × (db.audit_events ≡ before ++ added)

module _ (before : List AuditEvent) where
  insert-Extends : (row : AuditEvent) → Preserves (Extends before) (insert_audit row)
  insert-Extends row = record {
    apply = λ s db u db' (added, e) done. (
      added ++ row ∷ [],
      rw (insert_audit-ok row s db u db' done).1
          (ap (λ xs. xs ++ row ∷ []) e ∙ append_assoc before added (row ∷ [])),
    );
  }

  Extends-Stable : Stable (Extends before)
  Extends-Stable = record {
    audit = insert-Extends;
    team = λ row. framed _ _ (λ _ _ h. h) (team-Writes row);
    team_member = λ row. framed _ _ (λ _ _ h. h) (team_member-Writes row);
    team_role = λ o t a r. framed _ _ (λ _ _ h. h) (team_role-Writes o t a r);
    team_removal = λ o t a. framed _ _ (λ _ _ h. h) (team_removal-Writes o t a);
    channel = λ lower row _. framed _ _ (λ _ _ h. h) (channel-Writes lower row);
    channel_member = λ o c a. framed _ _ (λ _ _ h. h) (channel_member-Writes o c a);
    actor = λ row. framed _ _ (λ _ _ h. h) (actor-Writes row);
    user = λ lower row. framed _ _ (λ _ _ h. h) (user-Writes lower row);
    organization = λ row. framed _ _ (λ _ _ h. h) (organization-Writes row);
    member = λ server row. framed _ _ (λ _ _ h. h) (member-Writes server row);
    invite = λ row _. framed _ _ (λ _ _ h. h) (invite-Writes row);
    invite_use = λ server hash. framed _ _ (λ _ _ h. h) (updated_invites-Writes server _ _);
    invite_revocation = λ server o i. framed _ _ (λ _ _ h. h) (updated_invites-Writes server _ _);
    session = λ row. framed _ _ (λ _ _ h. h) (session-Writes row);
    session_revocation =
        λ now a hash. framed _ _ (λ _ _ h. h) (session_revocation-Writes now a hash);
    team_rows = λ o a. framed _ _ (λ _ _ h. h) (team_rows-Writes o a);
    listing_rows = λ o a. framed _ _ (λ _ _ h. h) (listing_rows-Writes o a);
    user_removal = λ a. framed _ _ (λ _ _ h. h) (user_removal-Writes a);
    departure = λ now a. framed _ _ (λ _ _ h. h) (departure-Writes now a);
  }

  Extends-StableMembers : StableMembers (Extends before)
  Extends-StableMembers = record {
    role = λ o a r. framed _ _ (λ _ _ h. h) (member_update-Writes o a _);
    status = λ o a r. framed _ _ (λ _ _ h. h) (member_update-Writes o a _);
    departure = λ o a. framed _ _ (λ _ _ h. h) (member_update-Writes o a _);
  }

  Extends-StableMessages : StableMessages (Extends before)
  Extends-StableMessages = record {
    counter = λ o c. framed _ _ (λ _ _ h. h) (counter-Writes o c);
    message = λ row. framed _ _ (λ _ _ h. h) (message-Writes row);
  }

-- Whatever calls are made, and whichever of their statements fail, the recorded events stay as
-- they are and in their order: new events are appended.
pub audit_events-Extends :
    (uuid : UuidCrate) (history : List (Server × Call)) (db : Db)
    → Extends db.audit_events (run_history uuid history db)
audit_events-Extends uuid history db =
    history-induction uuid (Extends db.audit_events)
      (λ server call.
        step-Stable_all uuid (Extends-Stable _) (Extends-StableMembers _) (Extends-StableMessages _)
          call server)
      history db ([], sym (append-nil db.audit_events))
