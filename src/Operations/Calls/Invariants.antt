-- ===== src/Operations/Calls/Invariants.antt =====
-- A property that every statement keeps holds after any history.
use fukulow.Common.{List, [], ◌∷◌}
use fukulow.Domain.Identifiers.{UuidCrate}
use fukulow.Db.Schema.{Db}
use fukulow.Db.Transaction.{Server}
use fukulow.Db.Keeps.{run-Keeps}
use fukulow.Operations.Stable.{Stable, StableMembers, StableMessages}
use fukulow.Operations.Keeps.{
  create_team-Keeps, add_team_member-Keeps, change_team_member_role-Keeps, remove_team_member-Keeps,
  create_channel-Keeps, add_channel_member-Keeps, create_organization-Keeps, create_invite-Keeps,
  revoke_invite-Keeps, accept_invite-Keeps, revoke_session-Keeps, sign_in-Keeps,
}
use fukulow.Operations.Keeps.Leaving.{leave_service-Keeps}
use fukulow.Operations.Keeps.Membership.{
  change_member_role-Keeps, suspend_member-Keeps, reactivate_member-Keeps,
}
use fukulow.Operations.Keeps.Messages.{post_message-Keeps}
use fukulow.Operations.Calls.{
  Call, create_organization, change_member_role, suspend_member, reactivate_member, create_team,
  add_team_member, change_team_member_role, remove_team_member, create_channel, add_channel_member,
  post_message, create_invite, revoke_invite, accept_invite, sign_in, revoke_session, leave_service,
  step, run_history,
}

-- The calls whose writes depend on one another.
abbrev pub Entangled : Call → Type 0
Entangled (change_member_role _ _ _ _) = Unit
Entangled (suspend_member _ _ _) = Unit
Entangled (reactivate_member _ _ _) = Unit
Entangled (leave_service _) = Unit
Entangled (post_message _ _ _ _ _) = Unit
Entangled _ = ⊥

module _ (uuid : UuidCrate) {P : Db → Type 0} (stable : Stable P) where
  -- Every call keeps the property, if an entangled one does.
  pub step-Stable :
      (call : Call) (server : Server) (db : Db)
      → P db
      → (Entangled call → P (step uuid server call db))
      → P (step uuid server call db)
  unfolding step
  step-Stable (change_member_role by o a r) server db h rest = rest tt
  step-Stable (suspend_member by o a) server db h rest = rest tt
  step-Stable (reactivate_member by o a) server db h rest = rest tt
  step-Stable (leave_service a) server db h rest = rest tt
  step-Stable (post_message o c a id body) server db h rest = rest tt
  step-Stable (create_organization by name slug) server db h rest =
      run-Keeps P _ db (create_organization-Keeps stable server by name slug) h
  step-Stable (create_team by o name) server db h rest =
      run-Keeps P _ db (create_team-Keeps stable server by o name) h
  step-Stable (add_team_member by o t a r) server db h rest =
      run-Keeps P _ db (add_team_member-Keeps stable server by o t a r) h
  step-Stable (change_team_member_role by o t a r) server db h rest =
      run-Keeps P _ db (change_team_member_role-Keeps stable server by o t a r) h
  step-Stable (remove_team_member by o t a) server db h rest =
      run-Keeps P _ db (remove_team_member-Keeps stable server by o t a) h
  step-Stable (create_channel by o scope name) server db h rest =
      run-Keeps P _ db (create_channel-Keeps stable server by o scope name) h
  step-Stable (add_channel_member by o c a) server db h rest =
      run-Keeps P _ db (add_channel_member-Keeps stable server by o c a) h
  step-Stable (create_invite by o token expires max) server db h rest =
      run-Keeps P _ db (create_invite-Keeps stable server by o token expires max) h
  step-Stable (revoke_invite by o i) server db h rest =
      run-Keeps P _ db (revoke_invite-Keeps stable server by o i) h
  step-Stable (accept_invite hash email password name) server db h rest =
      run-Keeps P _ db (accept_invite-Keeps stable server hash email password name) h
  step-Stable (revoke_session a hash) server db h rest =
      run-Keeps P _ db (revoke_session-Keeps stable server a hash) h
  step-Stable (sign_in email verify token expires) server db h rest =
      run-Keeps P _ db (sign_in-Keeps stable server email verify token expires (λ d. d) (λ _ p. p))
        h

  -- With no entanglement at all.
  pub step-Stable_all :
      StableMembers P
      → StableMessages P
      → (call : Call) (server : Server) (db : Db) → P db
      → P (step uuid server call db)
  unfolding step
  step-Stable_all members messages call server db h = step-Stable call server db h (rest call)
    where
      rest : (call : Call) → Entangled call → P (step uuid server call db)
      rest (change_member_role by o a r) e =
          run-Keeps P _ db (change_member_role-Keeps stable members server by o a r) h
      rest (suspend_member by o a) e =
          run-Keeps P _ db (suspend_member-Keeps stable members server by o a) h
      rest (reactivate_member by o a) e =
          run-Keeps P _ db (reactivate_member-Keeps stable members server by o a) h
      rest (leave_service a) e =
          run-Keeps P _ db (leave_service-Keeps stable server a (λ o. members.departure o a)) h
      rest (post_message o c a id body) e =
          run-Keeps P _ db (post_message-Keeps P uuid messages server o c a id body) h
      rest call e = absurd e

-- Induction over a history.
pub history-induction :
    (uuid : UuidCrate) (P : Db → Type 0)
    → ((server : Server) (call : Call) (db : Db) → P db → P (step uuid server call db))
    → (history : List (Server × Call)) (db : Db) → P db
    → P (run_history uuid history db)
unfolding run_history
history-induction uuid P keep [] db h = h
history-induction uuid P keep ((server, call) ∷ rest) db h =
    history-induction uuid P keep rest _ (keep server call db h)
