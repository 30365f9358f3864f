-- ===== src/HistoryExamples.antt =====
-- Further theorems on crates/db at concrete tables and histories.
use fukulow.Common.{Option, refl, String, none, some, map, List, [], ◌∷◌, arith}
use fukulow.Common.Int.{pos}
use fukulow.Db.Transaction.{opened}
use fukulow.Db.Steps.{Ensures}
use fukulow.Operations.Invites.{create_invite}
use fukulow.Operations.Calls
use fukulow.Operations.Calls.{Call, step, run_history}
use fukulow.Db.Schema.{Db, Invite}
use fukulow.Operations.RevokedInvites.{IsRevoked, IsRevoked-run_history}
use fukulow.Operations.Numbering.Archive.{Continues, messages-Continues}
use fukulow.Operations.InviteEffects.{Invited, create_invite-Invited}
use fukulow.Db.Transaction.{Server}
use fukulow.Operations.Numbering.Statements.{AreCounted, AreNumberedOnce}
use fukulow.Operations.Numbering.History.{AreCounted-run_history}
use fukulow.Tests.{uuid_crate, calm, tables, invited_tables, history, hello}

-- The tables with a channel in which nothing has been posted.
abbrev silent_tables : Db
silent_tables = record tables {
  channels =
      record {
        id = 40;
        organization_id = 10;
        team_id = none;
        scope = "organization";
        name = "general";
        next_message_seq = 0;
      }
      ∷ [];
}

abbrev posts : List (Server × Call)
posts =
    (calm, Calls.post_message 10 40 3 hello "Hello")
    ∷ (calm, Calls.post_message 10 40 3 hello "Hello")
    ∷ []

AreCounted-run_history_example :
    AreCounted
      (run_history uuid_crate posts silent_tables).channels
      (run_history uuid_crate posts silent_tables).messages
    × AreNumberedOnce (run_history uuid_crate posts silent_tables).messages
AreCounted-run_history_example =
    AreCounted-run_history uuid_crate posts silent_tables
      ((refl, tt), (λ n low high. absurd (omega arith), tt), tt) tt

-- The tables with an invite that has been used once and then revoked.
abbrev revoked_tables : Db
revoked_tables = record tables {
  invites = map (λ (i : Invite). record i { revoked_at = some 90 }) invited_tables.invites;
}

IsRevoked-run_history_example : IsRevoked 60 1 (run_history uuid_crate history revoked_tables)
IsRevoked-run_history_example = IsRevoked-run_history 60 1 uuid_crate history revoked_tables refl

messages-Continues_example :
    Continues silent_tables.messages
      (run_history uuid_crate posts silent_tables).channels
      (run_history uuid_crate posts silent_tables).messages
messages-Continues_example = messages-Continues uuid_crate posts silent_tables

abbrev drawn_token : Option (String × String)
drawn_token = some ("token", "hash")

create_invite-Invited_example :
    Ensures
      (λ r t. Invited calm 1 10 drawn_token 200 (pos 3) tables r t.stored)
      (create_invite calm 1 10 drawn_token 200 (pos 3) (opened tables))
create_invite-Invited_example = create_invite-Invited calm 1 10 drawn_token 200 (pos 3) tables
