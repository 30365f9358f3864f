-- ===== src/Operations/Numbering/Archive.antt =====
-- The messages of all channels over histories of calls.
use fukulow.Common.{◌≡◌, sym, ap, ◌∙◌, List, [], ◌∷◌, ◌++◌, inl, inr}
use mathlib.Core.List.{append_assoc, append-nil}
use fukulow.Domain.Identifiers.{UuidCrate}
use fukulow.Db.Schema.{Db, Channel, StoredMessage}
use fukulow.Db.Transaction.{Server}
use fukulow.Db.Keeps.{Preserves}
use fukulow.Operations.Messages.{insert_message}
use fukulow.Operations.Stable.{StableMessages}
use fukulow.Operations.Frames.{framed, counter-Writes, channel-Writes}
use fukulow.Operations.Calls.{Call, run_history}
use fukulow.Operations.Calls.Invariants.{step-Stable_all, history-induction}
use fukulow.Operations.Numbering.Statements.{
  Reads, reading-Stable, reading-StableMembers, insert_message-cases,
}

-- The messages begin with `before`.
abbrev pub Continues : List StoredMessage → List Channel → List StoredMessage → Type 0
Continues before channels messages = (added : List StoredMessage) × (messages ≡ before ++ added)

module _ (before : List StoredMessage) where
  insert-Continues :
      (row : StoredMessage) → Preserves (Reads (Continues before)) (insert_message row)
  insert-Continues row = record {
    apply = λ s db o db' (added, e) done. elim (insert_message-cases row s db o db' done) [
      | inl same ↦ rw same (added, e)
      | inr (_, after) ↦
          rw after
            (added ++ row ∷ [], ap (λ ms. ms ++ row ∷ []) e ∙ append_assoc before added (row ∷ []))
    ];
  }

  Continues-StableMessages : StableMessages (Reads (Continues before))
  Continues-StableMessages = record {
    counter = λ o c. framed (Reads (Continues before)) _ (λ _ _ h. h) (counter-Writes o c);
    message = insert-Continues;
  }

-- No message is ever edited, moved or deleted, not even when its sender leaves the service: after any
-- history of calls, whichever of their statements fail, the messages begin with the old ones as they
-- were.
pub messages-Continues :
    (uuid : UuidCrate) (history : List (Server × Call)) (db : Db)
    → Continues db.messages
        (run_history uuid history db).channels
        (run_history uuid history db).messages
messages-Continues uuid history db =
    history-induction uuid (Reads (Continues db.messages))
      (λ server call.
        step-Stable_all uuid
          (reading-Stable (Continues db.messages) (λ lower row _.
            framed (Reads (Continues db.messages)) _ (λ _ _ h. h) (channel-Writes lower row)))
          (reading-StableMembers (Continues db.messages)) (Continues-StableMessages db.messages)
          call server)
      history db ([], sym (append-nil db.messages))
