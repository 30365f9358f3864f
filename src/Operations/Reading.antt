-- ===== src/Operations/Reading.antt =====
-- Who reads the messages of a channel.
pub mod Picks
pub mod Pages
use fukulow.Common.{
  ℕ, ◌≡◌, ◌≤◌, ◌<◌, ◌⊎◌, refl, Bool, true, false, ◌&&◌, not, Option, none, some, List, [], ◌∷◌,
  arith, ltb, ◌==◌, ==_iff, Bool-cases, Option-cases, inl, inr, is_some,
}
use fukulow.Common.Int.{ℤ, pos, negsuc, ltb_ℤ}
use fukulow.Common.Order.{ascending, descending}
use fukulow.Common.Order.Laws.{IsPage, take-IsPage}
use fukulow.Domain.Identifiers.{UuidCrate, ChannelSeq, get}
use fukulow.Db.Schema.{Db, StoredMessage}
use fukulow.Db.Context.{Settings}
use fukulow.Db.Policies.{active_in, sees_message}
use fukulow.Db.Transaction.{Server, Tx, OperationError, err, opened, run, pure}
use fukulow.Db.Keeps.{run-refused}
use fukulow.Db.Steps.{Ensures, begin-then, fetch-then, refuse_if-then, call-then, commit-then}
use fukulow.Operations.Support.Visibility.{acting}
use fukulow.Operations.Channels.{channel_row}
use fukulow.Operations.Messages.{
  Message, MessagesBeforeError, MessagesAfterError, messages_before, messages_after, rows_before,
  rows_after, is_before, clamp, collect,
}
use fukulow.Operations.Posting.{Reads, try_from-then}
use fukulow.Operations.Tenancy.{found_channel}

pub channel_row-active :
    (organization channel : ℕ) (s : Settings) (db : Db)
    → not (is_some (channel_row organization channel s db)) ≡ false
    → active_in s db organization ≡ true
unfolding channel_row
channel_row-active organization channel s db h =
    elim (Option-cases (channel_row organization channel s db)) [
      | inl missing ↦ absurd (ground (arith, rw missing at h))
      | inr (c, found) ↦ found_channel organization channel s db db.channels c found
    ]

-- One who is no active member of the organization reads no message of its channels: both listings
-- return an error and store nothing.
pub active_in-messages :
    (uuid : UuidCrate) (server : Server) (actor organization channel : ℕ)
    (before : Option ChannelSeq) (after : ChannelSeq) (limit : ℕ) (db : Db)
    → active_in (acting actor) db organization ≡ false
    → ((e : OperationError MessagesBeforeError) × (run
            (messages_before uuid server actor organization channel before limit)
            db
          ≡ (err e, db)))
      × ((e : OperationError MessagesAfterError) × (run
              (messages_after uuid server actor organization channel after limit)
              db
            ≡ (err e, db)))
unfolding messages_before messages_after
active_in-messages uuid server actor organization channel before after limit db outside = (
  run-refused _ db (
      begin-then server _ _ _ _ λ _. fetch-then server _ _ _ _ λ _. refuse_if-then _ _ _ _ _ λ seen.
        absurd (
          ground (arith, outside, channel_row-active organization channel (acting actor) db seen))),
  run-refused _ db (
      begin-then server _ _ _ _ λ _. fetch-then server _ _ _ _ λ _. refuse_if-then _ _ _ _ _ λ seen.
        absurd (
          ground (arith, outside, channel_row-active organization channel (acting actor) db seen))),
)
