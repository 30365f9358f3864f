-- ===== src/Operations/Numbering/History.antt =====
-- The numbers of messages over histories of calls.
use fukulow.Common.{
  ℕ, ◌+◌, ◌≡◌, refl, sym, String, true, List, ◌==◌, ==_iff, ==_refl, insert, arith, inl, inr,
  Bool-cases,
}
use fukulow.Common.RowLaws.{any-insert, any-insert_old, All-insert, All-map, find-test}
use fukulow.Domain.Identifiers.{UuidCrate, MessageId}
use fukulow.Db.Schema.{Db, Channel, StoredMessage}
use fukulow.Db.Context.{Settings}
use fukulow.Db.Transaction.{Server}
use fukulow.Db.Keeps.{run-Keeps, run-stored}
use fukulow.Db.Steps.{Ensures-map}
use fukulow.Operations.Messages.{is_channel, PostMessage, posted, already_posted}
use fukulow.Operations.Posting.{new_row, Posted, post_message-Posted}
use fukulow.Operations.Support.Visibility.{acting}
use fukulow.Operations.Frames.{framed, counter-Writes, channel-Writes}
use fukulow.Operations.Calls
use fukulow.Operations.Calls.{Call, step, run_history}
use fukulow.Operations.Calls.Invariants.{Entangled, step-Stable, step-Stable_all, history-induction}
use fukulow.Operations.Keeps.Leaving.{leave_service-Keeps}
use fukulow.Operations.Keeps.Membership.{
  change_member_role-Keeps, suspend_member-Keeps, reactivate_member-Keeps,
}
use fukulow.Operations.Numbering.{
  is_numbered, IsDense, IsReached, update-HasKeys, update-IsDense, update-IsReached, update-reaches,
  bump,
}
use fukulow.Operations.Numbering.Statements.{
  reading-Stable, reading-StableMembers, AreNumberedOnce, message-AreNumberedOnce, AreCounted,
  channel-AreCounted,
}

is_channel-id :
    (s : Settings) (db : Db) (organization channel : ℕ) (c : Channel)
    → is_channel s db organization channel c ≡ true
    → c.id ≡ channel
is_channel-id s db organization channel c h = ground (arith, h)

-- A new message of the next number keeps what is dense, and fills the channel's counter.
insert-IsDense :
    (m : StoredMessage) (ms : List StoredMessage) (d : Channel)
    → IsDense ms d
    → IsDense (insert m ms) d
insert-IsDense m ms d h n low high = any-insert_old (is_numbered d.id n) m ms (h n low high)

next-IsDense :
    (m : StoredMessage) (ms : List StoredMessage) (c : Channel)
    → m.channel_id ≡ c.id
    → m.channel_seq ≡ c.next_message_seq + 1
    → IsDense ms c
    → IsDense (insert m ms) (bump c)
next-IsDense m ms c its_channel its_number h n low high =
    elim (Bool-cases (n == c.next_message_seq + 1)) [
      | inl e ↦ ground (
        arith,
        any-insert (is_numbered c.id n) m ms,
        ==_refl n,
        its_channel,
        its_number,
        (==_iff n (c.next_message_seq + 1)).0 e,
        ==_refl c.id,
      )
      | inr e ↦ any-insert_old (is_numbered c.id n) m ms (h n low (ground (arith, e)))
    ]

module _ (uuid : UuidCrate) where
  Posted-AreCounted :
      (server : Server) (organization channel sender : ℕ) (id : MessageId) (body : String) (db : Db)
      (p : PostMessage) (db' : Db)
      → AreCounted db.channels db.messages
      → Posted uuid server organization channel sender id body db p db'
      → AreCounted db'.channels db'.messages
  Posted-AreCounted server organization channel sender id body db (already_posted m) db' h
        (row, _, _, same) =
      rw same h
  Posted-AreCounted server organization channel sender id body db (posted m) db'
        (keys, dense, reached) (c, found, _, done) =
      let same : c.id ≡ channel =
        is_channel-id (acting sender) db organization channel c (find-test _ db.channels c found) in
      rw done (
        update-HasKeys _ db.channels keys,
        update-IsDense _ channel c db.messages _ db.channels
            (λ d. is_channel-id (acting sender) db organization channel d)
            (λ d. insert-IsDense _ db.messages d) (next-IsDense _ db.messages c (sym same) refl)
            keys found dense,
        All-insert (IsReached _) db.messages
            (All-map (IsReached db.channels) (IsReached _) db.messages
              (λ x. update-IsReached _ db.channels x) reached)
            (update-reaches _ c db.channels
              (new_row server organization channel sender id body (c.next_message_seq + 1)) found
              (sym same) refl),
      )

  counted_members :
      (call : Call) (server : Server) (db : Db)
      → AreCounted db.channels db.messages
      → Entangled call
      → AreCounted (step uuid server call db).channels (step uuid server call db).messages
  unfolding step
  counted_members (Calls.change_member_role by o a r) server db h e =
      run-Keeps (λ db. AreCounted db.channels db.messages) _ db
        (change_member_role-Keeps (reading-Stable AreCounted channel-AreCounted)
          (reading-StableMembers AreCounted) server by o a r)
        h
  counted_members (Calls.suspend_member by o a) server db h e =
      run-Keeps (λ db. AreCounted db.channels db.messages) _ db
        (suspend_member-Keeps (reading-Stable AreCounted channel-AreCounted)
          (reading-StableMembers AreCounted) server by o a)
        h
  counted_members (Calls.reactivate_member by o a) server db h e =
      run-Keeps (λ db. AreCounted db.channels db.messages) _ db
        (reactivate_member-Keeps (reading-Stable AreCounted channel-AreCounted)
          (reading-StableMembers AreCounted) server by o a)
        h
  counted_members (Calls.leave_service a) server db h e =
      run-Keeps (λ db. AreCounted db.channels db.messages) _ db
        (leave_service-Keeps (reading-Stable AreCounted channel-AreCounted) server a
          (λ o. (reading-StableMembers AreCounted).departure o a))
        h
  counted_members (Calls.post_message o c a id body) server db h e =
      run-stored (λ db. AreCounted db.channels db.messages) _ db h
        (Ensures-map _ _ _ (λ p t done. Posted-AreCounted server o c a id body db p t.stored h done)
          (post_message-Posted uuid server o c a id body db))
  counted_members _ server db h e = absurd e

  -- The numbers of a channel's messages have neither gaps nor repetitions. If, in the tables before,
  -- no two channels have the same id, every message's channel is there, the numbers of a channel's
  -- messages are exactly those from 1 to its counter, and no two of its messages have the same one,
  -- then so it is after any history of calls, whichever of their statements fail.
  pub AreCounted-run_history :
      (history : List (Server × Call)) (db : Db)
      → AreCounted db.channels db.messages
      → AreNumberedOnce db.messages
      → AreCounted (run_history uuid history db).channels (run_history uuid history db).messages
        × AreNumberedOnce (run_history uuid history db).messages
  AreCounted-run_history history db counted once = (
    history-induction uuid (λ db. AreCounted db.channels db.messages)
        (λ server call db h.
          step-Stable uuid (reading-Stable AreCounted channel-AreCounted) call server db h
            (counted_members call server db h))
        history db counted,
    history-induction uuid (λ db. AreNumberedOnce db.messages)
        (λ server call.
          step-Stable_all uuid
            (reading-Stable (λ _ ms. AreNumberedOnce ms)
              (λ lower row _. framed _ _ (λ _ _ h. h) (channel-Writes lower row)))
            (reading-StableMembers (λ _ ms. AreNumberedOnce ms))
            (record {
              counter = λ o c. framed _ _ (λ _ _ h. h) (counter-Writes o c);
              message = message-AreNumberedOnce;
            })
            call server)
        history db once,
  )
