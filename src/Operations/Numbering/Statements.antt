-- ===== src/Operations/Numbering/Statements.antt =====
-- What the statements keep of the numbers of messages.
use fukulow.Common.{
  ◌≡◌, refl, String, false, Option, List, [], ◌∷◌, ◌==◌, any, insert, arith, ◌⊎◌, inl, inr,
  Bool-cases,
}
use fukulow.Common.RowLaws.{All, any-insert, any-insert_old, All-insert, All-map}
use fukulow.Db.Schema.{Db, Channel, StoredMessage}
use fukulow.Db.Context.{Settings}
use fukulow.Db.Transaction.{ok}
use fukulow.Db.Keeps.{Preserves}
use fukulow.Operations.Channels.{insert_channel}
use fukulow.Operations.Messages.{insert_message}
use fukulow.Operations.Stable.{Stable, StableMembers}
use fukulow.Operations.Frames.{
  framed, audit-Writes, team-Writes, team_member-Writes, team_role-Writes, team_removal-Writes,
  channel_member-Writes, actor-Writes, user-Writes, organization-Writes, member-Writes,
  invite-Writes, updated_invites-Writes, session-Writes, session_revocation-Writes,
  team_rows-Writes, listing_rows-Writes, departure-Writes, member_update-Writes,
  user_removal-Writes,
}
use fukulow.Operations.Numbering.{is_numbered, IsDense, IsReached, counts, HasKeys, insert-HasKeys}

-- A property of the channels and messages is kept by all that writes other tables.
module _ (Q : List Channel → List StoredMessage → Type 0) where
  abbrev pub Reads : Db → Type 0
  Reads db = Q db.channels db.messages

  pub reading-Stable :
      ((lower : String → String) (row : Channel)
        → row.next_message_seq ≡ 0
        → Preserves Reads (insert_channel lower row))
      → Stable Reads
  reading-Stable channel = record {
    audit = λ row. framed Reads _ (λ _ _ h. h) (audit-Writes row);
    team = λ row. framed Reads _ (λ _ _ h. h) (team-Writes row);
    team_member = λ row. framed Reads _ (λ _ _ h. h) (team_member-Writes row);
    team_role = λ o t a r. framed Reads _ (λ _ _ h. h) (team_role-Writes o t a r);
    team_removal = λ o t a. framed Reads _ (λ _ _ h. h) (team_removal-Writes o t a);
    channel = channel;
    channel_member = λ o c a. framed Reads _ (λ _ _ h. h) (channel_member-Writes o c a);
    actor = λ row. framed Reads _ (λ _ _ h. h) (actor-Writes row);
    user = λ lower row. framed Reads _ (λ _ _ h. h) (user-Writes lower row);
    organization = λ row. framed Reads _ (λ _ _ h. h) (organization-Writes row);
    member = λ server row. framed Reads _ (λ _ _ h. h) (member-Writes server row);
    invite = λ row _. framed Reads _ (λ _ _ h. h) (invite-Writes row);
    invite_use = λ server hash. framed Reads _ (λ _ _ h. h) (updated_invites-Writes server _ _);
    invite_revocation =
        λ server o i. framed Reads _ (λ _ _ h. h) (updated_invites-Writes server _ _);
    session = λ row. framed Reads _ (λ _ _ h. h) (session-Writes row);
    session_revocation =
        λ now a hash. framed Reads _ (λ _ _ h. h) (session_revocation-Writes now a hash);
    team_rows = λ o a. framed Reads _ (λ _ _ h. h) (team_rows-Writes o a);
    listing_rows = λ o a. framed Reads _ (λ _ _ h. h) (listing_rows-Writes o a);
    user_removal = λ a. framed Reads _ (λ _ _ h. h) (user_removal-Writes a);
    departure = λ now a. framed Reads _ (λ _ _ h. h) (departure-Writes now a);
  }

  pub reading-StableMembers : StableMembers Reads
  reading-StableMembers = record {
    role = λ o a r. framed Reads _ (λ _ _ h. h) (member_update-Writes o a _);
    status = λ o a r. framed Reads _ (λ _ _ h. h) (member_update-Writes o a _);
    departure = λ o a. framed Reads _ (λ _ _ h. h) (member_update-Writes o a _);
  }

-- No two messages of a channel have the same number.
abbrev pub AreNumberedOnce : List StoredMessage → Type 0
AreNumberedOnce [] = Unit
AreNumberedOnce (m ∷ ms) =
    (any (is_numbered m.channel_id m.channel_seq) ms ≡ false) × AreNumberedOnce ms

insert-AreNumberedOnce :
    (m : StoredMessage) (ms : List StoredMessage)
    → any (is_numbered m.channel_id m.channel_seq) ms ≡ false
    → AreNumberedOnce ms
    → AreNumberedOnce (insert m ms)
insert-AreNumberedOnce m [] h u = (refl, tt)
insert-AreNumberedOnce m (n ∷ ms) h u = (
  ground (arith, any-insert (is_numbered n.channel_id n.channel_seq) m ms),
  insert-AreNumberedOnce m ms (ground arith) u.1,
)

pub insert_message-cases :
    (row : StoredMessage) (s : Settings) (db : Db) (o : Option StoredMessage) (db' : Db)
    → insert_message row s db ≡ ok (o, db')
    → (db' ≡ db)
      ⊎ ((any (is_numbered row.channel_id row.channel_seq) db.messages ≡ false)
          × (db' ≡ record db { messages = insert row db.messages }))
unfolding insert_message
insert_message-cases row s db o db' h = elim (Bool-cases (any (λ m. m.id == row.id) db.messages)) [
  | inl e ↦ inl (ground (arith, h, e))
  | inr e ↦ inr (ground (arith, h, e), ground (arith, h, e))
]

pub message-AreNumberedOnce :
    (row : StoredMessage) → Preserves (λ db. AreNumberedOnce db.messages) (insert_message row)
message-AreNumberedOnce row = record {
  apply = λ s db o db' u e. elim (insert_message-cases row s db o db' e) [
    | inl same ↦ rw same u
    | inr (new, done) ↦ rw done (insert-AreNumberedOnce row db.messages new u)
  ];
}

-- The channels and messages of well-kept counters: the numbers in a channel are those from 1 to its
-- counter.
abbrev pub AreCounted : List Channel → List StoredMessage → Type 0
AreCounted channels messages =
    HasKeys channels × All (IsDense messages) channels × All (IsReached channels) messages

insert_channel-ok :
    (lower : String → String) (row : Channel) (s : Settings) (db db' : Db) (u : Unit)
    → insert_channel lower row s db ≡ ok (u, db')
    → (any (λ c. c.id == row.id) db.channels ≡ false)
      × (db' ≡ record db { channels = insert row db.channels })
unfolding insert_channel
insert_channel-ok lower row s db db' u e = (ground (arith, e), ground (arith, e))

pub channel-AreCounted :
    (lower : String → String) (row : Channel)
    → row.next_message_seq ≡ 0
    → Preserves (λ db. AreCounted db.channels db.messages) (insert_channel lower row)
channel-AreCounted lower row zero = record {
  apply = λ s db u db' (keys, dense, reached) e.
      let (new, done) = insert_channel-ok lower row s db db' u e in
      rw done (
        insert-HasKeys row db.channels new keys,
        All-insert (IsDense db.messages) db.channels dense
            (λ n low high. absurd (omega (arith, zero))),
        All-map (IsReached db.channels) (IsReached (insert row db.channels)) db.messages
            (λ m h. any-insert_old (counts m) row db.channels h) reached,
      );
}
