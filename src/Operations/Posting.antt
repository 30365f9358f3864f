-- ===== src/Operations/Posting.antt =====
-- What posting a message leaves behind, and what it returns.
use fukulow.Common.{
  ℕ, ◌+◌, ◌≡◌, refl, String, Option, none, some, find, update, insert, arith, Option-cases, inl,
  inr,
}
use fukulow.Common.Int.{pos}
use fukulow.Domain.Identifiers
use fukulow.Domain.Identifiers.{UuidCrate, MessageId, from_client, as_uuid}
use fukulow.Db.Schema.{Db, Channel, StoredMessage}
use fukulow.Db.Context.{Settings}
use fukulow.Db.Transaction.{Server, Tx, M, ok, ◌>>=◌, pure, opened}
use fukulow.Db.Steps.{
  Ensures, call-then, begin-then, fetch-then, refuse_if-then, execute-then, ok_or-then, commit-then,
  rollback-then,
}
use fukulow.Operations.Support.Visibility.{acting}
use fukulow.Operations.Messages.{
  Message, PostMessage, posted, already_posted, is_channel, advance_counter, insert_message,
  retry_row, try_from, settle_post, post_message,
}

-- The message that a row is read as.
pub record Reads (uuid : UuidCrate) (row : StoredMessage) (m : Message) : Type 0 where
  pub id : from_client uuid row.id ≡ some m.id
  pub channel_seq : Identifiers.new (pos row.channel_seq) ≡ some m.channel_seq
  pub channel_id : m.channel_id ≡ row.channel_id
  pub sender_actor_id : m.sender_actor_id ≡ row.sender_actor_id
  pub body : m.body ≡ row.body
  pub created_at : m.created_at ≡ row.created_at

pub try_from-then :
    (uuid : UuidCrate) {V B : Type 0} (Q : B → Tx → Type 0) (t : Tx) (row : StoredMessage)
    (f : Message → M V B)
    → ((m : Message) → Reads uuid row m → Ensures Q (f m t))
    → Ensures Q ((try_from uuid row >>= f) t)
unfolding try_from pure
try_from-then uuid {V} {B} Q t row f h =
    call-then Q t (try_from uuid row) f (λ m t'. Reads uuid row m × (t' ≡ t))
      (ok_or-then _ t _ (from_client uuid row.id) _ λ id p.
        ok_or-then _ t _ (Identifiers.new (pos row.channel_seq)) _ λ seq q. (
          record {
            id = p;
            channel_seq = q;
            channel_id = refl;
            sender_actor_id = refl;
            body = refl;
            created_at = refl;
          },
          refl,
        ))
      λ m t' (reads, same). rw same (h m reads)

-- The channel's counter goes up by one.
abbrev pub counted : ℕ → ℕ → Settings → Db → Db
counted organization channel s db = record db {
  channels =
      update (is_channel s db organization channel)
        (λ c. record c { next_message_seq = c.next_message_seq + 1 }) db.channels;
}

abbrev pub new_row : Server → ℕ → ℕ → ℕ → MessageId → String → ℕ → StoredMessage
new_row server organization channel sender id body seq = record {
  id = as_uuid id;
  organization_id = organization;
  channel_id = channel;
  channel_seq = seq;
  sender_actor_id = sender;
  body = body;
  created_at = server.now;
}

-- The results of a post: a new message has the number after the channel's last one; a known id gives
-- back the stored message and leaves the tables, the counter included, as they were.
abbrev pub Posted :
    UuidCrate → Server → ℕ → ℕ → ℕ → MessageId → String → Db → PostMessage → Db → Type 0
Posted uuid server organization channel sender id body db (posted m) db' =
    (c : Channel) × (find (is_channel (acting sender) db organization channel) db.channels ≡ some c)
    × Reads uuid (new_row server organization channel sender id body (c.next_message_seq + 1)) m
    × (db' ≡ record (counted organization channel (acting sender) db) {
      messages =
          insert (new_row server organization channel sender id body (c.next_message_seq + 1))
            db.messages;
    })
Posted uuid server organization channel sender id body db (already_posted m) db' =
    (row : StoredMessage) × (retry_row (as_uuid id) organization channel sender (acting sender) db
      ≡ some row)
    × Reads uuid row m
    × (db' ≡ db)

advance_counter-ok :
    (organization channel : ℕ) (s : Settings) (db : Db) (counter : Option ℕ) (db' : Db) (seq : ℕ)
    → advance_counter organization channel s db ≡ ok (counter, db')
    → counter ≡ some seq
    → (c : Channel) × (find (is_channel s db organization channel) db.channels ≡ some c)
      × (seq ≡ c.next_message_seq + 1)
      × (db' ≡ counted organization channel s db)
unfolding advance_counter
advance_counter-ok organization channel s db counter db' seq h e =
    elim (Option-cases (find (is_channel s db organization channel) db.channels)) [
      | inl missing ↦ absurd (ground (arith, rw missing at h, e))
      | inr (c, found) ↦ let h' = (rw found at h) in (c, found, ground arith, ground arith)
    ]

insert_message-ok :
    (row row' : StoredMessage) (s : Settings) (db : Db) (o : Option StoredMessage) (db' : Db)
    → insert_message row s db ≡ ok (o, db')
    → o ≡ some row'
    → (row' ≡ row) × (db' ≡ record db { messages = insert row db.messages })
unfolding insert_message
insert_message-ok row row' s db o db' h e = (ground arith, ground arith)

module _ (uuid : UuidCrate) (server : Server) (organization channel sender : ℕ) (id : MessageId)
    (body : String) (db : Db) where
  abbrev PostedAt : PostMessage → Tx → Type 0
  PostedAt p t = Posted uuid server organization channel sender id body db p t.stored

  settle_post-Posted :
      (seq : ℕ) (counter : Option ℕ) (db₁ : Db) (inserted : Option StoredMessage) (t : Tx)
      → advance_counter organization channel (acting sender) db ≡ ok (counter, db₁)
      → counter ≡ some seq
      → insert_message (new_row server organization channel sender id body seq) (acting sender) db₁
        ≡ ok (inserted, t.db)
      → t.stored ≡ db
      → Ensures PostedAt (settle_post uuid server organization channel sender id inserted t)
  unfolding settle_post pure
  settle_post-Posted seq counter db₁ (some row) t advanced some_seq done start =
      let (c, found, same_seq, after) =
        advance_counter-ok organization channel (acting sender) db counter db₁ seq advanced
          some_seq in
      let (same, written) = insert_message-ok _ row (acting sender) db₁ _ t.db done refl in
      try_from-then uuid _ t row _ λ m reads.
        commit-then server _ t _
          λ n. (c, found, rw (same, same_seq) at reads, rw (written, after, same_seq) refl)
  settle_post-Posted seq counter db₁ none t advanced some_seq done start =
      rollback-then server _ t _ λ _. begin-then server _ _ _ _ λ _. fetch-then server _ _ _ _ λ _.
        fetch-then server _ _ _ _ λ _. ok_or-then _ _ _ _ _ λ row found.
          try_from-then uuid _ _ row _
            λ m reads. commit-then server _ _ _ λ n. (row, rw start at found, reads, start)

  -- A post that succeeds has either stored the message under the number after the channel's last
  -- one and raised the channel's counter by one, or found the same sender's message of that id in the
  -- channel, and then it returns that message and changes nothing.
  pub post_message-Posted :
      Ensures PostedAt (post_message uuid server organization channel sender id body (opened db))
  unfolding post_message
  post_message-Posted = refuse_if-then _ _ _ _ _ λ short. begin-then server _ _ _ _ λ _.
      execute-then server _ _ _ _ λ _ counter db₁ advanced.
        ok_or-then _ _ _ counter _ λ seq some_seq.
          execute-then server _ _ _ _ λ _ inserted db₂ done.
            settle_post-Posted seq counter db₁ inserted _ advanced some_seq done refl
