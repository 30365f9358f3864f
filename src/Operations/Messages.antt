-- ===== src/Operations/Messages.antt =====
-- crates/db/src/operations/messages.rs. How the crate uuid reads an id is a parameter.
use fukulow.Common.{
  ℕ, ◌+◌, leb, ltb, String, Bool, true, ◌&&◌, not, Option, none, some, List, [], ◌∷◌, ◌==◌,
  if◌then◌else◌, is_some, find, any, rows, update, insert,
}
use fukulow.Common.Characters.{char_count}
use fukulow.Common.Int.{pos, ltb_ℤ}
use fukulow.Common.Order.{sort_by, ascending, descending, take}
use fukulow.Domain.Identifiers
use fukulow.Domain.Identifiers.{MessageId, ChannelSeq, UuidCrate, from_client, as_uuid, get}
use fukulow.Db.Schema.{Channel, StoredMessage, Db}
use fukulow.Db.Context
use fukulow.Db.Context.{Settings}
use fukulow.Db.Policies.{active_in, sees_channel, sees_message}
use fukulow.Db.Transaction.{
  Server, M, ◌>>=◌, ◌>>◌, pure, ok_or, refuse_if, Statement, Result, ok, err, SqlError, refused,
  database, protocol, out_of_range, denied, violates, fetch, execute, begin, commit, rollback,
  all_pass,
}
use fukulow.Operations.Channels.{channel_row}

pub data PostMessageError : Type 0 where
  not_found id_conflict invalid_body : PostMessageError

-- `MessagesBeforeError` and `MessagesAfterError`
pub data MessagesBeforeError : Type 0 where
  not_found : MessagesBeforeError

pub data MessagesAfterError : Type 0 where
  not_found : MessagesAfterError

pub record Message : Type 0 where
  pub id : MessageId
  pub channel_id : ℕ
  pub channel_seq : ChannelSeq
  pub sender_actor_id : ℕ
  pub body : String
  pub created_at : ℕ

pub data PostMessage : Type 0 where
  posted already_posted : Message → PostMessage

-- The largest `bigint`.
abbrev pub max_bigint : ℕ
max_bigint = 9223372036854775807

abbrev pub is_channel : Settings → Db → ℕ → ℕ → Channel → Bool
is_channel s db organization channel c =
    sees_channel s db c && (c.organization_id == organization && c.id == channel)

advance : ℕ → ℕ → Settings → Db → Option Channel → Result SqlError (Option ℕ × Db)
advance organization channel s db none = ok (none, db)
advance organization channel s db (some c) =
    if ltb c.next_message_seq max_bigint
    then ok (
      some (c.next_message_seq + 1),
      record db {
        channels =
            update (is_channel s db organization channel)
              (λ c'. record c' { next_message_seq = c'.next_message_seq + 1 }) db.channels;
      },
    )
    else err out_of_range

-- UPDATE channels SET next_message_seq = next_message_seq + 1 WHERE … RETURNING next_message_seq
unfoldable pub advance_counter : ℕ → ℕ → Statement (Option ℕ)
unfolding advance
advance_counter organization channel s db =
    advance organization channel s db (find (is_channel s db organization channel) db.channels)

-- The tests on a row whose id is new.
insert_new : StoredMessage → Statement (Option StoredMessage)
insert_new row s db =
    all_pass
      ((
        not (
            any (λ m. m.channel_id == row.channel_id && m.channel_seq == row.channel_seq)
              db.messages),
        violates "messages_channel_id_channel_seq_key",
      )
        ∷ (
          any (λ c. c.id == row.channel_id && c.organization_id == row.organization_id) db.channels,
          violates "messages_channel_id_organization_id_fkey",
        )
        ∷ (
          any (λ a. a.id == row.sender_actor_id) db.actors,
          violates "messages_sender_actor_id_fkey",
        )
        ∷ [])
      (some row, record db { messages = insert row db.messages })

-- INSERT INTO messages … ON CONFLICT (id) DO NOTHING RETURNING …
unfoldable pub insert_message : StoredMessage → Statement (Option StoredMessage)
unfolding insert_new
insert_message row s db =
    if not (active_in s db row.organization_id)
    then err denied
    else if not (leb 1 row.channel_seq)
    then err (violates "messages_channel_seq_check")
    else if not (leb 1 (char_count row.body) && leb (char_count row.body) 4000)
    then err (violates "messages_body_check")
    else if any (λ m. m.id == row.id) db.messages
    then ok (none, db)
    else insert_new row s db

-- SELECT … FROM messages WHERE id = $1 AND organization_id = $2 AND channel_id = $3 AND
-- sender_actor_id = $4
unfoldable pub retry_row : ℕ → ℕ → ℕ → ℕ → Settings → Db → Option StoredMessage
retry_row id organization channel sender s db =
    find
      (λ m.
        sees_message s db m
        && (m.id == id
            && m.organization_id == organization
            && m.channel_id == channel
            && m.sender_actor_id == sender))
      db.messages

-- `limit.clamp(1, 200)` on a `u16`
abbrev pub clamp : ℕ → ℕ
clamp limit = if ltb limit 1 then 1 else if ltb 200 limit then 200 else limit

-- The `WHERE` of the two forms of the query of `messages_before`.
abbrev pub is_before : Option ChannelSeq → StoredMessage → Bool
is_before none m = true
is_before (some before) m = ltb_ℤ (pos m.channel_seq) (get before)

unfoldable pub rows_before : ℕ → ℕ → Option ChannelSeq → ℕ → Settings → Db → List StoredMessage
rows_before organization channel before limit s db = take limit (
    sort_by (descending (λ m. m.channel_seq)) (
      rows
        (λ m.
          sees_message s db m
          && (m.organization_id == organization && m.channel_id == channel && is_before before m))
        db.messages))

unfoldable pub rows_after : ℕ → ℕ → ChannelSeq → ℕ → Settings → Db → List StoredMessage
rows_after organization channel after limit s db = take limit (
    sort_by (ascending (λ m. m.channel_seq)) (
      rows
        (λ m.
          sees_message s db m
          && (m.organization_id == organization
              && m.channel_id == channel
              && ltb_ℤ (get after) (pos m.channel_seq)))
        db.messages))

module _ (uuid : UuidCrate) where
  -- `Message::try_from`
  unfoldable pub try_from : {V : Type 0} → StoredMessage → M V Message
  try_from row = do
    id ← ok_or (database (protocol "invalid stored message id")) (from_client uuid row.id)
    seq ←
        ok_or (database (protocol "invalid stored message sequence"))
          (Identifiers.new (pos row.channel_seq))
    pure (record {
      id = id;
      channel_id = row.channel_id;
      channel_seq = seq;
      sender_actor_id = row.sender_actor_id;
      body = row.body;
      created_at = row.created_at;
    })

  -- `.map(Message::try_from).collect::<Result<_, _>>()`
  unfoldable pub collect : {V : Type 0} → List StoredMessage → M V (List Message)
  collect [] = pure []
  collect (row ∷ rest) = do
    message ← try_from row
    messages ← collect rest
    pure (message ∷ messages)

module _ (uuid : UuidCrate) (server : Server) where
  -- `post_message` after the insertion: `some` row is the new message, `none` a known id.
  unfoldable pub settle_post :
      ℕ → ℕ → ℕ → MessageId → Option StoredMessage → M PostMessageError PostMessage
  settle_post organization channel sender id (some row) = do
    message ← try_from uuid row
    commit server
    pure (posted message)
  settle_post organization channel sender id none = do
    rollback server
    begin server (Context.actor sender)
    fetch server (λ _ _. tt)
    found ← fetch server (retry_row (as_uuid id) organization channel sender)
    row ← ok_or (refused id_conflict) found
    message ← try_from uuid row
    commit server
    pure (already_posted message)

  unfoldable pub post_message : ℕ → ℕ → ℕ → MessageId → String → M PostMessageError PostMessage
  unfolding settle_post
  post_message organization channel sender id body = do
    refuse_if (not (leb 1 (char_count body) && leb (char_count body) 4000)) invalid_body
    begin server (Context.actor sender)
    counter ← execute server (advance_counter organization channel)
    seq ← ok_or (refused PostMessageError.not_found) counter
    inserted ← execute server (
        insert_message (record {
          id = as_uuid id;
          organization_id = organization;
          channel_id = channel;
          channel_seq = seq;
          sender_actor_id = sender;
          body = body;
          created_at = server.now;
        }))
    settle_post organization channel sender id inserted

  unfoldable pub messages_before :
      ℕ → ℕ → ℕ → Option ChannelSeq → ℕ → M MessagesBeforeError (List Message)
  messages_before actor organization channel before limit = do
    begin server (Context.actor actor)
    found ← fetch server (channel_row organization channel)
    refuse_if (not (is_some found)) MessagesBeforeError.not_found
    stored ← fetch server (rows_before organization channel before (clamp limit))
    messages ← collect uuid stored
    commit server
    pure messages

  unfoldable pub messages_after : ℕ → ℕ → ℕ → ChannelSeq → ℕ → M MessagesAfterError (List Message)
  messages_after actor organization channel after limit = do
    begin server (Context.actor actor)
    found ← fetch server (channel_row organization channel)
    refuse_if (not (is_some found)) MessagesAfterError.not_found
    stored ← fetch server (rows_after organization channel after (clamp limit))
    messages ← collect uuid stored
    commit server
    pure messages
