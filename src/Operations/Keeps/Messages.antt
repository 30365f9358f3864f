-- ===== src/Operations/Keeps/Messages.antt =====
-- `post_message` keeps what its statements keep.
use fukulow.Common.{ℕ, String, Option, none, some}
use fukulow.Domain.Identifiers.{UuidCrate, MessageId}
use fukulow.Db.Schema.{Db, StoredMessage}
use fukulow.Db.Transaction.{Server}
use fukulow.Db.Keeps.{Keeps, keeping}
use fukulow.Operations.Stable.{StableMessages}
use fukulow.Operations.Messages.{try_from, settle_post, post_message}

module _ (P : Db → Type 0) (uuid : UuidCrate) where
  try_from-Keeps : (V : Type 0) (row : StoredMessage) → Keeps P (try_from uuid {V = V} row)
  unfolding try_from
  try_from-Keeps V row = search keeping depth 10

  settle_post-Keeps :
      (server : Server) (organization channel sender : ℕ) (id : MessageId)
      (inserted : Option StoredMessage)
      → Keeps P (settle_post uuid server organization channel sender id inserted)
  unfolding settle_post
  settle_post-Keeps server organization channel sender id (some row) =
      search (keeping, try_from-Keeps) depth 20
  settle_post-Keeps server organization channel sender id none =
      search (keeping, try_from-Keeps) depth 30

  pub post_message-Keeps :
      (stable : StableMessages P) (server : Server) (organization channel sender : ℕ)
      (id : MessageId) (body : String)
      → Keeps P (post_message uuid server organization channel sender id body)
  unfolding post_message
  post_message-Keeps stable server organization channel sender id body =
      search (keeping, settle_post-Keeps, stable.counter, stable.message) depth 30
