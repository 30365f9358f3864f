-- ===== src/Operations/Reading/Pages.antt =====
-- Which messages of a channel the listings of crates/db/src/operations/messages.rs return, and in
-- which order.
use fukulow.Common.{ℕ, ◌≡◌, refl, true, Option, List, [], ◌∷◌, arith}
use fukulow.Common.Int.{pos, ltb_ℤ}
use fukulow.Common.Order.{ascending, descending}
use fukulow.Common.Order.Laws.{IsPage, take-IsPage}
use fukulow.Domain.Identifiers.{UuidCrate, ChannelSeq, get}
use fukulow.Db.Schema.{Db, StoredMessage}
use fukulow.Db.Policies.{active_in}
use fukulow.Db.Transaction.{Server, Tx, opened, pure}
use fukulow.Db.Steps.{Ensures, begin-then, fetch-then, refuse_if-then, call-then, commit-then}
use fukulow.Operations.Support.Visibility.{acting}
use fukulow.Operations.Messages.{
  Message, messages_before, messages_after, rows_before, rows_after, is_before, clamp, collect,
}
use fukulow.Operations.Posting.{Reads, try_from-then}
use fukulow.Operations.Reading.{channel_row-active}
use fukulow.Operations.Reading.Picks.{
  IsLimit, clamp-IsLimit, IsBefore, IsAfter, IsOf, Newer, Older, above-pos, is_before-IsBefore,
  IsBefore-is_before, IsAfter-ltb, listed-IsOf, listed-not_IsOf,
}

-- The messages that the rows are read as, one for each.
abbrev pub ReadsAll : UuidCrate → List StoredMessage → List Message → Type 0
ReadsAll uuid [] [] = Unit
ReadsAll uuid [] (m ∷ ms) = ⊥
ReadsAll uuid (row ∷ rest) [] = ⊥
ReadsAll uuid (row ∷ rest) (m ∷ ms) = Reads uuid row m × ReadsAll uuid rest ms

collect-ReadsAll :
    (uuid : UuidCrate) (V : Type 0) (stored : List StoredMessage) (t : Tx)
    → Ensures (λ ms t'. ReadsAll uuid stored ms × (t' ≡ t)) (collect uuid {V = V} stored t)
unfolding collect pure
collect-ReadsAll uuid V [] t = (tt, refl)
collect-ReadsAll uuid V (row ∷ rest) t = try_from-then uuid _ t row _ λ m reads.
    call-then _ t (collect uuid rest) _ (λ ms t'. ReadsAll uuid rest ms × (t' ≡ t))
      (collect-ReadsAll uuid V rest t) λ ms t' (all, same). ((reads, all), same)

-- What a listing has found out and returns: the page of the stored rows of the channel, one message
-- for each in the same order.
abbrev pub Lists :
    UuidCrate
    → ℕ
    → ℕ
    → ℕ
    → (ℕ → Type 0)
    → (StoredMessage → StoredMessage → Type 0)
    → ℕ
    → Db
    → List Message
    → Type 0
Lists uuid actor organization channel P R limit db ms =
    (active_in (acting actor) db organization ≡ true)
    × ((n : ℕ) × (page : List StoredMessage) × IsLimit limit n
        × IsPage (IsOf organization channel P) R n db.messages page
        × ReadsAll uuid page ms)

-- A listing of the messages before a number that succeeds stores nothing; the actor is an active
-- member of the organization, and the messages are those of the stored rows of the channel with a
-- number below the given one (of all its rows where none is given), from the highest number to the
-- lowest: all of them, or the first `limit`, which is 1 for 0 and 200 above 200.
pub messages_before-Lists :
    (uuid : UuidCrate) (server : Server) (actor organization channel : ℕ)
    (before : Option ChannelSeq) (limit : ℕ) (db : Db)
    → Ensures
        (λ ms t.
          Lists uuid actor organization channel (IsBefore before) Newer limit db ms
          × (t.stored ≡ db))
        (messages_before uuid server actor organization channel before limit (opened db))
unfolding messages_before pure rows_before
messages_before-Lists uuid server actor organization channel before limit db =
    begin-then server _ _ _ _ λ _. fetch-then server _ _ _ _ λ _. refuse_if-then _ _ _ _ _ λ seen.
      fetch-then server _ _ _ _ λ n.
        call-then _ _ (collect uuid _) _ _ (collect-ReadsAll uuid _ _ _) λ ms t' (all, same).
          commit-then server _ t' _ λ _.
            let active = channel_row-active organization channel (acting actor) db seen in
            let page =
              take-IsPage (descending (λ m. m.channel_seq)) Newer (λ x y h. ground arith)
                (λ x y h. ground arith) (λ a b c h k. omega arith)
                (IsOf organization channel (IsBefore before)) _ (clamp limit) db.messages
                (listed-IsOf organization channel (acting actor) db _ (is_before before)
                  (is_before-IsBefore before))
                (listed-not_IsOf organization channel (acting actor) db _ (is_before before) active
                  (IsBefore-is_before before)) in
            ((active, (clamp limit, _, clamp-IsLimit limit, page, all)), rw same refl)

-- A listing of the messages after a number that succeeds stores nothing; the actor is an active
-- member of the organization, and the messages are those of the stored rows of the channel with a
-- number above the given one, from the lowest number to the highest: all of them, or the first
-- `limit`, which is 1 for 0 and 200 above 200.
pub messages_after-Lists :
    (uuid : UuidCrate) (server : Server) (actor organization channel : ℕ) (after : ChannelSeq)
    (limit : ℕ) (db : Db)
    → Ensures
        (λ ms t.
          Lists uuid actor organization channel (IsAfter after) Older limit db ms × (t.stored ≡ db))
        (messages_after uuid server actor organization channel after limit (opened db))
unfolding messages_after pure rows_after
messages_after-Lists uuid server actor organization channel after limit db =
    begin-then server _ _ _ _ λ _. fetch-then server _ _ _ _ λ _. refuse_if-then _ _ _ _ _ λ seen.
      fetch-then server _ _ _ _ λ n.
        call-then _ _ (collect uuid _) _ _ (collect-ReadsAll uuid _ _ _) λ ms t' (all, same).
          commit-then server _ t' _ λ _.
            let active = channel_row-active organization channel (acting actor) db seen in
            let page =
              take-IsPage (ascending (λ m. m.channel_seq)) Older (λ x y h. ground arith)
                (λ x y h. ground arith) (λ a b c h k. omega arith)
                (IsOf organization channel (IsAfter after)) _ (clamp limit) db.messages
                (listed-IsOf organization channel (acting actor) db _
                  (λ m. ltb_ℤ (get after) (pos m.channel_seq))
                  (λ m. above-pos (get after) m.channel_seq))
                (listed-not_IsOf organization channel (acting actor) db _
                  (λ m. ltb_ℤ (get after) (pos m.channel_seq)) active
                  (λ m. IsAfter-ltb after m.channel_seq)) in
            ((active, (clamp limit, _, clamp-IsLimit limit, page, all)), rw same refl)
