-- ===== src/Operations/Numbering.antt =====
-- The numbers of a channel's messages.
pub mod Statements
pub mod History
pub mod Archive
use fukulow.Common.{
  ℕ, suc, ◌+◌, ◌≤◌, ◌≡◌, refl, sym, Bool, true, false, ◌&&◌, Option, none, some, List, [], ◌∷◌, leb,
  ◌==◌, ==_iff, ==_refl, find, any, insert, update, arith, Bool-cases, ◌⊎◌, inl, inr, if◌then◌else◌,
}
use mathlib.Core.Option.{some-injective}
use fukulow.Common.RowLaws.{
  All, any-false, any-insert_old, any-insert, any-update, any-update_kept, All-insert, All-map,
}
use fukulow.Db.Schema.{Db, Channel, StoredMessage}

abbrev pub is_numbered : ℕ → ℕ → StoredMessage → Bool
is_numbered channel n m = m.channel_id == channel && m.channel_seq == n

-- Every number that the counter has reached is a message's.
abbrev pub IsDense : List StoredMessage → Channel → Type 0
IsDense messages c =
    (n : ℕ) → 1 ≤ n → n ≤ c.next_message_seq → any (is_numbered c.id n) messages ≡ true

-- The message's channel is there, and its counter has reached the message's number.
abbrev pub counts : StoredMessage → Channel → Bool
counts m c = c.id == m.channel_id && leb 1 m.channel_seq && leb m.channel_seq c.next_message_seq

abbrev pub IsReached : List Channel → StoredMessage → Type 0
IsReached channels m = any (counts m) channels ≡ true

abbrev pub same_id : Channel → Channel → Bool
same_id c d = d.id == c.id

-- The primary key of `channels`.
abbrev pub HasKeys : List Channel → Type 0
HasKeys [] = Unit
HasKeys (c ∷ cs) = (any (same_id c) cs ≡ false) × HasKeys cs

abbrev pub bump : Channel → Channel
bump c = record c { next_message_seq = c.next_message_seq + 1 }

pub insert-HasKeys :
    (c : Channel) (cs : List Channel)
    → any (λ d. d.id == c.id) cs ≡ false
    → HasKeys cs
    → HasKeys (insert c cs)
insert-HasKeys c [] h u = (refl, tt)
insert-HasKeys c (d ∷ cs) h u =
    (ground (arith, any-insert (same_id d) c cs), insert-HasKeys c cs (ground arith) u.1)

pub update-HasKeys :
    (p : Channel → Bool) (cs : List Channel) → HasKeys cs → HasKeys (update p bump cs)
update-HasKeys p [] u = tt
update-HasKeys p (c ∷ cs) u = elim (Bool-cases (p c)) [
  | inl e ↦
      rw e (rw (any-update (same_id (bump c)) p bump cs (λ d. refl)) u.0, update-HasKeys p cs u.1)
  | inr e ↦ rw e (rw (any-update (same_id c) p bump cs (λ d. refl)) u.0, update-HasKeys p cs u.1)
]

update-none :
    (p : Channel → Bool) (f : Channel → Channel) (cs : List Channel)
    → any p cs ≡ false
    → update p f cs ≡ cs
update-none p f [] h = refl
update-none p f (c ∷ cs) h = elim (Bool-cases (p c)) [
  | inl e ↦ absurd (ground (arith, e, h))
  | inr e ↦ rw (e, update-none p f cs (rw e at h)) refl
]

-- The channel whose counter rises gets the message of the new number; the others keep theirs.
pub update-IsDense :
    (p : Channel → Bool) (id : ℕ) (c : Channel) (before after : List StoredMessage)
    (cs : List Channel)
    → ((d : Channel) → p d ≡ true → d.id ≡ id)
    → ((d : Channel) → IsDense before d → IsDense after d)
    → (IsDense before c → IsDense after (bump c))
    → HasKeys cs
    → find p cs ≡ some c
    → All (IsDense before) cs
    → All (IsDense after) (update p bump cs)
update-IsDense p id c before after [] of_id keep next u found h = tt
update-IsDense p id c before after (d ∷ cs) of_id keep next u found h = elim (Bool-cases (p d)) [
  | inr e ↦
      rw e
        (keep d h.0, update-IsDense p id c before after cs of_id keep next u.1 (rw e at found) h.1)
  | inl e ↦
      let this : d ≡ c = some-injective d c (rw e at found) in
      let alone : any p cs ≡ false =
        any-false p (same_id d) cs (λ x hit. ground (arith, of_id x hit, of_id d e)) u.0 in
      rw (e, update-none p bump cs alone)
        (rw (sym this) at next (h.0), All-map (IsDense before) (IsDense after) cs keep h.1)
]

-- What the counters have reached they have still reached when one of them rises.
pub update-IsReached :
    (p : Channel → Bool) (cs : List Channel) (m : StoredMessage)
    → IsReached cs m
    → IsReached (update p bump cs) m
update-IsReached p cs m h = any-update_kept (counts m) p bump cs (λ c e. ground (arith, e)) h

-- The counter that rises reaches the next number.
pub update-reaches :
    (p : Channel → Bool) (c : Channel) (cs : List Channel) (m : StoredMessage)
    → find p cs ≡ some c
    → m.channel_id ≡ c.id
    → m.channel_seq ≡ c.next_message_seq + 1
    → IsReached (update p bump cs) m
update-reaches p c [] m found its_channel its_number = absurd (ground (arith, found))
update-reaches p c (d ∷ cs) m found its_channel its_number = elim (Bool-cases (p d)) [
  | inl e ↦
      let this : d ≡ c = some-injective d c (rw e at found) in
      rw (e, this)
        (ground (arith, its_channel, its_number, (==_iff c.id m.channel_id).1 (sym its_channel)))
  | inr e ↦ rw e (ground (arith, update-reaches p c cs m (rw e at found) its_channel its_number))
]
