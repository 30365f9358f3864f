-- ===== src/Operations/Reading/Picks.antt =====
-- Which rows the queries of the listings of crates/db/src/operations/messages.rs pick.
use fukulow.Common.{
  ℕ, ◌≡◌, ◌≤◌, ◌<◌, ◌⊎◌, refl, Bool, true, false, ◌&&◌, Option, none, some, arith, ltb, ◌==◌,
  ==_iff, Bool-cases, inl, inr,
}
use fukulow.Common.Int.{ℤ, pos, negsuc, ltb_ℤ}
use fukulow.Domain.Identifiers.{ChannelSeq, get}
use fukulow.Db.Schema.{Db, StoredMessage}
use fukulow.Db.Context.{Settings}
use fukulow.Db.Policies.{active_in, sees_message}
use fukulow.Operations.Messages.{is_before, clamp}

-- What the request's `limit` means.
abbrev pub IsLimit : ℕ → ℕ → Type 0
IsLimit limit n =
    ((limit ≡ 0) × (n ≡ 1))
    ⊎ ((1 ≤ limit) × (limit ≤ 200) × (n ≡ limit))
    ⊎ ((200 < limit) × (n ≡ 200))

pub clamp-IsLimit : (limit : ℕ) → IsLimit limit (clamp limit)
clamp-IsLimit limit = elim (Bool-cases (ltb limit 1)) [
  | inl e ↦ inl (ground arith, ground arith)
  | inr e ↦ elim (Bool-cases (ltb 200 limit)) [
    | inl f ↦ inr (inr (ground arith, ground arith))
    | inr f ↦ inr (inl (ground arith, ground arith, ground arith))
  ]
]

-- The number is below that of a request, where there is one.
abbrev pub IsBefore : Option ChannelSeq → ℕ → Type 0
IsBefore none seq = Unit
IsBefore (some before) seq = (n : ℕ) × (get before ≡ pos n) × (seq < n)

abbrev pub IsAfter : ChannelSeq → ℕ → Type 0
IsAfter after seq = ((n : ℕ) × (get after ≡ pos n) × (n < seq)) ⊎ ((n : ℕ) × (get after ≡ negsuc n))

-- The rows of a channel with such a number.
abbrev pub IsOf : ℕ → ℕ → (ℕ → Type 0) → StoredMessage → Type 0
IsOf organization channel P m =
    (m.organization_id ≡ organization) × (m.channel_id ≡ channel) × P m.channel_seq

abbrev pub Newer : StoredMessage → StoredMessage → Type 0
Newer m n = n.channel_seq ≤ m.channel_seq

abbrev pub Older : StoredMessage → StoredMessage → Type 0
Older m n = m.channel_seq ≤ n.channel_seq

below-pos : (a : ℕ) (z : ℤ) → ltb_ℤ (pos a) z ≡ true → (n : ℕ) × (z ≡ pos n) × (a < n)
below-pos a (pos n) h = (n, refl, ground arith)
below-pos a (negsuc n) h = absurd (ground arith)

pub above-pos :
    (z : ℤ) (a : ℕ)
    → ltb_ℤ z (pos a) ≡ true
    → ((n : ℕ) × (z ≡ pos n) × (n < a)) ⊎ ((n : ℕ) × (z ≡ negsuc n))
above-pos (pos n) a h = inl (n, refl, ground arith)
above-pos (negsuc n) a h = inr (n, refl)

pub is_before-IsBefore :
    (before : Option ChannelSeq) (m : StoredMessage)
    → is_before before m ≡ true
    → IsBefore before m.channel_seq
is_before-IsBefore none m h = tt
is_before-IsBefore (some seq) m h = below-pos m.channel_seq (get seq) h

pub IsBefore-is_before :
    (before : Option ChannelSeq) (m : StoredMessage)
    → IsBefore before m.channel_seq
    → is_before before m ≡ true
IsBefore-is_before none m h = refl
IsBefore-is_before (some seq) m (n, e, less) = rw e (ground arith)

pub IsAfter-ltb :
    (after : ChannelSeq) (seq : ℕ) → IsAfter after seq → ltb_ℤ (get after) (pos seq) ≡ true
IsAfter-ltb after seq (inl (n, e, less)) = rw e (ground arith)
IsAfter-ltb after seq (inr (n, e)) = rw e (ground arith)

-- The rows that an active member sees of a channel, by a test of their number.
module _ (organization channel : ℕ) (s : Settings) (db : Db) (P : ℕ → Type 0)
    (p : StoredMessage → Bool) where
  abbrev pub listed : StoredMessage → Bool
  listed m =
      sees_message s db m && (m.organization_id == organization && m.channel_id == channel && p m)

  pub listed-IsOf :
      ((m : StoredMessage) → p m ≡ true → P m.channel_seq)
      → (m : StoredMessage) → listed m ≡ true
      → IsOf organization channel P m
  listed-IsOf sound m h = (ground (arith, h), ground (arith, h), sound m (ground (arith, h)))

  pub listed-not_IsOf :
      active_in s db organization ≡ true
      → ((m : StoredMessage) → P m.channel_seq → p m ≡ true)
      → (m : StoredMessage) → listed m ≡ false
      → ¬ IsOf organization channel P m
  unfolding sees_message
  listed-not_IsOf active complete m h (its_organization, its_channel, number) =
      let passed : p m ≡ true = complete m number in
      let seen : active_in s db m.organization_id ≡ true = rw its_organization active in
      ground (
        arith,
        h,
        passed,
        seen,
        (==_iff m.organization_id organization).1 its_organization,
        (==_iff m.channel_id channel).1 its_channel,
      )
