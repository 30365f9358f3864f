-- ===== src/Domain/Owners.antt =====
-- The last-owner rule of crates/domain/src/lib.rs: `OwnerChange`, `LastOwner`, `check_owner_change`.
-- An `ActorId` is its `Uuid`, a number.
use mathlib.Core.List.{Mem, mem-cons_self, mem-cons_of_mem}
use fukulow.Common.{
  ℕ, ◌≡◌, true, List, [], ◌∷◌, ◌==◌, not, if◌then◌else◌, any, arith, Bool-cases, inl, inr,
}

pub data OwnerChange : Type 0 where
  demote suspend leave : ℕ → OwnerChange

pub data LastOwner : Type 0 where
  last_owner : LastOwner

-- `Result<(), LastOwner>`
pub data OwnerCheck : Type 0 where
  ok : OwnerCheck
  err : LastOwner → OwnerCheck

-- The pattern that binds the actor in all three variants.
abbrev pub subject : OwnerChange → ℕ
subject (demote actor) = actor
subject (suspend actor) = actor
subject (leave actor) = actor

unfoldable pub check_owner_change : List ℕ → OwnerChange → OwnerCheck
check_owner_change active_owners change =
    if any (λ owner. not (owner == subject change)) active_owners then ok else err last_owner

any-Mem :
    (actor : ℕ) (owners : List ℕ)
    → any (λ owner. not (owner == actor)) owners ≡ true
    → (owner : ℕ) × Mem owner owners × ¬ (owner ≡ actor)
any-Mem actor [] h = absurd (ground arith)
any-Mem actor (o ∷ os) h = elim (Bool-cases (o == actor)) [
  | inl same ↦
      let (owner, found, apart) = any-Mem actor os (ground (arith, same)) in
      (owner, mem-cons_of_mem _ found, apart)
  | inr other ↦ (o, mem-cons_self, λ e. ground (arith, e, other))
]

-- The check passes only if an active owner other than the actor who is demoted, suspended or leaves
-- is among the owners that were read.
pub check_owner_change-Mem :
    (active_owners : List ℕ) (change : OwnerChange)
    → check_owner_change active_owners change ≡ ok
    → (owner : ℕ) × Mem owner active_owners × ¬ (owner ≡ subject change)
unfolding check_owner_change
check_owner_change-Mem active_owners change h =
    any-Mem (subject change) active_owners (ground arith)
