-- ===== src/Domain/MemberStatus.antt =====
-- `enumeration!(MemberStatus …)` of crates/domain/src/lib.rs, written out.
use mathlib.Core.List.{Mem, mem-cons_self, mem-cons_of_mem}
use fukulow.Common.{
  String, ◌≡◌, ◌↔◌, refl, Option, none, some, List, [], ◌∷◌, arith, str_eq, str_eq_iff,
  if◌then◌else◌,
}

pub data MemberStatus : Type 0 where
  active suspended left : MemberStatus

-- `MemberStatus::ALL`
abbrev pub all : List MemberStatus
all = active ∷ suspended ∷ left ∷ []

-- `MemberStatus::parse`
unfoldable pub parse : String → Option MemberStatus
parse value =
    if str_eq value "active"
    then some active
    else if str_eq value "suspended"
    then some suspended
    else if str_eq value "left"
    then some left
    else none

-- `MemberStatus::as_str`
abbrev pub as_str : MemberStatus → String
as_str active = "active"
as_str suspended = "suspended"
as_str left = "left"

parse-as_str : (v : MemberStatus) → parse (as_str v) ≡ some v
unfolding parse str_eq
parse-as_str active = refl
parse-as_str suspended = refl
parse-as_str left = refl

as_str-parse : (value : String) (v : MemberStatus) → parse value ≡ some v → value ≡ as_str v
unfolding parse
as_str-parse value v h =
    ground (arith, str_eq_iff value "active", str_eq_iff value "suspended", str_eq_iff value "left")

-- A text parses to a membership status exactly when it is the status's canonical text.
pub member_status_iff :
    (value : String) (v : MemberStatus) → (parse value ≡ some v) ↔ (value ≡ as_str v)
member_status_iff value v = (as_str-parse value v, λ e. rw e (parse-as_str v))

-- `ALL` lists every value.
pub all_complete : (v : MemberStatus) → Mem v all
all_complete active = mem-cons_self
all_complete suspended = mem-cons_of_mem _ mem-cons_self
all_complete left = mem-cons_of_mem _ (mem-cons_of_mem _ mem-cons_self)
