-- ===== src/Domain/TeamRole.antt =====
-- `enumeration!(TeamRole …)` of crates/domain/src/lib.rs, written out.
use mathlib.Core.List.{Mem, mem-cons_self, mem-cons_of_mem}
use fukulow.Common.{
  String, ◌≡◌, ◌↔◌, refl, Option, none, some, List, [], ◌∷◌, arith, str_eq, str_eq_iff,
  if◌then◌else◌,
}

pub data TeamRole : Type 0 where
  manager member : TeamRole

-- `TeamRole::ALL`
abbrev pub all : List TeamRole
all = manager ∷ member ∷ []

-- `TeamRole::parse`
unfoldable pub parse : String → Option TeamRole
parse value =
    if str_eq value "manager"
    then some manager
    else if str_eq value "member"
    then some member
    else none

-- `TeamRole::as_str`
abbrev pub as_str : TeamRole → String
as_str manager = "manager"
as_str member = "member"

parse-as_str : (v : TeamRole) → parse (as_str v) ≡ some v
unfolding parse str_eq
parse-as_str manager = refl
parse-as_str member = refl

as_str-parse : (value : String) (v : TeamRole) → parse value ≡ some v → value ≡ as_str v
unfolding parse
as_str-parse value v h = ground (arith, str_eq_iff value "manager", str_eq_iff value "member")

-- A text parses to a value exactly when it is the value's canonical text.
pub parse_iff : (value : String) (v : TeamRole) → (parse value ≡ some v) ↔ (value ≡ as_str v)
parse_iff value v = (as_str-parse value v, λ e. rw e (parse-as_str v))

-- `ALL` lists every value.
pub all_complete : (v : TeamRole) → Mem v all
all_complete manager = mem-cons_self
all_complete member = mem-cons_of_mem _ mem-cons_self
