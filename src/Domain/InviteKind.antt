-- ===== src/Domain/InviteKind.antt =====
-- `enumeration!(InviteKind …)` of crates/domain/src/lib.rs, written out.
use mathlib.Core.List.{Mem, mem-cons_self, mem-cons_of_mem}
use fukulow.Common.{
  String, ◌≡◌, ◌↔◌, refl, Option, none, some, List, [], ◌∷◌, arith, str_eq, str_eq_iff,
  if◌then◌else◌,
}

pub data InviteKind : Type 0 where
  organization team : InviteKind

-- `InviteKind::ALL`
abbrev pub all : List InviteKind
all = organization ∷ team ∷ []

-- `InviteKind::parse`
unfoldable pub parse : String → Option InviteKind
parse value =
    if str_eq value "organization"
    then some organization
    else if str_eq value "team"
    then some team
    else none

-- `InviteKind::as_str`
abbrev pub as_str : InviteKind → String
as_str organization = "organization"
as_str team = "team"

parse-as_str : (v : InviteKind) → parse (as_str v) ≡ some v
unfolding parse str_eq
parse-as_str organization = refl
parse-as_str team = refl

as_str-parse : (value : String) (v : InviteKind) → parse value ≡ some v → value ≡ as_str v
unfolding parse
as_str-parse value v h = ground (arith, str_eq_iff value "organization", str_eq_iff value "team")

-- A text parses to a value exactly when it is the value's canonical text.
pub parse_iff : (value : String) (v : InviteKind) → (parse value ≡ some v) ↔ (value ≡ as_str v)
parse_iff value v = (as_str-parse value v, λ e. rw e (parse-as_str v))

-- `ALL` lists every value.
pub all_complete : (v : InviteKind) → Mem v all
all_complete organization = mem-cons_self
all_complete team = mem-cons_of_mem _ mem-cons_self
