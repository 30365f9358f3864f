-- ===== src/Domain/OrganizationRole.antt =====
-- `enumeration!(OrganizationRole …)` of crates/domain/src/lib.rs, written out.
use mathlib.Core.List.{Mem, mem-cons_self, mem-cons_of_mem}
use fukulow.Common.{
  String, ◌≡◌, ◌↔◌, refl, Bool, Option, none, some, List, [], ◌∷◌, arith, str_eq, str_eq_iff,
  if◌then◌else◌, true, false,
}

pub data OrganizationRole : Type 0 where
  owner admin member : OrganizationRole

pub data Capability : Type 0 where
  invite_member : Capability

-- `OrganizationRole::holds`
unfoldable pub holds : OrganizationRole → Capability → Bool
holds owner invite_member = true
holds admin invite_member = true
holds member invite_member = false

-- `OrganizationRole::ALL`
abbrev pub all : List OrganizationRole
all = owner ∷ admin ∷ member ∷ []

-- `OrganizationRole::parse`
unfoldable pub parse : String → Option OrganizationRole
parse value =
    if str_eq value "owner"
    then some owner
    else if str_eq value "admin"
    then some admin
    else if str_eq value "member"
    then some member
    else none

-- `OrganizationRole::as_str`
abbrev pub as_str : OrganizationRole → String
as_str owner = "owner"
as_str admin = "admin"
as_str member = "member"

parse-as_str : (v : OrganizationRole) → parse (as_str v) ≡ some v
unfolding parse str_eq
parse-as_str owner = refl
parse-as_str admin = refl
parse-as_str member = refl

as_str-parse : (value : String) (v : OrganizationRole) → parse value ≡ some v → value ≡ as_str v
unfolding parse
as_str-parse value v h =
    ground (arith, str_eq_iff value "owner", str_eq_iff value "admin", str_eq_iff value "member")

-- A text parses to an organization role exactly when it is the role's canonical text.
pub organization_role_iff :
    (value : String) (v : OrganizationRole) → (parse value ≡ some v) ↔ (value ≡ as_str v)
organization_role_iff value v = (as_str-parse value v, λ e. rw e (parse-as_str v))

-- `ALL` lists every value.
pub all_complete : (v : OrganizationRole) → Mem v all
all_complete owner = mem-cons_self
all_complete admin = mem-cons_of_mem _ mem-cons_self
all_complete member = mem-cons_of_mem _ (mem-cons_of_mem _ mem-cons_self)
