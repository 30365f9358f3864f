-- ===== src/Domain/ActorType.antt =====
-- `enumeration!(ActorType …)` of crates/domain/src/lib.rs, written out.
use mathlib.Core.List.{Mem, mem-cons_self, mem-cons_of_mem}
use fukulow.Common.{
  String, ◌≡◌, ◌↔◌, refl, Option, none, some, List, [], ◌∷◌, arith, str_eq, str_eq_iff,
  if◌then◌else◌,
}

pub data ActorType : Type 0 where
  human bot integration system : ActorType

-- `ActorType::ALL`
abbrev pub all : List ActorType
all = human ∷ bot ∷ integration ∷ system ∷ []

-- `ActorType::parse`
unfoldable pub parse : String → Option ActorType
parse value =
    if str_eq value "human"
    then some human
    else if str_eq value "bot"
    then some bot
    else if str_eq value "integration"
    then some integration
    else if str_eq value "system"
    then some system
    else none

-- `ActorType::as_str`
abbrev pub as_str : ActorType → String
as_str human = "human"
as_str bot = "bot"
as_str integration = "integration"
as_str system = "system"

parse-as_str : (v : ActorType) → parse (as_str v) ≡ some v
unfolding parse str_eq
parse-as_str human = refl
parse-as_str bot = refl
parse-as_str integration = refl
parse-as_str system = refl

as_str-parse : (value : String) (v : ActorType) → parse value ≡ some v → value ≡ as_str v
unfolding parse
as_str-parse value v h = ground (
  arith,
  str_eq_iff value "human",
  str_eq_iff value "bot",
  str_eq_iff value "integration",
  str_eq_iff value "system",
)

-- A text parses to a value exactly when it is the value's canonical text.
pub parse_iff : (value : String) (v : ActorType) → (parse value ≡ some v) ↔ (value ≡ as_str v)
parse_iff value v = (as_str-parse value v, λ e. rw e (parse-as_str v))

-- `ALL` lists every value.
pub all_complete : (v : ActorType) → Mem v all
all_complete human = mem-cons_self
all_complete bot = mem-cons_of_mem _ mem-cons_self
all_complete integration = mem-cons_of_mem _ (mem-cons_of_mem _ mem-cons_self)
all_complete system = mem-cons_of_mem _ (mem-cons_of_mem _ (mem-cons_of_mem _ mem-cons_self))
