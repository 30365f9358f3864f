-- ===== src/App/Config.antt =====
-- crates/app/src/config.rs. A text is the list of its characters' codes; the environment and the
-- crate http's `Uri` are parameters.
pub mod Ports
pub mod Texts
pub mod Laws
pub mod Accepts
use fukulow.Common.{
  ℕ, zero, suc, ◌+◌, ◌-◌, ◌*◌, ◌/◌, ◌%◌, String, Bool, true, false, ◌&&◌, ◌||◌, not, Option, none,
  some, List, [], ◌∷◌, ◌++◌, map, ◌==◌, ltb, leb, if◌then◌else◌, is_some, any,
}
use fukulow.Common.Characters.{codes}
use fukulow.Db.Transaction.{Result, ok, err}

abbrev pub Text : Type 0
Text = List ℕ

abbrev pub text_eq : Text → Text → Bool
text_eq [] [] = true
text_eq [] (d ∷ t) = false
text_eq (c ∷ s) [] = false
text_eq (c ∷ s) (d ∷ t) = c == d && text_eq s t

-- `strip_prefix(prefix)`, with the prefix first
unfoldable pub strip_prefix : Text → Text → Option Text
strip_prefix [] s = some s
strip_prefix (c ∷ prefix) [] = none
strip_prefix (c ∷ prefix) (d ∷ s) = if c == d then strip_prefix prefix s else none

abbrev pub prepend : ℕ → Option (Text × Text) → Option (Text × Text)
prepend c none = none
prepend c (some (before, after)) = some (c ∷ before, after)

-- `split_once(separator)`, of a separator that is not empty
unfoldable pub split_once : Text → Text → Option (Text × Text)
split_once separator [] = none
split_once separator (c ∷ s) = elim (strip_prefix separator (c ∷ s)) [
  | some after ↦ some ([], after)
  | none ↦ prepend c (split_once separator s)
]

-- The digits of a `u16`: no digit and an overflow are errors.
unfoldable pub parse_digits : ℕ → Text → Option ℕ
parse_digits n [] = some n
parse_digits n (c ∷ s) = elim (leb b'0' c && leb c b'9' && leb (n * 10 + (c - 48)) 65535) [
  | true ↦ parse_digits (n * 10 + (c - 48)) s
  | false ↦ none
]

-- `parse::<u16>().ok()`: one `+` may stand before the digits, of which there is at least one.
unfoldable pub parse_u16 : Text → Option ℕ
unfolding parse_digits
parse_u16 [] = none
parse_u16 (c ∷ []) = parse_digits 0 (c ∷ [])
parse_u16 (c ∷ d ∷ s) = if c == b'+' then parse_digits 0 (d ∷ s) else parse_digits 0 (c ∷ d ∷ s)

-- The decimal digits of a number, as many as there is fuel for at most.
unfoldable pub print_digits : ℕ → ℕ → Text
print_digits zero n = []
print_digits (suc fuel) n = elim (ltb n 10) [
  | true ↦ (48 + n) ∷ []
  | false ↦ print_digits fuel (n / 10) ++ (48 + n % 10) ∷ []
]

-- `to_string` of a `u16`, which has at most five digits
unfoldable pub print_u16 : ℕ → Text
unfolding print_digits
print_u16 n = print_digits 5 n

abbrev pub to_ascii_lower : ℕ → ℕ
to_ascii_lower c = if leb b'A' c && leb c b'Z' then c + 32 else c

-- `axum::http::Uri`: `parse`, `host`, `authority` and `scheme_str`.
pub record UriCrate (Uri : Type 0) : Type 0 where
  pub parse : Text → Option Uri
  pub host : Uri → Option Text
  pub authority : Uri → Option Text
  pub scheme_str : Uri → Option Text

-- The three messages of `validate_public_origin`.
pub data OriginError : Type 0 where
  malformed not_serialized insecure : OriginError

module _ {E A B : Type 0} where
  infixl 5 ◌>>=◌
  abbrev pub ◌>>=◌ : Result E A → (A → Result E B) → Result E B
  ok a >>= f = f a
  err e >>= f = err e

  infixl 5 ◌>>◌
  abbrev pub ◌>>◌ : Result E A → Result E B → Result E B
  m >> k = m >>= λ _. k

abbrev pub ok_or : {E A : Type 0} → E → Option A → Result E A
ok_or e none = err e
ok_or e (some a) = ok a

abbrev pub refuse_if : {E : Type 0} → E → Bool → Result E (Unit {0})
refuse_if e true = err e
refuse_if e false = ok tt

abbrev pub some_text_eq : Option Text → Text → Bool
some_text_eq none t = false
some_text_eq (some s) t = text_eq s t

abbrev pub is_delimiter : ℕ → Bool
is_delimiter c = c == b'/' || c == b'?' || c == b'#' || c == b'@'

-- `port.parse::<u16>().ok().map(|port| port.to_string()).as_deref() != Some(port)`
abbrev pub is_canonical : Option ℕ → Text → Bool
is_canonical none port = false
is_canonical (some n) port = text_eq (print_u16 n) port

-- `if !suffix.is_empty()`
unfoldable pub check_port : Text → Result OriginError (Unit {0})
check_port [] = ok tt
check_port (c ∷ suffix) = do
  port ← ok_or malformed (strip_prefix (codes ":") (c ∷ suffix))
  refuse_if malformed (not (is_canonical (parse_u16 port) port))

unfoldable pub default_port : Text → Text
unfolding codes
default_port scheme =
    if text_eq scheme (codes "https")
    then codes ":443"
    else if text_eq scheme (codes "http")
    then codes ":80"
    else []

abbrev pub is_local : Text → Bool
is_local host =
    text_eq host (codes "localhost")
    || text_eq host (codes "127.0.0.1")
    || text_eq host (codes "[::1]")

abbrev pub is_empty : Text → Bool
is_empty [] = true
is_empty (c ∷ s) = false

module _ {Uri : Type 0} (uri_crate : UriCrate Uri) where
  unfoldable pub validate_public_origin : Text → Result OriginError (Unit {0})
  validate_public_origin value = do
    (scheme, authority) ← ok_or malformed (split_once (codes "://") value)
    refuse_if malformed (is_empty authority || any is_delimiter authority)
    uri ← ok_or malformed (uri_crate.parse value)
    host ← ok_or malformed (uri_crate.host uri)
    parsed_authority ← ok_or malformed (uri_crate.authority uri)
    refuse_if malformed (
        not (text_eq parsed_authority authority)
        || not (some_text_eq (uri_crate.scheme_str uri) scheme))
    suffix ← ok_or malformed (strip_prefix host authority)
    check_port suffix
    refuse_if not_serialized (
        not (text_eq value (map to_ascii_lower value))
        || (not (is_empty (default_port scheme)) && text_eq suffix (default_port scheme)))
    refuse_if insecure (
        not (text_eq scheme (codes "https"))
        && not (text_eq scheme (codes "http") && is_local host))
    ok tt

-- `env::var(name)`
pub data Var : Type 0 where
  present : Text → Var
  not_present not_unicode : Var

abbrev pub Env : Type 0
Env = String → Var

-- `.map_err(…)` on a variable that is required
abbrev pub required : Var → Option Text
required (present value) = some value
required not_present = none
required not_unicode = none

-- `env::var_os(name).is_some()`
abbrev pub is_set : Var → Bool
is_set (present value) = true
is_set not_present = false
is_set not_unicode = true

-- The three functions that read the environment; `none` is their own error.
unfoldable pub bind_address :
    {Address : Type 0} → (Text → Option Address) → (List ℕ → ℕ → Address) → Env → Option Address
bind_address parse from env = elim (env "FUKULOW_BIND_ADDR") [
  | present value ↦ parse value
  | not_present ↦ some (from (127 ∷ 0 ∷ 0 ∷ 1 ∷ []) 8080)
  | not_unicode ↦ none
]

unfoldable pub database_url : Env → Option Text
database_url env =
    if is_set (env "INSPECTOR_DATABASE_URL") then none else required (env "DATABASE_URL")

-- `none` is a variable that is not set or not Unicode; an error of `validate_public_origin` is its.
unfoldable pub public_origin :
    {Uri : Type 0} → UriCrate Uri → Env → Option (Result OriginError Text)
public_origin uri_crate env = elim (required (env "FUKULOW_PUBLIC_ORIGIN")) [
  | none ↦ none
  | some value ↦ some (validate_public_origin uri_crate value >>= λ _. ok value)
]
