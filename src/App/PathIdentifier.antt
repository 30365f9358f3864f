-- ===== src/App/PathIdentifier.antt =====
-- `path_identifier` and `identifier` of crates/app/src/invites.rs: the UUID in a segment of the
-- path. Texts are their bytes here.
pub mod Laws
use fukulow.Common.{
  ℕ, zero, suc, ◌+◌, ◌-◌, ◌*◌, Bool, true, false, ◌&&◌, Option, none, some, List, [], ◌∷◌, ◌==◌,
  leb, ltb, if◌then◌else◌, length,
}
use fukulow.Common.Utf8.{is_utf8}

-- What `split('/')` gives: the segments of a path, of which there is always one.
abbrev extend : ℕ → List (List ℕ) → List (List ℕ)
extend b [] = (b ∷ []) ∷ []
extend b (segment ∷ segments) = (b ∷ segment) ∷ segments

unfoldable pub split : List ℕ → List (List ℕ)
split [] = [] ∷ []
split (b ∷ path) = elim (b == b'/') [ true ↦ [] ∷ split path | false ↦ extend b (split path) ]

-- `Iterator::nth`, and a byte at an index.
unfoldable pub nth : {A : Type 0} → List A → ℕ → Option A
nth [] i = none
nth (x ∷ xs) zero = some x
nth (x ∷ xs) (suc i) = nth xs i

-- `(b as char).to_digit(16)`; a byte of 128 and more is no digit as a Latin-1 character.
abbrev pub to_digit : ℕ → Option ℕ
to_digit b =
    if leb b'0' b && leb b b'9'
    then some (b - 48)
    else if leb b'a' b && leb b b'f'
    then some (b - 87)
    else if leb b'A' b && leb b b'F'
    then some (b - 55)
    else none

-- The byte that two digits stand for.
abbrev pub from_digits : Option ℕ → Option ℕ → Option ℕ
from_digits (some high) (some low) = some (high * 16 + low)
from_digits (some high) none = none
from_digits none _ = none

-- `decoded.push(byte)` and the test of its length, before what the rest of the loop gives.
abbrev pub push : ℕ → Option ℕ → Option (List ℕ) → Option (List ℕ)
push decoded none rest = none
push decoded (some byte) none = none
push decoded (some byte) (some bytes) = if ltb 36 (suc decoded) then none else some (byte ∷ bytes)

-- The loop of `path_identifier`, with so many bytes decoded already; `none` is a return of 404.
unfoldable pub decode : ℕ → List ℕ → Option (List ℕ)
decode n [] = some []
decode n (b ∷ []) = elim (b == b'%') [ true ↦ none | false ↦ push n (some b) (some []) ]
decode n (b ∷ h ∷ []) = elim (b == b'%') [
  | true ↦ none
  | false ↦ push n (some b) (decode (suc n) (h ∷ []))
]
decode n (b ∷ h ∷ l ∷ rest) = elim (b == b'%') [
  | true ↦ push n (from_digits (to_digit h) (to_digit l)) (decode (suc n) rest)
  | false ↦ push n (some b) (decode (suc n) (h ∷ l ∷ rest))
]

-- `value.as_bytes()[i] == b'-'`; the length is known to be 36 there.
abbrev is_dash : Option ℕ → Bool
is_dash none = false
is_dash (some b) = b == b'-'

abbrev pub has_form : List ℕ → Bool
has_form value =
    length value == 36
    && is_dash (nth value 8)
    && is_dash (nth value 13)
    && is_dash (nth value 18)
    && is_dash (nth value 23)

-- `none` is the status 404.
unfoldable pub identifier : (List ℕ → Option ℕ) → List ℕ → Option ℕ
unfolding nth
identifier parse_uuid value = if has_form value then parse_uuid value else none

-- `std::str::from_utf8(&decoded)` and what follows it.
abbrev pub read : (List ℕ → Option ℕ) → Option (List ℕ) → Option ℕ
read parse_uuid none = none
read parse_uuid (some decoded) = if is_utf8 decoded then identifier parse_uuid decoded else none

unfoldable pub path_identifier : (List ℕ → Option ℕ) → List ℕ → ℕ → Option ℕ
unfolding split nth decode
path_identifier parse_uuid path segment = elim (nth (split path) segment) [
  | none ↦ none
  | some raw ↦ read parse_uuid (decode 0 raw)
]
