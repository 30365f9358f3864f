-- ===== src/App/Fields.antt =====
-- What the handlers read out of a JSON body: `object`, `integer`, `string` and `acceptance_fields`
-- of crates/app/src/invites.rs.
pub mod Reads
use Prim.Native.Char.{Char, code}
use Prim.Native.String.{len}
use fukulow.Common.{
  ℕ, suc, String, Bool, true, false, ◌&&◌, ◌||◌, not, Option, none, some, List, [], ◌∷◌, ◌==◌, leb,
  ltb, if◌then◌else◌, is_some, rows, any, length,
}
use fukulow.Common.Int.{ℤ, pos, negsuc}
use fukulow.Common.Characters.{char_count, codes}
use fukulow.App.Crates.{Fields, Json}
use fukulow.App.Http.{H, ◌>>=◌, pure, ok_or, unprocessable_entity}

-- `char::is_whitespace`: the characters with Unicode's White_Space.
abbrev pub is_whitespace : ℕ → Bool
is_whitespace c =
    (leb 9 c && leb c 13)
    || c == 32
    || c == 133
    || c == 160
    || c == 5760
    || (leb 8192 c && leb c 8202)
    || c == 8232
    || c == 8233
    || c == 8239
    || c == 8287
    || c == 12288

unfoldable pub trim_start : String → String
trim_start String.[] = String.[]
trim_start (String.◌∷◌ c s) = elim (is_whitespace (code c)) [
  | true ↦ trim_start s
  | false ↦ String.◌∷◌ c s
]

-- A character before what is left of the rest.
abbrev before_trimmed : Char → String → String
before_trimmed c String.[] = if is_whitespace (code c) then String.[] else String.◌∷◌ c String.[]
before_trimmed c (String.◌∷◌ d s) = String.◌∷◌ c (String.◌∷◌ d s)

unfoldable pub trim_end : String → String
trim_end String.[] = String.[]
trim_end (String.◌∷◌ c s) = before_trimmed c (trim_end s)

-- `str::trim`
unfoldable pub trim : String → String
trim s = trim_end (trim_start s)

-- `value.contains('\0')`
abbrev pub has_nul : String → Bool
has_nul value = any (λ c. c == 0) (codes value)

-- `value.filter(test)`
abbrev pub filter {ℓ} : {A : Type ℓ} → (A → Bool) → Option A → Option A
filter test none = none
filter test (some a) = if test a then some a else none

abbrev pub and_then : {A B : Type 0} → Option A → (A → Option B) → Option B
and_then none f = none
and_then (some a) f = f a

-- `(min..=max).contains(value)`; the callers' bounds are not negative.
abbrev pub within : ℕ → ℕ → ℤ → Option ℕ
within min max (pos n) = if leb min n && leb n max then some n else none
within min max (negsuc n) = none

-- The negation of the `if` in `acceptance_fields`.
unfoldable pub acceptable : String → String → String → Bool
unfolding trim
acceptable email password display_name =
    leb 3 (len email)
    && leb (len email) 254
    && length (rows (λ c. c == b'@') (codes email)) == 1
    && not (any (λ c. is_whitespace c || c == 0) (codes email))
    && leb 8 (char_count password)
    && leb (len password) 1024
    && leb 1 (char_count display_name)
    && leb (char_count display_name) 80
    && not (has_nul display_name)

module _ {Value : Type 0} (json : Json Value) where
  unfoldable pub object : Option (List ℕ) → H (Fields Value)
  object body = do
    bytes ← ok_or unprocessable_entity body
    value ← ok_or unprocessable_entity (json.from_slice bytes)
    ok_or unprocessable_entity (json.as_object value)

  unfoldable pub integer : Fields Value → String → ℕ → ℕ → H ℕ
  integer fields key min max =
      ok_or unprocessable_entity (and_then (and_then (fields key) json.as_i64) (within min max))

  unfoldable pub string : Fields Value → String → H String
  string fields key = ok_or unprocessable_entity (and_then (fields key) json.as_str)

  unfoldable pub acceptance_fields : Fields Value → H (String × String × String)
  acceptance_fields fields = do
    email ← string fields "email"
    password ← string fields "password"
    untrimmed ← string fields "display_name"
    ok_or unprocessable_entity (
        if acceptable email password (trim untrimmed)
        then some (email, password, trim untrimmed)
        else none)
