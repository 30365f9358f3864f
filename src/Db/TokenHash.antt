-- ===== src/Db/TokenHash.antt =====
-- `TokenHash` of crates/db/src/context.rs. The type wraps its text and nothing else, so that it is
-- that text here; a `[u8; 32]` is the list of its bytes.
pub mod Laws
use Prim.Native.Char.{Char, code, nul}
use Prim.Native.String.{len}
use fukulow.Common.{
  ℕ, zero, suc, ◌/◌, ◌%◌, String, Bool, true, false, ◌&&◌, ◌||◌, Option, none, some, List, [], ◌∷◌,
  ◌==◌, leb, if◌then◌else◌,
}

-- `DIGITS`
abbrev pub digits : String
digits = "0123456789abcdef"

-- `DIGITS[i]`; the code indexes it below 16 alone.
unfoldable pub char_at : String → ℕ → Char
char_at String.[] i = nul
char_at (String.◌∷◌ c s) zero = c
char_at (String.◌∷◌ c s) (suc i) = char_at s i

-- `TokenHash::from_bytes`: the two characters of each byte, `byte >> 4` and `byte & 15`.
unfoldable pub from_bytes : List ℕ → String
from_bytes [] = String.[]
from_bytes (byte ∷ bytes) =
    String.◌∷◌ (char_at digits (byte / 16))
      (String.◌∷◌ (char_at digits (byte % 16)) (from_bytes bytes))

-- `c.is_ascii_digit() || (b'a'..=b'f').contains(&c)`
abbrev pub is_hex_digit : ℕ → Bool
is_hex_digit c = (leb b'0' c && leb c b'9') || (leb b'a' c && leb c b'f')

-- The test goes over the bytes of the text; a character that is no ASCII one has only bytes of 128
-- and more, so that the test on its code gives the same.
unfoldable pub all_hex : String → Bool
all_hex String.[] = true
all_hex (String.◌∷◌ c s) = is_hex_digit (code c) && all_hex s

-- `TokenHash::from_hex`; `none` is `InvalidTokenHash`.
unfoldable pub from_hex : String → Option String
unfolding all_hex
from_hex value = if len value == 64 && all_hex value then some value else none
