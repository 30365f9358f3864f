-- ===== src/Common/Characters.antt =====
-- Characters of a text.
use Prim.Native.Nat.{ℕ}
use Prim.Native.Char.{code}
use Prim.Native.String.{String, count}
use mathlib.Core.List.{List, [], ◌∷◌}

-- `body.chars().count()`, and PostgreSQL's `char_length`
unfoldable pub char_count : String → ℕ
char_count s = count s

-- The code points of a text.
unfoldable pub codes : String → List ℕ
codes String.[] = []
codes (String.◌∷◌ c s) = code c ∷ codes s
