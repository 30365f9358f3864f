-- ===== src/Common/Utf8.antt =====
-- `str::as_bytes`, the UTF-8 of a text, and `str::from_utf8`.
use Prim.Native.Nat.{ℕ, zero, suc, ◌+◌, ◌/◌, ◌%◌}
use Prim.Native.Char.{code}
use Prim.Native.String.{String}
use mathlib.Core.List.{List, [], ◌∷◌, ◌++◌}
use mathlib.Core.Bool.{Bool, true, false, ◌&&◌}
use mathlib.Core.Option.{Option, none, some}
use fukulow.Common.Tests.{ltb, leb, ◌==◌, if◌then◌else◌}

abbrev pub utf8 : ℕ → List ℕ
utf8 c =
    if ltb c 128
    then c ∷ []
    else if ltb c 2048
    then (192 + c / 64) ∷ (128 + c % 64) ∷ []
    else if ltb c 65536
    then (224 + c / 4096) ∷ (128 + c / 64 % 64) ∷ (128 + c % 64) ∷ []
    else (240 + c / 262144) ∷ (128 + c / 4096 % 64) ∷ (128 + c / 64 % 64) ∷ (128 + c % 64) ∷ []

unfoldable pub as_bytes : String → List ℕ
as_bytes String.[] = []
as_bytes (String.◌∷◌ c s) = utf8 (code c) ++ as_bytes s

-- After the first byte of a character: how many bytes follow it, and the bounds of the next.
abbrev pub following : ℕ → Option (ℕ × ℕ × ℕ)
following b =
    if ltb b 128
    then some (0, 0, 0)
    else if leb 194 b && leb b 223
    then some (1, 128, 191)
    else if b == 224
    then some (2, 160, 191)
    else if b == 237
    then some (2, 128, 159)
    else if leb 225 b && leb b 239
    then some (2, 128, 191)
    else if b == 240
    then some (3, 144, 191)
    else if leb 241 b && leb b 243
    then some (3, 128, 191)
    else if b == 244
    then some (3, 128, 143)
    else none

-- Whether bytes are UTF-8 where `n` of the character at hand are still to come, the next between
-- two bounds.
unfoldable pub is_utf8_after : ℕ → ℕ → ℕ → List ℕ → Bool
is_utf8_after zero low high [] = true
is_utf8_after (suc n) low high [] = false
is_utf8_after zero low high (b ∷ bytes) = elim (following b) [
  | none ↦ false
  | some (n, l, h) ↦ is_utf8_after n l h bytes
]
is_utf8_after (suc n) low high (b ∷ bytes) =
    leb low b && leb b high && is_utf8_after n 128 191 bytes

-- `std::str::from_utf8(bytes).is_ok()`
unfoldable pub is_utf8 : List ℕ → Bool
unfolding is_utf8_after
is_utf8 bytes = is_utf8_after 0 0 0 bytes
