-- ===== src/Db/TokenHash/Laws.antt =====
-- What `TokenHash::from_bytes` writes, read back by an independent reader.
use Prim.Native.Char.{code, len_utf8}
use Prim.Native.String.{len}
use Prim.Native.String.len
use fukulow.Common.{
  ℕ, zero, suc, ◌+◌, ◌-◌, ◌*◌, ◌/◌, ◌%◌, ◌<◌, ◌≡◌, refl, String, Bool, true, ◌&&◌, some, List, [],
  ◌∷◌, ◌==◌, ==_iff, leb, if◌then◌else◌, arith, length, &&_split, Bool-cases, inl, inr,
}
use fukulow.Common.RowLaws.{All}
use fukulow.Db.TokenHash.{digits, char_at, from_bytes, is_hex_digit, all_hex, from_hex}

abbrev pub AreBytes : List ℕ → Type 0
AreBytes bytes = All (λ b. b < 256) bytes

-- The value of a lower-case hexadecimal digit.
abbrev pub digit_value : ℕ → ℕ
digit_value c = if leb c b'9' then c - 48 else c - 87

-- The bytes that a text of hexadecimal digits stands for.
pub read_hex : String → List ℕ
read_hex String.[] = []
read_hex (String.◌∷◌ c String.[]) = []
read_hex (String.◌∷◌ c (String.◌∷◌ d s)) =
    (16 * digit_value (code c) + digit_value (code d)) ∷ read_hex s

-- Whether a test passes at the numbers under `n`.
tested : (ℕ → Bool) → ℕ → Bool
tested test zero = true
tested test (suc n) = tested test n && test n

tested_at : (test : ℕ → Bool) (i n : ℕ) → tested test n ≡ true → i < n → test i ≡ true
unfolding tested
tested_at test i zero passed under = absurd (omega arith)
tested_at test i (suc n) passed under =
    let (before, last) = &&_split (tested test n) (test n) passed in
    elim (Bool-cases (i == n)) [
      | inl here ↦ rw ((==_iff i n).0 here) last
      | inr there ↦ tested_at test i n before (ground (arith, there))
    ]

abbrev digit_code : ℕ → ℕ
digit_code i = code (char_at digits i)

-- What the proofs use of the sixteen digits.
abbrev is_digit_of : ℕ → Bool
is_digit_of i =
    is_hex_digit (digit_code i)
    && digit_value (digit_code i) == i
    && len_utf8 (char_at digits i) == 1

sixteen_digits : tested is_digit_of 16 ≡ true
unfolding tested char_at
sixteen_digits = refl

digit_lem :
    (i : ℕ)
    → i < 16
    → (is_hex_digit (digit_code i) ≡ true)
      × (digit_value (digit_code i) ≡ i)
      × (len_utf8 (char_at digits i) ≡ 1)
digit_lem i h =
    let (rest, width) =
      &&_split (is_hex_digit (digit_code i) && digit_value (digit_code i) == i) _
        (tested_at is_digit_of i 16 sixteen_digits h) in
    let (hex, value) = &&_split (is_hex_digit (digit_code i)) _ rest in
    (hex, (==_iff _ i).0 value, (==_iff _ 1).0 width)

-- A token hash gives back the digest that it was made of: no two digests have the same one.
pub read_hex-from_bytes : (bytes : List ℕ) → AreBytes bytes → read_hex (from_bytes bytes) ≡ bytes
unfolding read_hex from_bytes
read_hex-from_bytes [] h = refl
read_hex-from_bytes (b ∷ bytes) (lt, h) =
    let high = digit_lem (b / 16) (omega arith) in
    let low = digit_lem (b % 16) (omega arith) in
    let value : 16 * digit_value (digit_code (b / 16)) + digit_value (digit_code (b % 16)) ≡ b =
      rw (high.1, low.1) (omega arith) in
    rw (value, read_hex-from_bytes bytes h)

all_hex-from_bytes : (bytes : List ℕ) → AreBytes bytes → all_hex (from_bytes bytes) ≡ true
unfolding all_hex from_bytes
all_hex-from_bytes [] h = refl
all_hex-from_bytes (b ∷ bytes) (lt, h) =
    rw ((digit_lem (b / 16) (omega arith)).0, (digit_lem (b % 16) (omega arith)).0)
      (all_hex-from_bytes bytes h)

len-from_bytes : (bytes : List ℕ) → AreBytes bytes → len (from_bytes bytes) ≡ 2 * length bytes
unfolding from_bytes
len-from_bytes [] h = refl
len-from_bytes (b ∷ bytes) (lt, h) =
    let high = (digit_lem (b / 16) (omega arith)).2 in
    let low = (digit_lem (b % 16) (omega arith)).2 in
    rw (len.cons, len.cons, high, low, len-from_bytes bytes h) (omega arith)

-- The hash of a digest of 32 bytes is the text that `from_hex` accepts, and it is given back whole.
pub from_hex-from_bytes :
    (bytes : List ℕ)
    → AreBytes bytes
    → length bytes ≡ 32
    → from_hex (from_bytes bytes) ≡ some (from_bytes bytes)
unfolding from_hex
from_hex-from_bytes bytes h size = rw (len-from_bytes bytes h, size, all_hex-from_bytes bytes h)
