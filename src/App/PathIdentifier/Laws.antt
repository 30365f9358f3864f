-- ===== src/App/PathIdentifier/Laws.antt =====
-- What `path_identifier` decodes, against percent-encoding as a relation.
use fukulow.Common.{
  ℕ, suc, ◌+◌, ◌*◌, ◌≤◌, ◌≡◌, ◌↔◌, refl, true, false, Option, none, some, List, [], ◌∷◌, ◌∙◌, sym,
  ◌==◌, ==_iff, length, arith, Bool-cases, Option-cases, inl, inr,
}
use fukulow.Common.Utf8.{is_utf8}
use fukulow.App.PathIdentifier.{
  split, nth, to_digit, from_digits, push, decode, has_form, identifier, read, path_identifier,
}

-- What a text stands for under percent-encoding: a byte other than `%` for itself, and `%` with two
-- hexadecimal digits for the byte that they write.
pub data Escapes : List ℕ → List ℕ → Type 0 where
  finished : Escapes [] []
  plain :
      (b : ℕ) (raw out : List ℕ)
      → (b == b'%') ≡ false
      → Escapes raw out
      → Escapes (b ∷ raw) (b ∷ out)
  escaped :
      (high low x y : ℕ) (raw out : List ℕ)
      → to_digit high ≡ some x
      → to_digit low ≡ some y
      → Escapes raw out
      → Escapes (b'%' ∷ high ∷ low ∷ raw) ((x * 16 + y) ∷ out)

push-some :
    (n : ℕ) (byte : Option ℕ) (rest : Option (List ℕ)) (out : List ℕ)
    → push n byte rest ≡ some out
    → (b : ℕ) × (bytes : List ℕ) × (byte ≡ some b)
      × (rest ≡ some bytes)
      × (out ≡ b ∷ bytes)
      × (suc n ≤ 36)
push-some n none rest out h = absurd (ground arith)
push-some n (some b) none out h = absurd (ground arith)
push-some n (some b) (some bytes) out h = (b, bytes, refl, refl, ground arith, ground arith)

from_digits-some :
    (high low : Option ℕ) (b : ℕ)
    → from_digits high low ≡ some b
    → (x : ℕ) × (y : ℕ) × (high ≡ some x) × (low ≡ some y) × (b ≡ x * 16 + y)
from_digits-some none low b h = absurd (ground arith)
from_digits-some (some x) none b h = absurd (ground arith)
from_digits-some (some x) (some y) b h = (x, y, refl, refl, ground arith)

decode-plain :
    (n b : ℕ) (raw : List ℕ)
    → (b == b'%') ≡ false
    → decode n (b ∷ raw) ≡ push n (some b) (decode (suc n) raw)
unfolding decode
decode-plain n b [] h = rw (h, decode)
decode-plain n b (c ∷ []) h = rw (h, decode)
decode-plain n b (c ∷ d ∷ raw) h = rw (h, decode)

push-fits : (n b : ℕ) (out : List ℕ) → suc n ≤ 36 → push n (some b) (some out) ≡ some (b ∷ out)
push-fits n b out le = ground arith

-- What is decoded, so many bytes after the start.
abbrev Decodes : ℕ → List ℕ → List ℕ → Type 0
Decodes n raw out = Escapes raw out × (n + length out ≤ 36)

plain_sound :
    (n b : ℕ) (raw out : List ℕ)
    → (b == b'%') ≡ false
    → ((rest : List ℕ) → suc n ≤ 36 → decode (suc n) raw ≡ some rest → Decodes (suc n) raw rest)
    → decode n (b ∷ raw) ≡ some out
    → Decodes n (b ∷ raw) out
plain_sound n b raw out h next e =
    let (byte, bytes, same, rest, whole, le) =
      push-some n (some b) (decode (suc n) raw) out (sym (decode-plain n b raw h) ∙ e) in
    let (tail, fits) = next bytes le rest in
    let this : b ≡ byte = ground arith in
    rw (whole, sym this) (plain b raw bytes h tail, omega arith)

escaped_sound :
    (n high low : ℕ) (raw out : List ℕ)
    → ((rest : List ℕ) → suc n ≤ 36 → decode (suc n) raw ≡ some rest → Decodes (suc n) raw rest)
    → push n (from_digits (to_digit high) (to_digit low)) (decode (suc n) raw) ≡ some out
    → Decodes n (b'%' ∷ high ∷ low ∷ raw) out
escaped_sound n high low raw out next e =
    let (byte, bytes, digits, rest, whole, le) = push-some n _ (decode (suc n) raw) out e in
    let (x, y, hx, hy, value) = from_digits-some (to_digit high) (to_digit low) byte digits in
    let (tail, fits) = next bytes le rest in
    rw (whole, value) (escaped high low x y raw bytes hx hy tail, omega arith)

-- Everything that the loop decodes is an encoding, and fits.
decode_sound : (n : ℕ) (raw out : List ℕ) → n ≤ 36 → decode n raw ≡ some out → Decodes n raw out
unfolding decode
decode_sound n [] out le h = ground (arith, finished)
decode_sound n (b ∷ []) out le h = elim (Bool-cases (b == b'%')) [
  | inl e ↦ absurd (ground (arith, rw (e, decode) at h))
  | inr e ↦ plain_sound n b [] out e (λ rest. decode_sound (suc n) [] rest) h
]
decode_sound n (b ∷ c ∷ []) out le h = elim (Bool-cases (b == b'%')) [
  | inl e ↦ absurd (ground (arith, rw (e, decode) at h))
  | inr e ↦ plain_sound n b (c ∷ []) out e (λ rest. decode_sound (suc n) (c ∷ []) rest) h
]
decode_sound n (b ∷ c ∷ d ∷ raw) out le h = elim (Bool-cases (b == b'%')) [
  | inl e ↦
      rw ((==_iff b 37).0 e)
        (escaped_sound n c d raw out (λ rest. decode_sound (suc n) raw rest) (rw (e, decode) at h))
  | inr e ↦ plain_sound n b (c ∷ d ∷ raw) out e (λ rest. decode_sound (suc n) (c ∷ d ∷ raw) rest) h
]

decode_complete :
    (n : ℕ) (raw out : List ℕ) → Escapes raw out → n + length out ≤ 36 → decode n raw ≡ some out
unfolding decode
decode_complete n _ _ finished le = refl
decode_complete n _ _ (plain b raw out h e) le =
    decode-plain n b raw h
    ∙ rw (decode_complete (suc n) raw out e (omega arith)) (push-fits n b out (omega arith))
decode_complete n _ _ (escaped high low x y raw out hx hy e) le =
    rw (hx, hy, decode_complete (suc n) raw out e (omega arith)) (push-fits n _ out (omega arith))

-- The segment of the path that stands for an identifier.
abbrev pub Identifies : (List ℕ → Option ℕ) → List ℕ → ℕ → ℕ → Type 0
Identifies parse_uuid path segment id =
    (raw : List ℕ) × (text : List ℕ) × (nth (split path) segment ≡ some raw)
    × Escapes raw text
    × (is_utf8 text ≡ true)
    × (has_form text ≡ true)
    × (parse_uuid text ≡ some id)

form-length : (text : List ℕ) → has_form text ≡ true → length text ≡ 36
form-length text h = ground arith

read-text :
    (parse_uuid : List ℕ → Option ℕ) (decoded : Option (List ℕ)) (id : ℕ)
    → read parse_uuid decoded ≡ some id
    → (text : List ℕ) × (decoded ≡ some text)
      × (is_utf8 text ≡ true)
      × (has_form text ≡ true)
      × (parse_uuid text ≡ some id)
unfolding identifier
read-text parse_uuid none id h = absurd (ground arith)
read-text parse_uuid (some text) id h = elim (Bool-cases (is_utf8 text)) [
  | inr e ↦ absurd (ground (arith, h, e))
  | inl e ↦ elim (Bool-cases (has_form text)) [
    | inr f ↦ absurd (ground (arith, rw (e, f, identifier) at h))
    | inl f ↦ (text, refl, e, f, rw (e, f, identifier) at h)
  ]
]

-- `path_identifier` gives an identifier exactly if the segment is there and percent-encodes a UTF-8
-- text of 36 bytes with dashes at 8, 13, 18 and 23 that the crate uuid reads as it: to stop the
-- loop after 36 bytes refuses nothing else.
pub path_identifier-Identifies :
    (parse_uuid : List ℕ → Option ℕ) (path : List ℕ) (segment id : ℕ)
    → (path_identifier parse_uuid path segment ≡ some id) ↔ Identifies parse_uuid path segment id
unfolding path_identifier identifier
path_identifier-Identifies parse_uuid path segment id = (sound, complete)
  where
    sound :
        path_identifier parse_uuid path segment ≡ some id → Identifies parse_uuid path segment id
    sound h = elim (Option-cases (nth (split path) segment)) [
      | inl e ↦ absurd (ground (arith, rw (e, path_identifier) at h))
      | inr (raw, e) ↦
          let (text, decoded, utf8, form, parsed) =
            read-text parse_uuid (decode 0 raw) id (rw (e, path_identifier) at h) in
          let (encoding, fits) = decode_sound 0 raw text (omega arith) decoded in
          (raw, text, e, encoding, utf8, form, parsed)
    ]

    complete :
        Identifies parse_uuid path segment id → path_identifier parse_uuid path segment ≡ some id
    complete (raw, text, e, encoding, utf8, form, parsed) =
        rw
          (
            e,
            path_identifier,
            decode_complete 0 raw text encoding (omega (arith, form-length text form)),
            utf8,
            form,
            parsed,
            identifier,
          )
          refl
