-- ===== src/App/Config/Texts.antt =====
-- What the readings of texts in `validate_public_origin` have found.
use fukulow.Common.{
  ℕ, ◌≡◌, refl, true, Option, none, some, [], ◌∷◌, ◌++◌, ◌==◌, arith, Bool-cases, Option-cases, inl,
  inr, &&_split, ==_iff,
}
use fukulow.App.Config.{Text, text_eq, strip_prefix, prepend, split_once}

pub text_eq-path : (s t : Text) → text_eq s t ≡ true → s ≡ t
text_eq-path [] [] h = refl
text_eq-path [] (d ∷ t) h = absurd (ground arith)
text_eq-path (c ∷ s) [] h = absurd (ground arith)
text_eq-path (c ∷ s) (d ∷ t) h =
    let (head, tail) = &&_split (c == d) (text_eq s t) h in
    rw ((==_iff c d).0 head, text_eq-path s t tail) refl

pub strip_prefix-append :
    (prefix s rest : Text) → strip_prefix prefix s ≡ some rest → s ≡ prefix ++ rest
unfolding strip_prefix
strip_prefix-append [] s rest h = ground arith
strip_prefix-append (c ∷ prefix) [] rest h = absurd (ground arith)
strip_prefix-append (c ∷ prefix) (d ∷ s) rest h = elim (Bool-cases (c == d)) [
  | inl e ↦ rw ((==_iff c d).0 e, strip_prefix-append prefix s rest (rw e at h)) refl
  | inr e ↦ absurd (ground arith)
]

prepended :
    (c : ℕ) (o : Option (Text × Text)) (before after : Text)
    → prepend c o ≡ some (before, after)
    → (b : Text) × (before ≡ c ∷ b) × (o ≡ some (b, after))
prepended c none before after h = absurd (ground arith)
prepended c (some (b, a)) before after h = (b, ground arith, ground arith)

found :
    (rest before after : Text)
    → ◌≡◌ {A = Option (Text × Text)} (some ([], rest)) (some (before, after))
    → (before ≡ []) × (after ≡ rest)
found rest before after h = (ground arith, ground arith)

pub split_once-append :
    (separator s before after : Text)
    → split_once separator s ≡ some (before, after)
    → s ≡ before ++ (separator ++ after)
unfolding split_once
split_once-append separator [] before after h = absurd (ground arith)
split_once-append separator (c ∷ s) before after h =
    elim (Option-cases (strip_prefix separator (c ∷ s))) [
      | inr (rest, e) ↦
          let (first, last) = found rest before after (rw (e, split_once) at h) in
          rw (first, last) (strip_prefix-append separator (c ∷ s) rest e)
      | inl e ↦
          let (b, same, whole) =
            prepended c (split_once separator s) before after (rw (e, split_once) at h) in
          rw (same, split_once-append separator s b after whole) refl
    ]
