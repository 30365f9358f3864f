-- ===== src/App/Config/Ports.antt =====
-- The port of an origin: `parse::<u16>` on what `to_string` writes.
use mathlib.Core.List.{append_assoc, append-nil}
use fukulow.Common.{
  ℕ, zero, suc, ◌+◌, ◌-◌, ◌*◌, ◌/◌, ◌%◌, ◌<◌, ◌≤◌, ◌≡◌, ◌∙◌, ap, sym, refl, true, false, ◌&&◌, some,
  [], ◌∷◌, ◌++◌, ◌==◌, ltb, leb, arith, Bool-cases, inl, inr,
}
use fukulow.App.Config.{Text, parse_digits, parse_u16, print_digits, print_u16}

parse-digit :
    (n d m : ℕ) (s : Text)
    → d < 10
    → n * 10 + d ≡ m
    → m ≤ 65535
    → parse_digits n ((48 + d) ∷ s) ≡ parse_digits m s
unfolding parse_digits
parse-digit n d m s small value fits =
    let same : n * 10 + ((48 + d) - 48) ≡ m = omega (arith, value) in
    let passes : (leb b'0' (48 + d) && leb (48 + d) b'9' && leb (n * 10 + ((48 + d) - 48)) 65535)
        ≡ true =
      ground arith in
    rw (parse_digits, passes) (ap (λ k. parse_digits k s) same)

-- The numbers with so many digits are below this.
abbrev limit : ℕ → ℕ
limit zero = 1
limit (suc fuel) = 10 * limit fuel

parse-print :
    (fuel n : ℕ) (s : Text)
    → n < limit fuel
    → n ≤ 65535
    → parse_digits 0 (print_digits fuel n ++ s) ≡ parse_digits n s
unfolding print_digits
parse-print zero n s small fits = let e : n ≡ 0 = omega arith in rw e refl
parse-print (suc fuel) n s small fits = elim (Bool-cases (ltb n 10)) [
  | inl e ↦ rw (print_digits, e) (parse-digit 0 n n s (ground arith) (omega arith) fits)
  | inr e ↦
      rw (print_digits, e)
        (rw (append_assoc (print_digits fuel (n / 10)) ((48 + n % 10) ∷ []) s) (
          parse-print fuel (n / 10) ((48 + n % 10) ∷ s) (omega arith) (omega arith)
          ∙ parse-digit (n / 10) (n % 10) n s (omega arith) (omega arith) fits))
]

first_digit : (fuel n : ℕ) → (c : ℕ) × (s : Text) × (print_digits (suc fuel) n ≡ c ∷ s) × (48 ≤ c)
unfolding print_digits
first_digit zero n = elim (Bool-cases (ltb n 10)) [
  | inl e ↦ (48 + n, [], rw (print_digits, e) refl, omega arith)
  | inr e ↦ (48 + n % 10, [], rw (print_digits, e) refl, omega arith)
]
first_digit (suc fuel) n = elim (Bool-cases (ltb n 10)) [
  | inl e ↦ (48 + n, [], rw (print_digits, e) refl, omega arith)
  | inr e ↦
      let (c, s, first, le) = first_digit fuel (n / 10) in
      (c, s ++ (48 + n % 10) ∷ [], rw (print_digits, e, first) refl, le)
]

parse_u16-digits : (c : ℕ) (s : Text) → 48 ≤ c → parse_u16 (c ∷ s) ≡ parse_digits 0 (c ∷ s)
unfolding parse_u16
parse_u16-digits c [] le = refl
parse_u16-digits c (d ∷ s) le = let e : (c == 43) ≡ false = ground arith in rw e refl

-- Every `u16` is read back from its digits.
pub parse_u16-print_u16 : (n : ℕ) → n ≤ 65535 → parse_u16 (print_u16 n) ≡ some n
unfolding print_u16 parse_digits
parse_u16-print_u16 n fits =
    let (c, s, first, le) = first_digit 4 n in
    ap parse_u16 first
    ∙ parse_u16-digits c s le
    ∙ ap (parse_digits 0) (sym first)
    ∙ ap (parse_digits 0) (sym (append-nil (print_digits 5 n)))
    ∙ parse-print 5 n [] (omega arith) fits

parse_digits-le : (n : ℕ) (s : Text) (m : ℕ) → n ≤ 65535 → parse_digits n s ≡ some m → m ≤ 65535
unfolding parse_digits
parse_digits-le n [] m le h = ground arith
parse_digits-le n (c ∷ s) m le h =
    elim (Bool-cases (leb b'0' c && leb c b'9' && leb (n * 10 + (c - 48)) 65535)) [
      | inl e ↦ parse_digits-le (n * 10 + (c - 48)) s m (ground arith) (rw (e, parse_digits) at h)
      | inr e ↦ absurd (ground (arith, rw (e, parse_digits) at h))
    ]

pub parse_u16-le : (s : Text) (n : ℕ) → parse_u16 s ≡ some n → n ≤ 65535
unfolding parse_u16
parse_u16-le [] n h = absurd (ground arith)
parse_u16-le (c ∷ []) n h = parse_digits-le 0 (c ∷ []) n (omega arith) h
parse_u16-le (c ∷ d ∷ s) n h = elim (Bool-cases (c == 43)) [
  | inl e ↦ parse_digits-le 0 (d ∷ s) n (omega arith) (rw e at h)
  | inr e ↦ parse_digits-le 0 (c ∷ d ∷ s) n (omega arith) (rw e at h)
]
