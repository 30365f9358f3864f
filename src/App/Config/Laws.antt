-- ===== src/App/Config/Laws.antt =====
-- Which origins `validate_public_origin` accepts.
use mathlib.Core.Bool.{true≢false}
use fukulow.Common.{
  ℕ, ◌≤◌, ◌≡◌, ◌≢◌, ap, sym, refl, Bool, true, false, ◌&&◌, ◌||◌, not, Option, none, some, [], ◌∷◌,
  ◌++◌, map, any, arith, Bool-cases, inl, inr, ◌⊎◌, &&_split,
}
use fukulow.Common.Characters.{codes}
use fukulow.Db.Transaction.{Result, ok, err}
use fukulow.App.Config.Ports.{parse_u16-le}
use fukulow.App.Config.{
  Text, text_eq, strip_prefix, split_once, parse_u16, print_u16, to_ascii_lower, UriCrate,
  malformed, not_serialized, insecure, ◌>>=◌, ok_or, refuse_if, some_text_eq, is_delimiter,
  is_canonical, check_port, default_port, is_local, is_empty, validate_public_origin,
}
use fukulow.App.Config.Texts.{text_eq-path, strip_prefix-append, split_once-append}

-- If the checks go through, what they bind is what was asked for.
module _ {E A B : Type 0} where
  ok_or-ok :
      (e : E) (o : Option A) (f : A → Result E B) (b : B)
      → (ok_or e o >>= f) ≡ ok b
      → (a : A) × (o ≡ some a) × (f a ≡ ok b)
  ok_or-ok e none f b h = absurd (ground arith)
  ok_or-ok e (some a) f b h = (a, refl, h)

refuse_if-ok :
    {E B : Type 0} (e : E) (test : Bool) (f : Unit → Result E B) (b : B)
    → (refuse_if e test >>= f) ≡ ok b
    → (test ≡ false) × (f tt ≡ ok b)
refuse_if-ok e true f b h = absurd (ground arith)
refuse_if-ok e false f b h = (refl, h)

bind-ok :
    {E B : Type 0} (m : Result E (Unit {0})) (f : Unit → Result E B) (b : B)
    → (m >>= f) ≡ ok b
    → (m ≡ ok tt) × (f tt ≡ ok b)
bind-ok (ok tt) f b h = (refl, h)
bind-ok (err e) f b h = absurd (ground arith)

-- A port as a browser writes it: none, or a colon and the number's digits.
pub data IsPort : Text → Type 0 where
  no_port : IsPort []
  port : (n : ℕ) → n ≤ 65535 → IsPort (codes ":" ++ print_u16 n)

canonical-IsPort :
    (suffix digits : Text) (number : Option ℕ)
    → suffix ≡ codes ":" ++ digits
    → ((n : ℕ) → number ≡ some n → n ≤ 65535)
    → is_canonical number digits ≡ true
    → IsPort suffix
canonical-IsPort suffix digits none e bound h = absurd (ground arith)
canonical-IsPort suffix digits (some n) e bound h =
    rw (e, sym (text_eq-path (print_u16 n) digits h)) (port n (bound n refl))

refused-canonical : (b : Bool) → refuse_if malformed (not b) ≡ ok tt → b ≡ true
refused-canonical true h = refl
refused-canonical false h = absurd (ground arith)

check_port-IsPort : (suffix : Text) → check_port suffix ≡ ok tt → IsPort suffix
unfolding check_port
check_port-IsPort [] h = no_port
check_port-IsPort (c ∷ suffix) h =
    let (digits, stripped, canonical) =
      ok_or-ok malformed (strip_prefix (codes ":") (c ∷ suffix)) _ tt h in
    canonical-IsPort (c ∷ suffix) digits (parse_u16 digits)
      (strip_prefix-append (codes ":") (c ∷ suffix) digits stripped) (parse_u16-le digits)
      (refused-canonical _ canonical)

scheme_found : (o : Option Text) (scheme : Text) → some_text_eq o scheme ≡ true → o ≡ some scheme
scheme_found none scheme h = absurd (ground arith)
scheme_found (some s) scheme h = ap some (text_eq-path s scheme h)

secured :
    (scheme host : Text)
    → (not (text_eq scheme (codes "https")) && not (text_eq scheme (codes "http") && is_local host))
      ≡ false
    → (scheme ≡ codes "https") ⊎ ((scheme ≡ codes "http") × (is_local host ≡ true))
secured scheme host h = elim (Bool-cases (text_eq scheme (codes "https"))) [
  | inl e ↦ inl (text_eq-path scheme (codes "https") e)
  | inr e ↦ elim (Bool-cases (text_eq scheme (codes "http") && is_local host)) [
    | inl both ↦
        let (http, local) = &&_split (text_eq scheme (codes "http")) _ both in
        inr (text_eq-path scheme (codes "http") http, local)
    | inr neither ↦ absurd (ground (arith, h, e, neither))
  ]
]

ported :
    (scheme suffix : Text)
    → (not (is_empty (default_port scheme)) && text_eq suffix (default_port scheme)) ≡ false
    → (scheme ≡ codes "https" → suffix ≢ codes ":443")
      × (scheme ≡ codes "http" → suffix ≢ codes ":80")
unfolding default_port codes
ported scheme suffix h =
    (λ e same. true≢false (rw (e, same) at h), λ e same. true≢false (rw (e, same) at h))

-- An origin as a browser writes it: lower case throughout, the scheme, the host that the crate http
-- finds in it, and a port if it is not the scheme's default; over https, or over http for a local
-- host.
pub record IsOrigin {Uri : Type 0} (uri_crate : UriCrate Uri) (value : Text) : Type 0 where
  pub scheme : Text
  pub host : Text
  pub suffix : Text
  pub uri : Uri
  pub whole : value ≡ scheme ++ (codes "://" ++ (host ++ suffix))
  pub parsed : uri_crate.parse value ≡ some uri
  pub found_host : uri_crate.host uri ≡ some host
  pub found_authority : uri_crate.authority uri ≡ some (host ++ suffix)
  pub found_scheme : uri_crate.scheme_str uri ≡ some scheme
  pub filled : is_empty (host ++ suffix) ≡ false
  pub bare : any is_delimiter (host ++ suffix) ≡ false
  pub numbered : IsPort suffix
  pub lower : map to_ascii_lower value ≡ value
  pub secure : (scheme ≡ codes "https") ⊎ ((scheme ≡ codes "http") × (is_local host ≡ true))
  pub not_default :
      (scheme ≡ codes "https" → suffix ≢ codes ":443")
      × (scheme ≡ codes "http" → suffix ≢ codes ":80")

module _ {Uri : Type 0} (uri_crate : UriCrate Uri) where
  checked-IsOrigin :
      (value scheme authority host suffix : Text) (uri : Uri)
      → value ≡ scheme ++ (codes "://" ++ authority)
      → authority ≡ host ++ suffix
      → uri_crate.parse value ≡ some uri
      → uri_crate.host uri ≡ some host
      → (parsed_authority : Text) → uri_crate.authority uri ≡ some parsed_authority
      → (not (text_eq parsed_authority authority)
          || not (some_text_eq (uri_crate.scheme_str uri) scheme))
        ≡ false
      → (is_empty authority || any is_delimiter authority) ≡ false
      → IsPort suffix
      → (not (text_eq value (map to_ascii_lower value))
          || (not (is_empty (default_port scheme)) && text_eq suffix (default_port scheme)))
        ≡ false
      → (not (text_eq scheme (codes "https"))
          && not (text_eq scheme (codes "http") && is_local host))
        ≡ false
      → IsOrigin uri_crate value
  checked-IsOrigin value scheme authority host suffix uri split joined parsed found_host
        parsed_authority known same filled numbered serialized over =
      record {
        scheme = scheme;
        host = host;
        suffix = suffix;
        uri = uri;
        whole = rw (split, joined) refl;
        parsed = parsed;
        found_host = found_host;
        found_authority =
            rw (sym joined, sym (text_eq-path parsed_authority authority (ground (arith, same))))
              known;
        found_scheme = scheme_found (uri_crate.scheme_str uri) scheme (ground (arith, same));
        filled = rw (sym joined) (ground (arith, filled));
        bare = rw (sym joined) (ground (arith, filled));
        numbered = numbered;
        lower = sym (text_eq-path value (map to_ascii_lower value) (ground (arith, serialized)));
        secure = secured scheme host over;
        not_default = ported scheme suffix (ground (arith, serialized));
      }

  -- An accepted public origin is one that a browser can send: no configuration starts the server
  -- and then refuses every request because it is written otherwise.
  pub accepted-IsOrigin :
      (value : Text) → validate_public_origin uri_crate value ≡ ok tt → IsOrigin uri_crate value
  unfolding validate_public_origin
  accepted-IsOrigin value h =
      let ((scheme, authority), split, h1) =
        ok_or-ok malformed (split_once (codes "://") value) _ tt h in
      let (filled, h2) =
        refuse_if-ok malformed (is_empty authority || any is_delimiter authority) _ tt h1 in
      let (uri, parsed, h3) = ok_or-ok malformed (uri_crate.parse value) _ tt h2 in
      let (host, found_host, h4) = ok_or-ok malformed (uri_crate.host uri) _ tt h3 in
      let (parsed_authority, known, h5) = ok_or-ok malformed (uri_crate.authority uri) _ tt h4 in
      let (same, h6) =
        refuse_if-ok malformed
          (not (text_eq parsed_authority authority)
            || not (some_text_eq (uri_crate.scheme_str uri) scheme))
          _ tt h5 in
      let (suffix, stripped, h7) = ok_or-ok malformed (strip_prefix host authority) _ tt h6 in
      let (numbered, h8) = bind-ok (check_port suffix) _ tt h7 in
      let (serialized, h9) =
        refuse_if-ok not_serialized
          (not (text_eq value (map to_ascii_lower value))
            || (not (is_empty (default_port scheme)) && text_eq suffix (default_port scheme)))
          _ tt h8 in
      let (over, _) =
        refuse_if-ok insecure
          (not (text_eq scheme (codes "https"))
            && not (text_eq scheme (codes "http") && is_local host))
          _ tt h9 in
      checked-IsOrigin value scheme authority host suffix uri
        (split_once-append (codes "://") value scheme authority split)
        (strip_prefix-append host authority suffix stripped) parsed found_host parsed_authority
        known same filled (check_port-IsPort suffix numbered) serialized over
