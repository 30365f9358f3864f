-- ===== src/App/Config/Accepts.antt =====
-- The origins that `validate_public_origin` accepts are all those that a browser writes so.
use fukulow.Common.{
  ◌≡◌, ◌≢◌, ◌↔◌, refl, true, false, ◌&&◌, ◌||◌, not, some, [], ◌∷◌, ◌++◌, map, ==_refl, Bool-cases,
  ◌⊎◌, inl, inr,
}
use fukulow.Common.Characters.{codes}
use fukulow.Db.Transaction.{ok}
use fukulow.App.Config.{
  Text, text_eq, strip_prefix, split_once, print_u16, to_ascii_lower, UriCrate, check_port,
  default_port, is_local, is_empty, validate_public_origin,
}
use fukulow.App.Config.Texts.{text_eq-path}
use fukulow.App.Config.Ports.{parse_u16-print_u16}
use fukulow.App.Config.Laws.{IsPort, no_port, port, IsOrigin, accepted-IsOrigin}

text_eq_refl : (s : Text) → text_eq s s ≡ true
text_eq_refl [] = refl
text_eq_refl (c ∷ s) = rw (==_refl c) (text_eq_refl s)

strip_prefix-prefix : (prefix s : Text) → strip_prefix prefix (prefix ++ s) ≡ some s
unfolding strip_prefix
strip_prefix-prefix [] s = refl
strip_prefix-prefix (c ∷ prefix) s = rw (==_refl c) (strip_prefix-prefix prefix s)

check_port-ok : (suffix : Text) → IsPort suffix → check_port suffix ≡ ok tt
unfolding check_port strip_prefix codes
check_port-ok _ no_port = refl
check_port-ok _ (port n le) = rw (parse_u16-print_u16 n le, text_eq_refl (print_u16 n)) refl

split-https :
    (authority : Text)
    → split_once (codes "://") (codes "https" ++ (codes "://" ++ authority))
      ≡ some (codes "https", authority)
unfolding split_once strip_prefix codes
split-https authority = refl

split-http :
    (authority : Text)
    → split_once (codes "://") (codes "http" ++ (codes "://" ++ authority))
      ≡ some (codes "http", authority)
unfolding split_once strip_prefix codes
split-http authority = refl

-- Not the default port of the scheme.
undefaulted :
    (scheme suffix : Text)
    → ((scheme ≡ codes "https") ⊎ (scheme ≡ codes "http"))
    → (scheme ≡ codes "https" → suffix ≢ codes ":443")
    → (scheme ≡ codes "http" → suffix ≢ codes ":80")
    → (not (is_empty (default_port scheme)) && text_eq suffix (default_port scheme)) ≡ false
unfolding default_port codes
undefaulted scheme suffix (inl e) h k = rw e (elim (Bool-cases (text_eq suffix (codes ":443"))) [
  | inl same ↦ absurd (h e (text_eq-path suffix (codes ":443") same))
  | inr other ↦ other
])
undefaulted scheme suffix (inr e) h k = rw e (elim (Bool-cases (text_eq suffix (codes ":80"))) [
  | inl same ↦ absurd (k e (text_eq-path suffix (codes ":80") same))
  | inr other ↦ other
])

split-scheme :
    (scheme authority : Text)
    → ((scheme ≡ codes "https") ⊎ (scheme ≡ codes "http"))
    → split_once (codes "://") (scheme ++ (codes "://" ++ authority)) ≡ some (scheme, authority)
split-scheme scheme authority (inl e) = rw e (split-https authority)
split-scheme scheme authority (inr e) = rw e (split-http authority)

scheme_of :
    (scheme : Text) (X : Type 0)
    → (scheme ≡ codes "https") ⊎ ((scheme ≡ codes "http") × X)
    → (scheme ≡ codes "https") ⊎ (scheme ≡ codes "http")
scheme_of scheme X (inl e) = inl e
scheme_of scheme X (inr (e, x)) = inr e

secure_enough :
    (scheme host : Text)
    → (scheme ≡ codes "https") ⊎ ((scheme ≡ codes "http") × (is_local host ≡ true))
    → (not (text_eq scheme (codes "https")) && not (text_eq scheme (codes "http") && is_local host))
      ≡ false
unfolding codes
secure_enough scheme host (inl e) = rw e refl
secure_enough scheme host (inr (e, local)) = rw (e, local) refl

module _ {Uri : Type 0} (uri_crate : UriCrate Uri) where
  IsOrigin-accepted :
      (value : Text) → IsOrigin uri_crate value → validate_public_origin uri_crate value ≡ ok tt
  unfolding validate_public_origin
  IsOrigin-accepted value o =
      let scheme = scheme_of o.scheme _ o.secure in
      let split : split_once (codes "://") value ≡ some (o.scheme, o.host ++ o.suffix) =
        rw o.whole (split-scheme o.scheme (o.host ++ o.suffix) scheme) in
      let serial : (not (text_eq value (map to_ascii_lower value))
            || (not (is_empty (default_port o.scheme)) && text_eq o.suffix (default_port o.scheme)))
          ≡ false =
        rw (o.lower, text_eq_refl value)
          (undefaulted o.scheme o.suffix scheme o.not_default.0 o.not_default.1) in
      rw
        (
          split,
          o.filled,
          o.bare,
          o.parsed,
          o.found_host,
          o.found_authority,
          text_eq_refl (o.host ++ o.suffix),
          o.found_scheme,
          text_eq_refl o.scheme,
          strip_prefix-prefix o.host o.suffix,
          check_port-ok o.suffix o.numbered,
          serial,
          secure_enough o.scheme o.host o.secure,
        )
        refl

  -- `validate_public_origin` accepts exactly the origins that a browser sends in that form: lower
  -- case, a host without path, query, fragment or credentials, a port of 16 bits without leading
  -- zeros that is not the scheme's default, over https or, for a local host, http.
  pub validate_public_origin-IsOrigin :
      (value : Text) → (validate_public_origin uri_crate value ≡ ok tt) ↔ IsOrigin uri_crate value
  validate_public_origin-IsOrigin value =
      (accepted-IsOrigin uri_crate value, IsOrigin-accepted value)
