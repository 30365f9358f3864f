-- ===== src/Auth.antt =====
-- crates/auth/src/lib.rs. The crates argon2, sha2 and getrandom are parameters: `fill n` is what
-- `getrandom::fill` writes into a buffer of `n` bytes, `none` if it fails. A session token and an
-- invite token wrap their text, so that they are texts here.
pub mod Laws
use fukulow.Common.{
  ℕ, ◌/◌, ◌%◌, String, Bool, true, false, ◌&&◌, Option, none, some, List, [], ◌∷◌, ◌++◌,
  if◌then◌else◌, is_some,
}
use fukulow.Common.Utf8.{as_bytes}
use fukulow.Db.TokenHash.{digits, char_at, from_bytes}
use fukulow.Operations.Sessions.{dummy_password_hash}

-- `Result<(), password_hash::Error>`, as far as the source tells errors apart.
pub data Verification : Type 0 where
  verified password_invalid failed : Verification

-- argon2 and password_hash: `PasswordHash::new`, the two fields that the source reads,
-- `Argon2::default()`'s two methods (the hash that it makes is given as its text), and
-- `Sha256::digest`.
pub record Crypto (PasswordHash : Type 0) : Type 0 where
  pub parse_phc : String → Option PasswordHash
  pub salt : PasswordHash → Option (List ℕ)
  pub output : PasswordHash → Option (List ℕ)
  pub argon2_verify : List ℕ → PasswordHash → Verification
  pub argon2_hash : List ℕ → List ℕ → Option String
  pub sha256 : List ℕ → List ℕ

abbrev pub Fill : Type 0
Fill = ℕ → Option (List ℕ)

unfoldable pub hex : List ℕ → String
hex [] = String.[]
hex (byte ∷ bytes) =
    String.◌∷◌ (char_at digits (byte / 16)) (String.◌∷◌ (char_at digits (byte % 16)) (hex bytes))

unfoldable pub random_token : Fill → Option String
random_token fill = elim (fill 32) [ none ↦ none | some bytes ↦ some (hex bytes) ]

module _ {PasswordHash : Type 0} (crypto : Crypto PasswordHash) where
  unfoldable pub hash_password_with_rng : String → Fill → Option String
  hash_password_with_rng password fill = elim (fill 16) [
    | none ↦ none
    | some salt ↦ crypto.argon2_hash (as_bytes password) salt
  ]

  -- The closures on `decided`: what the stored hash decides, and the hashes that `verify` ran on.
  abbrev pub decided_by : Verification → Option Bool
  decided_by verified = some true
  decided_by password_invalid = some false
  decided_by failed = none

  unfoldable pub decide :
      (String → PasswordHash → Verification) → String → String → Option Bool × List PasswordHash
  decide verify password phc = elim (crypto.parse_phc phc) [
    | none ↦ (none, [])
    | some hash ↦
        if is_some (crypto.salt hash) && is_some (crypto.output hash)
        then (decided_by (verify password hash), hash ∷ [])
        else (none, [])
  ]

  -- `if let Ok(dummy) = … { let _ = verify(password, &dummy); }`
  abbrev pub run_dummy : Option PasswordHash → List PasswordHash
  run_dummy none = []
  run_dummy (some dummy) = dummy ∷ []

  abbrev pub settle : Option Bool × List PasswordHash → Bool × List PasswordHash
  settle (some answer, ran) = (answer, ran)
  settle (none, ran) = (false, ran ++ run_dummy (crypto.parse_phc dummy_password_hash))

  -- The answer, and the hashes that `verify` ran on, in order: they are the cost of the call.
  unfoldable pub verify_with :
      (String → PasswordHash → Verification) → String → String → Bool × List PasswordHash
  unfolding decide
  verify_with verify password phc = settle (decide verify password phc)

  unfoldable pub verify_password : String → String → Bool
  unfolding verify_with
  verify_password password phc =
      (verify_with (λ p hash. crypto.argon2_verify (as_bytes p) hash) password phc).0

  unfoldable pub hash_token : String → String
  hash_token token = from_bytes (crypto.sha256 (as_bytes token))

  unfoldable pub hash_session_token : String → String
  hash_session_token token = hash_token token

  unfoldable pub hash_invite_token : String → String
  hash_invite_token token = hash_token token

  -- `new_session_token`: the token and its hash; `none` is `TokenError`.
  unfoldable pub new_session_token : Fill → Option (String × String)
  new_session_token fill = elim (random_token fill) [
    | none ↦ none
    | some token ↦ some (token, hash_session_token token)
  ]

  unfoldable pub new_invite_token : Fill → Option (String × String)
  new_invite_token fill = elim (random_token fill) [
    | none ↦ none
    | some token ↦ some (token, hash_invite_token token)
  ]
