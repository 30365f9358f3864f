-- ===== src/Auth/Laws.antt =====
-- Passwords and tokens of crates/auth.
use fukulow.Common.{
  ℕ, ◌≡◌, refl, sym, String, Bool, true, false, ◌&&◌, some, List, [], ◌∷◌, ◌++◌, inl, inr, is_some,
  length, arith, Option-cases, Bool-cases, &&_split,
}
use fukulow.Common.Utf8.{as_bytes}
use fukulow.Db.TokenHash.{from_bytes, from_hex}
use fukulow.Db.TokenHash.Laws.{AreBytes, read_hex, read_hex-from_bytes, from_hex-from_bytes}
use fukulow.Operations.Sessions.{dummy_password_hash}
use fukulow.Auth.{
  Verification, verified, password_invalid, failed, Crypto, Fill, decided_by, settle, hex,
  random_token, decide, verify_with, hash_token, hash_session_token, hash_invite_token,
  new_session_token, new_invite_token,
}

module _ {PasswordHash : Type 0} (crypto : Crypto PasswordHash) where
  -- The stored text parses to a hash with a salt and an output.
  pub record IsUsable (phc : String) (hash : PasswordHash) : Type 0 where
    pub parses : crypto.parse_phc phc ≡ some hash
    pub salted : is_some (crypto.salt hash) ≡ true
    pub whole : is_some (crypto.output hash) ≡ true

  -- What a verification comes to: the stored hash decides, or the dummy runs last and the answer is
  -- no.
  pub data Verdict (verify : String → PasswordHash → Verification) (password phc : String)
      (dummy : PasswordHash) : Bool × List PasswordHash → Type 0 where
    accepted :
        (hash : PasswordHash)
        → IsUsable phc hash
        → verify password hash ≡ verified
        → Verdict verify password phc dummy (true, hash ∷ [])
    mismatched :
        (hash : PasswordHash)
        → IsUsable phc hash
        → verify password hash ≡ password_invalid
        → Verdict verify password phc dummy (false, hash ∷ [])
    dummy_ran :
        (before : List PasswordHash)
        → Verdict verify password phc dummy (false, before ++ dummy ∷ [])

  usable-Verdict :
      (verify : String → PasswordHash → Verification) (password phc : String) (dummy : PasswordHash)
      → crypto.parse_phc dummy_password_hash ≡ some dummy
      → (hash : PasswordHash) → IsUsable phc hash
      → (v : Verification) → verify password hash ≡ v
      → Verdict verify password phc dummy (settle crypto (decided_by crypto v, hash ∷ []))
  usable-Verdict verify password phc dummy known hash usable verified e = accepted hash usable e
  usable-Verdict verify password phc dummy known hash usable password_invalid e =
      mismatched hash usable e
  usable-Verdict verify password phc dummy known hash usable failed e =
      rw known (dummy_ran (hash ∷ []))

  -- Without a verdict of the stored hash the dummy runs; its text is taken to parse.
  pub verify_with-Verdict :
      (verify : String → PasswordHash → Verification) (password phc : String) (dummy : PasswordHash)
      → crypto.parse_phc dummy_password_hash ≡ some dummy
      → Verdict verify password phc dummy (verify_with crypto verify password phc)
  unfolding verify_with decide
  verify_with-Verdict verify password phc dummy known = elim (Option-cases (crypto.parse_phc phc)) [
    | inl e ↦ rw (e, verify_with, decide, known) (dummy_ran [])
    | inr (hash, e) ↦
        elim (Bool-cases (is_some (crypto.salt hash) && is_some (crypto.output hash))) [
          | inl both ↦
              let (salted, whole) = &&_split (is_some (crypto.salt hash)) _ both in
              let usable : IsUsable phc hash = record {
                parses = e;
                salted = salted;
                whole = whole;
              } in
              rw (e, both, verify_with, decide)
                (usable-Verdict verify password phc dummy known hash usable (verify password hash)
                  refl)
          | inr neither ↦ rw (e, neither, verify_with, decide, known) (dummy_ran [])
        ]
  ]

pub hex-from_bytes : (bytes : List ℕ) → hex bytes ≡ from_bytes bytes
unfolding hex from_bytes
hex-from_bytes [] = refl
hex-from_bytes (byte ∷ bytes) = rw (hex-from_bytes bytes) refl

-- What getrandom and SHA-256 are documented to give: as many bytes as the buffer has, and 32 bytes.
abbrev pub FillsBuffer : Fill → Type 0
FillsBuffer fill =
    (n : ℕ) (bytes : List ℕ) → fill n ≡ some bytes → AreBytes bytes × (length bytes ≡ n)

abbrev pub IsDigest : (List ℕ → List ℕ) → Type 0
IsDigest sha256 = (message : List ℕ) → AreBytes (sha256 message) × (length (sha256 message) ≡ 32)

-- A new token: it writes 32 random bytes out in full, it has the form of 64 hexadecimal digits, and
-- the stored hash writes out the digest of the token's text and is one that `from_hex` accepts.
pub record IsToken {PasswordHash : Type 0} (crypto : Crypto PasswordHash) (fill : Fill)
    (token token_hash : String) : Type 0 where
  pub drawn : fill 32 ≡ some (read_hex token)
  pub form : from_hex token ≡ some token
  pub digest : read_hex token_hash ≡ crypto.sha256 (as_bytes token)
  pub stored : from_hex token_hash ≡ some token_hash

random_token-bytes :
    (fill : Fill) (token : String)
    → random_token fill ≡ some token
    → (bytes : List ℕ) × ((fill 32 ≡ some bytes) × (hex bytes ≡ token))
unfolding random_token
random_token-bytes fill token h = elim (Option-cases (fill 32)) [
  | inl e ↦ absurd (ground arith)
  | inr (bytes, e) ↦ (bytes, (e, ground arith))
]

drawn-IsToken :
    {PasswordHash : Type 0} (crypto : Crypto PasswordHash) (fill : Fill) (bytes : List ℕ)
    → FillsBuffer fill
    → IsDigest crypto.sha256
    → fill 32 ≡ some bytes
    → IsToken crypto fill (hex bytes) (hash_token crypto (hex bytes))
unfolding hash_token
drawn-IsToken crypto fill bytes fills digests e =
    let (are, size) = fills 32 bytes e in
    let (are_digest, digest_size) = digests (as_bytes (hex bytes)) in
    record {
      drawn = rw (hex-from_bytes bytes, read_hex-from_bytes bytes are) e;
      form = rw (hex-from_bytes bytes) (from_hex-from_bytes bytes are size);
      digest = read_hex-from_bytes _ are_digest;
      stored = from_hex-from_bytes _ are_digest digest_size;
    }

-- A session token that is drawn is one of 32 random bytes, its hash is that of its text, and both
-- have the form that is stored; the same bytes give the same invite token with the same hash.
-- getrandom is taken to fill the buffer, and SHA-256 to give 32 bytes.
pub new_session_token-IsToken :
    {PasswordHash : Type 0} (crypto : Crypto PasswordHash) (fill : Fill) (token token_hash : String)
    → FillsBuffer fill
    → IsDigest crypto.sha256
    → new_session_token crypto fill ≡ some (token, token_hash)
    → IsToken crypto fill token token_hash
      × (new_invite_token crypto fill ≡ some (token, token_hash))
unfolding new_session_token new_invite_token hash_session_token hash_invite_token
new_session_token-IsToken crypto fill token token_hash fills digests h =
    elim (Option-cases (random_token fill)) [
      | inl e ↦ absurd (ground arith)
      | inr (t, e) ↦
          let (bytes, (drawn, same)) = random_token-bytes fill t e in
          let this : t ≡ token = ground arith in
          let its : hash_token crypto t ≡ token_hash = ground arith in
          (
            rw (sym this, sym its, sym same) (drawn-IsToken crypto fill bytes fills digests drawn),
            h,
          )
    ]
