-- ===== src/App/Acceptance.antt =====
-- What a request to `accept` of crates/app/src/invites.rs has passed when it is answered by 204.
use fukulow.Common.{
  ℕ, ◌≡◌, refl, sym, arith, false, String, Bool, true, Option, some, none, List, if◌then◌else◌,
}
use fukulow.Db.Schema.{Db}
use fukulow.Auth.{hash_invite_token}
use fukulow.Operations.Calls.{run_history}
use fukulow.Operations.Acceptance.{Accepted, accept_invite-Accepted}
use fukulow.App.Crates.{Fields, Json, State}
use fukulow.App.Fields.{object, string, acceptable, acceptance_fields, and_then, trim}
use fukulow.App.Http.{Request, no_content, bare, pure, ok_or}
use fukulow.App.Invites.{accept}
use fukulow.App.Refinement.{elapse-then, usable-stored}
use fukulow.App.Steps.{Ends, same-then, ok_or-then, call-then, read_call-then, Ensures-ended}

ok_or-ends :
    {A : Type 0} (Q : A → Db → Type 0) (db : Db) (status : ℕ) (o : Option A)
    → ((a : A) → o ≡ some a → Q a db)
    → Ends (λ _ _. Unit {0}) Q (ok_or status o db)
unfolding ok_or
ok_or-ends Q db status none h = tt
ok_or-ends Q db status (some a) h = h a refl

chosen :
    {A : Type 0} (test : Bool) (a b : A)
    → (if test then some a else none) ≡ some b
    → (test ≡ true) × (a ≡ b)
chosen true a b h = (refl, ground (arith, h))
chosen false a b h = absurd (ground (arith, h))

module _ {Value : Type 0} (json : Json Value) where
  -- The object that a body is read as.
  abbrev pub IsObject : Option (List ℕ) → Fields Value → Type 0
  IsObject body fields =
      (bytes : List ℕ) × (value : Value) × (body ≡ some bytes)
      × (json.from_slice bytes ≡ some value)
      × (json.as_object value ≡ some fields)

  object-IsObject :
      (body : Option (List ℕ)) (db : Db)
      → Ends (λ _ _. Unit) (λ fields d. (d ≡ db) × IsObject body fields) (object json body db)
  unfolding object
  object-IsObject body db = ok_or-then _ _ db _ _ _ tt λ bytes sent.
      ok_or-then _ _ db _ _ _ tt
        λ value read. ok_or-ends _ db _ _ λ fields whole. (refl, (bytes, value, sent, read, whole))

  abbrev pub HasText : Fields Value → String → String → Type 0
  HasText fields key text = and_then (fields key) json.as_str ≡ some text

  string-HasText :
      (fields : Fields Value) (key : String) (db : Db)
      → Ends
          (λ _ _. Unit)
          (λ text d. (d ≡ db) × HasText fields key text)
          (string json fields key db)
  unfolding string
  string-HasText fields key db = ok_or-ends _ db _ _ λ text h. (refl, h)

  abbrev pub AreAcceptable : Fields Value → String × String × String → Type 0
  AreAcceptable fields (email, password, display_name) =
      (untrimmed : String) × HasText fields "email" email
      × HasText fields "password" password
      × HasText fields "display_name" untrimmed
      × (display_name ≡ trim untrimmed)
      × (acceptable email password display_name ≡ true)

  acceptance_fields-AreAcceptable :
      (fields : Fields Value) (db : Db)
      → Ends
          (λ _ _. Unit)
          (λ texts d. (d ≡ db) × AreAcceptable fields texts)
          (acceptance_fields json fields db)
  unfolding acceptance_fields
  acceptance_fields-AreAcceptable fields db =
      same-then _ _ db _ _ _ (string-HasText fields "email" db) λ email h.
        same-then _ _ db _ _ _ (string-HasText fields "password" db) λ password k.
          same-then _ _ db _ _ _ (string-HasText fields "display_name" db) λ untrimmed l.
            ok_or-ends _ db _ _ λ texts passed.
              let (fine, same) =
                chosen (acceptable email password (trim untrimmed)) _ texts passed in
              rw (sym same) (refl, (untrimmed, h, k, l, refl, fine))

-- What an acceptance that is answered by 204 has read, checked and stored.
pub record IsAccepted {Value PasswordHash : Type 0} (state : State Value PasswordHash)
    (request : Request) (db : Db) (d : Db) : Type 0 where
  pub fields : Fields Value
  pub token : String
  pub texts : String × String × String
  pub password_hash : String
  pub ids : ℕ × ℕ
  pub body : IsObject state.json request.body fields
  pub sent : HasText state.json fields "token" token
  pub acceptable : AreAcceptable state.json fields texts
  pub hashed : state.hash_invite_password texts.1 ≡ some (some password_hash)
  pub stored :
      Accepted
        (state.servers 1)
        (hash_invite_token state.crypto token)
        texts.0
        password_hash
        texts.2
        (run_history state.uuid state.meanwhile db)
        ids
        d

-- A request to accept an invite that is not refused is answered by a bare 204; its body is an object
-- with a token and an acceptable e-mail address, password and trimmed display name, the password
-- was hashed, and `accept_invite` succeeded with these on the tables as other requests had left
-- them by then: the invite of the token was usable, and the person with that hash is a member.
pub accept-IsAccepted :
    {Value PasswordHash : Type 0} (state : State Value PasswordHash) (request : Request) (db : Db)
    → Ends
        (λ _ _. Unit)
        (λ response d. (response ≡ bare no_content) × IsAccepted state request db d)
        (accept state request db)
unfolding accept pure
accept-IsAccepted state request db =
    same-then _ _ db _ _ _ (object-IsObject state.json request.body db) λ fields body.
      same-then _ _ db _ _ _ (string-HasText state.json fields "token" db) λ token sent.
        read_call-then _ _ db _ _ _ (usable-stored (state.servers 0) _ db) (λ e. tt)
          λ usable t ended. ok_or-then _ _ db _ _ _ tt λ _ _.
            same-then _ _ db _ _ _ (acceptance_fields-AreAcceptable state.json fields db)
              λ (email, password, name) fine. ok_or-then _ _ db _ _ _ tt λ hashed h.
                ok_or-then _ _ db _ _ _ tt λ password_hash k.
                  elapse-then state request db _ _ db _ (
                    call-then _ _ _ _ _ _ (λ e. tt)
                      λ ids t' ended' ran. (
                        refl,
                        record {
                          fields = fields;
                          token = token;
                          texts = (email, password, name);
                          password_hash = password_hash;
                          ids = ids;
                          body = body;
                          sent = sent;
                          acceptable = fine;
                          hashed = rw k at h;
                          stored =
                              Ensures-ended
                                (λ r t.
                                  Accepted (state.servers 1) (hash_invite_token state.crypto token)
                                    email password_hash name
                                    (run_history state.uuid state.meanwhile db) r t.stored)
                                _ ids t' ended'
                                (accept_invite-Accepted (state.servers 1)
                                  (hash_invite_token state.crypto token) email password_hash name
                                  (run_history state.uuid state.meanwhile db));
                        },
                      ))
