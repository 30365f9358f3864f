-- ===== src/RequestTests.antt =====
-- A concrete state of crates/app, with small stand-ins for other crates, and requests.
use fukulow.Common.{
  ℕ, zero, suc, ◌≡◌, refl, sym, String, Bool, true, false, ◌&&◌, ◌||◌, ◌==◌, find, any, map,
  Bool-cases, inl, inr, ==_refl, Option, none, some, List, [], ◌∷◌, length, arith,
}
use fukulow.Common.Int.{pos}
use fukulow.Common.Utf8.{as_bytes}
use fukulow.Db.TokenHash.Laws.{AreBytes}
use fukulow.Auth.{Crypto, verified, Fill, hash_session_token}
use fukulow.Auth.Laws.{FillsBuffer, IsDigest}
use fukulow.Operations.Calls
use fukulow.Operations.Calls.{Call}
use fukulow.App.Crates.{Headers, Json, Crates, State}
use fukulow.App.Http.{Method, Request, bare, not_found}
use fukulow.App.Routes.{Handler, Route, Matched, handled, answered, Axum, add_routes}
use fukulow.App.Protection.{answers, index, RoutesByMethod}
use fukulow.Db.Schema.{Db, Invite}
use fukulow.Tests.{uuid_crate, calm, invited_tables}

-- Bytes that a random generator might give, and a digest of 32 bytes.
abbrev pub zeros : ℕ → List ℕ
zeros zero = []
zeros (suc n) = 0 ∷ zeros n

zeros-AreBytes : (n : ℕ) → AreBytes (zeros n)
zeros-AreBytes zero = tt
zeros-AreBytes (suc n) = (omega arith, zeros-AreBytes n)

length-zeros : (n : ℕ) → length (zeros n) ≡ n
length-zeros zero = refl
length-zeros (suc n) = omega (arith, length-zeros n)

abbrev pub fill_zeros : Fill
fill_zeros n = some (zeros n)

pub fill_zeros-FillsBuffer : FillsBuffer fill_zeros
fill_zeros-FillsBuffer n bytes e =
    let same : zeros n ≡ bytes = ground arith in rw (sym same) (zeros-AreBytes n, length-zeros n)

pub zeros-IsDigest : IsDigest (λ message. zeros 32)
zeros-IsDigest message = (zeros-AreBytes 32, length-zeros 32)

abbrev pub crypto : Crypto Unit
crypto = record {
  parse_phc = λ phc. some tt;
  salt = λ hash. some [];
  output = λ hash. some [];
  argon2_verify = λ password hash. verified;
  argon2_hash = λ password salt. some "hash";
  sha256 = λ message. zeros 32;
}

-- Documents of three kinds.
pub data Document : Type 0 where
  text : String → Document
  number : ℕ → Document
  form : (String → Document) → Document

abbrev fields_of : Document → Option (String → Option Document)
fields_of (text s) = none
fields_of (number n) = none
fields_of (form f) = some (λ key. some (f key))

abbrev text_of : Document → Option String
text_of (text s) = some s
text_of (number n) = none
text_of (form f) = none

-- Every body is read as a document that has the same text under every key.
abbrev pub json_of : String → Json Document
json_of value = record {
  from_slice = λ bytes. some (form (λ key. text value));
  as_object = fields_of;
  as_str = text_of;
  as_i64 = λ value. some (pos 600);
  null = text "null";
  text = text;
  number = number;
  object = λ fields. text "object";
}

abbrev pub crates : Crates
crates = record {
  get_cookie = λ headers name. some "token";
  parse_uuid = λ bytes. some 10;
  uuid_to_string = λ id. "id";
  rfc3339 = λ time. some "time";
}

abbrev pub state : State Document Unit
state = record {
  origin = "https://example.org";
  new_token = some ("token", hash_session_token crypto "token");
  now = 100;
  new_invite_token = some ("invite", hash_session_token crypto "invite");
  hash_invite_password = λ password. some (some "hash");
  worker_runs = true;
  servers = λ n. calm;
  meanwhile = (calm, Calls.create_team 1 10 "Second") ∷ [];
  uuid = uuid_crate;
  crypto = crypto;
  json = json_of "a@example.org";
  crates = crates;
}

-- While a password is checked, the actor 1 signs out elsewhere.
abbrev pub interrupted : State Document Unit
interrupted = record state { meanwhile = (calm, Calls.revoke_session 1 "t") ∷ [] }

abbrev pub same_origin_headers : Headers
same_origin_headers = ("origin", as_bytes "https://example.org") ∷ []

abbrev pub foreign_headers : Headers
foreign_headers = ("origin", as_bytes "https://example.com") ∷ []

abbrev pub request_to : Method → Headers → Request
request_to method headers = record {
  method = method;
  path = as_bytes "/api/v1/sessions";
  headers = headers;
  body = some [];
}

-- A new person with an invite for the token of their request.
abbrev pub new_person : State Document Unit
new_person = record state { json = json_of "ada@example.org" }

abbrev pub waiting_tables : Db
waiting_tables = record invited_tables {
  invites =
      map (λ (i : Invite). record i { token_hash = hash_session_token crypto "token" })
        invited_tables.invites;
}

-- A router that looks at the method alone, and takes the route added last.
abbrev first_match : Option Route → Matched Document
first_match none = answered (bare not_found)
first_match (some r) = handled r.handler

abbrev pub method_router : Axum Document (List Route)
method_router = record {
  empty = [];
  add = λ router path method handler.
      record {
        method = method;
        path = path;
        websocket = false;
        needs_session = false;
        handler = handler;
      }
      ∷ router;
  find = λ router request. first_match (find (λ r. answers r.method request.method) router);
}

abbrev leads : Request → Handler → Route → Bool
leads request handler r = index r.handler == index handler && answers r.method request.method

handler_of :
    (r : Route) (handler : Handler)
    → ◌≡◌ {A = Matched Document} (handled r.handler) (handled handler)
    → r.handler ≡ handler
handler_of r handler h = ground arith

first_match-leads :
    (request : Request) (handler : Handler) (rs : List Route)
    → first_match (find (λ r. answers r.method request.method) rs) ≡ handled handler
    → any (leads request handler) rs ≡ true
first_match-leads request handler [] h = absurd (ground (arith, h))
first_match-leads request handler (r ∷ rs) h = elim (Bool-cases (answers r.method request.method)) [
  | inl e ↦ ground (arith, handler_of r handler (rw e at h), ==_refl (index handler))
  | inr e ↦ ground (arith, first_match-leads request handler rs (rw e at h))
]

moved : (a b c : Bool) → (b || (a || c)) ≡ true → ((a || b) || c) ≡ true
moved true b c h = refl
moved false b c h = h

or_false : (a : Bool) → (a || false) ≡ true → a ≡ true
or_false true h = refl
or_false false h = h

added-leads :
    (request : Request) (handler : Handler) (rs router : List Route)
    → method_router.find (add_routes method_router rs router) request ≡ handled handler
    → (any (leads request handler) rs || any (leads request handler) router) ≡ true
unfolding add_routes
added-leads request handler [] router h = first_match-leads request handler router h
added-leads request handler (r ∷ rs) router h =
    moved (leads request handler r) (any (leads request handler) rs)
      (any (leads request handler) router) (added-leads request handler rs _ h)

pub method_router-RoutesByMethod : RoutesByMethod method_router
method_router-RoutesByMethod rs request handler h = or_false _ (added-leads request handler rs [] h)
