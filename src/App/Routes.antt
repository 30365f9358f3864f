-- ===== src/App/Routes.antt =====
-- crates/app/src/route_registry.rs, and `protect`, `routes` and `health` of crates/app/src/http.rs.
-- How axum finds the handler of a request is a parameter.
use fukulow.Common.{
  ℕ, ◌+◌, String, Bool, true, false, ◌&&◌, ◌||◌, not, none, List, [], ◌∷◌, map, ◌==◌, str_eq, leb,
  ltb, if◌then◌else◌, rows,
}
use fukulow.Common.Utf8.{as_bytes}
use fukulow.Db.Schema.{Db}
use fukulow.Db.Transaction.{Result, ok, err}
use fukulow.App.Crates.{Headers, State}
use fukulow.App.Sessions
use fukulow.App.Invites
use fukulow.App.Http.{
  Method, get, head, post, put, patch, delete, other, Request, StatusCode, forbidden, Response,
  text_body, bare, H, pure,
}

-- The handlers that the table names.
pub data Handler : Type 0 where
  health sign_in sign_out me create revoke accept : Handler

pub record Route : Type 0 where
  pub method : Method
  pub path : String
  pub websocket : Bool
  pub needs_session : Bool
  pub handler : Handler

abbrev pub create_path : String
create_path = "/api/v1/organizations/{organization_id}/invites"

abbrev pub revoke_path : String
revoke_path = "/api/v1/organizations/{organization_id}/invites/{id}"

abbrev pub accept_path : String
accept_path = "/api/v1/invite-acceptances"

-- A row of `registry!`.
abbrev route : Method → String → Bool → Bool → Handler → Route
route method path websocket needs_session handler = record {
  method = method;
  path = path;
  websocket = websocket;
  needs_session = needs_session;
  handler = handler;
}

-- `ROUTES`
abbrev pub routes : List Route
routes =
    route get "/health" false false health
    ∷ route post "/api/v1/sessions" false false sign_in
    ∷ route delete "/api/v1/sessions/current" false true sign_out
    ∷ route get "/api/v1/me" false true me
    ∷ route post create_path false true create
    ∷ route delete revoke_path false true revoke
    ∷ route post accept_path false false accept
    ∷ []

-- What axum makes of a request: a handler, or an answer of its own (404 and 405).
pub data Matched (Value : Type 0) : Type 0 where
  handled : Handler → Matched Value
  answered : Response Value → Matched Value

-- axum's `Router`: `Router::new`, `route(path, on(method, handler))`, and the match of a request.
pub record Axum (Value Router : Type 0) : Type 0 where
  pub empty : Router
  pub add : Router → String → Method → Handler → Router
  pub find : Router → Request → Matched Value

-- `router`: the fold over the routes
unfoldable pub add_routes :
    {Value Router : Type 0} → Axum Value Router → List Route → Router → Router
add_routes axum [] router = router
add_routes axum (r ∷ rest) router = add_routes axum rest (axum.add router r.path r.method r.handler)

unfoldable pub router : {Value Router : Type 0} → Axum Value Router → Router
unfolding add_routes
router axum = add_routes axum routes axum.empty

-- `headers().get_all(name)`; its first is `headers().get(name)`.
abbrev pub get_all : String → Headers → List (List ℕ)
get_all name headers = map (λ h. h.1) (rows (λ h. str_eq h.0 name) headers)

abbrev pub bytes_eq : List ℕ → List ℕ → Bool
bytes_eq [] [] = true
bytes_eq [] (c ∷ cs) = false
bytes_eq (b ∷ bs) [] = false
bytes_eq (b ∷ bs) (c ∷ cs) = b == c && bytes_eq bs cs

abbrev pub to_lower : ℕ → ℕ
to_lower b = if leb b'A' b && leb b b'Z' then b + 32 else b

abbrev pub changes_state : Method → Bool
changes_state get = false
changes_state head = false
changes_state post = true
changes_state put = true
changes_state patch = true
changes_state delete = true
changes_state other = false

-- `value.as_bytes().eq_ignore_ascii_case(b"websocket")`, of the first such header
abbrev is_websocket : List (List ℕ) → Bool
is_websocket [] = false
is_websocket (value ∷ rest) = bytes_eq (map to_lower value) (as_bytes "websocket")

-- The negation of the test on the headers `origins`.
abbrev pub same_origin : String → List (List ℕ) → Bool
same_origin origin [] = false
same_origin origin (value ∷ []) = bytes_eq value (as_bytes origin)
same_origin origin (value ∷ second ∷ rest) = false

-- Whether `protect` lets a request on to the handlers.
unfoldable pub admits : String → Request → Bool
unfolding as_bytes
admits origin request =
    not (changes_state request.method || is_websocket (get_all "upgrade" request.headers))
    || same_origin origin (get_all "origin" request.headers)

-- `is_client_error() || is_server_error()`
abbrev pub is_error : StatusCode → Bool
is_error status = leb 400 status && ltb status 600

abbrev pub strip : {Value : Type 0} → Response Value → Response Value
strip response = if is_error response.status then bare response.status else response

-- A response, and the tables that are stored then.
abbrev pub Service : Type 0 → Type 0
Service Value = Db → Response Value × Db

-- `protect`, before a service and after it.
unfoldable pub protect : {Value : Type 0} → String → Request → Service Value → Service Value
protect origin request next db = elim (admits origin request) [
  | true ↦ (strip (next db).0, (next db).1)
  | false ↦ (bare forbidden, db)
]

-- `IntoResponse` of what a handler returns.
abbrev pub into_response :
    {Value : Type 0} → Result StatusCode (Response Value) × Db → Response Value × Db
into_response (ok response, db) = (response, db)
into_response (err status, db) = (bare status, db)

module _ {Value PasswordHash : Type 0} (state : State Value PasswordHash) where
  unfoldable pub run_handler : Handler → Request → H (Response Value)
  run_handler health request = pure (record {
    status = 200;
    cookie = none;
    body = text_body "application/json" "{\"status\":\"ok\"}";
  })
  run_handler sign_in request = Sessions.sign_in state request
  run_handler sign_out request = Sessions.sign_out state request
  run_handler me request = Sessions.me state request
  run_handler create request = Invites.create state request
  run_handler revoke request = Invites.revoke state request
  run_handler accept request = Invites.accept state request

  abbrev pub answer : Matched Value → Request → Service Value
  answer (handled handler) request db = into_response (run_handler handler request db)
  answer (answered response) request db = (response, db)

  -- The service of `http::routes`: `protect` around the router and its fallback.
  unfoldable pub serve : {Router : Type 0} → Axum Value Router → Request → Service Value
  unfolding protect run_handler router
  serve axum request db =
      protect state.origin request (answer (axum.find (router axum) request) request) db
