-- ===== src/App/Protection.antt =====
-- `protect` of crates/app/src/http.rs around the routes.
use fukulow.Common.Utf8.{as_bytes}
use fukulow.Common.{
  List, [], ◌∷◌, ◌≢◌, &&_split, ==_iff, ◌≡◌, refl, Bool, true, false, ◌⊎◌, inl, inr, Bool-cases,
  List, any, ◌&&◌, arith, ◌==◌, ℕ, String,
}
use fukulow.Db.Schema.{Db}
use fukulow.Db.Transaction.{Result, ok, err}
use fukulow.App.Crates.{State}
use fukulow.App.Http.{
  Method, get, head, post, put, patch, delete, Request, StatusCode, forbidden, Response, bare, pure,
}
use fukulow.App.Steps.{Ends}
use fukulow.App.Refinement.{IsQuiet, me-Quiet}
use fukulow.App.Routes.{
  Handler, Route, routes, Matched, handled, answered, Axum, add_routes, router, get_all,
  same_origin, bytes_eq, changes_state, admits, is_error, strip, protect, into_response,
  run_handler, answer, serve,
}

-- What `on(method, …)` answers to: a GET route answers HEAD too.
abbrev pub answers : Method → Method → Bool
answers get get = true
answers get head = true
answers head head = true
answers post post = true
answers put put = true
answers patch patch = true
answers delete delete = true
answers _ _ = false

abbrev pub index : Handler → ℕ
index Handler.health = 0
index Handler.sign_in = 1
index Handler.sign_out = 2
index Handler.me = 3
index Handler.create = 4
index Handler.revoke = 5
index Handler.accept = 6

-- axum runs a handler only where it was added under a method that the request has.
abbrev pub RoutesByMethod : {Value Router : Type 0} → Axum Value Router → Type 0
RoutesByMethod axum =
    (rs : List Route) (request : Request) (handler : Handler)
    → axum.find (add_routes axum rs axum.empty) request ≡ handled handler
    → any (λ r. index r.handler == index handler && answers r.method request.method) rs ≡ true

is_quiet : Handler → Bool
is_quiet Handler.health = true
is_quiet Handler.me = true
is_quiet _ = false

-- A route that a request without a change of state runs is `health` or `me`.
quiet_routes :
    (handler : Handler) (method : Method)
    → changes_state method ≡ false
    → any (λ r. index r.handler == index handler && answers r.method method) routes ≡ true
    → is_quiet handler ≡ true
unfolding is_quiet
quiet_routes Handler.health method h e = refl
quiet_routes Handler.me method h e = refl
quiet_routes Handler.sign_in method h e = ground arith
quiet_routes Handler.sign_out method h e = ground arith
quiet_routes Handler.create method h e = ground arith
quiet_routes Handler.revoke method h e = ground arith
quiet_routes Handler.accept method h e = ground arith

bytes_eq-path : (bs cs : List ℕ) → bytes_eq bs cs ≡ true → bs ≡ cs
bytes_eq-path [] [] h = refl
bytes_eq-path [] (c ∷ cs) h = absurd (ground arith)
bytes_eq-path (b ∷ bs) [] h = absurd (ground arith)
bytes_eq-path (b ∷ bs) (c ∷ cs) h =
    let (first, tail) = &&_split (b == c) (bytes_eq bs cs) h in
    rw ((==_iff b c).0 first, bytes_eq-path bs cs tail) refl

only_origin :
    (origin : String) (values : List (List ℕ))
    → same_origin origin values ≡ true
    → values ≡ as_bytes origin ∷ []
only_origin origin [] h = absurd (ground arith)
only_origin origin (value ∷ []) h = rw (bytes_eq-path value (as_bytes origin) h) refl
only_origin origin (value ∷ second ∷ rest) h = absurd (ground arith)

unequal :
    (origin : String) (values : List (List ℕ))
    → values ≢ as_bytes origin ∷ []
    → same_origin origin values ≡ false
unequal origin values differ = elim (Bool-cases (same_origin origin values)) [
  | inl e ↦ absurd (differ (only_origin origin values e))
  | inr e ↦ e
]

admitted :
    (origin : String) (request : Request)
    → same_origin origin (get_all "origin" request.headers) ≡ false
    → admits origin request ≡ true
    → changes_state request.method ≡ false
unfolding admits
admitted origin request foreign e = ground (arith, foreign)

strip-bare :
    {Value : Type 0} (response : Response Value)
    → is_error (strip response).status ≡ true
    → strip response ≡ bare (strip response).status
strip-bare response h = elim (Bool-cases (is_error response.status)) [
  | inl e ↦ rw e refl
  | inr e ↦ ground (arith, h, e)
]

module _ {Value PasswordHash : Type 0} (state : State Value PasswordHash) (request : Request)
    (db : Db) where
  IsQuiet-into_response :
      (r : Result StatusCode (Response Value) × Db)
      → Ends (λ _ d. IsQuiet state request db d) (λ _ d. IsQuiet state request db d) r
      → IsQuiet state request db (into_response r).1
  IsQuiet-into_response (ok response, d) h = h
  IsQuiet-into_response (err status, d) h = h

  IsQuiet-answer :
      (handler : Handler)
      → is_quiet handler ≡ true
      → IsQuiet state request db (answer state (handled handler) request db).1
  unfolding run_handler pure is_quiet
  IsQuiet-answer Handler.health h = inl refl
  IsQuiet-answer Handler.me h = IsQuiet-into_response _ (me-Quiet state request db)
  IsQuiet-answer Handler.sign_in h = absurd (ground arith)
  IsQuiet-answer Handler.sign_out h = absurd (ground arith)
  IsQuiet-answer Handler.create h = absurd (ground arith)
  IsQuiet-answer Handler.revoke h = absurd (ground arith)
  IsQuiet-answer Handler.accept h = absurd (ground arith)

  IsQuiet-matched :
      (matched : Matched Value)
      → ((handler : Handler) → matched ≡ handled handler → is_quiet handler ≡ true)
      → IsQuiet state request db (answer state matched request db).1
  IsQuiet-matched (handled handler) h = IsQuiet-answer handler (h handler refl)
  IsQuiet-matched (answered response) h = inl refl

  -- A request that does not carry exactly one Origin header, equal to the configured origin, writes
  -- nothing: it is answered by a bare 403 with the tables as they were, or its method is none of
  -- POST, PUT, PATCH and DELETE and it leaves what other requests have made of the tables. axum is
  -- taken to run a handler only under the method that it was added with.
  pub same_origin-serve :
      {Router : Type 0} (axum : Axum Value Router)
      → RoutesByMethod axum
      → get_all "origin" request.headers ≢ as_bytes state.origin ∷ []
      → (serve state axum request db ≡ (bare forbidden, db))
        ⊎ ((changes_state request.method ≡ false)
            × IsQuiet state request db (serve state axum request db).1)
  unfolding serve protect
  same_origin-serve axum law foreign = elim (Bool-cases (admits state.origin request)) [
    | inr e ↦ inl (rw (e, protect))
    | inl e ↦
        let reading = admitted state.origin request (unequal _ _ foreign) e in
        rw (e, protect)
          (inr (
            reading,
            IsQuiet-matched (axum.find (router axum) request) λ handler found.
                quiet_routes handler request.method reading (law routes request handler found),
          ))
  ]

  -- A response with an error status has an empty body and sets no cookie.
  pub serve-bare :
      {Router : Type 0} (axum : Axum Value Router)
      → is_error (serve state axum request db).0.status ≡ true
      → (serve state axum request db).0 ≡ bare (serve state axum request db).0.status
  unfolding serve protect
  serve-bare axum h = elim (Bool-cases (admits state.origin request)) [
    | inl e ↦
        rw (e, protect)
          (strip-bare (answer state (axum.find (router axum) request) request db).0
            (rw (e, protect) at h))
    | inr e ↦ rw (e, protect) refl
  ]
