-- ===== src/App/Refinement/Serve.antt =====
-- What a request does to the tables is what some history of calls does.
use fukulow.Common.{◌≡◌, refl, Bool-cases, inl, inr, true, arith}
use fukulow.Db.Schema.{Db}
use fukulow.Db.Transaction.{Result, ok, err}
use fukulow.App.Crates.{State}
use fukulow.App.Http.{Request, Response, StatusCode}
use fukulow.App.Routes.{
  Matched, handled, answered, Axum, router, admits, protect, into_response, answer, is_error, strip,
  serve,
}
use fukulow.App.Refinement.{IsQuiet, IsServed, IsOrderly, run_handler-IsOrderly}

strip-status :
    {Value : Type 0} (response : Response Value)
    → is_error (strip response).status ≡ true
    → is_error response.status ≡ true
strip-status response h = ground (arith, h)

module _ {Value PasswordHash : Type 0} (state : State Value PasswordHash) (request : Request)
    (db : Db) where
  -- Of a response and the tables with it.
  abbrev IsTidy : Response Value × Db → Type 0
  IsTidy r =
      IsServed state request db r.1 × (is_error r.0.status ≡ true → IsQuiet state request db r.1)

  into_response-IsTidy :
      (r : Result StatusCode (Response Value) × Db)
      → IsOrderly state request db r
      → IsTidy (into_response r)
  into_response-IsTidy (ok response, d) (fine, h) =
      (h, λ failed. absurd (ground (arith, fine, failed)))
  into_response-IsTidy (err status, d) h = (inl h, λ _. h)

  answer-IsTidy : (matched : Matched Value) → IsTidy (answer state matched request db)
  answer-IsTidy (handled handler) =
      into_response-IsTidy _ (run_handler-IsOrderly state request db handler)
  answer-IsTidy (answered response) = (inl (inl refl), λ _. inl refl)

  strip-IsTidy : (r : Response Value × Db) → IsTidy r → IsTidy (strip r.0, r.1)
  strip-IsTidy (response, d) (h, quiet) = (h, λ failed. quiet (strip-status response failed))

  serve-IsTidy : {Router : Type 0} (axum : Axum Value Router) → IsTidy (serve state axum request db)
  unfolding serve protect
  serve-IsTidy axum = elim (Bool-cases (admits state.origin request)) [
    | inl e ↦
        rw (e, protect)
          (strip-IsTidy (answer state (axum.find (router axum) request) request db)
            (answer-IsTidy (axum.find (router axum) request)))
    | inr e ↦ rw (e, protect) (inl (inl refl), λ _. inl refl)
  ]

  -- Whatever a request is and however axum routes it, the tables after it are those before it, with
  -- what other requests have committed since, or one call of crates/db further: a sign-out, or a
  -- creation or revocation of an invite, by the actor of the session that the request's cookie finds,
  -- or an acceptance of an invite; or they are those that a sign-in leaves during whose password check
  -- the others have committed.
  pub serve-IsServed :
      {Router : Type 0} (axum : Axum Value Router)
      → IsServed state request db (serve state axum request db).1
  serve-IsServed axum = (serve-IsTidy axum).0

  -- A request that is answered with an error status has written nothing: the tables after it are
  -- those before it, or what other requests have made of them since.
  pub serve-IsQuiet :
      {Router : Type 0} (axum : Axum Value Router)
      → is_error (serve state axum request db).0.status ≡ true
      → IsQuiet state request db (serve state axum request db).1
  serve-IsQuiet axum failed = (serve-IsTidy axum).1 failed
