-- ===== src/Http/Router/Laws.antt =====
-- What gin promises of its router: documented behaviour that the routes of router.go rely on.
use wb_tasks_l.Prelude.{ℕ, true, false, String, ◌≡◌, ◌≢◌, List, Option, All}
use wb_tasks_l.Request.{Context, request_id_from_context}
use wb_tasks_l.Http.Router.{Route, Gin, matched, slash, unmatched}

-- `Fits` says that a path is an instance of a pattern, with the values of its parameters.
pub record GinLaws (gin : Gin) : Type 1 where
  pub Fits : String → String → (String → String) → Type 0
  -- A route that is found is one of those registered, under the method, and its pattern fits.
  pub found :
      (P : Route → Type 0) (routes : List Route) (method path : String) (r : Route)
      (param : String → String)
      → gin.find routes method path ≡ matched r param
      → All P routes
      → P r × (r.method ≡ method) × Fits r.pattern path param
  -- Where none is found, none fits under the method.
  pub missing :
      (routes : List Route) (method path : String)
      → gin.find routes method path ≡ unmatched
      → All
          (λ r. r.method ≡ method → (param : String → String) → ¬ Fits r.pattern path param)
          routes
  -- A redirection leads to a route of the method, where none of that method fits.
  pub near :
      (routes : List Route) (method path : String) (status : ℕ) (location : String)
      → gin.find routes method path ≡ slash status location
      → (¬ All (λ r. r.method ≢ method) routes)
        × All
            (λ r. r.method ≡ method → (param : String → String) → ¬ Fits r.pattern path param)
            routes
  -- Whether a route under another method fits.
  pub other_fits :
      (routes : List Route) (method path : String)
      → ¬ All
          (λ r. r.method ≢ method → (param : String → String) → ¬ Fits r.pattern path param)
          routes
      → gin.is_allowed_elsewhere routes method path ≡ true
  pub none_fits :
      (routes : List Route) (method path : String)
      → All (λ r. (param : String → String) → ¬ Fits r.pattern path param) routes
      → gin.is_allowed_elsewhere routes method path ≡ false
  -- otelgin adds to the context, and keeps what is in it.
  pub span_keeps :
      (name : String) (ctx : Option Context)
      → request_id_from_context (gin.start_span name ctx) ≡ request_id_from_context ctx
  -- A path has one way to fit a pattern.
  pub fits_once :
      (pattern path : String) (param param' : String → String)
      → Fits pattern path param
      → Fits pattern path param'
      → param ≡ param'
