-- ===== src/Http/Router/Labels.antt =====
-- The identifier of a request in the answers of NewRouter's engine
-- (internal/transport/http/router.go) and in its log.
use wb_tasks_l.Prelude.{
  ℕ, String, ◌≡◌, ◌≢◌, ◌⊎◌, refl, ap, ◌∙◌, inl, inr, Bool, ◌||◌, [], ◌∷◌, Option, none, some, ℤ,
  arith, All, All-always, eq_iff, Bool-cases, ◌==◌, if◌then◌else◌,
}
use wb_tasks_l.Request.{
  with_request_id, request_id_from_context, from-with_request_id, Context, request_id_middleware,
  request_logger, Served,
}
use wb_tasks_l.Http.{OrderReadService, failure}
use wb_tasks_l.Http.Router.{
  logger, Gin, base_chain, api_chain, new_router, Request, Content, json, Answer, logged, handle,
  reply, unrouted, serve,
}
use wb_tasks_l.Http.Router.Laws.{GinLaws}
use wb_tasks_l.Http.Router.Routes.{Lookup-cases, All-new_router, All-static_routes}

-- An answer carries one identifier: in its header, and in each line that it logs.
abbrev pub IsLabelled : String → Answer → Type 0
IsLabelled header a =
    (id : String) × (a.request_id ≡ some id)
    × (id ≢ "")
    × ((header ≡ "") ⊎ (id ≡ header))
    × All (λ line. line.request_id ≡ id) a.log

module _ (gin : Gin) (laws : GinLaws gin) (uuid : String) (fresh : uuid ≢ "") (req : Request)
    (pattern : String) (allow : Option String) (result : ℕ × Content) where
  echo : String
  echo = if req.request_id == "" then uuid else req.request_id

  echo_named : echo ≢ ""
  unfolding echo
  echo_named e = ground (arith, e, fresh, eq_iff req.request_id "")

  echo_own : (req.request_id ≡ "") ⊎ (echo ≡ req.request_id)
  unfolding echo
  echo_own = elim (Bool-cases (req.request_id == "")) [
    | inl q ↦ inl ((eq_iff req.request_id "").0 q)
    | inr q ↦ inr (rw q refl)
  ]

  base-IsLabelled : IsLabelled req.request_id (reply gin uuid req base_chain pattern allow result)
  unfolding reply echo request_id_middleware
  base-IsLabelled = (echo, refl, echo_named, echo_own, tt)

  logged-labels :
      (ctx : Option Context) (served : Served)
      → (request_id_from_context ctx).0 ≡ echo
      → All (λ line. line.request_id ≡ echo) (logged gin.tracer (logger ∷ []) ctx served)
  unfolding logged request_logger
  logged-labels ctx served e =
      elim (Bool-cases ((served.full_path == "/metrics") || (served.full_path == "/ping"))) [
        | inl q ↦ rw (logged, request_logger, q) tt
        | inr q ↦ rw (logged, request_logger, q) (e, tt)
      ]

  api-IsLabelled :
      (otel_service_name : String)
      → IsLabelled req.request_id
          (reply gin uuid req (api_chain otel_service_name) pattern allow result)
  unfolding reply echo request_id_middleware
  api-IsLabelled otel_service_name = (
    echo,
    refl,
    echo_named,
    echo_own,
    logged-labels (gin.start_span otel_service_name (with_request_id (some []) echo)) _ (
        ap (λ (p : String × Bool). p.0)
          (laws.span_keeps otel_service_name (with_request_id (some []) echo)
            ∙ from-with_request_id [] echo echo_named)),
  )

module _ (gin : Gin) (static_dir otel_service_name : String) where
  module _ {Service : Type 0} (service : OrderReadService Service) (atoi : String → Option ℤ)
      (itoa : ℤ → String) (laws : GinLaws gin) (uuid : String) (fresh : uuid ≢ "") where
    routes-IsLabelled :
        (req : Request)
        → All
            (λ r.
              (pattern : String) (allow : Option String) (result : ℕ × Content)
              → IsLabelled req.request_id (reply gin uuid req r.chain pattern allow result))
            (new_router gin static_dir otel_service_name)
    routes-IsLabelled req =
        let base = λ (pattern : String) (allow : Option String) (result : ℕ × Content).
          base-IsLabelled gin laws uuid fresh req pattern allow result in
        let api = λ (pattern : String) (allow : Option String) (result : ℕ × Content).
          api-IsLabelled gin laws uuid fresh req pattern allow result otel_service_name in
        All-new_router gin static_dir otel_service_name _ base base api api (
          All-static_routes gin static_dir otel_service_name _
            (All-always _ (λ m. base) gin.static_methods)
            (All-always _ (λ m. base) gin.static_methods))

    -- Every answer but a redirection carries one identifier, whether a route was found or not: it
    -- is not empty, it is the client's if the client sent one, and it is the one in the header
    -- `X-Request-ID` and in every line that is logged.
    pub serve-IsLabelled :
        (req : Request) (s : Service)
        → (let a =
              (serve service atoi itoa gin
                (new_router gin static_dir otel_service_name)
                uuid
                req
                s).1 in
            (a.location ≢ none) ⊎ IsLabelled req.request_id a)
    unfolding serve unrouted
    serve-IsLabelled req s =
        let routes = new_router gin static_dir otel_service_name in
        elim (Lookup-cases (gin.find routes req.method req.path)) [
          | inl (r, param, e) ↦
              let (label, _, _) =
                laws.found _ routes req.method req.path r param e (routes-IsLabelled req) in
              rw (serve, e)
                (inr (label r.pattern none (handle service atoi itoa gin r.endpoint req param s).1))
          | inr (inl (status, location, e)) ↦ rw (serve, e) (inl (λ h. cc))
          | inr (inr e) ↦ elim (Bool-cases (gin.is_allowed_elsewhere routes req.method req.path)) [
            | inl q ↦
                let refused : ℕ × Content = (405, json (failure "method not allowed")) in
                rw (serve, e, q)
                  (inr (base-IsLabelled gin laws uuid fresh req "" (some "GET") refused))
            | inr q ↦
                let unknown : ℕ × Content = (404, json (failure "route not found")) in
                rw (serve, e, q) (inr (base-IsLabelled gin laws uuid fresh req "" none unknown))
          ]
        ]
