-- ===== src/Http/Router/Dispatch.antt =====
-- Which handler of NewRouter's engine (internal/transport/http/router.go) a request reaches.
use wb_tasks_l.Prelude.{
  ℕ, String, ◌≡◌, ◌≢◌, refl, sym, ap, ap₂, ◌∙◌, subst, inl, inr, true, List, [], Option, none, some,
  ℤ, arith, All, All-both, All-always, eq_iff, Bool-cases, ◌==◌, if◌then◌else◌,
}
use wb_tasks_l.Http.{OrderReadService, failure, get_order_by_id}
use wb_tasks_l.Http.Router.{
  order_by_id, Route, matched, slash, unmatched, Gin, base_chain, api_chain, get_route, new_router,
  Request, json, logged, handle, reply, unrouted, serve,
}
use wb_tasks_l.Http.Router.Laws.{GinLaws}
use wb_tasks_l.Http.Router.Routes.{Lookup-cases, All-new_router, All-static_routes}

module _ (gin : Gin) (static_dir otel_service_name : String) where
  -- A path that no route fits, where the router does not redirect.
  module _ (laws : GinLaws gin) (path : String)
      (alien : All
        (λ r. (param : String → String) → ¬ laws.Fits r.pattern path param)
        (new_router gin static_dir otel_service_name)) where
    not_matched :
        (method : String) (r : Route) (param : String → String)
        → gin.find (new_router gin static_dir otel_service_name) method path ≢ matched r param
    not_matched method r param e =
        let (never, _, fits) = laws.found _ _ method path r param e alien in never param fits

    -- A path that fits no pattern of the router, and from which gin does not redirect, gets 404
    -- with the error `route not found` under every method; nothing is logged and nothing changes.
    pub serve_unknown :
        {Service : Type 0} (service : OrderReadService Service) (atoi : String → Option ℤ)
        (itoa : ℤ → String) (uuid : String) (req : Request) (s : Service)
        → req.path ≡ path
        → ((status : ℕ) (location : String)
            → gin.find (new_router gin static_dir otel_service_name) req.method path
              ≢ slash status location)
        → (let (s', a) =
              serve service atoi itoa gin
                (new_router gin static_dir otel_service_name)
                uuid
                req
                s in
            (s' ≡ s)
            × (a.status ≡ 404)
            × (a.content ≡ json (failure "route not found"))
            × (a.allow ≡ none)
            × (a.log ≡ []))
    unfolding serve unrouted reply logged
    serve_unknown service atoi itoa uuid req s here direct =
        let routes = new_router gin static_dir otel_service_name in
        let same = ap (gin.find routes req.method) here in
        elim (Lookup-cases (gin.find routes req.method path)) [
          | inl (x, param, e) ↦ absurd (not_matched req.method x param e)
          | inr (inl (status, location, e)) ↦ absurd (direct status location e)
          | inr (inr e) ↦
              let closed =
                ap (gin.is_allowed_elsewhere routes req.method) here
                ∙ laws.none_fits routes req.method path alien in
              rw (serve, same ∙ e, closed) (refl, refl, refl, refl, refl)
        ]

  -- The route with the pattern `/order/:id` is that of the handler.
  order_route :
      All
        (λ r.
          r.pattern ≡ "/order/:id"
          → r ≡ get_route "/order/:id" (api_chain otel_service_name) order_by_id)
        (new_router gin static_dir otel_service_name)
  order_route =
      All-new_router gin static_dir otel_service_name _ (λ e. cc) (λ e. cc) (λ e. refl) (λ e. cc)
        (All-static_routes gin static_dir otel_service_name _
          (All-always _ (λ m e. cc) gin.static_methods)
          (All-always _ (λ m e. cc) gin.static_methods))

  other_methods :
      (method : String)
      → method ≢ "GET"
      → All (λ m. m ≢ method) gin.static_methods
      → All (λ r. r.method ≢ method) (new_router gin static_dir otel_service_name)
  other_methods method other static =
      let get = λ (e : ◌≡◌ {A = String} "GET" method). other (sym e) in
      All-new_router gin static_dir otel_service_name _ get get get get
        (All-static_routes gin static_dir otel_service_name _ static static)

  module _ (laws : GinLaws gin) (path : String) (param : String → String)
      (fits : laws.Fits "/order/:id" path param)
      (only : All
        (λ r.
          (values : String → String) → laws.Fits r.pattern path values → r.pattern ≡ "/order/:id")
        (new_router gin static_dir otel_service_name)) where
    abbrev routes : List Route
    routes = new_router gin static_dir otel_service_name

    -- GET finds the handler of the order.
    find-get :
        gin.find routes "GET" path
        ≡ matched (get_route "/order/:id" (api_chain otel_service_name) order_by_id) param
    unfolding new_router
    find-get = elim (Lookup-cases (gin.find routes "GET" path)) [
      | inl (r, values, e) ↦
          let ((named, mine), method, instance) =
            laws.found _ routes "GET" path r values e (All-both _ _ routes only order_route) in
          let same = mine (named values instance) in
          let values_same =
            laws.fits_once "/order/:id" path values param
              (subst (λ q. laws.Fits q path values) (named values instance) instance) fits in
          rw (e, same, values_same) refl
      | inr (inl (status, location, e)) ↦
          absurd ((laws.near routes "GET" path status location e).1.1.1.0 refl param fits)
      | inr (inr e) ↦ absurd ((laws.missing routes "GET" path e).1.1.0 refl param fits)
    ]

    find_other :
        (method : String)
        → method ≢ "GET"
        → All (λ m. m ≢ method) gin.static_methods
        → gin.find routes method path ≡ unmatched
    find_other method other static =
        let all = other_methods method other static in
        elim (Lookup-cases (gin.find routes method path)) [
          | inl (r, values, e) ↦
              let (ne, same, _) = laws.found _ routes method path r values e all in absurd (ne same)
          | inr (inl (status, location, e)) ↦
              absurd ((laws.near routes method path status location e).0 all)
          | inr (inr e) ↦ e
        ]

    elsewhere :
        (method : String) → method ≢ "GET" → gin.is_allowed_elsewhere routes method path ≡ true
    unfolding new_router
    elsewhere method other =
        laws.other_fits routes method path
          (λ all. all.1.1.0 (λ (e : ◌≡◌ {A = String} "GET" method). other (sym e)) param fits)

    -- A path that fits `/order/:id`, and no other pattern of the router: a GET gets the answer of
    -- `getOrderByID` for the identifier in the path, through the middleware of the API, and leaves
    -- the state as that handler does; any other method under which there are no static pages gets
    -- 405 with `Allow: GET`, is not logged, and changes nothing.
    pub serve-get_order_by_id :
        {Service : Type 0} (service : OrderReadService Service) (atoi : String → Option ℤ)
        (itoa : ℤ → String) (uuid : String) (req : Request) (s : Service)
        → req.path ≡ path
        → (req.method ≢ "GET" → All (λ m. m ≢ req.method) gin.static_methods)
        → serve service atoi itoa gin (new_router gin static_dir otel_service_name) uuid req s ≡ (
            if req.method == "GET"
            then (let (s', response) = get_order_by_id service (param "id") s in
                (
                  s',
                  reply gin uuid req
                      (api_chain otel_service_name)
                      "/order/:id"
                      none
                      (response.status, json response.body),
                ))
            else (
              s,
              reply gin uuid req base_chain ""
                  (some "GET")
                  (405, json (failure "method not allowed")),
            ))
    unfolding serve handle unrouted
    serve-get_order_by_id service atoi itoa uuid req s here static =
        elim (Bool-cases (req.method == "GET")) [
          | inl q ↦
              let is_get = (eq_iff req.method "GET").0 q in
              let e = ap₂ (gin.find routes) is_get here ∙ find-get in rw (serve, e, q) refl
          | inr q ↦
              let other : req.method ≢ "GET" = λ e. ground (arith, q, e, eq_iff req.method "GET") in
              let e =
                ap (gin.find routes req.method) here ∙ find_other req.method other (static other) in
              let allowed =
                ap (gin.is_allowed_elsewhere routes req.method) here ∙ elsewhere req.method other in
              rw (serve, e, allowed, q) refl
        ]
