-- ===== src/Http/Router/Routes.antt =====
-- The table of routes of NewRouter (internal/transport/http/router.go).
use wb_tasks_l.Prelude.{
  ℕ, String, ◌≡◌, ◌⊎◌, refl, inl, inr, All, All-map, All-append, Bool-cases, ◌==◌,
}
use wb_tasks_l.Http.Router.{
  ping, metrics, order_by_id, orders_by_customer, directory, file, Route, Lookup, matched, slash,
  unmatched, Gin, base_chain, api_chain, get_route, static_routes, new_router,
}

pub Lookup-cases :
    (l : Lookup)
    → ((r : Route) × (param : String → String) × (l ≡ matched r param))
      ⊎ ((status : ℕ) × (location : String) × (l ≡ slash status location))
      ⊎ (l ≡ unmatched)
Lookup-cases (matched r param) = inl (r, param, refl)
Lookup-cases (slash status location) = inr (inl (status, location, refl))
Lookup-cases unmatched = inr (inr refl)

module _ (gin : Gin) (static_dir otel_service_name : String) where
  -- What holds of the four routes and of the static ones holds of all.
  pub All-new_router {κ} :
      (P : Route → Type κ)
      → P (get_route "/ping" base_chain ping)
      → P (get_route "/metrics" base_chain metrics)
      → P (get_route "/order/:id" (api_chain otel_service_name) order_by_id)
      → P (get_route "/customer/:id/orders" (api_chain otel_service_name) orders_by_customer)
      → All P (static_routes gin static_dir)
      → All P (new_router gin static_dir otel_service_name)
  unfolding new_router
  All-new_router P p m o c s = elim (Bool-cases (static_dir == "")) [
    | inl q ↦ rw q (p, (m, (o, (c, tt))))
    | inr q ↦ rw q (p, (m, (o, (c, s))))
  ]

  pub All-static_routes {κ} :
      (P : Route → Type κ)
      → All
          (λ method. P (record {
            method = method;
            pattern = "/static/*filepath";
            chain = base_chain;
            endpoint = directory static_dir;
          }))
          gin.static_methods
      → All
          (λ method. P (record {
            method = method;
            pattern = "/";
            chain = base_chain;
            endpoint = file (gin.join static_dir "index.html");
          }))
          gin.static_methods
      → All P (static_routes gin static_dir)
  unfolding static_routes
  All-static_routes P d f =
      All-append P _ _ (All-map P _ gin.static_methods d) (All-map P _ gin.static_methods f)
