-- ===== src/Request/Tests.antt =====
-- A request with no identifier of its own.
use wb_tasks_l.Prelude.{refl, String, ◌≡◌, [], ◌∷◌, some}
use wb_tasks_l.Request.{Tracer, otel_tracer, Served, request_id_middleware, with_ctx}

abbrev page : Served
page = record { full_path = "/order/:id"; url_path = "/order/a"; method = "GET"; status = 200 }

-- One span is active.
abbrev tracer : Tracer
tracer = otel_tracer (λ ctx. some ("t-1", "s-1"))

abbrev unnamed : String
unnamed = ""

logged_fields :
    with_ctx tracer (request_id_middleware "7c9e" unnamed (some [])).1
    ≡ ("request_id", "7c9e") ∷ ("trace_id", "t-1") ∷ ("span_id", "s-1") ∷ []
unfolding with_ctx request_id_middleware
logged_fields = refl
