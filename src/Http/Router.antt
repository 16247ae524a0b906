-- ===== src/Http/Router.antt =====
-- NewRouter of internal/transport/http/router.go: the routes with their chains of middleware, and
-- what a request gets from them. How gin finds the route of a path is the argument `Gin`, and so
-- are the answers of promhttp and of the file server. A trailing slash may make gin redirect before
-- any middleware runs. otelgin puts its span in the context; the handlers do not panic, so that
-- Recovery has nothing to do.
pub mod Laws
pub mod Routes
pub mod Dispatch
pub mod Labels
mod Tests
use wb_tasks_l.Prelude.{
  ℕ, String, Bool, true, false, ◌||◌, ◌&&◌, List, [], ◌∷◌, ◌++◌, map, Option, none, some, ℤ, not,
  ◌==◌, if◌then◌else◌,
}
use wb_tasks_l.Request.{Tracer, Context, request_id_middleware, Served, LogLine, request_logger}
use wb_tasks_l.Http.{
  OrderReadService, Body, failure, Response, get_order_by_id, list_orders_by_customer,
}

pub data Middleware : Type 0 where
  recovery : Middleware
  request_id : Middleware
  otel_gin : (service_name : String) → Middleware
  logger : Middleware

pub data Endpoint : Type 0 where
  ping metrics order_by_id orders_by_customer : Endpoint
  directory : (root : String) → Endpoint
  file : (path : String) → Endpoint

pub record Route : Type 0 where
  pub method : String
  pub pattern : String
  pub chain : List Middleware
  pub endpoint : Endpoint

-- What the router's tree says of a method and a path: a route with the path's parameters, or that
-- the path with a slash more or less has one, or neither.
pub data Lookup : Type 0 where
  matched : Route → (String → String) → Lookup
  slash : (status : ℕ) → (location : String) → Lookup
  unmatched : Lookup

pub record Gin : Type 0 where
  pub find : List Route → String → String → Lookup
  -- With HandleMethodNotAllowed: whether another method has a route for a path.
  pub is_allowed_elsewhere : List Route → String → String → Bool
  -- The methods under which Static and StaticFile register their handlers.
  pub static_methods : List String
  -- filepath.Join
  pub join : String → String → String
  -- The context with the span that otelgin starts.
  pub start_span : String → Option Context → Option Context
  pub tracer : Tracer
  -- The status and the body of promhttp's handler and of the file server.
  pub page : Endpoint → String → ℕ × String

-- The middleware of the engine, and that of the group of the API.
abbrev pub base_chain : List Middleware
base_chain = recovery ∷ request_id ∷ []

abbrev pub api_chain : String → List Middleware
api_chain otel_service_name = base_chain ++ otel_gin otel_service_name ∷ logger ∷ []

abbrev pub get_route : String → List Middleware → Endpoint → Route
get_route pattern chain endpoint = record {
  method = "GET";
  pattern = pattern;
  chain = chain;
  endpoint = endpoint;
}

unfoldable pub static_routes : Gin → String → List Route
static_routes gin static_dir =
    map
      (λ method. record {
        method = method;
        pattern = "/static/*filepath";
        chain = base_chain;
        endpoint = directory static_dir;
      })
      gin.static_methods
    ++ map
        (λ method. record {
          method = method;
          pattern = "/";
          chain = base_chain;
          endpoint = file (gin.join static_dir "index.html");
        })
        gin.static_methods

-- The routes that NewRouter registers, in its order.
unfoldable pub new_router : Gin → String → String → List Route
unfolding static_routes
new_router gin static_dir otel_service_name =
    get_route "/ping" base_chain ping
    ∷ get_route "/metrics" base_chain metrics
    ∷ get_route "/order/:id" (api_chain otel_service_name) order_by_id
    ∷ get_route "/customer/:id/orders" (api_chain otel_service_name) orders_by_customer
    ∷ (if static_dir == "" then [] else static_routes gin static_dir)

pub record Request : Type 0 where
  pub method : String
  pub path : String
  -- X-Request-ID, "" if there is none
  pub request_id : String
  pub query : String → Option String

pub data Content : Type 0 where
  json : Body → Content
  text : String → Content
  nothing : Content

pub record Answer : Type 0 where
  pub status : ℕ
  pub content : Content
  -- The headers X-Request-ID, Allow and Location.
  pub request_id : Option String
  pub allow : Option String
  pub location : Option String
  pub log : List LogLine

-- What a chain makes of the context, and the X-Request-ID that it sets, before the handler runs.
unfoldable pub through :
    Gin
    → String
    → String
    → List Middleware
    → Option Context
    → Option String
    → Option Context × Option String
through gin uuid header [] ctx echo = (ctx, echo)
through gin uuid header (request_id ∷ chain) ctx echo =
    let (set, inner) = request_id_middleware uuid header ctx in
    through gin uuid header chain inner (some set)
through gin uuid header (recovery ∷ chain) ctx echo = through gin uuid header chain ctx echo
through gin uuid header (otel_gin name ∷ chain) ctx echo =
    through gin uuid header chain (gin.start_span name ctx) echo
through gin uuid header (logger ∷ chain) ctx echo = through gin uuid header chain ctx echo

-- What a chain logs, once the handler has run.
unfoldable pub logged : Tracer → List Middleware → Option Context → Served → List LogLine
logged tracer [] ctx served = []
logged tracer (logger ∷ chain) ctx served =
    let rest = logged tracer chain ctx served in
    elim (request_logger tracer ctx served) [ none ↦ rest | some line ↦ line ∷ rest ]
logged tracer (recovery ∷ chain) ctx served = logged tracer chain ctx served
logged tracer (request_id ∷ chain) ctx served = logged tracer chain ctx served
logged tracer (otel_gin _ ∷ chain) ctx served = logged tracer chain ctx served

-- The answer that a chain and a handler give together.
unfoldable pub reply :
    Gin
    → String
    → Request
    → List Middleware
    → (pattern : String) → (allow : Option String) → ℕ × Content
    → Answer
unfolding through logged
reply gin uuid req chain pattern allow (status, content) =
    let (ctx, echo) = through gin uuid req.request_id chain (some []) none in
    record {
      status = status;
      content = content;
      request_id = echo;
      allow = allow;
      location = none;
      log = logged gin.tracer chain ctx (record {
        full_path = pattern;
        url_path = req.path;
        method = req.method;
        status = status;
      });
    }

-- The handler of NoMethod, and that of NoRoute.
unfoldable pub unrouted : Gin → String → Request → Bool → Answer
unfolding reply
unrouted gin uuid req elsewhere =
    if elsewhere
    then reply gin uuid req base_chain "" (some "GET") (405, json (failure "method not allowed"))
    else reply gin uuid req base_chain "" none (404, json (failure "route not found"))

module _ {Service : Type 0} (service : OrderReadService Service) (atoi : String → Option ℤ)
    (itoa : ℤ → String) (gin : Gin) where
  -- The handlers that NewRouter registers.
  unfoldable pub handle : Endpoint → Request → (String → String) → Service → Service × (ℕ × Content)
  handle ping req param s = (s, (200, text "pong"))
  handle order_by_id req param s =
      let (s', response) = get_order_by_id service (param "id") s in
      (s', (response.status, json response.body))
  handle orders_by_customer req param s =
      let (s', response) = list_orders_by_customer service atoi itoa req.query (param "id") s in
      (s', (response.status, json response.body))
  handle endpoint req param s =
      let (status, page) = gin.page endpoint req.path in (s, (status, text page))

  -- A request to the engine. The redirection is gin's own.
  unfoldable pub serve : List Route → String → Request → Service → Service × Answer
  unfolding unrouted reply
  serve routes uuid req s = elim (gin.find routes req.method req.path) [
    | matched r param ↦
        let (s', result) = handle r.endpoint req param s in
        (s', reply gin uuid req r.chain r.pattern none result)
    | slash status location ↦ (
      s,
      record {
        status = status;
        content = nothing;
        request_id = none;
        allow = none;
        location = some location;
        log = [];
      },
    )
    | unmatched ↦ (s, unrouted gin uuid req (gin.is_allowed_elsewhere routes req.method req.path))
  ]
