-- ===== src/Http/Router/Tests.antt =====
-- The router over a small matcher.
use wb_tasks_l.Prelude.{
  Bool, false, ℕ, suc, String, ◌≡◌, ◌≢◌, ◌⊎◌, refl, sym, ap, subst, ◌∙◌, inl, inr, true, false,
  ◌&&◌, List, [], ◌∷◌, Option, none, some, ℤ, arith, All, Option-cases, Bool-cases, eq_iff, ◌==◌,
  if◌then◌else◌,
}
use wb_tasks_l.Errors.{ok}
use wb_tasks_l.Samples.{order_of}
use wb_tasks_l.Http.{OrderReadService, failure, get_order_by_id}
use wb_tasks_l.Http.Router.{
  Route, Lookup, matched, slash, unmatched, Gin, base_chain, api_chain, static_routes, new_router,
  Request, json, Answer, reply, serve,
}
use wb_tasks_l.Request.{stub_tracer}
use wb_tasks_l.Http.Router.Laws.{GinLaws}
use wb_tasks_l.Http.Router.Dispatch.{serve_unknown, serve-get_order_by_id}
use wb_tasks_l.Http.Router.Labels.{IsLabelled, serve-IsLabelled}

-- `/order/a` and the patterns themselves are all the paths.
abbrev parameters : String → String → Option (String → String)
parameters pattern path =
    if (pattern == "/order/:id") && (path == "/order/a")
    then some (λ key. "a")
    else if pattern == path
    then some (λ key. "")
    else none

first_match : List Route → String → String → Lookup
first_match [] method path = unmatched
first_match (r ∷ routes) method path =
    let rest = first_match routes method path in
    if r.method == method
    then (elim (parameters r.pattern path) [ some param ↦ matched r param | none ↦ rest ])
    else rest

any_other : List Route → String → String → Bool
any_other [] method path = false
any_other (r ∷ routes) method path =
    let rest = any_other routes method path in
    if r.method == method
    then rest
    else (elim (parameters r.pattern path) [ some _ ↦ true | none ↦ rest ])

abbrev sample_gin : Gin
sample_gin = record {
  find = first_match;
  is_allowed_elsewhere = any_other;
  static_methods = "GET" ∷ "HEAD" ∷ [];
  join = λ dir name. name;
  start_span = λ name ctx. ctx;
  tracer = stub_tracer;
  page = λ endpoint path. (200, "page");
}

matched-injective :
    (x r : Route) (values param : String → String)
    → matched x values ≡ matched r param
    → (x ≡ r) × (values ≡ param)
matched-injective x r values param e = (cc, cc)

first_match_hit :
    (x : Route) (routes : List Route) (method path : String) (values : String → String)
    → (x.method == method) ≡ true
    → parameters x.pattern path ≡ some values
    → first_match (x ∷ routes) method path ≡ matched x values
unfolding first_match
first_match_hit x routes method path values same fit = rw (same, fit) refl

first_match-found :
    (P : Route → Type 0) (routes : List Route) (method path : String) (r : Route)
    (param : String → String)
    → first_match routes method path ≡ matched r param
    → All P routes
    → P r × (r.method ≡ method) × (parameters r.pattern path ≡ some param)
unfolding first_match
first_match-found P [] method path r param e h = cc
first_match-found P (x ∷ routes) method path r param e h =
    let ih = first_match-found P routes method path r param in
    elim (Bool-cases (x.method == method)) [
      | inr other ↦ ih (ground (arith, e, other)) h.1
      | inl same ↦ elim (Option-cases (parameters x.pattern path)) [
        | inl no_fit ↦ ih (ground (arith, e, same, no_fit)) h.1
        | inr (values, fit) ↦
            let (xr, vp) =
              matched-injective x r values param
                (sym (first_match_hit x routes method path values same fit) ∙ e) in
            (
              subst P xr h.0,
              ap (λ (y : Route). y.method) (sym xr) ∙ (eq_iff x.method method).0 same,
              ap (λ (y : Route). parameters y.pattern path) (sym xr) ∙ fit ∙ ap some vp,
            )
      ]
    ]

first_match-missing :
    (routes : List Route) (method path : String)
    → first_match routes method path ≡ unmatched
    → All
        (λ r.
          r.method ≡ method
          → (param : String → String) → ¬ (parameters r.pattern path ≡ some param))
        routes
unfolding first_match
first_match-missing [] method path e = tt
first_match-missing (x ∷ routes) method path e = elim (Bool-cases (x.method == method)) [
  | inr other ↦ (
    (λ same param fit. absurd (ground (arith, same, other, eq_iff x.method method))),
    first_match-missing routes method path (ground (arith, e, other)),
  )
  | inl same ↦ elim (Option-cases (parameters x.pattern path)) [
    | inl no_fit ↦ (
      (λ s param fit. cc),
      first_match-missing routes method path (ground (arith, e, same, no_fit)),
    )
    | inr (values, fit) ↦ absurd (ground (arith, e, same, fit))
  ]
]

first_match-near :
    (routes : List Route) (method path : String) (status : ℕ) (location : String)
    → first_match routes method path ≢ slash status location
unfolding first_match
first_match-near [] method path status location e = cc
first_match-near (x ∷ routes) method path status location e =
    elim (Bool-cases (x.method == method)) [
      | inr other ↦ first_match-near routes method path status location (ground (arith, e, other))
      | inl same ↦ elim (Option-cases (parameters x.pattern path)) [
        | inl no_fit ↦
            first_match-near routes method path status location (ground (arith, e, same, no_fit))
        | inr (values, fit) ↦ absurd (ground (arith, e, same, fit))
      ]
    ]

any_other-false :
    (routes : List Route) (method path : String)
    → any_other routes method path ≡ false
    → All
        (λ r.
          r.method ≢ method
          → (param : String → String) → ¬ (parameters r.pattern path ≡ some param))
        routes
unfolding any_other
any_other-false [] method path e = tt
any_other-false (x ∷ routes) method path e = elim (Bool-cases (x.method == method)) [
  | inl same ↦ (
    λ other param fit. absurd (other ((eq_iff x.method method).0 same)),
    any_other-false routes method path (ground (arith, e, same)),
  )
  | inr other ↦ elim (Option-cases (parameters x.pattern path)) [
    | inr (values, fit) ↦ absurd (ground (arith, e, other, fit))
    | inl no_fit ↦
        (λ o param fit. cc, any_other-false routes method path (ground (arith, e, other, no_fit)))
  ]
]

any_other-none :
    (routes : List Route) (method path : String)
    → All (λ r. (param : String → String) → ¬ (parameters r.pattern path ≡ some param)) routes
    → any_other routes method path ≡ false
unfolding any_other
any_other-none [] method path h = refl
any_other-none (x ∷ routes) method path h =
    let rest = any_other-none routes method path h.1 in
    elim (Bool-cases (x.method == method)) [
      | inl same ↦ ground (arith, rest, same)
      | inr other ↦ elim (Option-cases (parameters x.pattern path)) [
        | inr (values, fit) ↦ absurd (h.0 values fit)
        | inl no_fit ↦ ground (arith, rest, other, no_fit)
      ]
    ]

some-injective : (f g : String → String) → some f ≡ some g → f ≡ g
some-injective f g e = cc

abbrev sample_gin_laws : GinLaws sample_gin
sample_gin_laws = record {
  Fits = λ pattern path param. parameters pattern path ≡ some param;
  found = first_match-found;
  missing = first_match-missing;
  near = λ routes method path status location e.
      absurd (first_match-near routes method path status location e);
  other_fits = λ routes method path some_fits. elim (Bool-cases (any_other routes method path)) [
    | inl e ↦ e
    | inr e ↦ absurd (some_fits (any_other-false routes method path e))
  ];
  none_fits = any_other-none;
  span_keeps = λ name ctx. refl;
  fits_once = λ pattern path param param' p q. some-injective param param' (sym p ∙ q);
}

-- A service that counts its calls.
abbrev service : OrderReadService ℕ
service = record {
  get_order = λ id n. (suc n, ok (some (order_of id)));
  orders_by_customer = λ id limit offset n. (suc n, ok []);
}

abbrev no_number : String → Option ℤ
no_number text = none

abbrev numeral : ℤ → String
numeral n = "20"

abbrev posted : Request
posted = record { method = "POST"; path = "/order/a"; request_id = "r-1"; query = λ key. none }

abbrev engine : List Route
engine = new_router sample_gin "web" "wb"

abbrev answer_to : Request → ℕ × Answer
answer_to req = serve service no_number numeral sample_gin engine "u-1" req 0

apart : (s t : String) → (s == t) ≡ false → s ≢ t
apart s t h e = ground (arith, h, e, eq_iff s t)

order_alone :
    All
      (λ r.
        (values : String → String)
        → parameters r.pattern "/order/a" ≡ some values
        → r.pattern ≡ "/order/:id")
      engine
unfolding new_router static_routes
order_alone = (
  λ values e. cc,
  (
    λ values e. cc,
    (
      λ values e. refl,
      (λ values e. cc, (λ values e. cc, (λ values e. cc, (λ values e. cc, (λ values e. cc, tt))))),
    ),
  ),
)

serve-get_order_by_id_example : answer_to posted ≡ (
    if posted.method == "GET"
    then (let (s', response) = get_order_by_id service "a" 0 in
        (
          s',
          reply sample_gin "u-1" posted
              (api_chain "wb")
              "/order/:id"
              none
              (response.status, json response.body),
        ))
    else (
      0,
      reply sample_gin "u-1" posted base_chain ""
          (some "GET")
          (405, json (failure "method not allowed")),
    ))
serve-get_order_by_id_example =
    serve-get_order_by_id sample_gin "web" "wb" sample_gin_laws "/order/a" (λ key. "a") refl
      order_alone service no_number numeral "u-1" posted 0 refl
      (λ other. (apart "GET" "POST" refl, (apart "HEAD" "POST" refl, tt)))

serve-IsLabelled_example :
    (let a = (answer_to posted).1 in (a.location ≢ none) ⊎ IsLabelled "r-1" a)
serve-IsLabelled_example =
    serve-IsLabelled sample_gin "web" "wb" service no_number numeral sample_gin_laws "u-1" (λ e. cc)
      posted 0

-- A path that no route fits.
abbrev astray : Request
astray = record { method = "GET"; path = "/nowhere"; request_id = ""; query = λ key. none }

astray_alien :
    All (λ r. (param : String → String) → ¬ (parameters r.pattern "/nowhere" ≡ some param)) engine
unfolding new_router static_routes
astray_alien = (
  λ param e. cc,
  (
    λ param e. cc,
    (
      λ param e. cc,
      (λ param e. cc, (λ param e. cc, (λ param e. cc, (λ param e. cc, (λ param e. cc, tt))))),
    ),
  ),
)

serve_unknown_example :
    (let (n, a) = answer_to astray in
      (n ≡ 0)
      × (a.status ≡ 404)
      × (a.content ≡ json (failure "route not found"))
      × (a.allow ≡ none)
      × (a.log ≡ []))
serve_unknown_example =
    serve_unknown sample_gin "web" "wb" sample_gin_laws "/nowhere" astray_alien service no_number
      numeral "u-1" astray 0 refl (first_match-near engine "GET" "/nowhere")
