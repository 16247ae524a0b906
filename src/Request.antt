-- ===== src/Request.antt =====
-- pkg/ctxmeta, pkg/httpx/requestid.go and pkg/httpx/request_logger.go, with withCtx of
-- pkg/logger/zap.go: the identifiers of a request and of its trace, from the header to the log. A
-- context is what context.WithValue has put in it, last first; one that is nil is `none`. What the
-- two builds of ctxmeta, with the tag `otel` and without, say of a context is a `Tracer`.
mod Tests
use wb_tasks_l.Prelude.{
  ℕ, String, ◌≡◌, ◌≢◌, ◌⊎◌, refl, Bool, true, false, ◌||◌, List, [], ◌∷◌, ◌++◌, Option, none, some,
  inl, inr, arith, eq_iff, Bool-cases, ◌==◌, if◌then◌else◌,
}

-- The keys are strings of the type ctxKey.
abbrev pub Context : Type 0
Context = List (String × String)

abbrev key_request_id : String
key_request_id = "request_id"

unfoldable pub value : String → Context → Option String
value key [] = none
value key ((k, v) ∷ ctx) = let rest = value key ctx in if k == key then some v else rest

unfoldable pub with_request_id : Option Context → String → Option Context
with_request_id none request_id = none
with_request_id (some ctx) request_id =
    if request_id == "" then some ctx else some ((key_request_id, request_id) ∷ ctx)

unfoldable pub request_id_from_context : Option Context → String × Bool
unfolding value
request_id_from_context none = ("", false)
request_id_from_context (some ctx) = elim (value key_request_id ctx) [
  | none ↦ ("", false)
  | some v ↦ if v == "" then ("", false) else (v, true)
]

-- The trace and the span of a context, "" and false if it has none.
pub record Tracer : Type 0 where
  pub trace_id : Option Context → String × Bool
  pub span_id : Option Context → String × Bool

-- ctxmeta_trace_stub.go
abbrev pub stub_tracer : Tracer
stub_tracer = record { trace_id = λ ctx. ("", false); span_id = λ ctx. ("", false) }

-- ctxmeta_otel.go, over what trace.SpanFromContext says of a context: the identifiers of a span
-- context that is valid.
abbrev pub otel_tracer : (Option Context → Option (String × String)) → Tracer
otel_tracer span_context = record {
  trace_id =
      λ ctx. elim (span_context ctx) [ none ↦ ("", false) | some (trace, _) ↦ (trace, true) ];
  span_id = λ ctx. elim (span_context ctx) [ none ↦ ("", false) | some (_, span) ↦ (span, true) ];
}

-- RequestIDMiddleware: the header of the response, and the context of the request from there on.
-- `header` is the X-Request-ID of the request, "" if it has none, and `uuid` what uuid.New answers.
unfoldable pub request_id_middleware : String → String → Option Context → String × Option Context
unfolding with_request_id
request_id_middleware uuid header ctx =
    let request_id = if header == "" then uuid else header in
    (request_id, with_request_id ctx request_id)

-- A request that was served. `full_path` is "" where no route matched.
pub record Served : Type 0 where
  pub full_path : String
  pub url_path : String
  pub method : String
  pub status : ℕ

-- What RequestLogger logs, but for the client's address, the duration and the size.
pub record LogLine : Type 0 where
  pub request_id : String
  pub trace_id : String
  pub span_id : String
  pub method : String
  pub path : String
  pub status : ℕ

unfoldable pub request_logger : Tracer → Option Context → Served → Option LogLine
unfolding request_id_from_context
request_logger tracer ctx r =
    if (r.full_path == "/metrics") || (r.full_path == "/ping")
    then none
    else some (record {
      request_id = (request_id_from_context ctx).0;
      trace_id = (tracer.trace_id ctx).0;
      span_id = (tracer.span_id ctx).0;
      method = r.method;
      path = if r.full_path == "" then r.url_path else r.full_path;
      status = r.status;
    })

-- One of the fields that `With` adds.
abbrev pub field : String → String × Bool → List (String × String)
field key (v, found) = if found then (key, v) ∷ [] else []

-- withCtx: the fields that a log entry gets from the context.
unfoldable pub with_ctx : Tracer → Option Context → List (String × String)
unfolding request_id_from_context
with_ctx tracer ctx =
    field "request_id" (request_id_from_context ctx)
    ++ field "trace_id" (tracer.trace_id ctx)
    ++ field "span_id" (tracer.span_id ctx)

pub from-with_request_id :
    (ctx : Context) (request_id : String)
    → request_id ≢ ""
    → request_id_from_context (with_request_id (some ctx) request_id) ≡ (request_id, true)
unfolding request_id_from_context with_request_id value
from-with_request_id ctx request_id named = ground (arith, named, eq_iff request_id "")

-- One identifier goes through a request: it is never empty; it is the client's, where the client
-- sent one; and the response carries the same that the handlers find in their context, that
-- RequestLogger logs for a route other than /metrics and /ping, and that the logger adds to every
-- entry, before the trace and the span if there are some. The line has the trace and the span of
-- the context.
pub request_id_middleware-logged :
    (tracer : Tracer) (uuid header : String) (ctx : Context) (r : Served)
    → uuid ≢ ""
    → r.full_path ≢ "/metrics"
    → r.full_path ≢ "/ping"
    → (let (echo, inner) = request_id_middleware uuid header (some ctx) in
        (echo ≢ "")
        × ((header ≡ "") ⊎ (echo ≡ header))
        × (request_id_from_context inner ≡ (echo, true))
        × ((line : LogLine) × (request_logger tracer inner r ≡ some line)
            × (line.request_id ≡ echo)
            × (line.trace_id ≡ (tracer.trace_id inner).0)
            × (line.span_id ≡ (tracer.span_id inner).0))
        × (with_ctx tracer inner
            ≡ ("request_id", echo) ∷ field "trace_id" (tracer.trace_id inner)
              ++ field "span_id" (tracer.span_id inner)))
unfolding request_id_middleware request_logger with_ctx
request_id_middleware-logged tracer uuid header ctx r fresh metrics ping =
    let echo = if header == "" then uuid else header in
    let named : echo ≢ "" = λ e. ground (arith, e, fresh, eq_iff header "") in
    let found = from-with_request_id ctx echo named in
    let quiet : ((r.full_path == "/metrics") || (r.full_path == "/ping")) ≡ false =
      ground (arith, metrics, ping, eq_iff r.full_path "/metrics", eq_iff r.full_path "/ping") in
    (
      named,
      elim (Bool-cases (header == "")) [
        | inl q ↦ inl ((eq_iff header "").0 q)
        | inr q ↦ inr (rw q refl)
      ],
      found,
      (
        record {
          request_id = (request_id_from_context (with_request_id (some ctx) echo)).0;
          trace_id = (tracer.trace_id (with_request_id (some ctx) echo)).0;
          span_id = (tracer.span_id (with_request_id (some ctx) echo)).0;
          method = r.method;
          path = if r.full_path == "" then r.url_path else r.full_path;
          status = r.status;
        },
        rw quiet,
        rw found,
        refl,
        refl,
      ),
      rw found,
    )
