-- ===== src/Telemetry.antt =====
-- SetupTracing of pkg/telemetry/tracing.go and NewZapLogger of pkg/logger/zap.go. A float64 is its
-- bits, and the order of floats is an argument; so are the errors of the OTLP exporter and of zap.
-- The resource of the provider is its service name; that the provider becomes the global one is
-- left out.
mod Tests
use wb_tasks_l.Prelude.{
  ℕ, String, ◌≡◌, ◌≢◌, ◌⊎◌, sym, ◌∙◌, inl, inr, Bool, true, false, Option, none, some, arith,
  eq_iff, Bool-cases, ◌==◌, if◌then◌else◌,
}
use wb_tasks_l.Errors.{Error, Result, ok, err}

-- math.Float64bits
abbrev pub Float64 : Type 0
Float64 = ℕ

abbrev pub float_zero : Float64
float_zero = 0

abbrev pub float_one : Float64
float_one = 0x3ff0000000000000

-- What an sdktrace.TracerProvider is built from.
pub record Provider : Type 0 where
  pub endpoint : String
  pub sample_ratio : Float64
  pub service_name : String

abbrev pub default_endpoint : String → String
default_endpoint endpoint = if endpoint == "" then "localhost:4318" else endpoint

-- The two tests of the ratio, in their order.
unfoldable pub clamp_ratio : (Float64 → Float64 → Bool) → Float64 → Float64
clamp_ratio less ratio =
    let raised = if less ratio float_zero then float_zero else ratio in
    if less float_one raised then float_one else raised

unfoldable pub setup_tracing :
    (Float64 → Float64 → Bool)
    → (String → Option Error)
    → String
    → String
    → Float64
    → Result Provider
unfolding clamp_ratio
setup_tracing less new_exporter service_name endpoint ratio =
    elim (new_exporter (default_endpoint endpoint)) [
      | some e ↦ err e
      | none ↦ ok (record {
        endpoint = default_endpoint endpoint;
        sample_ratio = clamp_ratio less ratio;
        service_name = service_name;
      })
    ]

-- zap.NewProduction or zap.NewDevelopment, as the logger's `isProd` says.
unfoldable pub new_zap_logger : (Bool → Option Error) → Bool → Result Bool
new_zap_logger new_zap is_prod = elim (new_zap is_prod) [ some e ↦ err e | none ↦ ok is_prod ]

default_endpoint-ne-empty : (endpoint : String) → default_endpoint endpoint ≢ ""
default_endpoint-ne-empty endpoint e = elim (Bool-cases (endpoint == "")) [
  | inl q ↦ absurd (apart (rw q at e))
  | inr q ↦ absurd (ground (arith, q, rw q at e, eq_iff endpoint ""))
]
  where
    apart : ◌≢◌ {A = String} "localhost:4318" ""
    apart f = cc

-- A provider that `SetupTracing` returns exports to an endpoint that is not empty, which is the one
-- asked for if one was; its ratio is neither below 0 nor above 1, and is the one asked for if that
-- is so of it. A NaN stays what it is.
pub setup_tracing-clamps :
    (less : Float64 → Float64 → Bool) (new_exporter : String → Option Error)
    (service_name endpoint : String) (ratio : Float64) (p : Provider)
    → less float_zero float_zero ≡ false
    → less float_one float_zero ≡ false
    → less float_one float_one ≡ false
    → setup_tracing less new_exporter service_name endpoint ratio ≡ ok p
    → (p.endpoint ≢ "")
      × ((endpoint ≡ "") ⊎ (p.endpoint ≡ endpoint))
      × (less p.sample_ratio float_zero ≡ false)
      × (less float_one p.sample_ratio ≡ false)
      × ((less ratio float_zero ≡ true) ⊎ (less float_one ratio ≡ true) ⊎ (p.sample_ratio ≡ ratio))
unfolding setup_tracing
setup_tracing-clamps less new_exporter service_name endpoint ratio p zero zero_one one h = (
  λ e.
      let same : p.endpoint ≡ default_endpoint endpoint = ground (arith, h) in
      default_endpoint-ne-empty endpoint (sym same ∙ e),
  elim (Bool-cases (endpoint == "")) [
    | inl q ↦ inl ((eq_iff endpoint "").0 q)
    | inr q ↦ inr (ground (arith, h, q))
  ],
  ground (arith, h, zero, zero_one, one),
  ground (arith, h, zero, zero_one, one),
  elim (Bool-cases (less ratio float_zero)) [
    | inl q ↦ inl q
    | inr above ↦ elim (Bool-cases (less float_one ratio)) [
      | inl q ↦ inr (inl q)
      | inr below ↦ inr (inr (ground (arith, h, above, below)))
    ]
  ],
)
