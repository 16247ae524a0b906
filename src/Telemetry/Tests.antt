-- ===== src/Telemetry/Tests.antt =====
-- A ratio above 1, for an exporter that never fails.
use wb_tasks_l.Prelude.{ltb, ◌≡◌, refl, Bool, Option, none, String}
use wb_tasks_l.Errors.{Error, ok}
use wb_tasks_l.Telemetry.{Float64, float_one, Provider, setup_tracing}

-- The bits of floats that are not negative are ordered as the floats are.
abbrev below : Float64 → Float64 → Bool
below x y = ltb x y

-- The bits of 2.0.
abbrev two : Float64
two = 0x4000000000000000

abbrev no_failure : String → Option Error
no_failure endpoint = none

abbrev unset : String
unset = ""

abbrev provider : Provider
provider = record {
  endpoint = "localhost:4318";
  sample_ratio = float_one;
  service_name = "orders-app";
}

sampled : setup_tracing below no_failure "orders-app" unset two ≡ ok provider
unfolding setup_tracing
sampled = refl
