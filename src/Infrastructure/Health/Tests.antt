-- ===== src/Infrastructure/Health/Tests.antt =====
-- The theorem on a registry with three checks, of which the second raises.
use converse_os.Prelude.{ℕ, suc, String, true, ok, raise}
use converse_os.Infrastructure.Health.{HealthCheckRegistry, Runtime, make_registry, register}

-- The state is the clock.
abbrev runtime : Runtime String ℕ
runtime = record {
  monotonic = λ s. (s, suc s);
  now = λ s. "2024-01-01T00:00:00+00:00";
  str_of = λ e. e;
}

abbrev registry : HealthCheckRegistry String ℕ
registry =
    register "kafka" (λ s. (ok true, s))
      (register "redis" (λ s. (raise "refused", s))
        (register "postgres" (λ s. (ok true, s)) (make_registry "auth-service" "0.1.0")))
