-- ===== src/App/Endpoints/Ready.antt =====
-- When a service answers that it is alive and ready.
use converse_os.Prelude.{◌≡◌, ◌↔◌, refl, true, ok, arith, inl, inr, Bool-cases}
use converse_os.Infrastructure.Health.{
  HealthCheckRegistry, Runtime, is_healthy, check_all, check_readiness, check_liveness,
}
use converse_os.App.Endpoints.{liveness_check, readiness_check}

module _ {E S : Type 0} (runtime : Runtime E S) (health_registry : HealthCheckRegistry E S) where
  -- A service always answers that it is alive, and that it is ready exactly when all of its checks
  -- together are healthy.
  pub readiness_check_iff :
      (s : S)
      → ((liveness_check runtime health_registry s).0 ≡ ok "alive")
        × (((readiness_check runtime health_registry s).0 ≡ ok "ready")
            ↔ (is_healthy (check_all runtime health_registry s).0.status ≡ true))
  unfolding liveness_check readiness_check check_liveness check_readiness
  readiness_check_iff s = (
    refl,
    elim (Bool-cases (is_healthy (check_all runtime health_registry s).0.status)) [
      | inl h ↦ ground arith
      | inr h ↦ ground arith
    ],
  )
