-- ===== src/App/Endpoints.antt =====
-- fastapi.py: the endpoints "/health/live" and "/health/ready". The answer is its `status`, and an
-- `HTTPException` is known by its status code.
pub mod Ready
use converse_os.Prelude.{String, Bool, Result, ok, raise, if◌then◌else◌}
use converse_os.Domain.Exceptions.{Exn, other}
use converse_os.Infrastructure.Health.{
  HealthCheckRegistry, Runtime, check_readiness, check_liveness,
}

-- `if not is_…: raise HTTPException(status_code=503, detail=…)`
abbrev answer : Bool → String → Result Exn String
answer b status = if b then ok status else raise (other "HTTPException: 503")

module _ {E S : Type 0} (runtime : Runtime E S) (health_registry : HealthCheckRegistry E S) where
  unfoldable pub liveness_check : S → Result Exn String × S
  unfolding check_liveness
  liveness_check s =
      let (is_live, s') = check_liveness runtime health_registry s in (answer is_live "alive", s')

  unfoldable pub readiness_check : S → Result Exn String × S
  unfolding check_readiness
  readiness_check s =
      let (is_ready, s') = check_readiness runtime health_registry s in
      (answer is_ready "ready", s')
