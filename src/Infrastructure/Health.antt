-- ===== src/Infrastructure/Health.antt =====
-- infrastructure/health.py: the health checks of a service. A check is given by what awaiting it does
-- to the state `S` of what it looks at; `str(e)` and the clock are parameters, and times are whole
-- milliseconds. The log lines are left out.
pub mod Aggregate
mod Tests
use converse_os.Prelude.{
  ℕ, ◌-◌, String, List, [], ◌∷◌, ◌++◌, Bool, true, false, string_eq, Result, ok, raise,
  if◌then◌else◌,
}
use converse_os.Prelude.Dict.{Dict, insert}
use converse_os.Domain.Value.{Value, num, str, dict, fields_of}

pub data HealthStatus : Type 0 where
  healthy : HealthStatus
  degraded : HealthStatus
  unhealthy : HealthStatus

-- whether a status is `HEALTHY`
unfoldable pub is_healthy : HealthStatus → Bool
is_healthy healthy = true
is_healthy degraded = false
is_healthy unhealthy = false

-- without `details`, which no check sets
pub record ComponentHealthResult : Type 0 where
  pub name : String
  pub status : HealthStatus
  pub latency_ms : ℕ
  pub message : String

pub record OverallHealthResult : Type 0 where
  pub status : HealthStatus
  pub service_name : String
  pub version : String
  pub components : List ComponentHealthResult
  pub timestamp : String

-- `.value` of a status
unfoldable pub status_value : HealthStatus → String
status_value healthy = "healthy"
status_value degraded = "degraded"
status_value unhealthy = "unhealthy"

-- one entry of `components`; the latency is a whole number already
unfoldable pub component_dict : ComponentHealthResult → Value
unfolding status_value
component_dict c = dict (
    fields_of (
      ("status", str (status_value c.status))
      ∷ ("latency_ms", num c.latency_ms)
      ∷ ("message", str c.message)
      ∷ []))

-- the comprehension over the components, where a later entry of the same name replaces an earlier one
unfoldable pub component_dicts : List ComponentHealthResult → Dict String Value → Dict String Value
unfolding component_dict insert
component_dicts [] d = d
component_dicts (c ∷ cs) d = component_dicts cs (insert c.name (component_dict c) d)

unfoldable pub overall_dict : OverallHealthResult → Dict String Value
unfolding status_value component_dicts
overall_dict r =
    ("status", str (status_value r.status))
    ∷ ("service", str r.service_name)
    ∷ ("version", str r.version)
    ∷ ("timestamp", str r.timestamp)
    ∷ ("components", dict (fields_of (component_dicts r.components [])))
    ∷ []

-- `E` is the type of what a check may raise.
abbrev pub HealthCheckFn : Type 0 → Type 0 → Type 0
HealthCheckFn E S = S → Result E Bool × S

pub record HealthCheckRegistry (E S : Type 0) : Type 0 where
  pub service_name : String
  pub version : String
  pub checks : Dict String (HealthCheckFn E S)

-- `time.monotonic`, `datetime.now(UTC).isoformat()` and `str` of an exception
pub record Runtime (E S : Type 0) : Type 0 where
  pub monotonic : S → ℕ × S
  pub now : S → String
  pub str_of : E → String

module _ {E S : Type 0} where
  -- the constructor
  unfoldable pub make_registry : String → String → HealthCheckRegistry E S
  make_registry service_name version = record {
    service_name = service_name;
    version = version;
    checks = [];
  }

  unfoldable pub register :
      String → HealthCheckFn E S → HealthCheckRegistry E S → HealthCheckRegistry E S
  unfolding insert
  register name check_fn r = record r { checks = insert name check_fn r.checks }

  module _ (runtime : Runtime E S) where
    -- the body of the loop: what one check adds to the result
    unfoldable pub component : String → ℕ → Result E Bool → ComponentHealthResult
    component name latency (ok is_healthy) = record {
      name = name;
      status = if is_healthy then healthy else unhealthy;
      latency_ms = latency;
      message = if is_healthy then "OK" else "Check failed";
    }
    component name latency (raise e) = record {
      name = name;
      status = unhealthy;
      latency_ms = latency;
      message = runtime.str_of e;
    }

    -- the overall status after a check
    unfoldable pub status_after : HealthStatus → Result E Bool → HealthStatus
    status_after overall_status (ok is_healthy) = if is_healthy then overall_status else unhealthy
    status_after overall_status (raise e) = unhealthy

    -- the loop of `check_all`, with the components and the overall status so far
    unfoldable pub run_checks :
        Dict String (HealthCheckFn E S)
        → List ComponentHealthResult
        → HealthStatus
        → S
        → (List ComponentHealthResult × HealthStatus) × S
    unfolding component status_after
    run_checks [] components overall_status s = ((components, overall_status), s)
    run_checks ((name, check_fn) ∷ rest) components overall_status s =
        let (start, s1) = runtime.monotonic s in
        let (result, s2) = check_fn s1 in
        let (stop, s3) = runtime.monotonic s2 in
        run_checks rest (components ++ (component name (stop - start) result ∷ []))
          (status_after overall_status result) s3

    unfoldable pub check_all : HealthCheckRegistry E S → S → OverallHealthResult × S
    unfolding run_checks
    check_all r s =
        let (result, s') = run_checks r.checks [] healthy s in
        (
          record {
            status = result.1;
            service_name = r.service_name;
            version = r.version;
            components = result.0;
            timestamp = runtime.now s';
          },
          s',
        )

    unfoldable pub check_readiness : HealthCheckRegistry E S → S → Bool × S
    unfolding check_all is_healthy
    check_readiness r s = let (result, s') = check_all r s in (is_healthy result.status, s')

    unfoldable pub check_liveness : HealthCheckRegistry E S → S → Bool × S
    check_liveness r s = (true, s)
