-- ===== src/Observability/Metrics.antt =====
-- observability/metrics.py: `MetricsRegistry` and the registry of the process. The package
-- prometheus_client is a parameter; a duration is a number of microseconds.
pub mod Counted
mod Tests
use converse_os.Prelude.{
  ℕ, suc, String, ◌≡◌, Option, none, some, List, [], ◌∷◌, Bool, true, false, ◌==◌, nat_eq,
  string_eq, length, list_eq, ◌&&◌, if◌then◌else◌, Result, ok, raise,
}
use converse_os.Prelude.Decimal.{decimal}
use converse_os.Domain.Exceptions.{Exn}
use converse_os.Application.UseCase.{and_then}

-- a metric, by its name and the names of its labels
pub record Metric : Type 0 where
  pub name : String
  pub labels : List String

-- The counters and histograms of the package: `metric.labels(*values).inc()` and
-- `metric.labels(*values).observe(d)`. They return if there is a value for each label, and each acts on
-- the one child that has these values for the labels of the metric; an observation leaves the
-- counters. `count` reads a counter by its name, the names of its labels and their values.
pub record Prometheus : Type 1 where
  pub S : Type 0
  pub inc : Metric → List String → S → Result Exn (Unit {0}) × S
  pub observe : Metric → List String → ℕ → S → Result Exn (Unit {0}) × S
  pub count : S → String → List String → List String → ℕ
  pub inc-ok :
      (m : Metric) (values : List String) (s : S)
      → length values ≡ length m.labels
      → (inc m values s).0 ≡ ok tt
  pub observe-ok :
      (m : Metric) (values : List String) (d : ℕ) (s : S)
      → length values ≡ length m.labels
      → (observe m values d s).0 ≡ ok tt
  pub count-inc :
      (m : Metric) (values : List String) (s : S) (name : String) (labels key : List String)
      → length values ≡ length m.labels
      → count (inc m values s).1 name labels key ≡ (
          if m.name == name && (list_eq.equal m.labels labels && list_eq.equal values key)
          then suc (count s name labels key)
          else count s name labels key)
  pub count-observe :
      (m : Metric) (values : List String) (d : ℕ) (s : S) (name : String) (labels key : List String)
      → count (observe m values d s).1 name labels key ≡ count s name labels key

-- the metrics that the methods below use
pub record MetricsRegistry : Type 0 where
  pub service_name : String
  pub http_requests_total : Metric
  pub http_request_duration_seconds : Metric
  pub db_query_duration_seconds : Metric
  pub cache_operations_total : Metric
  pub events_published_total : Metric

-- the constructor
unfoldable pub make_registry : String → MetricsRegistry
make_registry service_name =
    let labels : List String = "service" ∷ "tenant_id" ∷ "endpoint" ∷ "method" ∷ "status" ∷ [] in
    record {
      service_name = service_name;
      http_requests_total = record { name = "http_requests_total"; labels = labels };
      http_request_duration_seconds = record {
        name = "http_request_duration_seconds";
        labels = labels;
      };
      db_query_duration_seconds = record {
        name = "db_query_duration_seconds";
        labels = "service" ∷ "tenant_id" ∷ "operation" ∷ "table" ∷ [];
      };
      cache_operations_total = record {
        name = "cache_operations_total";
        labels = "service" ∷ "tenant_id" ∷ "operation" ∷ "hit" ∷ [];
      };
      events_published_total = record {
        name = "events_published_total";
        labels = "service" ∷ "tenant_id" ∷ "event_type" ∷ "destination" ∷ [];
      };
    }

-- `get_metrics_registry`, on the registry of the process: the first call makes it
unfoldable pub get_metrics_registry :
    Option String → Option MetricsRegistry → MetricsRegistry × Option MetricsRegistry
unfolding make_registry
get_metrics_registry service_name (some registry) = (registry, some registry)
get_metrics_registry none none = let r = make_registry "unknown" in (r, some r)
get_metrics_registry (some service_name) none = let r = make_registry service_name in (r, some r)

-- the arguments of `record_http_request`
pub record HttpRequest : Type 0 where
  pub endpoint : String
  pub method : String
  pub status : ℕ
  pub duration : ℕ
  pub tenant_id : String

unfoldable pub http_labels : MetricsRegistry → HttpRequest → List String
http_labels r q = r.service_name ∷ q.tenant_id ∷ q.endpoint ∷ q.method ∷ decimal q.status ∷ []

-- `str(hit).lower()`
abbrev lower_bool : Bool → String
lower_bool true = "true"
lower_bool false = "false"

module _ (prometheus : Prometheus) (r : MetricsRegistry) where
  open prometheus use {S, inc, observe}

  unfoldable pub record_http_request : HttpRequest → S → Result Exn (Unit {0}) × S
  unfolding http_labels and_then
  record_http_request q s =
      and_then (inc r.http_requests_total (http_labels r q) s)
        (λ _. observe r.http_request_duration_seconds (http_labels r q) q.duration)

  unfoldable pub record_db_query : String → String → ℕ → String → S → Result Exn (Unit {0}) × S
  record_db_query operation table duration tenant_id =
      observe r.db_query_duration_seconds (r.service_name ∷ tenant_id ∷ operation ∷ table ∷ [])
        duration

  unfoldable pub record_cache_operation : String → Bool → String → S → Result Exn (Unit {0}) × S
  record_cache_operation operation hit tenant_id =
      inc r.cache_operations_total (r.service_name ∷ tenant_id ∷ operation ∷ lower_bool hit ∷ [])

  unfoldable pub record_event_published : String → String → String → S → Result Exn (Unit {0}) × S
  record_event_published event_type destination tenant_id =
      inc r.events_published_total (r.service_name ∷ tenant_id ∷ event_type ∷ destination ∷ [])
