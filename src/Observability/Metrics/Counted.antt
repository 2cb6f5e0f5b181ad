-- ===== src/Observability/Metrics/Counted.antt =====
-- What the counter of the requests counts.
use converse_os.Prelude.{
  ==_refl, ◌&&◌, ℕ, suc, ◌+◌, String, ◌≡◌, refl, List, [], ◌∷◌, Bool, false, ◌==◌, string_eq,
  if◌then◌else◌, Result, ok, raise, arith, length,
}
use converse_os.Domain.Exceptions.{Exn}
use converse_os.Prelude.Decimal.{decimal}
use converse_os.Application.UseCase.{and_then}
use converse_os.Observability.Metrics.{
  Metric, Prometheus, MetricsRegistry, make_registry, HttpRequest, http_labels, record_http_request,
  record_db_query, record_cache_operation, record_event_published,
}

-- a call of one of the four methods
pub data Measurement : Type 0 where
  http : HttpRequest → Measurement
  db_query : String → String → ℕ → String → Measurement
  cache_operation : String → Bool → String → Measurement
  event_published : String → String → String → Measurement

-- the names of the labels of the counter of the requests
abbrev pub label_names : List String
label_names = "service" ∷ "tenant_id" ∷ "endpoint" ∷ "method" ∷ "status" ∷ []

-- what the labels but the service's name are asked to be
pub record Key : Type 0 where
  pub tenant_id : String
  pub endpoint : String
  pub method : String
  pub status : String

-- their values, in the order of the names
abbrev pub label_values : String → Key → List String
label_values service key = service ∷ key.tenant_id ∷ key.endpoint ∷ key.method ∷ key.status ∷ []

abbrev pub has_key : Key → HttpRequest → Bool
has_key key q =
    q.tenant_id == key.tenant_id
    && (q.endpoint == key.endpoint && (q.method == key.method && decimal q.status == key.status))

-- the number of the requests among the measurements that have this tenant, endpoint, method and
-- status
abbrev pub matching : Key → List Measurement → ℕ
matching key [] = 0
matching key (http q ∷ ms) = let rest = matching key ms in if has_key key q then suc rest else rest
matching key (_ ∷ ms) = matching key ms

matching_split :
    (key : Key) (m : Measurement) (ms : List Measurement)
    → matching key (m ∷ ms) ≡ matching key (m ∷ []) + matching key ms
matching_split key (http q) ms = ground arith
matching_split key (db_query operation table d tenant) ms = omega arith
matching_split key (cache_operation operation hit tenant) ms = omega arith
matching_split key (event_published event_type destination tenant) ms = omega arith

module _ (prometheus : Prometheus) where
  open prometheus use {S, count}

  abbrev pub measure : MetricsRegistry → Measurement → S → Result Exn (Unit {0}) × S
  measure r (http q) = record_http_request prometheus r q
  measure r (db_query operation table d tenant) =
      record_db_query prometheus r operation table d tenant
  measure r (cache_operation operation hit tenant) =
      record_cache_operation prometheus r operation hit tenant
  measure r (event_published event_type destination tenant) =
      record_event_published prometheus r event_type destination tenant

  abbrev pub measure_all : MetricsRegistry → List Measurement → S → Result Exn (Unit {0}) × S
  measure_all r [] s = (ok tt, s)
  measure_all r (m ∷ ms) s = and_then (measure r m s) (λ _. measure_all r ms)

  -- an increment of a counter with another name
  other_counter :
      (m : Metric) (values labels key : List String) (s : S)
      → length values ≡ length m.labels
      → (m.name == "http_requests_total") ≡ false
      → ((prometheus.inc m values s).0 ≡ ok tt)
        × (count (prometheus.inc m values s).1 "http_requests_total" labels key
            ≡ count s "http_requests_total" labels key + 0)
  other_counter m values labels key s fits differs = (
    prometheus.inc-ok m values s fits,
    ground (arith, prometheus.count-inc m values s "http_requests_total" labels key fits),
  )

  step_counts :
      (service : String) (key : Key) (m : Measurement) (s : S)
      → let r = make_registry service in
        ((measure r m s).0 ≡ ok tt)
        × (count (measure r m s).1 "http_requests_total" label_names (label_values service key)
            ≡ count s "http_requests_total" label_names (label_values service key)
              + matching key (m ∷ []))
  unfolding make_registry record_http_request record_db_query record_cache_operation
      record_event_published and_then http_labels
  step_counts service key (http q) s =
      let r = make_registry service in
      ground (
        arith,
        prometheus.inc-ok r.http_requests_total (http_labels r q) s refl,
        prometheus.observe-ok r.http_request_duration_seconds (http_labels r q) q.duration
            (prometheus.inc r.http_requests_total (http_labels r q) s).1 refl,
        prometheus.count-observe r.http_request_duration_seconds (http_labels r q) q.duration
            (prometheus.inc r.http_requests_total (http_labels r q) s).1 "http_requests_total"
            label_names (label_values service key),
        ==_refl service,
        prometheus.count-inc r.http_requests_total (http_labels r q) s "http_requests_total"
            label_names (label_values service key) refl,
      )
  step_counts service key (db_query operation table d tenant) s =
      let r = make_registry service in
      let values = service ∷ tenant ∷ operation ∷ table ∷ [] in
      (
        prometheus.observe-ok r.db_query_duration_seconds values d s refl,
        omega (
          arith,
          prometheus.count-observe r.db_query_duration_seconds values d s "http_requests_total"
              label_names (label_values service key),
        ),
      )
  step_counts service key (cache_operation operation hit tenant) s =
      other_counter (make_registry service).cache_operations_total _ label_names
        (label_values service key) s refl refl
  step_counts service key (event_published event_type destination tenant) s =
      other_counter (make_registry service).events_published_total _ label_names
        (label_values service key) s refl refl

  measure_all_from :
      (r : Result Exn (Unit {0})) (s : S) (rest : Unit → S → Result Exn (Unit {0}) × S)
      → r ≡ ok tt
      → and_then (r, s) rest ≡ rest tt s
  unfolding and_then
  measure_all_from (ok tt) s rest h = refl
  measure_all_from (raise e) s rest h = cc

  -- After any calls of the registry's methods none has raised, and the counter http_requests_total
  -- with the labels service, tenant_id, endpoint, method and status has grown, for the service's name
  -- and any values of the others, by the number of requests among the calls that have this tenant,
  -- endpoint, method and status.
  pub measure_all-count :
      (service : String) (key : Key) (ms : List Measurement) (s : S)
      → let r = make_registry service in
        ((measure_all r ms s).0 ≡ ok tt)
        × (count (measure_all r ms s).1 "http_requests_total" label_names (label_values service key)
            ≡ count s "http_requests_total" label_names (label_values service key)
              + matching key ms)
  measure_all-count service key [] s = (refl, omega arith)
  measure_all-count service key (m ∷ ms) s =
      let r = make_registry service in
      let (returned, counted) = step_counts service key m s in
      let (all_returned, all_counted) = measure_all-count service key ms (measure r m s).1 in
      rw (measure_all_from (measure r m s).0 (measure r m s).1 (λ _. measure_all r ms) returned)
        (all_returned, omega (arith, all_counted, counted, matching_split key m ms))
