-- ===== src/Observability/Metrics/Tests.antt =====
-- Counters in memory, and the theorem on measurements of two requests and a query.
use converse_os.Prelude.{
  ◌&&◌, ℕ, suc, ◌+◌, String, ◌≡◌, refl, none, some, List, [], ◌∷◌, ◌==◌, string_eq, list_eq,
  if◌then◌else◌, ok, true,
}
use converse_os.Observability.Metrics.{Prometheus, make_registry, get_metrics_registry, HttpRequest}
use converse_os.Observability.Metrics.Counted.{
  Measurement, http, db_query, cache_operation, Key, label_names, label_values, matching,
  measure_all, measure_all-count,
}

abbrev counted : List (String × List String × List String) → String → List String → List String → ℕ
counted [] name labels key = 0
counted ((n, ls, values) ∷ s) name labels key =
    let rest = counted s name labels key in
    if n == name && (list_eq.equal ls labels && list_eq.equal values key) then suc rest else rest

-- every increment is kept
abbrev in_memory : Prometheus
in_memory = record {
  S = List (String × List String × List String);
  inc = λ m values s. (ok tt, (m.name, m.labels, values) ∷ s);
  observe = λ m values d s. (ok tt, s);
  count = counted;
  inc-ok = λ m values s h. refl;
  observe-ok = λ m values d s h. refl;
  count-inc = λ m values s name labels key h. refl;
  count-observe = λ m values d s name labels key. refl;
}

abbrev request : HttpRequest
request = record {
  endpoint = "/api/v1/users";
  method = "GET";
  status = 200;
  duration = 5;
  tenant_id = "none";
}

abbrev measurements : List Measurement
measurements =
    http request
    ∷ db_query "select" "users" 3 "none"
    ∷ http (record request { status = 500 })
    ∷ cache_operation "get" true "none"
    ∷ []

abbrev key : Key
key = record { tenant_id = "none"; endpoint = "/api/v1/users"; method = "GET"; status = "200" }

measure_all-count_example :
    let r = make_registry "users" in
    ((measure_all in_memory r measurements []).0 ≡ ok tt)
    × (counted
          (measure_all in_memory r measurements []).1
          "http_requests_total"
          label_names
          (label_values "users" key)
        ≡ 0 + matching key measurements)
measure_all-count_example = measure_all-count in_memory "users" key measurements []

-- the first name stays
registry_run :
    let (first, process) = get_metrics_registry none none in
    (get_metrics_registry (some "users") process).0.service_name ≡ "unknown"
unfolding get_metrics_registry make_registry
registry_run = refl
