-- ===== src/Infrastructure/Health/Aggregate.antt =====
-- How the results of the checks make the result of the service.
use converse_os.Prelude.{
  ℕ, String, ◌≡◌, refl, sym, ap, ◌∙◌, List, [], ◌∷◌, ◌++◌, map, Bool, true, false, ◌&&◌, Result, ok,
  raise, arith,
}
use mathlib.Core.List.{append-nil, append_assoc}
use converse_os.Prelude.Dict.{Dict}
use converse_os.Infrastructure.Health.{
  HealthStatus, healthy, ComponentHealthResult, HealthCheckFn, HealthCheckRegistry, Runtime,
  component, status_after, run_checks, check_all, is_healthy, check_readiness,
}

-- the results of a list of checks, each run in the state that the ones before it leave
abbrev pub outcomes :
    {E S : Type 0} → Runtime E S → Dict String (HealthCheckFn E S) → S → List (Result E Bool)
outcomes runtime [] s = []
outcomes runtime ((name, check_fn) ∷ rest) s =
    let (start, s1) = runtime.monotonic s in
    let (result, s2) = check_fn s1 in
    let (stop, s3) = runtime.monotonic s2 in result ∷ outcomes runtime rest s3

-- whether a check returned true
abbrev pub passed : {E : Type 0} → Result E Bool → Bool
passed (ok b) = b
passed (raise e) = false

abbrev pub all_passed : {E : Type 0} → List (Result E Bool) → Bool
all_passed [] = true
all_passed (r ∷ rs) = passed r && all_passed rs

and_false : (b : Bool) → false ≡ (b && false)
and_false true = refl
and_false false = refl

status_after-passed :
    {E S : Type 0} (runtime : Runtime E S) (h : HealthStatus) (r : Result E Bool) (b : Bool)
    → (is_healthy (status_after runtime h r) && b) ≡ (is_healthy h && (passed r && b))
unfolding status_after is_healthy
status_after-passed runtime h (ok true) b = refl
status_after-passed runtime h (ok false) b = and_false (is_healthy h)
status_after-passed runtime h (raise e) b = and_false (is_healthy h)

append-cons :
    {A : Type 0} (xs : List A) (a : A) (ys : List A) → (xs ++ (a ∷ [])) ++ ys ≡ xs ++ (a ∷ ys)
append-cons xs a ys = append_assoc xs (a ∷ []) ys

names_append :
    (cs : List ComponentHealthResult) (c : ComponentHealthResult)
    → map (λ d. d.name) (cs ++ (c ∷ [])) ≡ map (λ d. d.name) cs ++ (c.name ∷ [])
names_append [] c = refl
names_append (d ∷ cs) c = ap (λ ns. d.name ∷ ns) (names_append cs c)

component-name :
    {E S : Type 0} (runtime : Runtime E S) (n : String) (t : ℕ) (r : Result E Bool)
    → (component runtime n t r).name ≡ n
unfolding component
component-name runtime n t (ok b) = refl
component-name runtime n t (raise e) = refl

module _ {E S : Type 0} (runtime : Runtime E S) where
  run_checks-status :
      (checks : Dict String (HealthCheckFn E S)) (cs : List ComponentHealthResult)
      (h : HealthStatus) (s : S)
      → is_healthy (run_checks runtime checks cs h s).0.1
        ≡ (is_healthy h && all_passed (outcomes runtime checks s))
  unfolding run_checks status_after is_healthy
  run_checks-status [] cs h s = ground arith
  run_checks-status ((name, check_fn) ∷ rest) cs h s =
      run_checks-status rest _ _ _ ∙ status_after-passed runtime h _ _

  run_checks-names :
      (checks : Dict String (HealthCheckFn E S)) (cs : List ComponentHealthResult)
      (h : HealthStatus) (s : S)
      → map (λ c. c.name) (run_checks runtime checks cs h s).0.0
        ≡ map (λ c. c.name) cs ++ map (λ c. c.0) checks
  unfolding run_checks component
  run_checks-names [] cs h s = sym (append-nil _)
  run_checks-names ((name, check_fn) ∷ rest) cs h s =
      run_checks-names rest _ _ _
      ∙ ap (λ ns. ns ++ map (λ c. c.0) rest) (names_append cs _)
      ∙ append-cons (map (λ d. d.name) cs) _ _
      ∙ ap (λ n. map (λ d. d.name) cs ++ (n ∷ map (λ c. c.0) rest))
          (component-name runtime name _ _)

  -- The report of a service is healthy exactly when every registered check, run in the state that the
  -- ones before it leave, returns true, and this is what the readiness probe returns. A check that
  -- fails or raises does not stop the others: the report has one component for each check, by its
  -- name and in the order of registration.
  pub check_all_complete :
      (r : HealthCheckRegistry E S) (s : S)
      → let report = (check_all runtime r s).0 in
        (is_healthy report.status ≡ all_passed (outcomes runtime r.checks s))
        × ((check_readiness runtime r s).0 ≡ all_passed (outcomes runtime r.checks s))
        × (map (λ c. c.name) report.components ≡ map (λ c. c.0) r.checks)
  unfolding check_all check_readiness
  check_all_complete r s =
      let status = run_checks-status r.checks [] healthy s in
      (status, status, run_checks-names r.checks [] healthy s)
