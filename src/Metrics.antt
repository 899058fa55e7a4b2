-- ===== src/Metrics.antt =====
-- metrics.py: what each `record_…` function counts, as events in the order in which they happen.
-- The durations that the histograms observe are not modelled.
use grantora.Prelude.{ℕ, String, Option, none, some, List, [], ◌∷◌, ◌++◌}

pub data Metric : Type 0 where
  authorization_denied : ℕ → String → Metric
  upstream_request : ℕ → String → ℕ → Metric
  upstream_error : ℕ → String → String → Metric
  secret_resolution : ℕ → String → String → Metric
  apisix_sync : String → Metric

abbrev request_count : ℕ → String → Option ℕ → List Metric
request_count workspace provider none = []
request_count workspace provider (some status_code) =
    upstream_request workspace provider status_code ∷ []

abbrev error_count : ℕ → String → Option String → List Metric
error_count workspace provider none = []
error_count workspace provider (some error_code) = upstream_error workspace provider error_code ∷ []

-- `record_upstream_result`.
abbrev pub upstream_result : ℕ → String → Option ℕ → Option String → List Metric
upstream_result workspace provider status_code error_code =
    request_count workspace provider status_code ++ error_count workspace provider error_code
