-- ===== src/Apisix.antt =====
-- apisix/reconciler.py: the routes that the gateway should have, and the drift check. The client is
-- a parameter: what `get_route` answers.
pub mod Drift
pub mod Reconcile
pub mod Client
use grantora.Prelude.{
  ℕ, suc, String, Bool, true, false, not, Option, none, some, List, [], ◌∷◌, any, length, ◌==◌,
  nat_eq, string_eq, if◌then◌else◌, pos, is_some_of,
}
use grantora.Prelude.Text.{text_leb}
use grantora.Json.{
  Json, num, str, arr, obj, null, Items, nil, cons, Fields, end, field, field?, merge, json_eq,
  fields_in, or_null,
}
use grantora.Config.{Settings}
use grantora.Db.Models.{Db, ApisixRoute, active_status}
use grantora.Db.Queries.Joins.{sort_by}

abbrev pub default_runtime_route_id : String
default_runtime_route_id = "gateway-runtime"

-- `DEFAULT_RUNTIME_ROUTE_URIS`.
abbrev default_runtime_route_uris : Items
default_runtime_route_uris = cons (str "/v1/me") (
    cons (str "/v1/capabilities") (
      cons (str "/v1/capabilities/openapi.json") (
        cons (str "/v1/openapi.json") (
          cons (str "/v1/invoke/*") (
            cons (str "/v1/usage/me")
              (cons (str "/v1/mcp/tools") (cons (str "/v1/mcp/call") nil)))))))

unfoldable pub baseline_plugins : Settings → Fields
baseline_plugins settings = field "prometheus" (obj end) (
    field "request-id" (obj end) (
      field "limit-count"
        (obj (
          field "count" (num (pos settings.apisix_rate_limit_count)) (
            field "time_window" (num (pos settings.apisix_rate_limit_time_window))
              (field "rejected_code" (num (pos 429)) end))))
        end))

abbrev pub default_upstream : Settings → Json
default_upstream settings = obj (
    field "type" (str "roundrobin")
      (field "nodes" (obj (field settings.apisix_runtime_upstream_node (num (pos 1)) end)) end))

-- The object is new: no flush has given it a status.
unfoldable pub default_runtime_route : Settings → ApisixRoute
unfolding baseline_plugins
default_runtime_route settings = record {
  id = default_runtime_route_id;
  name = "Grantora runtime API";
  uri = "/v1/runtime/*";
  upstream = default_upstream settings;
  plugins = baseline_plugins settings;
  status = none;
}

unfoldable pub desired_apisix_routes : Db → Settings → List ApisixRoute
unfolding default_runtime_route sort_by text_leb
desired_apisix_routes db settings =
    let routes = sort_by (λ (r : ApisixRoute) s. text_leb r.id s.id) db.apisix_routes in
    if any (λ r. r.id == default_runtime_route_id) routes
    then routes
    else (default_runtime_route settings ∷ routes)

abbrev pub managed_route_labels : String → Json
managed_route_labels route_id =
    obj (field "grantora_managed" (str "true") (field "grantora_route_id" (str route_id) end))

unfoldable pub build_apisix_route_payload : ApisixRoute → Settings → Fields
unfolding baseline_plugins
build_apisix_route_payload route settings = field "name" (str route.name) (
    field "upstream" route.upstream (
      field "plugins" (obj (merge (baseline_plugins settings) route.plugins)) (
        field "labels" (managed_route_labels route.id) (
          field "status" (num (if is_some_of route.status active_status then pos 1 else pos 0)) (
            if route.id == default_runtime_route_id
            then field "uris" (arr default_runtime_route_uris) end
            else field "uri" (str route.uri) end)))))

-- `current_route.get(key)` of every key of the desired route equals its value.
unfoldable pub route_matches_desired : Fields → Fields → Bool
unfolding json_eq
route_matches_desired current_route end = true
route_matches_desired current_route (field k v fs) =
    if json_eq (or_null (field? k current_route)) v
    then route_matches_desired current_route fs
    else false

-- What the client's `get_route` gives: a route, `None`, or an exception with the code and the message
-- that the handlers of `ApisixAdminAPIError`, and of any other, report.
pub data Reply : Type 0 where
  found : Fields → Reply
  missing : Reply
  raised : String → String → Reply

pub record ApisixRouteDriftResult : Type 0 where
  pub status : String
  pub checked_routes : ℕ
  pub drifted_routes : ℕ
  pub missing_routes : ℕ
  pub error_code : Option String
  pub safe_message : Option String

abbrev drift_result : ℕ → ℕ → ℕ → ApisixRouteDriftResult
drift_result checked drifted missing_count = record {
  status = if drifted == 0 then "in_sync" else "drifted";
  checked_routes = checked;
  drifted_routes = drifted;
  missing_routes = missing_count;
  error_code = none;
  safe_message = none;
}

module _ (settings : Settings) (get_route : String → Reply) (checked : ℕ) where
  -- The loop over the routes, with the counts of the drifted and the missing ones.
  unfoldable pub drift_of : List ApisixRoute → ℕ → ℕ → ApisixRouteDriftResult
  unfolding build_apisix_route_payload route_matches_desired
  drift_of [] drifted missing_count = drift_result checked drifted missing_count
  drift_of (route ∷ routes) drifted missing_count = elim (get_route route.id) [
    | raised code message ↦ record (drift_result checked drifted missing_count) {
      status = "error";
      error_code = some code;
      safe_message = some message;
    }
    | missing ↦ drift_of routes (suc drifted) (suc missing_count)
    | found current_route ↦
        elim (route_matches_desired current_route (build_apisix_route_payload route settings)) [
          | true ↦ drift_of routes drifted missing_count
          | false ↦ drift_of routes (suc drifted) missing_count
        ]
  ]

unfoldable pub check_apisix_route_drift : Db → Settings → (String → Reply) → ApisixRouteDriftResult
unfolding desired_apisix_routes drift_of
check_apisix_route_drift db settings get_route =
    let routes = desired_apisix_routes db settings in
    drift_of settings get_route (length routes) routes 0 0
