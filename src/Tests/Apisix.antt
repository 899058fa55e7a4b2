-- ===== src/Tests/Apisix.antt =====
-- Runs and witnesses for apisix/reconciler.py: a gateway without routes.
use grantora.Prelude.{String, ◌≡◌, refl, ◌↔◌, some, none, pos}
use grantora.Json.{num, field?}
use grantora.Apisix.{
  Reply, missing, desired_apisix_routes, check_apisix_route_drift, default_runtime_route,
  build_apisix_route_payload,
}
use grantora.Apisix.Drift.{AllInSync, in_sync_iff}
use grantora.Tests.Fixture.{small_db, settings}

abbrev no_routes : String → Reply
no_routes route_id = missing

in_sync_iff_example :
    ((check_apisix_route_drift small_db settings no_routes).status ≡ "in_sync")
    ↔ AllInSync settings no_routes (desired_apisix_routes small_db settings)
in_sync_iff_example = in_sync_iff small_db settings no_routes

one_missing : check_apisix_route_drift small_db settings no_routes ≡ record {
  status = "drifted";
  checked_routes = 1;
  drifted_routes = 1;
  missing_routes = 1;
  error_code = none;
  safe_message = none;
}
unfolding check_apisix_route_drift
one_missing = refl

-- The default route has no status before its flush, and so is desired as disabled.
default_is_disabled :
    field? "status" (build_apisix_route_payload (default_runtime_route settings) settings)
    ≡ some (num (pos 0))
unfolding build_apisix_route_payload default_runtime_route
default_is_disabled = refl
