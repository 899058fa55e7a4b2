-- ===== src/Apisix/Client/Sync.antt =====
-- A reconciliation of apisix/reconciler.py with the client of apisix/client.py.
use grantora.Prelude.{ℕ, String, ◌≡◌, true, Option, some, List, Memᴰ, string_eq}
use grantora.Json.{Fields}
use grantora.Config.{Settings}
use grantora.Db.Models.{ApisixRoute}
use grantora.Admin.{Session}
use grantora.Adapters.Http.{Sent}
use grantora.Apisix.{route_matches_desired, build_apisix_route_payload}
use grantora.Apisix.Reconcile.{
  Reconciled, ordered_routes, ensure_default_runtime_route, reconcile_apisix_routes,
  route_is_grantora_managed, has_id,
}
use grantora.Apisix.Reconcile.Puts.{distinct_ids}
use grantora.Apisix.Reconcile.Converges.{reconcile-IsReconciled}
use grantora.Apisix.Client.{AdminCall, admin_client}
use grantora.Apisix.Client.Api.{IsAdminApi}
use grantora.Apisix.Client.Calls.{client-IsGateway}

module _ {G : Type 0} (request : AdminCall → G → Sent × G) (route_at : String → G → Option Fields)
    (api : IsAdminApi request route_at) (settings : Settings) (started_at finished_at : ℕ)
    (s : Session) (g : G) where
  abbrev pub outcome : Reconciled settings (admin_client request)
  outcome = reconcile_apisix_routes settings (admin_client request) started_at finished_at s g

  abbrev pub database_routes : List ApisixRoute
  database_routes = ordered_routes (ensure_default_runtime_route settings s.db)

  -- What a reconciliation aims at: every route of the database is on the gateway, with each field of
  -- its payload as it should be, and every route that is marked as managed is one of the database.
  pub record IsInLine : Type 0 where
    pub desired :
        (r : ApisixRoute)
        → Memᴰ r database_routes
        → (current : Fields) × (route_at r.id outcome.gateway ≡ some current)
          × (route_matches_desired current (build_apisix_route_payload r settings) ≡ true)
    pub no_stray :
        (k : String) (c : Fields)
        → route_at k outcome.gateway ≡ some c
        → route_is_grantora_managed c ≡ true
        → has_id k database_routes ≡ true

  -- A reconciliation that reports "ok" has brought the gateway in line with the database, whether it
  -- reads everything first or in turn: every route of the database, with the default route that it
  -- has added where it was missing, is on the gateway with every field as it should be, and every
  -- route on the gateway that is marked as managed by Grantora is one of them. It is assumed that the
  -- gateway answers as the APISIX Admin API is documented to, in particular never a PUT with 404, that
  -- nobody else changes it in between, that no two routes have the same id, and that the payloads have
  -- no key twice, so that each equals itself.
  pub sync-IsInLine :
      ((r : ApisixRoute)
        → Memᴰ r database_routes
        → let payload = build_apisix_route_payload r settings in
          route_matches_desired payload payload ≡ true)
      → distinct_ids database_routes ≡ true
      → outcome.result.status ≡ "ok"
      → IsInLine
  sync-IsInLine plain distinct ok_ =
      let done =
        reconcile-IsReconciled (admin_client request) route_at
          (client-IsGateway request route_at api) settings started_at finished_at s g plain distinct
          ok_ in
      record { desired = done.desired; no_stray = done.no_stray }
