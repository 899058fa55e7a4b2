-- ===== src/Apisix/Reconcile.antt =====
-- `reconcile_apisix_routes` of apisix/reconciler.py. The client is a parameter that works on a state of
-- the gateway; an exception of a call is an `ApiError` with the code and the message that the
-- handlers report.
pub mod Puts
pub mod Deletes
pub mod Recorded
pub mod Converges
use grantora.Prelude.{
  ℕ, suc, String, Bool, true, false, not, ◌&&◌, Option, none, some, List, [], ◌∷◌, ◌++◌, any, map,
  find?, length, ◌==◌, nat_eq, string_eq, if◌then◌else◌,
}
use grantora.Prelude.Text.{text_leb}
use grantora.Errors.{ApiError, Result, ok, err, Exec, pure, modify, when, ◌>>=◌, ◌>>◌}
use grantora.Json.{Json, obj, Fields, get?, field?, is_str, or_null}
use grantora.Config.{Settings}
use grantora.Db.Models.{Db, ApisixRoute, ApisixSyncStatus, active_status}
use grantora.Db.Queries.Joins.{sort_by}
use grantora.Metrics.{Metric, apisix_sync}
use grantora.Admin.{Session, rollback}
use grantora.Apisix.{
  default_runtime_route, default_runtime_route_id, route_matches_desired,
  build_apisix_route_payload,
}

-- `ApisixRouteClient`.
pub record ApisixClient (G : Type 0) : Type 0 where
  pub get_route : String → Exec G (Option Fields)
  pub list_routes : Exec G (List (String × Fields))
  pub put_route : String → Fields → Exec G Fields
  pub delete_route : String → Exec G Bool

pub record ApisixSyncResult : Type 0 where
  pub status : String
  pub checked_routes : ℕ
  pub changed_routes : ℕ
  pub error_code : Option String
  pub safe_message : Option String

unfoldable pub route_is_grantora_managed : Fields → Bool
route_is_grantora_managed route =
    is_str "true" (get? "grantora_managed" (or_null (field? "labels" route)))

-- `ensure_default_runtime_route`: the flush gives the new row its status.
abbrev add_default : Settings → Db → Db
add_default settings db = record db {
  apisix_routes =
      db.apisix_routes
      ++ record (default_runtime_route settings) { status = some active_status } ∷ [];
}

unfoldable pub ensure_default_runtime_route : Settings → Db → Db
unfolding default_runtime_route
ensure_default_runtime_route settings db =
    if any (λ (r : ApisixRoute). r.id == default_runtime_route_id) db.apisix_routes
    then db
    else add_default settings db

-- The rows, by their ids.
unfoldable pub ordered_routes : Db → List ApisixRoute
unfolding sort_by text_leb
ordered_routes db = sort_by (λ (r : ApisixRoute) s. text_leb r.id s.id) db.apisix_routes

-- `id in desired_route_ids`.
abbrev pub has_id : String → List ApisixRoute → Bool
has_id k [] = false
has_id k (r ∷ rs) = if r.id == k then true else has_id k rs

-- What the handlers see of the routes so far.
pub record Progress (G : Type 0) : Type 0 where
  pub gateway : G
  pub changed : ℕ

module _ {G : Type 0} where
  -- A call of the client.
  unfoldable pub on_gateway : {A : Type 0} → Exec G A → Exec (Progress G) A
  on_gateway m p = let (r, g) = m p.gateway in (r, record p { gateway = g })

  abbrev pub count_change : Progress G → Progress G
  count_change p = record p { changed = suc p.changed }

module _ {G : Type 0} (settings : Settings) (client : ApisixClient G) where
  -- `_load_current_routes`.
  unfoldable pub load_current_routes :
      List ApisixRoute → Exec (Progress G) (List (String × Option Fields))
  unfolding ◌>>=◌ on_gateway
  load_current_routes [] = pure []
  load_current_routes (route ∷ later) = do
    current ← on_gateway (client.get_route route.id)
    rest ← load_current_routes later
    pure ((route.id, current) ∷ rest)

  -- `current_routes[route_id]`, of a route that has been loaded.
  unfoldable pub loaded : List (String × Option Fields) → String → Option Fields
  loaded [] route_id = none
  loaded ((k, current) ∷ later) route_id =
      let rest = loaded later route_id in if k == route_id then current else rest

  abbrev pub matches : ApisixRoute → Option Fields → Bool
  matches route none = false
  matches route (some current) =
      route_matches_desired current (build_apisix_route_payload route settings)

  -- The put of a route that is missing or differs.
  abbrev pub put_desired : ApisixRoute → Exec (Progress G) (Unit {0})
  put_desired route =
      on_gateway (client.put_route route.id (build_apisix_route_payload route settings))
      >>= (λ (stored : Fields). modify count_change)

  unfoldable pub put_if_needed : ApisixRoute → Option Fields → Exec (Progress G) (Unit {0})
  unfolding ◌>>=◌ on_gateway build_apisix_route_payload
  put_if_needed route current = if matches route current then pure tt else put_desired route

  -- The loop over the routes; `current` is how it gets what the gateway has.
  unfoldable pub put_routes :
      (ApisixRoute → Exec (Progress G) (Option Fields))
      → List ApisixRoute
      → Exec (Progress G) (Unit {0})
  unfolding ◌>>=◌ put_if_needed
  put_routes current [] = pure tt
  put_routes current (route ∷ later) = do
    found ← current route
    put_if_needed route found
    put_routes current later

  -- The deletion of a managed route that is not desired.
  abbrev pub count_if : Bool → Exec (Progress G) (Unit {0})
  count_if deleted = when deleted (modify count_change)

  abbrev pub delete_one : String → Exec (Progress G) (Unit {0})
  delete_one route_id = on_gateway (client.delete_route route_id) >>= count_if

  unfoldable pub delete_if_stray : List ApisixRoute → String → Fields → Exec (Progress G) (Unit {0})
  unfolding ◌>>=◌ on_gateway route_is_grantora_managed
  delete_if_stray routes route_id current =
      if not (has_id route_id routes) && route_is_grantora_managed current
      then delete_one route_id
      else pure tt

  unfoldable pub delete_strays :
      List ApisixRoute → List (String × Fields) → Exec (Progress G) (Unit {0})
  unfolding ◌>>=◌ delete_if_stray
  delete_strays routes [] = pure tt
  delete_strays routes ((route_id, current) ∷ later) = do
    delete_if_stray routes route_id current
    delete_strays routes later

  -- The body of the `try`: with `apisix_fail_closed`, everything is read before anything is written.
  unfoldable pub sync_fail_closed : List ApisixRoute → Exec (Progress G) (Unit {0})
  unfolding ◌>>=◌ on_gateway load_current_routes loaded put_routes delete_strays
  sync_fail_closed routes = do
    current_routes ← load_current_routes routes
    managed_routes ← on_gateway client.list_routes
    put_routes (λ r. pure (loaded current_routes r.id)) routes
    delete_strays routes managed_routes

  unfoldable pub sync_in_turn : List ApisixRoute → Exec (Progress G) (Unit {0})
  unfolding ◌>>=◌ on_gateway put_routes delete_strays
  sync_in_turn routes = do
    put_routes (λ r. on_gateway (client.get_route r.id)) routes
    managed_routes ← on_gateway client.list_routes
    delete_strays routes managed_routes

  unfoldable pub sync_routes : List ApisixRoute → Exec (Progress G) (Unit {0})
  unfolding sync_fail_closed sync_in_turn
  sync_routes routes =
      if settings.apisix_fail_closed then sync_fail_closed routes else sync_in_turn routes

  -- The result, and the transaction after it: an error rolls back.
  unfoldable pub result_of : ℕ → Result (Unit {0}) → ℕ → ApisixSyncResult
  result_of checked (ok _) changed = record {
    status = "ok";
    checked_routes = checked;
    changed_routes = changed;
    error_code = none;
    safe_message = none;
  }
  result_of checked (err e) changed = record {
    status = "error";
    checked_routes = checked;
    changed_routes = changed;
    error_code = some e.code;
    safe_message = some e.message;
  }

  abbrev pub after_sync : Result (Unit {0}) → Session → Session
  after_sync (ok _) s = s
  after_sync (err e) s = rollback s

  abbrev pub status_row : ApisixSyncResult → ℕ → ℕ → ApisixSyncStatus
  status_row result started_at finished_at = record {
    id = "default";
    status = result.status;
    last_started_at = started_at;
    last_finished_at = finished_at;
    checked_routes = result.checked_routes;
    changed_routes = result.changed_routes;
    error_code = result.error_code;
    safe_message = result.safe_message;
  }

  -- `record_apisix_sync_status`: the one row is written over, or added.
  unfoldable pub put_status : ApisixSyncStatus → List ApisixSyncStatus → List ApisixSyncStatus
  put_status row [] = row ∷ []
  put_status row (s ∷ later) =
      let rest = put_status row later in if s.id == row.id then row ∷ later else s ∷ rest

  -- What a reconciliation leaves: its result, the session, the gateway and what is counted.
  pub record Reconciled : Type 0 where
    pub result : ApisixSyncResult
    pub session : Session
    pub gateway : G
    pub metric : Metric

  abbrev save : ApisixSyncStatus → Session → Session
  save row s =
      let db = record s.db { apisix_sync_status = put_status row s.db.apisix_sync_status } in
      record { db = db; committed = db }

  unfoldable pub reconcile_apisix_routes : ℕ → ℕ → Session → G → Reconciled
  unfolding ensure_default_runtime_route ordered_routes sync_routes result_of put_status
  reconcile_apisix_routes started_at finished_at s g =
      let ensured = ensure_default_runtime_route settings s.db in
      let routes = ordered_routes ensured in
      let (outcome, p) = sync_routes routes (record { gateway = g; changed = 0 }) in
      let result = result_of (length routes) outcome p.changed in
      let after = after_sync outcome (record { db = ensured; committed = ensured }) in
      record {
        result = result;
        session = save (status_row result started_at finished_at) after;
        gateway = p.gateway;
        metric = apisix_sync result.status;
      }
