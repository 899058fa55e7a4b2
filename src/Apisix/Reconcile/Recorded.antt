-- ===== src/Apisix/Reconcile/Recorded.antt =====
-- What a reconciliation leaves in the database, however it ends.
use grantora.Prelude.{
  ℕ, String, ◌≡◌, refl, some, List, [], ◌∷◌, find?, arith, ◌==◌, eq_iff, string_eq, inl, inr, ◌⊎◌,
}
use grantora.Errors.{Result, ok, err}
use grantora.Config.{Settings}
use grantora.Db.Models.{Db, ApisixSyncStatus}
use grantora.Admin.{Session}
use grantora.Metrics.{apisix_sync}
use grantora.Apisix.Reconcile.{
  ApisixClient, Reconciled, ensure_default_runtime_route, put_status, status_row, result_of,
  reconcile_apisix_routes, sync_routes, ordered_routes, after_sync,
}

module _ {G : Type 0} (settings : Settings) (client : ApisixClient G) where
  find?-put_status :
      (row : ApisixSyncStatus) (rows : List ApisixSyncStatus)
      → find? (λ (s : ApisixSyncStatus). s.id == row.id) (put_status settings client row rows)
        ≡ some row
  unfolding put_status
  find?-put_status row [] = ground (arith, eq_iff row.id row.id)
  find?-put_status row (s ∷ later) =
      ground (arith, find?-put_status row later, eq_iff row.id row.id)

  -- The session at the end: nothing is left uncommitted, the row of the status says what the result
  -- says, the routes are those of the start with the default route, and the metric has the status.
  pub record IsRecorded (started_at finished_at : ℕ) (s : Session) (r : Reconciled settings client)
      : Type 0 where
    pub committed : r.session.db ≡ r.session.committed
    pub status :
        find? (λ (t : ApisixSyncStatus). t.id == "default") r.session.committed.apisix_sync_status
        ≡ some (status_row settings client r.result started_at finished_at)
    pub routes :
        r.session.committed.apisix_routes
        ≡ (ensure_default_runtime_route settings s.db).apisix_routes
    pub metric : r.metric ≡ apisix_sync r.result.status
    pub outcome :
        (r.result.status ≡ "ok")
        ⊎ ((r.result.status ≡ "error") × (code : String) × (r.result.error_code ≡ some code))

  outcome_of :
      (checked changed : ℕ) (o : Result (Unit {0}))
      → let r = result_of settings client checked o changed in
        (r.status ≡ "ok") ⊎ ((r.status ≡ "error") × (code : String) × (r.error_code ≡ some code))
  unfolding result_of
  outcome_of checked changed (ok _) = inl refl
  outcome_of checked changed (err e) = inr (refl, e.code, refl)

  -- The rollback after an error finds what was committed before.
  same_after :
      (db : Db) (o : Result (Unit {0}))
      → (after_sync settings client o (record { db = db; committed = db })).db ≡ db
  same_after db (ok _) = refl
  same_after db (err e) = refl

  -- Every reconciliation, whether it succeeds or an exception of the client ends it, commits one row
  -- with the status, the times, the counts and the error of its result, keeps the routes of the
  -- database with the default route that it has added where it was missing, counts its status, and
  -- reports "ok", or "error" with a code.
  pub reconcile-IsRecorded :
      (started_at finished_at : ℕ) (s : Session) (g : G)
      → IsRecorded started_at finished_at s
          (reconcile_apisix_routes settings client started_at finished_at s g)
  unfolding reconcile_apisix_routes
  reconcile-IsRecorded started_at finished_at s g =
      let ensured = ensure_default_runtime_route settings s.db in
      let (o, p) =
        sync_routes settings client (ordered_routes ensured)
          (record { gateway = g; changed = 0 }) in
      let after = after_sync settings client o (record { db = ensured; committed = ensured }) in
      record {
        committed = refl;
        status = find?-put_status _ after.db.apisix_sync_status;
        routes = rw (same_after ensured o) refl;
        metric = refl;
        outcome = outcome_of _ _ _;
      }
