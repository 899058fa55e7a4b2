-- ===== src/Tests/Retention.antt =====
-- Runs and witnesses for retention.py.
use grantora.Prelude.{ℕ, ◌*◌, arith, none, some, ◌≡◌, refl, [], ◌∷◌, true, false}
use grantora.Db.Models.{Db, AuditEvent}
use grantora.Retention.{
  RetentionResult, days_before, prune_model, purge_expired_events, microseconds_per_day,
}
use grantora.Retention.Purge.{IsPurged, purge-IsPurged, purge-dry}
use grantora.Tests.Fixture.{settings, small_db}

abbrev seen_at : ℕ → AuditEvent
seen_at timestamp = record {
  id = 1;
  timestamp = timestamp;
  request_id = "req_1";
  actor_type = "agent";
  workspace_id = some 1;
  agent_id = some 3;
  user_id = none;
  capability_id = none;
  application_instance_id = none;
  decision = "deny";
  outcome = "error";
  error_code = none;
  latency_ms = 0;
  remote_addr = none;
}

-- One event of day 1 and one of day 400; it is day 500.
abbrev old_and_new : Db
old_and_new = record small_db {
  audit_events = seen_at microseconds_per_day ∷ seen_at (400 * microseconds_per_day) ∷ [];
}

abbrev now : ℕ
now = 500 * microseconds_per_day

abbrev report : RetentionResult
report = record {
  audit_deleted = 1;
  usage_deleted = 0;
  audit_cutoff = 135 * microseconds_per_day;
  usage_cutoff = 135 * microseconds_per_day;
  dry_run = false;
}

purged :
    purge_expired_events settings now false old_and_new
    ≡ some (report, record old_and_new { audit_events = seen_at (400 * microseconds_per_day) ∷ [] })
unfolding purge_expired_events days_before prune_model
purged = refl

purge-IsPurged_example :
    (result : RetentionResult) × (db' : Db) × (purge_expired_events settings now false old_and_new
      ≡ some (result, db'))
    × IsPurged settings now old_and_new result db'
purge-IsPurged_example = purge-IsPurged settings now old_and_new (omega arith) (omega arith)

purge-dry_example :
    purge_expired_events settings now true old_and_new
    ≡ some (record report { dry_run = true }, old_and_new)
purge-dry_example = purge-dry settings now old_and_new purged
