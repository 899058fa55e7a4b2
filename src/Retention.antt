-- ===== src/Retention.antt =====
-- retention.py: the purge of old audit and usage events. A moment is the number of microseconds
-- since the first one that `datetime` can hold.
pub mod Purge
use grantora.Prelude.{
  ℕ, ◌-◌, ◌*◌, Bool, true, false, ◌||◌, not, Option, none, some, List, length, filter, ltb, ◌==◌,
  nat_eq, if◌then◌else◌,
}
use grantora.Config.{Settings}
use grantora.Db.Models.{Db, AuditEvent, UsageEvent}

abbrev pub microseconds_per_day : ℕ
microseconds_per_day = 86400 * 1000000

pub record RetentionResult : Type 0 where
  pub audit_deleted : ℕ
  pub usage_deleted : ℕ
  pub audit_cutoff : ℕ
  pub usage_cutoff : ℕ
  pub dry_run : Bool

-- `now - timedelta(days=days)`; `none` where `datetime` raises `OverflowError`.
unfoldable pub days_before : ℕ → ℕ → Option ℕ
days_before now days =
    if ltb now (days * microseconds_per_day) then none else some (now - days * microseconds_per_day)

-- `_prune_model`: the number of the matches, and the table that is left.
unfoldable pub prune_model {ℓ} :
    {A : Type ℓ} → (timestamp : A → ℕ) (cutoff : ℕ) (dry_run : Bool) → List A → ℕ × List A
prune_model timestamp cutoff dry_run rows =
    let matches = length (filter (λ r. ltb (timestamp r) cutoff) rows) in
    if matches == 0 || dry_run
    then (matches, rows)
    else (matches, filter (λ r. not (ltb (timestamp r) cutoff)) rows)

-- `purge_expired_events` between two cutoffs.
abbrev purge_between : ℕ → ℕ → Bool → Db → RetentionResult × Db
purge_between audit_cutoff usage_cutoff dry_run db =
    let (audit_deleted, audit_left) =
      prune_model (λ (e : AuditEvent). e.timestamp) audit_cutoff dry_run db.audit_events in
    let (usage_deleted, usage_left) =
      prune_model (λ (e : UsageEvent). e.timestamp) usage_cutoff dry_run db.usage_events in
    (
      record {
        audit_deleted = audit_deleted;
        usage_deleted = usage_deleted;
        audit_cutoff = audit_cutoff;
        usage_cutoff = usage_cutoff;
        dry_run = dry_run;
      },
      record db { audit_events = audit_left; usage_events = usage_left },
    )

-- `purge_expired_events`; `now` is `reference_time or utc_now()`. `none` where it raises, which is
-- before it reads a row.
unfoldable pub purge_expired_events : Settings → ℕ → Bool → Db → Option (RetentionResult × Db)
purge_expired_events settings now dry_run db =
    elim (days_before now settings.audit_retention_days) [
      | none ↦ none
      | some audit_cutoff ↦ elim (days_before now settings.usage_retention_days) [
        | none ↦ none
        | some usage_cutoff ↦ some (purge_between audit_cutoff usage_cutoff dry_run db)
      ]
    ]
