-- ===== src/Retention/Purge.antt =====
-- Which events a purge (retention.py) keeps, and what it reports.
use grantora.Prelude.{
  ℕ, ◌+◌, ◌-◌, ◌*◌, ◌≤◌, ◌≡◌, refl, ap, ◌↔◌, inl, inr, Bool, true, false, not, none, some, List, [],
  ◌∷◌, length, filter, filter-mem, mem-filter, ltb, arith, Memᴰ, Bool-cases, Option-cases, ◌==◌,
  nat_eq,
}
use grantora.Config.{Settings}
use grantora.Db.Models.{Db, AuditEvent, UsageEvent}
use grantora.Retention.{
  RetentionResult, microseconds_per_day, days_before, prune_model, purge_between,
  purge_expired_events,
}

module _ {ℓ} {A : Type ℓ} (timestamp : A → ℕ) (cutoff : ℕ) where
  abbrev pub old : A → Bool
  old r = ltb (timestamp r) cutoff

  -- A table after a purge that is not a dry run: the rows from the cutoff on, and the number of the
  -- others.
  pub record IsPruned (rows : List A) (deleted : ℕ) (left : List A) : Type ℓ where
    pub kept : (r : A) → Memᴰ r left ↔ (Memᴰ r rows × (cutoff ≤ timestamp r))
    pub counted : deleted + length left ≡ length rows

  split-length :
      (rows : List A)
      → length (filter old rows) + length (filter (λ r. not (old r)) rows) ≡ length rows
  split-length [] = refl
  split-length (r ∷ rows) = ground (arith, split-length rows)

  kept_iff :
      (rows : List A) (r : A)
      → Memᴰ r (filter (λ s. not (old s)) rows) ↔ (Memᴰ r rows × (cutoff ≤ timestamp r))
  kept_iff rows r = (
    λ m. let (m', young) = filter-mem (λ s. not (old s)) rows m in (m', ground arith),
    λ (m, young). mem-filter (λ s. not (old s)) rows m (ground arith),
  )

  none_old : (rows : List A) → length (filter old rows) ≡ 0 → filter (λ r. not (old r)) rows ≡ rows
  none_old [] h = refl
  none_old (r ∷ rows) h = elim (Bool-cases (old r)) [
    | inl is_old ↦ absurd (ground arith)
    | inr young ↦ rw young (ap (λ rs. r ∷ rs) (none_old rows (ground arith)))
  ]

  pub prune-IsPruned :
      (rows : List A)
      → let (deleted, left) = prune_model timestamp cutoff false rows in IsPruned rows deleted left
  unfolding prune_model
  prune-IsPruned rows = elim (Bool-cases (length (filter old rows) == 0)) [
    | inl no_match ↦ rw no_match (record {
      kept = λ r. rw (none_old rows (ground arith)) at (kept_iff rows r);
      counted = ground arith;
    })
    | inr matching ↦ rw matching (record { kept = kept_iff rows; counted = split-length rows })
  ]

  -- A dry run counts what the other would delete, and leaves the table alone.
  pub prune-dry :
      (rows : List A)
      → prune_model timestamp cutoff true rows ≡ ((prune_model timestamp cutoff false rows).0, rows)
  unfolding prune_model
  prune-dry rows = ground arith

days_before-some :
    (now days : ℕ)
    → days * microseconds_per_day ≤ now
    → (cutoff : ℕ) × (days_before now days ≡ some cutoff)
      × (cutoff + days * microseconds_per_day ≡ now)
unfolding days_before
days_before-some now days h = (now - days * microseconds_per_day, ground arith, ground arith)

-- What a purge leaves, and what it reports.
pub record IsPurged (settings : Settings) (now : ℕ) (db : Db) (result : RetentionResult) (db' : Db)
    : Type 0 where
  pub audit_cutoff :
      result.audit_cutoff + settings.audit_retention_days * microseconds_per_day ≡ now
  pub usage_cutoff :
      result.usage_cutoff + settings.usage_retention_days * microseconds_per_day ≡ now
  pub audit :
      IsPruned
        (λ (e : AuditEvent). e.timestamp)
        result.audit_cutoff
        db.audit_events
        result.audit_deleted
        db'.audit_events
  pub usage :
      IsPruned
        (λ (e : UsageEvent). e.timestamp)
        result.usage_cutoff
        db.usage_events
        result.usage_deleted
        db'.usage_events
  pub others : record db' { audit_events = db.audit_events; usage_events = db.usage_events } ≡ db

module _ (settings : Settings) (now : ℕ) (db : Db) where
  -- Where both retention times reach back to a moment that a date can hold, the purge succeeds: it
  -- keeps exactly the audit events and the usage events that are not older than their retention time,
  -- reports how many it deleted of each, and changes no other table.
  pub purge-IsPurged :
      settings.audit_retention_days * microseconds_per_day ≤ now
      → settings.usage_retention_days * microseconds_per_day ≤ now
      → (result : RetentionResult) × (db' : Db) × (purge_expired_events settings now false db
          ≡ some (result, db'))
        × IsPurged settings now db result db'
  unfolding purge_expired_events
  purge-IsPurged audit_fits usage_fits =
      let (audit_cutoff, ea, sa) = days_before-some now settings.audit_retention_days audit_fits in
      let (usage_cutoff, eu, su) = days_before-some now settings.usage_retention_days usage_fits in
      (
        (purge_between audit_cutoff usage_cutoff false db).0,
        (purge_between audit_cutoff usage_cutoff false db).1,
        rw (purge_expired_events, ea, eu),
        record {
          audit_cutoff = sa;
          usage_cutoff = su;
          audit = prune-IsPruned (λ (e : AuditEvent). e.timestamp) audit_cutoff db.audit_events;
          usage = prune-IsPruned (λ (e : UsageEvent). e.timestamp) usage_cutoff db.usage_events;
          others = refl;
        },
      )

  between-dry :
      (audit_cutoff usage_cutoff : ℕ) {result : RetentionResult} {db' : Db}
      → some (purge_between audit_cutoff usage_cutoff false db) ≡ some (result, db')
      → some (purge_between audit_cutoff usage_cutoff true db)
        ≡ some (record result { dry_run = true }, db)
  between-dry audit_cutoff usage_cutoff {result} {db'} h =
      rw
        (
          prune-dry (λ (e : AuditEvent). e.timestamp) audit_cutoff db.audit_events,
          prune-dry (λ (e : UsageEvent). e.timestamp) usage_cutoff db.usage_events,
        )
        (ap (λ o. elim o [ none ↦ none | some (r, _) ↦ some (record r { dry_run = true }, db) ]) h)

  -- A dry run changes no table, and reports what the purge itself would report.
  pub purge-dry :
      {result : RetentionResult} {db' : Db}
      → purge_expired_events settings now false db ≡ some (result, db')
      → purge_expired_events settings now true db ≡ some (record result { dry_run = true }, db)
  unfolding purge_expired_events
  purge-dry h = elim (Option-cases (days_before now settings.audit_retention_days)) [
    | inl none_a ↦ absurd (ground arith)
    | inr (audit_cutoff, ea) ↦ elim (Option-cases (days_before now settings.usage_retention_days)) [
      | inl none_u ↦ absurd (ground arith)
      | inr (usage_cutoff, eu) ↦
          rw (purge_expired_events, ea, eu)
            (between-dry audit_cutoff usage_cutoff (rw (purge_expired_events, ea, eu) at h))
    ]
  ]
