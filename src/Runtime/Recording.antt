-- ===== src/Runtime/Recording.antt =====
-- `_record_invocation_attempt` and `_record_and_raise_invocation_error` of api/runtime.py, with
-- `record_audit_event` of audit/events.py and `record_usage_event` of usage/events.py.
use grantora.Prelude.{
  String, Option, none, some, List, [], ◌∷◌, ◌++◌, max_with, ◌==◌, string_eq, if◌then◌else◌, ℕ,
  Bool, true, false, not, ltb, ◌&&◌,
}
use grantora.Prelude.Text.{text_length}
use grantora.Errors.{ApiError, Result, ok, err, Exec, unhandled}
use grantora.Db.Models.{Db, Agent, User, Capability, AuditEvent, UsageEvent}
use grantora.Metrics.{Metric, authorization_denied}
use grantora.Runtime.State.{World, Env, LogRecord, Level, info, warning, error, count, commit}

-- The keyword arguments of an attempt.
pub record Attempt : Type 0 where
  pub agent : Agent
  pub user : Option User
  pub capability : Option Capability
  pub capability_id : String
  pub decision : String
  pub outcome : String
  pub error_code : Option String
  pub usage_status : String
  pub units : ℕ

abbrev pub user_id_of : Option User → Option ℕ
user_id_of none = none
user_id_of (some u) = some u.id

abbrev pub application_id_of : Option Capability → Option ℕ
application_id_of none = none
application_id_of (some c) = some c.application_instance_id

abbrev pub provider_of : Option Capability → Option String
provider_of none = none
provider_of (some c) = some c.provider_type

abbrev within_length : ℕ → String → Bool
within_length most text = not (ltb most (text_length text))

abbrev optional_within : ℕ → Option String → Bool
optional_within most none = true
optional_within most (some text) = within_length most text

module _ (env : Env) where
  -- `max(int(elapsed), 0)`.
  unfoldable pub latency_ms : ℕ
  unfolding max_with
  latency_ms = max_with 0 env.elapsed_ms

  -- `_set_request_observability_context`.
  unfoldable pub set_observed : Attempt → World → World
  set_observed a w = record w {
    observed = some (record {
      workspace_id = a.agent.workspace_id;
      agent_id = a.agent.id;
      user_id = user_id_of a.user;
      capability_id = a.capability_id;
      provider_type = provider_of a.capability;
    });
  }

  unfoldable pub audit_event : Attempt → AuditEvent
  audit_event a = record {
    id = env.audit_event_id;
    timestamp = env.utc_now;
    request_id = env.request_id;
    actor_type = "agent";
    workspace_id = some a.agent.workspace_id;
    agent_id = some a.agent.id;
    user_id = user_id_of a.user;
    capability_id = some a.capability_id;
    application_instance_id = application_id_of a.capability;
    decision = a.decision;
    outcome = a.outcome;
    error_code = a.error_code;
    latency_ms = latency_ms;
    remote_addr = env.client_host;
  }

  unfoldable pub usage_event : Attempt → UsageEvent
  usage_event a = record {
    id = env.usage_event_id;
    timestamp = env.utc_now;
    workspace_id = a.agent.workspace_id;
    agent_id = a.agent.id;
    user_id = user_id_of a.user;
    capability_id = a.capability_id;
    application_instance_id = application_id_of a.capability;
    units = a.units;
    status = a.usage_status;
    latency_ms = latency_ms;
  }

  abbrev pub add_events : Attempt → Db → Db
  add_events a db = record db {
    audit_events = db.audit_events ++ audit_event a ∷ [];
    usage_events = db.usage_events ++ usage_event a ∷ [];
  }

  -- The level that `_log_invocation_attempt` logs at.
  unfoldable pub log_level : Attempt → Level
  log_level a =
      if a.outcome == "success" then info else if a.decision == "deny" then warning else error

  abbrev log_record : Attempt → LogRecord
  log_record a = record {
    level = log_level a;
    capability_id = a.capability_id;
    decision = a.decision;
    outcome = a.outcome;
    usage_status = a.usage_status;
    error_code = a.error_code;
  }

  abbrev denied_reason : Option String → String
  denied_reason none = "denied"
  denied_reason (some code) = if code == "" then "denied" else code

  abbrev denial_count : Attempt → List Metric
  denial_count a =
      if a.decision == "deny"
      then authorization_denied a.agent.workspace_id (denied_reason a.error_code) ∷ []
      else []

  -- The lengths of the columns, which the database enforces at the commit. The other texts of the two
  -- rows are constants that fit.
  unfoldable pub ids_fit : String → Bool
  unfolding text_length
  ids_fit capability_id =
      within_length 128 env.request_id
      && within_length 128 capability_id
      && optional_within 64 env.client_host

  unfoldable pub code_fits : Option String → Bool
  unfolding text_length
  code_fits error_code = optional_within 128 error_code

  -- `session.commit()` with the two new rows, which raises where they do not fit; what follows it is
  -- the log record. The session is rolled back when it is closed.
  abbrev pub commit_attempt : Bool → Attempt → World → Result (Unit {0}) × World
  commit_attempt true a w =
      let added = commit (record w { db = add_events a w.db }) in
      (ok tt, record added { logs = added.logs ++ log_record a ∷ [] })
  commit_attempt false a w = (err unhandled, record w { db = w.committed })

  -- `_record_invocation_attempt`.
  unfoldable pub record_invocation_attempt : Attempt → Exec World (Unit {0})
  unfolding set_observed ids_fit code_fits
  record_invocation_attempt a w =
      commit_attempt (ids_fit a.capability_id && code_fits a.error_code) a
        (count (denial_count a) (set_observed a w))

  -- The exception of the recording, or else the error itself.
  abbrev pub raised_after : Result (Unit {0}) → ApiError → ApiError
  raised_after (ok _) e = e
  raised_after (err raised) e = raised

  -- `_record_and_raise_invocation_error`.
  unfoldable pub record_and_raise_invocation_error :
      {A : Type 0} → Attempt → ApiError → Exec World A
  record_and_raise_invocation_error a e w =
      let recorded =
        record_invocation_attempt (record a { outcome = "error"; error_code = some e.code }) w in
      (err (raised_after recorded.0 e), recorded.1)
