-- ===== src/Runtime/State.antt =====
-- What a runtime handler reads and changes: the database session, the counters, the calls that
-- adapters get, and the log.
use grantora.Prelude.{ℕ, String, Option, List, ◌++◌, ℤ}
use grantora.Json.{Json}
use grantora.Config.{Settings}
use grantora.Db.Models.{Db}
use grantora.Metrics.{Metric}
use grantora.Adapters.{AdapterRegistry, InvocationContext, SecretMaterial}
use grantora.Capabilities.Validation.{JsonSchema}
use grantora.Secrets.{Cipher}

pub record AdapterCall : Type 0 where
  pub adapter_id : String
  pub input : Json
  pub context : InvocationContext
  pub secret : SecretMaterial

pub data Level : Type 0 where
  info warning error : Level

-- The `extra` of a log record, as far as it is not a copy of the audit event.
pub record LogRecord : Type 0 where
  pub level : Level
  pub capability_id : String
  pub decision : String
  pub outcome : String
  pub usage_status : String
  pub error_code : Option String

-- `request.state`, as the middleware reads it after the handler.
pub record Observed : Type 0 where
  pub workspace_id : ℕ
  pub agent_id : ℕ
  pub user_id : Option ℕ
  pub capability_id : String
  pub provider_type : Option String

-- `db` is what the session sees, `committed` what other sessions see.
pub record World : Type 0 where
  pub db : Db
  pub committed : Db
  pub metrics : List Metric
  pub calls : List AdapterCall
  pub logs : List LogRecord
  pub observed : Option Observed

-- What a request meets: the settings, the libraries, the adapters, and the values that the clock
-- and the generators of identifiers give.
pub record Env : Type 0 where
  pub settings : Settings
  pub validator : JsonSchema
  pub cipher : Cipher
  pub adapters : AdapterRegistry
  pub request_id : String
  pub client_host : Option String
  pub elapsed_ms : ℤ
  pub utc_now : ℕ
  pub audit_event_id : ℕ
  pub usage_event_id : ℕ

abbrev pub count : List Metric → World → World
count ms w = record w { metrics = w.metrics ++ ms }

-- `session.commit()`.
abbrev pub commit : World → World
commit w = record w { committed = w.db }
