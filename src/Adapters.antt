-- ===== src/Adapters.antt =====
-- adapters/base.py and adapters/registry.py: what an adapter is given and what it returns.
pub mod Http
pub mod Upstream
pub mod Nethvoice
pub mod Nextcloud
pub mod Mock
pub mod Defaults
pub mod Templates
use grantora.Prelude.{
  ℕ, String, Bool, Option, none, some, List, [], ◌∷◌, ℤ, ◌≡◌, ◌==◌, string_eq, eq_iff, arith,
  if◌then◌else◌, false, pos,
}
use grantora.Json.{Json, obj, end}
use grantora.Db.Models.{Capability}

pub record WorkspaceContext : Type 0 where
  pub id : ℕ
  pub slug : String

pub record AgentContext : Type 0 where
  pub id : ℕ
  pub slug : String

pub record UserContext : Type 0 where
  pub id : ℕ
  pub external_id : String

pub record ApplicationContext : Type 0 where
  pub id : ℕ
  pub provider_type : String
  pub base_url : Option String

pub record CapabilityContext : Type 0 where
  pub id : String
  pub operation : String

pub record InvocationContext : Type 0 where
  pub request_id : String
  pub workspace : WorkspaceContext
  pub agent : AgentContext
  pub user : UserContext
  pub application : ApplicationContext
  pub capability : CapabilityContext

pub record SecretMaterial : Type 0 where
  pub secret_type : String
  pub value : String

-- `AdapterResult`; `content` is its field `data`.
pub record AdapterResult : Type 0 where
  pub status : String
  pub content : Json
  pub usage_units : ℤ
  pub upstream_status : Option ℕ
  pub error_code : Option String
  pub safe_message : Option String
  pub retryable : Bool

-- `AdapterResult.ok(data, upstream_status=…)`.
abbrev pub ok_result : Json → Option ℕ → AdapterResult
ok_result content upstream_status = record {
  status = "ok";
  content = content;
  usage_units = pos 1;
  upstream_status = upstream_status;
  error_code = none;
  safe_message = none;
  retryable = false;
}

-- `AdapterResult.error(error_code, safe_message, upstream_status=…, retryable=…)`.
abbrev pub error_result : String → String → Option ℕ → Bool → AdapterResult
error_result error_code safe_message upstream_status retryable = record {
  status = "error";
  content = obj end;
  usage_units = pos 1;
  upstream_status = upstream_status;
  error_code = some error_code;
  safe_message = some safe_message;
  retryable = retryable;
}

pub record HealthResult : Type 0 where
  pub status : String
  pub safe_message : Option String

-- An adapter is what it answers to a call: `none` where `invoke` raises.
pub record Adapter : Type 0 where
  pub id : String
  pub provider_type : String
  pub invoke : Capability → Json → InvocationContext → SecretMaterial → Option AdapterResult

-- The dict `_adapters`.
abbrev pub AdapterRegistry : Type 0
AdapterRegistry = List (String × Adapter)

abbrev pub empty : AdapterRegistry
empty = []

unfoldable pub register : Adapter → AdapterRegistry → AdapterRegistry
register a [] = (a.id, a) ∷ []
register a ((k, b) ∷ r) = let rest = (k, b) ∷ register a r in if k == a.id then (k, a) ∷ r else rest

unfoldable pub get : String → AdapterRegistry → Option Adapter
get adapter_id [] = none
get adapter_id ((k, a) ∷ r) = if k == adapter_id then some a else get adapter_id r
