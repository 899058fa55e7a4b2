-- ===== src/Config.antt =====
-- `Settings` of config.py: the fields that the modelled code reads. Reading the environment is
-- left to the library that does it.
use grantora.Prelude.{ℕ, String, Bool, Option, ℤ}

pub record Settings : Type 0 where
  pub public_base_url : String
  pub secret_encryption_key : String
  pub agent_token_pepper : String
  pub admin_bootstrap_token_hash : Option String
  pub apisix_fail_closed : Bool
  pub apisix_runtime_upstream_node : String
  pub apisix_rate_limit_count : ℕ
  pub apisix_rate_limit_time_window : ℕ
  pub audit_retention_days : ℕ
  pub usage_retention_days : ℕ
  pub request_id_header : String
  pub feature_oidc : Bool
  pub oidc_admin_subjects : String
  pub oidc_subject_header : String
  pub oidc_trusted_proxy_cidrs : String
  pub feature_external_secret_store : Bool
  pub upstream_max_response_bytes : ℤ
  pub upstream_read_retry_attempts : ℤ
