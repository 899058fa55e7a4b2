-- ===== src/Db/Models.antt =====
-- The tables of db/models.py. A row is a record with the columns that the program reads, a table
-- the list of its rows, a UUID a number. The columns `created_at` and `updated_at` are left out:
-- no code reads them but the admin summaries.
use grantora.Prelude.{ℕ, String, Option, List, [], Bool, ◌==◌, string_eq}
use grantora.Json.{Json, Fields}

abbrev pub active_status : String
active_status = "active"

abbrev pub revoked_status : String
revoked_status = "revoked"

abbrev pub is_active : String → Bool
is_active status = status == active_status

pub record Workspace : Type 0 where
  pub id : ℕ
  pub slug : String
  pub display_name : String
  pub status : String

pub record AdminCredential : Type 0 where
  pub id : ℕ
  pub subject : String
  pub token_hash : String
  pub token_hash_algorithm : String
  pub workspace_id : Option ℕ
  pub status : String

pub record ApplicationInstance : Type 0 where
  pub id : ℕ
  pub workspace_id : ℕ
  pub slug : String
  pub display_name : String
  pub provider_type : String
  pub base_url : Option String
  pub status : String

pub record Agent : Type 0 where
  pub id : ℕ
  pub workspace_id : ℕ
  pub slug : String
  pub display_name : String
  pub token_hash : String
  pub token_hash_algorithm : String
  pub status : String

pub record User : Type 0 where
  pub id : ℕ
  pub workspace_id : ℕ
  pub external_id : String
  pub display_name : String
  pub status : String

pub record Capability : Type 0 where
  pub id : String
  pub workspace_id : ℕ
  pub application_instance_id : ℕ
  pub name : String
  pub version : ℕ
  pub provider_type : String
  pub adapter : String
  pub operation : String
  pub auth_mode : String
  pub risk_class : String
  pub input_schema : Json
  pub output_schema : Json
  pub status : String

pub record Role : Type 0 where
  pub id : ℕ
  pub workspace_id : ℕ
  pub slug : String
  pub display_name : String
  pub status : String

pub record Permission : Type 0 where
  pub code : String
  pub description : Option String

pub record RolePermission : Type 0 where
  pub role_id : ℕ
  pub permission_code : String

pub record Binding : Type 0 where
  pub id : ℕ
  pub workspace_id : ℕ
  pub agent_id : ℕ
  pub user_id : ℕ
  pub capability_id : String
  pub role_id : ℕ
  pub status : String

pub record Secret : Type 0 where
  pub id : ℕ
  pub workspace_id : ℕ
  pub application_instance_id : ℕ
  pub owner_type : String
  pub owner_id : ℕ
  pub secret_type : String
  pub encrypted_value : String
  pub status : String

pub record AuditEvent : Type 0 where
  pub id : ℕ
  pub timestamp : ℕ
  pub request_id : String
  pub actor_type : String
  pub workspace_id : Option ℕ
  pub agent_id : Option ℕ
  pub user_id : Option ℕ
  pub capability_id : Option String
  pub application_instance_id : Option ℕ
  pub decision : String
  pub outcome : String
  pub error_code : Option String
  pub latency_ms : ℕ
  pub remote_addr : Option String

pub record UsageEvent : Type 0 where
  pub id : ℕ
  pub timestamp : ℕ
  pub workspace_id : ℕ
  pub agent_id : ℕ
  pub user_id : Option ℕ
  pub capability_id : String
  pub application_instance_id : Option ℕ
  pub units : ℕ
  pub status : String
  pub latency_ms : ℕ

-- The status is `None` before the flush that writes the column's default.
pub record ApisixRoute : Type 0 where
  pub id : String
  pub name : String
  pub uri : String
  pub upstream : Json
  pub plugins : Fields
  pub status : Option String

pub record ApisixSyncStatus : Type 0 where
  pub id : String
  pub status : String
  pub last_started_at : ℕ
  pub last_finished_at : ℕ
  pub checked_routes : ℕ
  pub changed_routes : ℕ
  pub error_code : Option String
  pub safe_message : Option String

pub record Db : Type 0 where
  pub workspaces : List Workspace
  pub admin_credentials : List AdminCredential
  pub application_instances : List ApplicationInstance
  pub agents : List Agent
  pub users : List User
  pub capabilities : List Capability
  pub roles : List Role
  pub permissions : List Permission
  pub role_permissions : List RolePermission
  pub bindings : List Binding
  pub secrets : List Secret
  pub audit_events : List AuditEvent
  pub usage_events : List UsageEvent
  pub apisix_routes : List ApisixRoute
  pub apisix_sync_status : List ApisixSyncStatus

abbrev pub empty : Db
empty = record {
  workspaces = [];
  admin_credentials = [];
  application_instances = [];
  agents = [];
  users = [];
  capabilities = [];
  roles = [];
  permissions = [];
  role_permissions = [];
  bindings = [];
  secrets = [];
  audit_events = [];
  usage_events = [];
  apisix_routes = [];
  apisix_sync_status = [];
}
