-- ===== src/Admin/Capabilities.antt =====
-- The handlers of api/admin.py for capabilities: their creation, also from templates, and their status.
pub mod Created
use grantora.Prelude.{
  ℕ, String, Option, none, some, List, [], ◌∷◌, ◌++◌, Bool, map, any, not, ◌||◌, ◌==◌, nat_eq,
  string_eq, if◌then◌else◌,
}
use grantora.Errors.{api_error, Exec, raise, when, or_else_do, except_do, or_default, ◌>>=◌, ◌>>◌}
use grantora.Json.{Json, get?, or_null, keys, obj}
use grantora.Db.Models.{Capability, active_status}
use grantora.Db.Queries.Joins.{capability_by_id}
use grantora.Capabilities.Validation.{SchemaError, check_json_schema}
use grantora.Capabilities.Definition.{CapabilityDefinition, validate_capability_definition}
use grantora.Prelude.Text.{starts_with, text_contains}
use grantora.Adapters.Templates.{CapabilityTemplate, get_capability_template}
use grantora.Admin.{
  Session, AdminEnv, get_or_raise, require, require_admin_workspace, require_same_workspace,
  get_active_workspace_or_404, get_active_application_or_404, admin_audit_event, add_audit,
  insert_and_commit, change_and_commit,
}

pub record CapabilityFromTemplateRequest : Type 0 where
  pub template_id : String
  pub workspace_id : ℕ
  pub application_instance_id : ℕ
  pub id : Option String
  pub name : Option String
  pub version : Option ℕ
  pub status : String

pub record CapabilityCreateRequest : Type 0 where
  pub workspace_id : ℕ
  pub application_instance_id : ℕ
  pub version : ℕ
  pub definition : CapabilityDefinition
  pub status : String

abbrev raw_passthrough_operations : List String
raw_passthrough_operations = "http.get" ∷ "http.post" ∷ "http.request" ∷ "raw.request" ∷ []

abbrev raw_passthrough_input_fields : List String
raw_passthrough_input_fields =
    "headers" ∷ "method" ∷ "path" ∷ "raw_body" ∷ "upstream_path" ∷ "upstream_url" ∷ "url" ∷ []

abbrev property_names : Json → List String
property_names input_schema = elim (or_null (get? "properties" input_schema)) [
  | obj properties ↦ keys properties
  | _ ↦ []
]

-- The test of `_check_no_raw_passthrough`.
unfoldable pub is_raw_passthrough : String → Json → Bool
unfolding text_contains
is_raw_passthrough operation input_schema =
    any (λ o. o == operation) raw_passthrough_operations
    || starts_with operation "raw."
    || text_contains "passthrough" operation
    || any (λ name. any (λ f. f == name) raw_passthrough_input_fields) (property_names input_schema)

-- `payload.version or template.version`.
abbrev version_or : Option ℕ → ℕ → ℕ
version_or none default = default
version_or (some version) default = if version == 0 then default else version

abbrev pub add_capability : Capability → Session → Session
add_capability c s = record s { db = record s.db { capabilities = s.db.capabilities ++ c ∷ [] } }

abbrev set_capability_status : String → String → Session → Session
set_capability_status k status s = record s {
  db = record s.db {
    capabilities =
        map (λ c. if c.id == k then record c { status = status } else c) s.db.capabilities;
  };
}

module _ (env : AdminEnv) where
  -- `_check_capability_schema`.
  abbrev pub check_capability_schema : Json → Exec Session (Unit {0})
  check_capability_schema schema =
      except_do (check_json_schema env.validator schema)
        (λ (e : SchemaError). raise (api_error 422 e.code e.message))

  abbrev pub capability_event : ℕ → String → ℕ → Session → Session
  capability_event workspace_id capability_id application_id =
      add_audit env
        (admin_audit_event env workspace_id none none (some capability_id) (some application_id))

  -- The capability that a template gives.
  abbrev pub from_template : CapabilityFromTemplateRequest → CapabilityTemplate → ℕ → ℕ → Capability
  from_template payload template workspace_id application_id = record {
    id = or_default payload.id template.id;
    workspace_id = workspace_id;
    application_instance_id = application_id;
    name = or_default payload.name template.name;
    version = version_or payload.version template.version;
    provider_type = template.provider_type;
    adapter = template.adapter;
    operation = template.operation;
    auth_mode = template.auth_mode;
    risk_class = template.risk_class;
    input_schema = template.input_schema;
    output_schema = template.output_schema;
    status = payload.status;
  }

  unfoldable pub store_capability : Capability → Exec Session Capability
  unfolding insert_and_commit
  store_capability capability =
      insert_and_commit "capability_conflict" "Capability could not be created"
        (add_capability capability)
        (capability_event capability.workspace_id capability.id capability.application_instance_id)
        capability

  unfoldable pub create_capability_from_template :
      CapabilityFromTemplateRequest → Exec Session Capability
  unfolding ◌>>=◌ store_capability get_capability_template check_json_schema
  create_capability_from_template payload = do
    require_admin_workspace env.admin payload.workspace_id
    template ←
        or_else_do (get_capability_template payload.template_id) (
          raise (api_error 404 "capability_template_not_found" "Capability template was not found"))
    workspace ← get_active_workspace_or_404 payload.workspace_id
    application ← get_active_application_or_404 payload.application_instance_id
    require (application.workspace_id == workspace.id) (
        api_error 422 "application_workspace_mismatch"
          "Application does not belong to the workspace")
    require (application.provider_type == template.provider_type) (
        api_error 422 "application_provider_mismatch"
          "Application provider does not match the capability template")
    check_capability_schema template.input_schema
    check_capability_schema template.output_schema
    store_capability (from_template payload template workspace.id application.id)

  -- `_check_capability_definition`.
  abbrev pub check_capability_definition : CapabilityDefinition → Exec Session (Unit {0})
  check_capability_definition d =
      except_do (validate_capability_definition env.validator d)
        (λ (e : SchemaError). raise (api_error 422 e.code e.message))

  abbrev pub new_capability : CapabilityCreateRequest → ℕ → ℕ → Capability
  new_capability payload workspace_id application_id = record {
    id = payload.definition.capability_id;
    workspace_id = workspace_id;
    application_instance_id = application_id;
    name = payload.definition.name;
    version = payload.version;
    provider_type = payload.definition.provider_type;
    adapter = payload.definition.adapter;
    operation = payload.definition.operation;
    auth_mode = payload.definition.auth_mode;
    risk_class = payload.definition.risk_class;
    input_schema = payload.definition.input_schema;
    output_schema = payload.definition.output_schema;
    status = payload.status;
  }

  unfoldable pub create_capability : CapabilityCreateRequest → Exec Session Capability
  unfolding ◌>>=◌ store_capability validate_capability_definition is_raw_passthrough
  create_capability payload = do
    require_admin_workspace env.admin payload.workspace_id
    workspace ← get_active_workspace_or_404 payload.workspace_id
    application ← get_active_application_or_404 payload.application_instance_id
    require (application.workspace_id == workspace.id) (
        api_error 422 "application_workspace_mismatch"
          "Application does not belong to the workspace")
    require (application.provider_type == payload.definition.provider_type) (
        api_error 422 "application_provider_mismatch"
          "Application provider does not match the capability")
    check_capability_definition payload.definition
    require (not (is_raw_passthrough payload.definition.operation payload.definition.input_schema))
        (api_error 422 "raw_passthrough_unavailable"
          "Raw upstream passthrough capabilities are not available")
    store_capability (new_capability payload workspace.id application.id)

  -- What a capability needs to be active.
  abbrev can_be_active : Capability → Exec Session (Unit {0})
  can_be_active capability = do
    workspace ← get_active_workspace_or_404 capability.workspace_id
    application ← get_active_application_or_404 capability.application_instance_id
    require_same_workspace application.workspace_id workspace.id "application_workspace_mismatch"

  abbrev pub check_before : String → Capability → Exec Session (Unit {0})
  check_before status capability = when (status == active_status) (can_be_active capability)

  unfoldable pub update_capability_status : String → String → Exec Session Capability
  unfolding ◌>>=◌ change_and_commit
  update_capability_status capability_id status = do
    capability ←
        get_or_raise (λ db. capability_by_id db capability_id)
          (api_error 404 "capability_not_found" "Capability was not found")
    require_admin_workspace env.admin capability.workspace_id
    check_before status capability
    change_and_commit "capability_conflict" "Capability could not be updated"
        (set_capability_status capability_id status)
        (capability_event capability.workspace_id capability.id capability.application_instance_id)
        (record capability { status = status })
