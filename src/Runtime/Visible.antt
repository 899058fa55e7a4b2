-- ===== src/Runtime/Visible.antt =====
-- The selection of a user and `_list_visible_capabilities` of api/runtime.py.
use grantora.Prelude.{String, Bool, true, false, ◌&&◌, Option, none, some, List, filter}
use grantora.Db.Models.{Db, Agent, User, Capability, Binding, is_active}
use grantora.Db.Queries.{
  get_user_by_external_id, get_active_binding, list_active_capabilities_for_agent_user,
  role_grants_permission,
}
use grantora.Capabilities.{describe_permission, invoke_permission_for_risk_class}

-- `RuntimeUserSelection`.
pub record RuntimeUserSelection : Type 0 where
  pub user : Option User

abbrev pub if_active : Option User → Option User
if_active none = none
if_active (some u) = elim (is_active u.status) [ true ↦ some u | false ↦ none ]

-- The property `active_user`.
unfoldable pub active_user : RuntimeUserSelection → Option User
active_user selection = if_active selection.user

-- `_select_runtime_user`.
unfoldable pub select_runtime_user : Db → Agent → String → RuntimeUserSelection
select_runtime_user db agent external_id = record {
  user = get_user_by_external_id db agent.workspace_id external_id;
}

-- The test in the loop: a capability with a binding whose role may describe and invoke it.
abbrev pub binding_shows : Db → Option Binding → Option String → Bool
binding_shows db (some binding) (some permission_code) =
    role_grants_permission db binding.role_id describe_permission
    && role_grants_permission db binding.role_id permission_code
binding_shows db _ _ = false

unfoldable pub is_visible : Db → Agent → User → Capability → Bool
is_visible db agent user capability =
    binding_shows db (get_active_binding db agent.workspace_id agent.id user.id capability.id)
      (invoke_permission_for_risk_class capability.risk_class)

-- `_list_visible_capabilities`.
unfoldable pub list_visible_capabilities : Db → Agent → User → List Capability
list_visible_capabilities db agent user =
    filter (is_visible db agent user)
      (list_active_capabilities_for_agent_user db agent.workspace_id agent.id user.id)
