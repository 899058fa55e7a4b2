-- ===== src/Admin/Bindings.antt =====
-- `create_binding` and `update_binding_status` of api/admin.py.
pub mod Laws
use grantora.Prelude.{
  ℕ, String, Bool, true, false, Option, none, some, List, [], ◌∷◌, ◌++◌, map, find?, ◌==◌, nat_eq,
  string_eq, if◌then◌else◌,
}
use grantora.Errors.{
  ApiError, api_error, Result, ok, err, Exec, pure, raise, gets, modify, when, or_else_do, ◌>>=◌,
  ◌>>◌,
}
use grantora.Db.Models.{
  Db, Workspace, Agent, User, Capability, Role, Binding, AuditEvent, active_status,
}
use grantora.Db.Queries.Joins.{capability_by_id}
use grantora.Admin.{
  Session, AdminEnv, flush_or_conflict, commit_or_conflict, get_or_raise, require_admin_workspace,
  require_same_workspace, get_active_workspace_or_404, get_active_agent_or_404,
  get_active_user_or_404, get_active_capability_or_404, get_active_role_or_404, admin_audit_event,
  add_audit,
}

-- `AdminBindingCreateRequest`.
pub record BindingCreateRequest : Type 0 where
  pub workspace_id : ℕ
  pub agent_id : ℕ
  pub user_id : ℕ
  pub capability_id : String
  pub role_id : ℕ
  pub status : String

-- The rows that a binding names.
pub record Parties : Type 0 where
  pub workspace : Workspace
  pub agent : Agent
  pub user : User
  pub capability : Capability
  pub role : Role

-- The lookups and the comparisons of workspaces, in the order in which `create_binding` and
-- `_validate_binding_can_be_active` make them.
unfoldable pub get_parties : ℕ → ℕ → ℕ → String → ℕ → Exec Session Parties
get_parties workspace_id agent_id user_id capability_id role_id = do
  workspace ← get_active_workspace_or_404 workspace_id
  agent ← get_active_agent_or_404 agent_id
  user ← get_active_user_or_404 user_id
  capability ← get_active_capability_or_404 capability_id
  role ← get_active_role_or_404 role_id
  require_same_workspace agent.workspace_id workspace.id "agent_workspace_mismatch"
  require_same_workspace user.workspace_id workspace.id "user_workspace_mismatch"
  require_same_workspace capability.workspace_id workspace.id "capability_workspace_mismatch"
  require_same_workspace role.workspace_id workspace.id "role_workspace_mismatch"
  pure (record {
    workspace = workspace;
    agent = agent;
    user = user;
    capability = capability;
    role = role;
  })

abbrev pub add_binding : Binding → Session → Session
add_binding b s = record s { db = record s.db { bindings = s.db.bindings ++ b ∷ [] } }

module _ (env : AdminEnv) where
  abbrev pub new_binding : Parties → String → Binding
  new_binding p status = record {
    id = env.new_id;
    workspace_id = p.workspace.id;
    agent_id = p.agent.id;
    user_id = p.user.id;
    capability_id = p.capability.id;
    role_id = p.role.id;
    status = status;
  }

  abbrev pub binding_event : Parties → AuditEvent
  binding_event p =
      admin_audit_event env p.workspace.id (some p.agent.id) (some p.user.id) (some p.capability.id)
        (some p.capability.application_instance_id)

  -- From the construction of the row on.
  unfoldable pub insert_binding : Parties → String → Exec Session Binding
  insert_binding p status = do
    modify (add_binding (new_binding p status))
    flush_or_conflict "binding_conflict" "Binding could not be created"
    modify (add_audit env (binding_event p))
    commit_or_conflict "binding_conflict" "Binding could not be created"
    pure (new_binding p status)

  unfoldable pub create_binding : BindingCreateRequest → Exec Session Binding
  unfolding get_parties insert_binding
  create_binding payload = do
    require_admin_workspace env.admin payload.workspace_id
    p ←
        get_parties payload.workspace_id payload.agent_id payload.user_id payload.capability_id
          payload.role_id
    insert_binding p payload.status

abbrev pub binding_by_id : ℕ → Db → Option Binding
binding_by_id k db = find? (λ b. b.id == k) db.bindings

-- `binding.status = status`, of the row that the session holds.
abbrev pub set_binding_status : ℕ → String → Session → Session
set_binding_status k status s = record s {
  db = record s.db {
    bindings = map (λ b. if b.id == k then record b { status = status } else b) s.db.bindings;
  };
}

-- `binding.capability.application_instance_id`.
abbrev pub application_of : Db → Binding → Option ℕ
application_of db b = elim (capability_by_id db b.capability_id) [
  | none ↦ none
  | some c ↦ some c.application_instance_id
]

-- `_validate_binding_can_be_active`.
unfoldable pub validate_binding_can_be_active : Binding → Exec Session (Unit {0})
unfolding get_parties
validate_binding_can_be_active b = do
  get_parties b.workspace_id b.agent_id b.user_id b.capability_id b.role_id
  pure tt

module _ (env : AdminEnv) where
  -- From the assignment on.
  unfoldable pub store_status : ℕ → String → Binding → Option ℕ → Exec Session Binding
  store_status binding_id status binding application_id = do
    modify (set_binding_status binding_id status)
    modify (
        add_audit env (
          admin_audit_event env binding.workspace_id (some binding.agent_id) (some binding.user_id)
            (some binding.capability_id) application_id))
    commit_or_conflict "binding_conflict" "Binding could not be updated"
    pure (record binding { status = status })

  unfoldable pub update_binding_status : ℕ → String → Exec Session Binding
  unfolding validate_binding_can_be_active store_status
  update_binding_status binding_id status = do
    binding ←
        get_or_raise (binding_by_id binding_id)
          (api_error 404 "binding_not_found" "Binding was not found")
    require_admin_workspace env.admin binding.workspace_id
    when (status == active_status) (validate_binding_can_be_active binding)
    application_id ← gets (λ (s : Session). application_of s.db binding)
    store_status binding_id status binding application_id
