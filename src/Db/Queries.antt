-- ===== src/Db/Queries.antt =====
-- db/queries.py. A statement is the list of its rows: a `join` looks the joined row up by its
-- primary key and drops the row where there is none, a `where` is a Boolean test, and
-- `session.scalar` is the first row or `None`.
pub mod Joins
pub mod Sound
pub mod Sorting
pub mod Rows
use grantora.Prelude.{
  ℕ, String, Bool, true, false, ◌&&◌, ◌||◌, Option, none, some, List, [], ◌∷◌, ◌++◌, map, find?,
  filter, any, leb, ◌==◌, nat_eq, string_eq,
}
use grantora.Prelude.Text.{text_leb}
use grantora.Db.Models.{
  Db, Workspace, AdminCredential, ApplicationInstance, Agent, User, Capability, Binding, Secret,
  is_active,
}
use Joins.{
  workspace_by_id, capability_by_id, workspace_active, application_active, agent_active,
  user_active, role_by_id, role_active, holds_at, sort_by,
}

-- `session.scalar` of an ordered statement.
abbrev first {ℓ} : {A : Type ℓ} → List A → Option A
first [] = none
first (x ∷ xs) = some x

module _ (db : Db) where
  unfoldable pub get_active_workspace_by_slug : String → Option Workspace
  get_active_workspace_by_slug slug =
      find? (λ w. w.slug == slug && is_active w.status) db.workspaces

  unfoldable pub get_active_workspace_by_id : ℕ → Option Workspace
  get_active_workspace_by_id workspace_id =
      find? (λ w. w.id == workspace_id && is_active w.status) db.workspaces

  unfoldable pub get_active_application_instance_by_slug : ℕ → String → Option ApplicationInstance
  get_active_application_instance_by_slug workspace_id slug =
      find?
        (λ a.
          a.workspace_id == workspace_id
          && a.slug == slug
          && is_active a.status
          && workspace_active db a.workspace_id)
        db.application_instances

  unfoldable pub get_active_agent_by_token_hash : String → Option Agent
  get_active_agent_by_token_hash token_hash =
      find?
        (λ a.
          a.token_hash == token_hash && is_active a.status && workspace_active db a.workspace_id)
        db.agents

  -- The outer join keeps a credential with no workspace.
  abbrev pub credential_in_scope : Option ℕ → Bool
  credential_in_scope none = true
  credential_in_scope (some workspace_id) = workspace_active db workspace_id

  unfoldable pub get_active_admin_credential_by_token_hash : String → Option AdminCredential
  get_active_admin_credential_by_token_hash token_hash =
      find?
        (λ c.
          c.token_hash == token_hash && is_active c.status && credential_in_scope c.workspace_id)
        db.admin_credentials

  unfoldable pub get_active_user_by_external_id : ℕ → String → Option User
  get_active_user_by_external_id workspace_id external_id =
      find?
        (λ u.
          u.workspace_id == workspace_id
          && u.external_id == external_id
          && is_active u.status
          && workspace_active db u.workspace_id)
        db.users

  unfoldable pub get_user_by_external_id : ℕ → String → Option User
  get_user_by_external_id workspace_id external_id =
      find?
        (λ u.
          u.workspace_id == workspace_id
          && u.external_id == external_id
          && workspace_active db u.workspace_id)
        db.users

  -- The conditions that the statements put on a capability and its application.
  unfoldable pub capability_joined : ℕ → Capability → Bool
  capability_joined workspace_id c =
      c.workspace_id == workspace_id
      && is_active c.status
      && application_active db workspace_id c.application_instance_id

  -- The same with `Capability.workspace` joined.
  unfoldable pub capability_available : ℕ → Capability → Bool
  capability_available workspace_id c =
      capability_joined workspace_id c && workspace_active db c.workspace_id

  unfoldable pub get_active_capability_by_id : ℕ → String → Option Capability
  get_active_capability_by_id workspace_id capability_id =
      find? (λ c. c.id == capability_id && capability_available workspace_id c) db.capabilities

  -- The conditions on a binding and on the agent, the user and the role that it names.
  unfoldable pub binding_available : ℕ → ℕ → ℕ → Binding → Bool
  binding_available workspace_id agent_id user_id b =
      b.workspace_id == workspace_id
      && b.agent_id == agent_id
      && b.user_id == user_id
      && is_active b.status
      && agent_active db workspace_id b.agent_id
      && user_active db workspace_id b.user_id
      && role_active db workspace_id b.role_id

  -- One row for each binding that joins the capability.
  abbrev pub rows_of : ℕ → ℕ → ℕ → List Capability → List Capability
  rows_of workspace_id agent_id user_id [] = []
  rows_of workspace_id agent_id user_id (c ∷ cs) =
      map (λ _. c)
        (filter (λ b. b.capability_id == c.id && binding_available workspace_id agent_id user_id b)
          db.bindings)
      ++ rows_of workspace_id agent_id user_id cs

  unfoldable pub list_active_capabilities_for_agent_user : ℕ → ℕ → ℕ → List Capability
  unfolding sort_by
  list_active_capabilities_for_agent_user workspace_id agent_id user_id =
      sort_by (λ c d. text_leb c.id d.id)
        (rows_of workspace_id agent_id user_id
          (filter (capability_available workspace_id) db.capabilities))

  unfoldable pub role_grants_permission : ℕ → String → Bool
  role_grants_permission role_id permission_code =
      any
        (λ rp.
          rp.role_id == role_id
          && rp.permission_code == permission_code
          && holds_at (role_by_id db rp.role_id) (λ r. is_active r.status))
        db.role_permissions

  unfoldable pub get_active_binding : ℕ → ℕ → ℕ → String → Option Binding
  get_active_binding workspace_id agent_id user_id capability_id =
      find?
        (λ b.
          b.capability_id == capability_id
          && binding_available workspace_id agent_id user_id b
          && workspace_active db b.workspace_id
          && holds_at (capability_by_id db b.capability_id) (capability_joined workspace_id))
        db.bindings

  -- `ORDER BY secrets.id`, the first row.
  unfoldable pub get_active_secret_for_owner : ℕ → ℕ → String → ℕ → Option Secret
  unfolding sort_by
  get_active_secret_for_owner workspace_id application_instance_id owner_type owner_id = first (
      sort_by (λ s t. leb s.id t.id)
        (filter
          (λ s.
            s.workspace_id == workspace_id
            && s.application_instance_id == application_instance_id
            && s.owner_type == owner_type
            && s.owner_id == owner_id
            && is_active s.status
            && workspace_active db s.workspace_id
            && application_active db workspace_id s.application_instance_id)
          db.secrets))
