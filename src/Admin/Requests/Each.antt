-- ===== src/Admin/Requests/Each.antt =====
-- Each handler of api/admin.py for workspaces, applications, users, agents, roles and capabilities is
-- done as a whole or not at all.
use grantora.Prelude.{ℕ, String, refl, Option, List, [], ◌∷◌, string_eq}
use grantora.Errors.Keeps.{
  Keeps, Keeps-pure, Keeps-raise, Keeps-gets, Keeps-bind, Keeps-when, Keeps-or_else_do,
  Keeps-except_do,
}
use grantora.Json.{Json}
use grantora.Db.Models.{Db, Permission, Capability}
use grantora.Admin.{Session, AdminEnv}
use grantora.Admin.Atomic.{
  Sees, IsAtomic, Keeps-get_or_raise, Keeps-require, Sees-flush, IsAtomic-bind, IsAtomic-insert,
  IsAtomic-change, Keeps-change,
}
use grantora.Admin.Directory.{
  WorkspaceCreateRequest, ApplicationCreateRequest, UserCreateRequest, create_workspace,
  update_workspace_status, create_application, update_application_status, create_user,
  update_user_status, require_active_workspace_for,
}
use grantora.Admin.Agents.{
  AgentCreateRequest, hashed, create_agent, rotate_agent_token, update_agent_status,
}
use grantora.Admin.Roles.{
  RoleCreateRequest, create_permission, create_role, update_role_status, seed_and_flush, store_role,
  permission_unknown, missing_defaults, all_known, dedupe_permission_codes,
}
use grantora.Capabilities.Definition.{CapabilityDefinition}
use grantora.Admin.Capabilities.{
  CapabilityCreateRequest, create_capability, check_capability_definition, new_capability,
  CapabilityFromTemplateRequest, create_capability_from_template, update_capability_status,
  check_before, store_capability, from_template, check_capability_schema,
}

module _ (c : Db) where
  active-Keeps :
      (status : String) (workspace_id : ℕ)
      → Keeps (Sees c) (require_active_workspace_for status workspace_id)
  active-Keeps status workspace_id =
      Keeps-when _ _ (Keeps-bind _ _ (Keeps-get_or_raise _ _) λ _. Keeps-pure tt)

  seed-Keeps : (ps : List Permission) → Keeps (Sees c) (seed_and_flush ps)
  seed-Keeps [] = Keeps-pure tt
  seed-Keeps (p ∷ ps) = Keeps-bind _ _ (Keeps-change c _ (λ s. refl)) λ _. Sees-flush c _ _

module _ (c : Db) (env : AdminEnv) where
  hashed-Keeps : Keeps (Sees c) (hashed env)
  hashed-Keeps = Keeps-or_else_do _ _ (Keeps-raise _)

  pub create_workspace-IsAtomic :
      (payload : WorkspaceCreateRequest) → IsAtomic c (create_workspace env payload)
  unfolding create_workspace
  create_workspace-IsAtomic payload =
      IsAtomic-bind c _ _ (Keeps-require _ _)
        λ _. IsAtomic-insert c _ _ _ _ _ (λ s. refl) (λ s. refl)

  pub update_workspace_status-IsAtomic :
      (k : ℕ) (status : String) → IsAtomic c (update_workspace_status env k status)
  unfolding update_workspace_status
  update_workspace_status-IsAtomic k status =
      IsAtomic-bind c _ _ (Keeps-require _ _)
        λ _. IsAtomic-bind c _ _ (Keeps-get_or_raise _ _) λ w. search (IsAtomic-change) depth 8

  pub create_application-IsAtomic :
      (payload : ApplicationCreateRequest) → IsAtomic c (create_application env payload)
  unfolding create_application
  create_application-IsAtomic payload = IsAtomic-bind c _ _ (Keeps-require _ _) λ _.
      IsAtomic-bind c _ _ (Keeps-get_or_raise _ _)
        λ w. IsAtomic-insert c _ _ _ _ _ (λ s. refl) (λ s. refl)

  pub update_application_status-IsAtomic :
      (k : ℕ) (status : String) → IsAtomic c (update_application_status env k status)
  unfolding update_application_status
  update_application_status-IsAtomic k status = IsAtomic-bind c _ _ (Keeps-get_or_raise _ _) λ a.
      IsAtomic-bind c _ _ (Keeps-require _ _) λ _.
        IsAtomic-bind c _ _ (active-Keeps c status a.workspace_id)
          λ _. search (IsAtomic-change) depth 8

  pub create_user-IsAtomic : (payload : UserCreateRequest) → IsAtomic c (create_user env payload)
  unfolding create_user
  create_user-IsAtomic payload = IsAtomic-bind c _ _ (Keeps-require _ _) λ _.
      IsAtomic-bind c _ _ (Keeps-get_or_raise _ _)
        λ w. IsAtomic-insert c _ _ _ _ _ (λ s. refl) (λ s. refl)

  pub update_user_status-IsAtomic :
      (k : ℕ) (status : String) → IsAtomic c (update_user_status env k status)
  unfolding update_user_status
  update_user_status-IsAtomic k status = IsAtomic-bind c _ _ (Keeps-get_or_raise _ _) λ u.
      IsAtomic-bind c _ _ (Keeps-require _ _) λ _.
        IsAtomic-bind c _ _ (active-Keeps c status u.workspace_id)
          λ _. search (IsAtomic-change) depth 8

  pub create_agent-IsAtomic : (payload : AgentCreateRequest) → IsAtomic c (create_agent env payload)
  unfolding create_agent
  create_agent-IsAtomic payload = IsAtomic-bind c _ _ (Keeps-require _ _) λ _.
      IsAtomic-bind c _ _ (Keeps-get_or_raise _ _) λ w.
        IsAtomic-bind c _ _ (hashed-Keeps) λ _. IsAtomic-insert c _ _ _ _ _ (λ s. refl) (λ s. refl)

  pub rotate_agent_token-IsAtomic : (k : ℕ) → IsAtomic c (rotate_agent_token env k)
  unfolding rotate_agent_token
  rotate_agent_token-IsAtomic k = IsAtomic-bind c _ _ (Keeps-get_or_raise _ _) λ a.
      IsAtomic-bind c _ _ (Keeps-require _ _)
        λ _. IsAtomic-bind c _ _ (hashed-Keeps) λ _. search (IsAtomic-change) depth 8

  pub update_agent_status-IsAtomic :
      (k : ℕ) (status : String) → IsAtomic c (update_agent_status env k status)
  unfolding update_agent_status
  update_agent_status-IsAtomic k status = IsAtomic-bind c _ _ (Keeps-get_or_raise _ _) λ a.
      IsAtomic-bind c _ _ (Keeps-require _ _) λ _.
        IsAtomic-bind c _ _ (active-Keeps c status a.workspace_id)
          λ _. search (IsAtomic-change) depth 8

  pub create_permission-IsAtomic :
      (code : String) (description : Option String)
      → IsAtomic c (create_permission env code description)
  unfolding create_permission
  create_permission-IsAtomic code description =
      IsAtomic-bind c _ _ (Keeps-require _ _) λ _. search (IsAtomic-change) depth 8

  pub store_role-IsAtomic :
      (payload : RoleCreateRequest) (workspace_id : ℕ) (codes : List String)
      → IsAtomic c (store_role env payload workspace_id codes)
  unfolding store_role
  store_role-IsAtomic payload workspace_id codes =
      IsAtomic-insert c _ _ _ _ _ (λ s. refl) (λ s. refl)

  pub create_role-IsAtomic : (payload : RoleCreateRequest) → IsAtomic c (create_role env payload)
  unfolding create_role
  create_role-IsAtomic payload = IsAtomic-bind c _ _ (Keeps-require _ _) λ _.
      IsAtomic-bind c _ _ (Keeps-get_or_raise _ _) λ w.
        IsAtomic-bind c _ _ (Keeps-gets (λ (s : Session). missing_defaults s.db)) λ missing.
          IsAtomic-bind c _ _ (seed-Keeps c missing) λ _.
            IsAtomic-bind c _ _
              (Keeps-gets (λ (s : Session).
                all_known (dedupe_permission_codes payload.permission_codes) s.db))
              λ known. IsAtomic-bind c _ _ (Keeps-require known permission_unknown) λ _.
                store_role-IsAtomic payload w.id (dedupe_permission_codes payload.permission_codes)

  pub update_role_status-IsAtomic :
      (k : ℕ) (status : String) → IsAtomic c (update_role_status env k status)
  unfolding update_role_status
  update_role_status-IsAtomic k status = IsAtomic-bind c _ _ (Keeps-get_or_raise _ _) λ r.
      IsAtomic-bind c _ _ (Keeps-require _ _) λ _.
        IsAtomic-bind c _ _ (active-Keeps c status r.workspace_id)
          λ _. search (IsAtomic-change) depth 8

  schema-Keeps : (schema : Json) → Keeps (Sees c) (check_capability_schema env schema)
  schema-Keeps schema = Keeps-except_do _ _ (λ e. Keeps-raise _)

  pub store_capability-IsAtomic : (cap : Capability) → IsAtomic c (store_capability env cap)
  unfolding store_capability
  store_capability-IsAtomic cap = IsAtomic-insert c _ _ _ _ _ (λ s. refl) (λ s. refl)

  pub create_capability_from_template-IsAtomic :
      (payload : CapabilityFromTemplateRequest)
      → IsAtomic c (create_capability_from_template env payload)
  unfolding create_capability_from_template
  create_capability_from_template-IsAtomic payload = IsAtomic-bind c _ _ (Keeps-require _ _) λ _.
      IsAtomic-bind c _ _ (Keeps-or_else_do _ _ (Keeps-raise _)) λ t.
        IsAtomic-bind c _ _ (Keeps-get_or_raise _ _) λ w.
          IsAtomic-bind c _ _ (Keeps-get_or_raise _ _) λ a.
            IsAtomic-bind c _ _ (Keeps-require _ _) λ _.
              IsAtomic-bind c _ _ (Keeps-require _ _) λ _.
                IsAtomic-bind c _ _ (schema-Keeps t.input_schema) λ _.
                  IsAtomic-bind c _ _ (schema-Keeps t.output_schema)
                    λ _. store_capability-IsAtomic (from_template env payload t w.id a.id)

  definition-Keeps : (d : CapabilityDefinition) → Keeps (Sees c) (check_capability_definition env d)
  definition-Keeps d = Keeps-except_do _ _ (λ e. Keeps-raise _)

  pub create_capability-IsAtomic :
      (payload : CapabilityCreateRequest) → IsAtomic c (create_capability env payload)
  unfolding create_capability
  create_capability-IsAtomic payload = IsAtomic-bind c _ _ (Keeps-require _ _) λ _.
      IsAtomic-bind c _ _ (Keeps-get_or_raise _ _) λ w.
        IsAtomic-bind c _ _ (Keeps-get_or_raise _ _) λ a.
          IsAtomic-bind c _ _ (Keeps-require _ _) λ _. IsAtomic-bind c _ _ (Keeps-require _ _) λ _.
            IsAtomic-bind c _ _ (definition-Keeps payload.definition) λ _.
              IsAtomic-bind c _ _ (Keeps-require _ _)
                λ _. store_capability-IsAtomic (new_capability env payload w.id a.id)

  check_before-Keeps :
      (status : String) (cap : Capability) → Keeps (Sees c) (check_before env status cap)
  check_before-Keeps status cap = Keeps-when _ _ (
      Keeps-bind _ _ (Keeps-get_or_raise _ _)
        λ w. Keeps-bind _ _ (Keeps-get_or_raise _ _) λ a. Keeps-require _ _)

  pub update_capability_status-IsAtomic :
      (k status : String) → IsAtomic c (update_capability_status env k status)
  unfolding update_capability_status
  update_capability_status-IsAtomic k status = IsAtomic-bind c _ _ (Keeps-get_or_raise _ _) λ cap.
      IsAtomic-bind c _ _ (Keeps-require _ _) λ _.
        IsAtomic-bind c _ _ (check_before-Keeps status cap) λ _. search (IsAtomic-change) depth 8
