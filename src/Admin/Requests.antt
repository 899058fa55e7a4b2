-- ===== src/Admin/Requests.antt =====
-- The requests of api/admin.py that create a row or change one, each with its handler: POST and PATCH,
-- but for POST /apisix/sync. GET /permissions, which may add the default permissions, is not among them.
pub mod Each
pub mod Whole
use grantora.Prelude.{ℕ, String, Option}
use grantora.Errors.{Exec, pure, ◌>>=◌, ◌>>◌}
use grantora.Db.Models.{Db}
use grantora.Admin.{Session, AdminEnv}
use grantora.Admin.Directory.{
  WorkspaceCreateRequest, ApplicationCreateRequest, UserCreateRequest, create_workspace,
  update_workspace_status, create_application, update_application_status, create_user,
  update_user_status,
}
use grantora.Admin.Agents.{
  AgentCreateRequest, create_agent, rotate_agent_token, update_agent_status,
}
use grantora.Admin.Roles.{RoleCreateRequest, create_permission, create_role, update_role_status}
use grantora.Admin.Capabilities.{
  CapabilityCreateRequest, create_capability, CapabilityFromTemplateRequest,
  create_capability_from_template, update_capability_status,
}
use grantora.Admin.Bindings.{BindingCreateRequest, create_binding, update_binding_status}
use grantora.Admin.Secrets.{
  SecretCreateRequest, SecretRotateRequest, create_secret, rotate_secret, update_secret_status,
}

-- A method and a path, with the body.
pub data AdminRequest : Type 0 where
  post_workspaces : WorkspaceCreateRequest → AdminRequest
  patch_workspace : ℕ → String → AdminRequest
  post_applications : ApplicationCreateRequest → AdminRequest
  patch_application : ℕ → String → AdminRequest
  post_users : UserCreateRequest → AdminRequest
  patch_user : ℕ → String → AdminRequest
  post_agents : AgentCreateRequest → AdminRequest
  post_agent_token : ℕ → AdminRequest
  patch_agent : ℕ → String → AdminRequest
  post_permissions : String → Option String → AdminRequest
  post_roles : RoleCreateRequest → AdminRequest
  patch_role : ℕ → String → AdminRequest
  post_capabilities : CapabilityCreateRequest → AdminRequest
  post_from_template : CapabilityFromTemplateRequest → AdminRequest
  patch_capability : String → String → AdminRequest
  post_bindings : BindingCreateRequest → AdminRequest
  patch_binding : ℕ → String → AdminRequest
  post_secrets : SecretCreateRequest → AdminRequest
  post_secret_rotate : ℕ → SecretRotateRequest → AdminRequest
  patch_secret : ℕ → String → AdminRequest

abbrev done : {A : Type 0} → Exec Session A → Exec Session (Unit {0})
done m = m >> pure tt

unfoldable pub handle : AdminEnv → AdminRequest → Exec Session (Unit {0})
handle env (post_workspaces payload) = done (create_workspace env payload)
handle env (patch_workspace k status) = done (update_workspace_status env k status)
handle env (post_applications payload) = done (create_application env payload)
handle env (patch_application k status) = done (update_application_status env k status)
handle env (post_users payload) = done (create_user env payload)
handle env (patch_user k status) = done (update_user_status env k status)
handle env (post_agents payload) = done (create_agent env payload)
handle env (post_agent_token k) = done (rotate_agent_token env k)
handle env (patch_agent k status) = done (update_agent_status env k status)
handle env (post_permissions code description) = done (create_permission env code description)
handle env (post_roles payload) = done (create_role env payload)
handle env (patch_role k status) = done (update_role_status env k status)
handle env (post_capabilities payload) = done (create_capability env payload)
handle env (post_from_template payload) = done (create_capability_from_template env payload)
handle env (patch_capability k status) = done (update_capability_status env k status)
handle env (post_bindings payload) = done (create_binding env payload)
handle env (patch_binding k status) = done (update_binding_status env k status)
handle env (post_secrets payload) = done (create_secret env payload)
handle env (post_secret_rotate k payload) = done (rotate_secret env k payload)
handle env (patch_secret k status) = done (update_secret_status env k status)

-- A request has a session of its own, that starts with what is committed.
abbrev pub fresh : Db → Session
fresh c = record { db = c; committed = c }
