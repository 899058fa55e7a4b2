-- ===== src/Admin/Requests/Whole.antt =====
-- The requests of api/admin.py that create a row or change one are done as a whole or not at all.
use mathlib.Core.Path.{subst}
use grantora.Prelude.{refl, string_eq}
use grantora.Errors.{Exec}
use grantora.Db.Models.{Db}
use grantora.Admin.{Session, AdminEnv}
use grantora.Admin.Atomic.{Ends, IsAtomic, IsAtomic-forget}
use grantora.Admin.Bindings.Laws.{create-Ends, update-Ends}
use grantora.Admin.Secrets.Laws.{create_secret-Ends, rotate_secret-Ends, update_secret_status-Ends}
use grantora.Admin.Requests.{
  AdminRequest, post_workspaces, patch_workspace, post_applications, patch_application, post_users,
  patch_user, post_agents, post_agent_token, patch_agent, post_permissions, post_roles, patch_role,
  post_capabilities, post_from_template, patch_capability, post_bindings, patch_binding,
  post_secrets, post_secret_rotate, patch_secret, handle, fresh,
}
use grantora.Admin.Requests.Each.{
  create_workspace-IsAtomic, update_workspace_status-IsAtomic, create_application-IsAtomic,
  update_application_status-IsAtomic, create_user-IsAtomic, update_user_status-IsAtomic,
  create_agent-IsAtomic, rotate_agent_token-IsAtomic, update_agent_status-IsAtomic,
  create_permission-IsAtomic, create_role-IsAtomic, update_role_status-IsAtomic,
  create_capability-IsAtomic, create_capability_from_template-IsAtomic,
  update_capability_status-IsAtomic,
}

module _ (c : Db) (env : AdminEnv) where
  -- A handler of which the same is known for a session that sees what it sees.
  same-IsAtomic :
      {A : Type 0} (m : Exec Session A) → ((s : Session) → Ends s.committed (m s)) → IsAtomic c m
  same-IsAtomic m h = record { ends = λ s sees. subst (λ d. Ends d (m s)) sees (h s) }

  handle-IsAtomic : (request : AdminRequest) → IsAtomic c (handle env request)
  unfolding handle
  handle-IsAtomic (post_workspaces p) = IsAtomic-forget c _ (create_workspace-IsAtomic c env p)
  handle-IsAtomic (patch_workspace k status) =
      IsAtomic-forget c _ (update_workspace_status-IsAtomic c env k status)
  handle-IsAtomic (post_applications p) = IsAtomic-forget c _ (create_application-IsAtomic c env p)
  handle-IsAtomic (patch_application k status) =
      IsAtomic-forget c _ (update_application_status-IsAtomic c env k status)
  handle-IsAtomic (post_users p) = IsAtomic-forget c _ (create_user-IsAtomic c env p)
  handle-IsAtomic (patch_user k status) =
      IsAtomic-forget c _ (update_user_status-IsAtomic c env k status)
  handle-IsAtomic (post_agents p) = IsAtomic-forget c _ (create_agent-IsAtomic c env p)
  handle-IsAtomic (post_agent_token k) = IsAtomic-forget c _ (rotate_agent_token-IsAtomic c env k)
  handle-IsAtomic (patch_agent k status) =
      IsAtomic-forget c _ (update_agent_status-IsAtomic c env k status)
  handle-IsAtomic (post_permissions code d) =
      IsAtomic-forget c _ (create_permission-IsAtomic c env code d)
  handle-IsAtomic (post_roles p) = IsAtomic-forget c _ (create_role-IsAtomic c env p)
  handle-IsAtomic (patch_role k status) =
      IsAtomic-forget c _ (update_role_status-IsAtomic c env k status)
  handle-IsAtomic (post_capabilities p) = IsAtomic-forget c _ (create_capability-IsAtomic c env p)
  handle-IsAtomic (post_from_template p) =
      IsAtomic-forget c _ (create_capability_from_template-IsAtomic c env p)
  handle-IsAtomic (patch_capability k status) =
      IsAtomic-forget c _ (update_capability_status-IsAtomic c env k status)
  handle-IsAtomic (post_bindings p) =
      IsAtomic-forget c _ (same-IsAtomic _ (λ s. create-Ends env p s))
  handle-IsAtomic (patch_binding k status) =
      IsAtomic-forget c _ (same-IsAtomic _ (λ s. update-Ends env k status s))
  handle-IsAtomic (post_secrets p) =
      IsAtomic-forget c _ (same-IsAtomic _ (λ s. create_secret-Ends env s p))
  handle-IsAtomic (post_secret_rotate k p) =
      IsAtomic-forget c _ (same-IsAtomic _ (λ s. rotate_secret-Ends env s k p))
  handle-IsAtomic (patch_secret k status) =
      IsAtomic-forget c _ (same-IsAtomic _ (λ s. update_secret_status-Ends env s k status))

-- Each of these requests, which are the POST and PATCH requests of the administration other than the
-- synchronisation of APISIX, is done as a whole or not at all: where it succeeds, all that it did is
-- committed and meets the constraints, and where it raises, other sessions see what they saw before.
pub handle-Ends :
    (env : AdminEnv) (request : AdminRequest) (c : Db) → Ends c (handle env request (fresh c))
handle-Ends env request c = (handle-IsAtomic c env request).ends (fresh c) refl
