-- ===== src/Admin/Directory.antt =====
-- The handlers of api/admin.py for workspaces, applications and users.
use grantora.Prelude.{
  ℕ, String, Option, none, some, [], ◌∷◌, ◌++◌, map, ◌==◌, nat_eq, string_eq, if◌then◌else◌,
}
use grantora.Errors.{ApiError, api_error, Exec, when, pure, ◌>>=◌, ◌>>◌}
use grantora.Db.Models.{Workspace, ApplicationInstance, User, active_status}
use grantora.Db.Queries.Joins.{workspace_by_id, application_by_id, user_by_id}
use grantora.Admin.{
  Session, AdminEnv, get_or_raise, require_super_admin, require_admin_workspace,
  get_active_workspace_or_404, admin_audit_event, add_audit, insert_and_commit, change_and_commit,
}

pub record WorkspaceCreateRequest : Type 0 where
  pub slug : String
  pub display_name : String
  pub status : String

pub record ApplicationCreateRequest : Type 0 where
  pub workspace_id : ℕ
  pub slug : String
  pub display_name : String
  pub provider_type : String
  pub base_url : Option String
  pub status : String

pub record UserCreateRequest : Type 0 where
  pub workspace_id : ℕ
  pub external_id : String
  pub display_name : String
  pub status : String

abbrev workspace_not_found : ApiError
workspace_not_found = api_error 404 "workspace_not_found" "Workspace was not found"

abbrev application_not_found : ApiError
application_not_found = api_error 404 "application_not_found" "Application was not found"

abbrev user_not_found : ApiError
user_not_found = api_error 404 "user_not_found" "User was not found"

-- The rows that are added, and the status that is assigned to a row.
abbrev add_workspace : Workspace → Session → Session
add_workspace w s = record s { db = record s.db { workspaces = s.db.workspaces ++ w ∷ [] } }

abbrev add_application : ApplicationInstance → Session → Session
add_application a s = record s {
  db = record s.db { application_instances = s.db.application_instances ++ a ∷ [] };
}

abbrev add_user : User → Session → Session
add_user u s = record s { db = record s.db { users = s.db.users ++ u ∷ [] } }

abbrev set_workspace_status : ℕ → String → Session → Session
set_workspace_status k status s = record s {
  db = record s.db {
    workspaces = map (λ w. if w.id == k then record w { status = status } else w) s.db.workspaces;
  };
}

abbrev set_application_status : ℕ → String → Session → Session
set_application_status k status s = record s {
  db = record s.db {
    application_instances =
        map (λ a. if a.id == k then record a { status = status } else a) s.db.application_instances;
  };
}

abbrev set_user_status : ℕ → String → Session → Session
set_user_status k status s = record s {
  db = record s.db {
    users = map (λ u. if u.id == k then record u { status = status } else u) s.db.users;
  };
}

-- `if payload.status == ACTIVE_STATUS: _get_active_workspace_or_404(…)`.
abbrev pub require_active_workspace_for : String → ℕ → Exec Session (Unit {0})
require_active_workspace_for status workspace_id =
    when (status == active_status) (get_active_workspace_or_404 workspace_id >> pure tt)

module _ (env : AdminEnv) where
  abbrev event_of : ℕ → Option ℕ → Option ℕ → Session → Session
  event_of workspace_id user_id application_instance_id =
      add_audit env (admin_audit_event env workspace_id none user_id none application_instance_id)

  unfoldable pub create_workspace : WorkspaceCreateRequest → Exec Session Workspace
  unfolding ◌>>=◌ insert_and_commit
  create_workspace payload = do
    require_super_admin env.admin
    let workspace : Workspace = record {
      id = env.new_id;
      slug = payload.slug;
      display_name = payload.display_name;
      status = payload.status;
    }
    insert_and_commit "workspace_conflict" "Workspace could not be created"
        (add_workspace workspace) (event_of workspace.id none none) workspace

  unfoldable pub update_workspace_status : ℕ → String → Exec Session Workspace
  unfolding ◌>>=◌ change_and_commit
  update_workspace_status workspace_id status = do
    require_admin_workspace env.admin workspace_id
    workspace ← get_or_raise (λ db. workspace_by_id db workspace_id) workspace_not_found
    change_and_commit "workspace_conflict" "Workspace could not be updated"
        (set_workspace_status workspace_id status) (event_of workspace.id none none)
        (record workspace { status = status })

  unfoldable pub create_application : ApplicationCreateRequest → Exec Session ApplicationInstance
  unfolding ◌>>=◌ insert_and_commit
  create_application payload = do
    require_admin_workspace env.admin payload.workspace_id
    workspace ← get_active_workspace_or_404 payload.workspace_id
    let application : ApplicationInstance = record {
      id = env.new_id;
      workspace_id = workspace.id;
      slug = payload.slug;
      display_name = payload.display_name;
      provider_type = payload.provider_type;
      base_url = payload.base_url;
      status = payload.status;
    }
    insert_and_commit "application_conflict" "Application could not be created"
        (add_application application) (event_of workspace.id none (some application.id)) application

  unfoldable pub update_application_status : ℕ → String → Exec Session ApplicationInstance
  unfolding ◌>>=◌ change_and_commit
  update_application_status application_id status = do
    application ← get_or_raise (λ db. application_by_id db application_id) application_not_found
    require_admin_workspace env.admin application.workspace_id
    require_active_workspace_for status application.workspace_id
    change_and_commit "application_conflict" "Application could not be updated"
        (set_application_status application_id status)
        (event_of application.workspace_id none (some application.id))
        (record application { status = status })

  unfoldable pub create_user : UserCreateRequest → Exec Session User
  unfolding ◌>>=◌ insert_and_commit
  create_user payload = do
    require_admin_workspace env.admin payload.workspace_id
    workspace ← get_active_workspace_or_404 payload.workspace_id
    let user : User = record {
      id = env.new_id;
      workspace_id = workspace.id;
      external_id = payload.external_id;
      display_name = payload.display_name;
      status = payload.status;
    }
    insert_and_commit "user_conflict" "User could not be created" (add_user user)
        (event_of workspace.id (some user.id) none) user

  unfoldable pub update_user_status : ℕ → String → Exec Session User
  unfolding ◌>>=◌ change_and_commit
  update_user_status user_id status = do
    user ← get_or_raise (λ db. user_by_id db user_id) user_not_found
    require_admin_workspace env.admin user.workspace_id
    require_active_workspace_for status user.workspace_id
    change_and_commit "user_conflict" "User could not be updated" (set_user_status user_id status)
        (event_of user.workspace_id (some user.id) none) (record user { status = status })
