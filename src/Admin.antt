-- ===== src/Admin.antt =====
-- api/admin.py: the session of a handler, the guards and the lookups that the handlers share.
pub mod Atomic
pub mod Steps
pub mod Bindings
pub mod Secrets
pub mod Listing
pub mod Directory
pub mod Agents
pub mod Roles
pub mod Capabilities
pub mod Requests
use grantora.Prelude.{
  ℕ, String, Bool, true, false, ◌&&◌, ◌||◌, not, Option, none, some, List, [], ◌∷◌, ◌++◌, ◌==◌,
  nat_eq, string_eq, any, if◌then◌else◌,
}
use grantora.Errors.{
  ApiError, api_error, Result, ok, err, Exec, pure, raise, gets, modify, when, or_else_do, ◌>>=◌,
  ◌>>◌,
}
use grantora.Config.{Settings}
use grantora.Db.Models.{
  Db, Workspace, ApplicationInstance, Agent, User, Capability, Role, Binding, Secret, AuditEvent,
  Permission, RolePermission, is_active,
}
use grantora.Db.Queries.{get_active_workspace_by_id}
use grantora.Db.Queries.Joins.{
  application_by_id, agent_by_id, user_by_id, capability_by_id, role_by_id,
}
use grantora.Auth.Admin.{AdminPrincipal, is_super_admin}
use grantora.Secrets.{Cipher}
use grantora.Capabilities.Validation.{JsonSchema}

-- `db` is what the session sees, `committed` what other sessions see.
pub record Session : Type 0 where
  pub db : Db
  pub committed : Db

-- What a request meets.
pub record AdminEnv : Type 0 where
  pub settings : Settings
  pub cipher : Cipher
  pub admin : AdminPrincipal
  pub request_id : String
  pub client_host : Option String
  pub utc_now : ℕ
  pub audit_event_id : ℕ
  pub new_id : ℕ
  pub hmac : String → String → String
  pub random_token : String
  pub validator : JsonSchema

-- The unique index on the active bindings, and the one on the active secrets.
abbrev pub same_binding_key : Binding → Binding → Bool
same_binding_key b c =
    is_active b.status
    && is_active c.status
    && b.workspace_id == c.workspace_id
    && b.agent_id == c.agent_id
    && b.user_id == c.user_id
    && b.capability_id == c.capability_id

abbrev pub same_secret_key : Secret → Secret → Bool
same_secret_key s t =
    is_active s.status
    && is_active t.status
    && s.workspace_id == t.workspace_id
    && s.application_instance_id == t.application_instance_id
    && s.owner_type == t.owner_type
    && s.owner_id == t.owner_id

abbrev pub no_two {ℓ} : {A : Type ℓ} → (A → A → Bool) → List A → Bool
no_two same [] = true
no_two same (x ∷ xs) = not (any (same x) xs) && no_two same xs

-- The other unique columns: slugs and external ids within a workspace, the slugs of workspaces, the
-- hashes of agent tokens, and the keys that an administrator chooses.
unfoldable pub has_unique_names : Db → Bool
has_unique_names db =
    no_two (λ (v : Workspace) w. v.slug == w.slug) db.workspaces
    && no_two (λ (a : ApplicationInstance) b. a.workspace_id == b.workspace_id && a.slug == b.slug)
        db.application_instances
    && no_two
        (λ (a : Agent) b.
          (a.workspace_id == b.workspace_id && a.slug == b.slug) || a.token_hash == b.token_hash)
        db.agents
    && no_two (λ (u : User) v. u.workspace_id == v.workspace_id && u.external_id == v.external_id)
        db.users
    && no_two (λ (c : Capability) d. c.id == d.id) db.capabilities
    && no_two (λ (r : Role) s. r.workspace_id == s.workspace_id && r.slug == s.slug) db.roles
    && no_two (λ (p : Permission) q. p.code == q.code) db.permissions
    && no_two
        (λ (p : RolePermission) q. p.role_id == q.role_id && p.permission_code == q.permission_code)
        db.role_permissions

-- The constraints that these handlers can break: with one broken, `flush` and `commit` raise
-- `IntegrityError`. The rows that they refer to have been looked up, the identifiers that they give
-- are random, and in a flush the library writes updates before inserts.
unfoldable pub has_integrity : Db → Bool
unfolding has_unique_names
has_integrity db =
    no_two same_binding_key db.bindings && no_two same_secret_key db.secrets && has_unique_names db

abbrev pub conflict : String → String → ApiError
conflict code message = api_error 409 code message

-- `session.rollback()`.
abbrev pub rollback : Session → Session
rollback s = record s { db = s.committed }

-- `_flush_or_conflict` and `_commit_or_conflict`.
unfoldable pub flush_or_conflict : String → String → Exec Session (Unit {0})
flush_or_conflict code message s =
    if has_integrity s.db then (ok tt, s) else (err (conflict code message), rollback s)

unfoldable pub commit_or_conflict : String → String → Exec Session (Unit {0})
commit_or_conflict code message s =
    if has_integrity s.db
    then (ok tt, record s { committed = s.db })
    else (err (conflict code message), rollback s)

-- `if x is None: raise e`, for what a lookup returns, and `if not test: raise e`.
unfoldable pub get_or_raise : {A : Type 0} → (Db → Option A) → ApiError → Exec Session A
unfolding ◌>>=◌
get_or_raise lookup e = do found ← gets (λ (s : Session). lookup s.db); or_else_do found (raise e)

unfoldable pub require : Bool → ApiError → Exec Session (Unit {0})
unfolding ◌>>=◌
require test e = when (not test) (raise e)

abbrev pub admin_scope_denied : ApiError
admin_scope_denied =
    api_error 403 "admin_scope_denied" "Admin is not allowed to manage this workspace"

-- `_require_admin_workspace`.
abbrev pub manages : AdminPrincipal → ℕ → Bool
manages admin workspace_id = elim admin.workspace_id [ none ↦ true | some w ↦ w == workspace_id ]

abbrev pub require_admin_workspace : AdminPrincipal → ℕ → Exec Session (Unit {0})
require_admin_workspace admin workspace_id = require (manages admin workspace_id) admin_scope_denied

-- `_require_same_workspace`.
abbrev pub require_same_workspace : ℕ → ℕ → String → Exec Session (Unit {0})
require_same_workspace actual expected code =
    require (actual == expected)
      (api_error 422 code "Referenced resource does not belong to the workspace")

abbrev pub keep_if {ℓ} : {A : Type ℓ} → (A → Bool) → Option A → Option A
keep_if p none = none
keep_if p (some a) = if p a then some a else none

-- The lookups of `_get_active_…_or_404`.
abbrev pub active_application : ℕ → Db → Option ApplicationInstance
active_application k db = keep_if (λ a. is_active a.status) (application_by_id db k)

abbrev pub active_agent : ℕ → Db → Option Agent
active_agent k db = keep_if (λ a. is_active a.status) (agent_by_id db k)

abbrev pub the_active_user : ℕ → Db → Option User
the_active_user k db = keep_if (λ u. is_active u.status) (user_by_id db k)

abbrev pub active_capability : String → Db → Option Capability
active_capability k db = keep_if (λ c. is_active c.status) (capability_by_id db k)

abbrev pub active_role : ℕ → Db → Option Role
active_role k db = keep_if (λ r. is_active r.status) (role_by_id db k)

abbrev pub get_active_workspace_or_404 : ℕ → Exec Session Workspace
get_active_workspace_or_404 k =
    get_or_raise (λ db. get_active_workspace_by_id db k)
      (api_error 404 "workspace_not_found" "Workspace was not found")

abbrev pub get_active_application_or_404 : ℕ → Exec Session ApplicationInstance
get_active_application_or_404 k =
    get_or_raise (active_application k)
      (api_error 404 "application_not_found" "Application was not found")

abbrev pub get_active_agent_or_404 : ℕ → Exec Session Agent
get_active_agent_or_404 k =
    get_or_raise (active_agent k) (api_error 404 "agent_not_found" "Agent was not found")

abbrev pub get_active_user_or_404 : ℕ → Exec Session User
get_active_user_or_404 k =
    get_or_raise (the_active_user k) (api_error 404 "user_not_found" "User was not found")

abbrev pub get_active_capability_or_404 : String → Exec Session Capability
get_active_capability_or_404 k =
    get_or_raise (active_capability k)
      (api_error 404 "capability_not_found" "Capability was not found")

abbrev pub get_active_role_or_404 : ℕ → Exec Session Role
get_active_role_or_404 k =
    get_or_raise (active_role k) (api_error 404 "role_not_found" "Role was not found")

-- `_require_super_admin`.
abbrev pub require_super_admin : AdminPrincipal → Exec Session (Unit {0})
require_super_admin admin =
    require (is_super_admin admin)
      (api_error 403 "admin_scope_denied" "Admin is not allowed to manage this resource")

-- What the handlers that change one row have in common: an insert is flushed before the event is
-- added, and both are committed.
module _ {A : Type 0} (code message : String) where
  unfoldable pub insert_and_commit : (Session → Session) → (Session → Session) → A → Exec Session A
  unfolding ◌>>=◌ flush_or_conflict commit_or_conflict
  insert_and_commit add_row add_event a = do
    modify add_row
    flush_or_conflict code message
    modify add_event
    commit_or_conflict code message
    pure a

  unfoldable pub change_and_commit : (Session → Session) → (Session → Session) → A → Exec Session A
  unfolding ◌>>=◌ commit_or_conflict
  change_and_commit change_row add_event a = do
    modify change_row
    modify add_event
    commit_or_conflict code message
    pure a

module _ (env : AdminEnv) where
  -- The event that `_record_admin_audit_event` adds.
  unfoldable pub admin_audit_event : ℕ → Option ℕ → Option ℕ → Option String → Option ℕ → AuditEvent
  admin_audit_event workspace_id agent_id user_id capability_id application_instance_id = record {
    id = env.audit_event_id;
    timestamp = env.utc_now;
    request_id = env.request_id;
    actor_type = env.admin.actor_type;
    workspace_id = some workspace_id;
    agent_id = agent_id;
    user_id = user_id;
    capability_id = capability_id;
    application_instance_id = application_instance_id;
    decision = "allow";
    outcome = "success";
    error_code = none;
    latency_ms = 0;
    remote_addr = env.client_host;
  }

  abbrev pub add_audit : AuditEvent → Session → Session
  add_audit e s = record s { db = record s.db { audit_events = s.db.audit_events ++ e ∷ [] } }
