-- ===== src/Admin/Roles.antt =====
-- The handlers of api/admin.py for permissions and roles.
use grantora.Prelude.{
  ℕ, String, Bool, not, Option, none, some, List, [], ◌∷◌, ◌++◌, map, any, all, filter, ◌==◌,
  nat_eq, string_eq, if◌then◌else◌,
}
use grantora.Errors.{ApiError, api_error, Exec, gets, modify, pure, ◌>>=◌, ◌>>◌}
use grantora.Db.Models.{Db, Role, Permission, RolePermission}
use grantora.Db.Queries.Joins.{role_by_id}
use grantora.Admin.{
  Session, AdminEnv, get_or_raise, require, require_super_admin, require_admin_workspace,
  get_active_workspace_or_404, flush_or_conflict, admin_audit_event, add_audit, insert_and_commit,
  change_and_commit,
}
use grantora.Admin.Directory.{require_active_workspace_for}

pub record RoleCreateRequest : Type 0 where
  pub workspace_id : ℕ
  pub slug : String
  pub display_name : String
  pub permission_codes : List String
  pub status : String

abbrev pub permission_unknown : ApiError
permission_unknown = api_error 422 "permission_unknown" "Role references an unknown permission"

-- `DEFAULT_PERMISSION_DESCRIPTIONS`, in the order of the codes.
abbrev pub default_permissions : List Permission
default_permissions =
    record { code = "capability.describe"; description = some "Describe capabilities" }
    ∷ record {
      code = "capability.invoke.destructive";
      description = some "Invoke destructive capabilities";
    }
    ∷ record {
      code = "capability.invoke.read_only";
      description = some "Invoke read-only capabilities";
    }
    ∷ record {
      code = "capability.invoke.side_effect";
      description = some "Invoke side-effecting capabilities";
    }
    ∷ []

abbrev has_permission : Db → String → Bool
has_permission db code = any (λ (p : Permission). p.code == code) db.permissions

-- What `_ensure_default_permissions` adds.
abbrev pub missing_defaults : Db → List Permission
missing_defaults db = filter (λ p. not (has_permission db p.code)) default_permissions

abbrev add_permissions : List Permission → Session → Session
add_permissions ps s = record s { db = record s.db { permissions = s.db.permissions ++ ps } }

-- `if _ensure_default_permissions(session): _flush_or_conflict(…)`.
abbrev pub seed_and_flush : List Permission → Exec Session (Unit {0})
seed_and_flush [] = pure tt
seed_and_flush (p ∷ ps) =
    modify (add_permissions (p ∷ ps))
    >> flush_or_conflict "permission_conflict" "Permission could not be seeded"

-- `_dedupe_permission_codes`: the first of equal codes stays.
unfoldable pub dedupe_after : List String → List String → List String
dedupe_after seen [] = []
dedupe_after seen (c ∷ later) =
    let fresh = dedupe_after (c ∷ seen) later in
    let rest = dedupe_after seen later in if any (λ d. d == c) seen then rest else c ∷ fresh

unfoldable pub dedupe_permission_codes : List String → List String
unfolding dedupe_after
dedupe_permission_codes codes = dedupe_after [] codes

-- `_missing_permission_codes` finds none.
abbrev pub all_known : List String → Db → Bool
all_known codes db = all (has_permission db) codes

abbrev grants : ℕ → String → RolePermission
grants role_id code = record { role_id = role_id; permission_code = code }

abbrev pub add_role : Role → List String → Session → Session
add_role role codes s = record s {
  db = record s.db {
    roles = s.db.roles ++ role ∷ [];
    role_permissions = s.db.role_permissions ++ map (grants role.id) codes;
  };
}

abbrev set_role_status : ℕ → String → Session → Session
set_role_status k status s = record s {
  db = record s.db {
    roles = map (λ r. if r.id == k then record r { status = status } else r) s.db.roles;
  };
}

module _ (env : AdminEnv) where
  -- The event of a permission, which belongs to no workspace.
  abbrev permission_event : Session → Session
  permission_event =
      add_audit env (record (admin_audit_event env 0 none none none none) { workspace_id = none })

  abbrev role_event : ℕ → Session → Session
  role_event workspace_id = add_audit env (admin_audit_event env workspace_id none none none none)

  unfoldable pub create_permission : String → Option String → Exec Session Permission
  unfolding ◌>>=◌ change_and_commit
  create_permission code description = do
    require_super_admin env.admin
    let permission : Permission = record { code = code; description = description }
    change_and_commit "permission_conflict" "Permission could not be created"
        (add_permissions (permission ∷ [])) permission_event permission

  -- The row of the role, and those of its permissions.
  unfoldable pub store_role : RoleCreateRequest → ℕ → List String → Exec Session Role
  unfolding insert_and_commit
  store_role payload workspace_id permission_codes =
      let role : Role = record {
        id = env.new_id;
        workspace_id = workspace_id;
        slug = payload.slug;
        display_name = payload.display_name;
        status = payload.status;
      } in
      insert_and_commit "role_conflict" "Role could not be created" (add_role role permission_codes)
        (role_event workspace_id) role

  unfoldable pub create_role : RoleCreateRequest → Exec Session Role
  unfolding ◌>>=◌ store_role flush_or_conflict dedupe_permission_codes
  create_role payload = do
    require_admin_workspace env.admin payload.workspace_id
    workspace ← get_active_workspace_or_404 payload.workspace_id
    missing ← gets (λ (s : Session). missing_defaults s.db)
    seed_and_flush missing
    let permission_codes = dedupe_permission_codes payload.permission_codes
    known ← gets (λ (s : Session). all_known permission_codes s.db)
    require known permission_unknown
    store_role payload workspace.id permission_codes

  unfoldable pub update_role_status : ℕ → String → Exec Session Role
  unfolding ◌>>=◌ change_and_commit
  update_role_status role_id status = do
    role ←
        get_or_raise (λ db. role_by_id db role_id)
          (api_error 404 "role_not_found" "Role was not found")
    require_admin_workspace env.admin role.workspace_id
    require_active_workspace_for status role.workspace_id
    change_and_commit "role_conflict" "Role could not be updated" (set_role_status role_id status)
        (role_event role.workspace_id) (record role { status = status })
