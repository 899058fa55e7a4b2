-- ===== src/Admin/Listing.antt =====
-- `_workspace_filter_for_admin`, `list_bindings` and `list_secrets` of api/admin.py.
pub mod Scope
use grantora.Prelude.{
  ℕ, String, Bool, true, false, ◌&&◌, ◌||◌, not, Option, none, some, List, filter, take, drop, leb,
  ◌==◌, nat_eq, string_eq, if◌then◌else◌,
}
use grantora.Errors.{ApiError, api_error, Result, ok, err}
use grantora.Db.Models.{Db, Binding, Secret, is_active}
use grantora.Db.Queries.Joins.{sort_by}
use grantora.Auth.Admin.{AdminPrincipal}

abbrev inspect_denied : ApiError
inspect_denied = api_error 403 "admin_scope_denied" "Admin is not allowed to inspect this workspace"

abbrev filter_within : ℕ → Option ℕ → Result (Option ℕ)
filter_within own none = ok (some own)
filter_within own (some requested) = if requested == own then ok (some own) else err inspect_denied

-- `_workspace_filter_for_admin`.
unfoldable pub workspace_filter_for_admin : AdminPrincipal → Option ℕ → Result (Option ℕ)
workspace_filter_for_admin admin requested = elim admin.workspace_id [
  | none ↦ ok requested
  | some own ↦ filter_within own requested
]

-- `if x is not None: where(column == x)`.
abbrev pub is_wanted_id : Option ℕ → ℕ → Bool
is_wanted_id none column = true
is_wanted_id (some wanted) column = column == wanted

abbrev pub is_wanted_text : Option String → String → Bool
is_wanted_text none column = true
is_wanted_text (some wanted) column = column == wanted

pub record BindingQuery : Type 0 where
  pub workspace_id : Option ℕ
  pub agent_id : Option ℕ
  pub user_id : Option ℕ
  pub capability_id : Option String
  pub role_id : Option ℕ
  pub include_disabled : Bool
  pub limit : ℕ
  pub offset : ℕ

abbrev pub binding_wanted : BindingQuery → Option ℕ → Binding → Bool
binding_wanted q workspace_id b =
    is_wanted_id workspace_id b.workspace_id
    && is_wanted_id q.agent_id b.agent_id
    && is_wanted_id q.user_id b.user_id
    && is_wanted_text q.capability_id b.capability_id
    && is_wanted_id q.role_id b.role_id
    && (q.include_disabled || is_active b.status)

unfoldable pub list_bindings : AdminPrincipal → Db → BindingQuery → Result (List Binding)
unfolding workspace_filter_for_admin sort_by
list_bindings admin db q = elim (workspace_filter_for_admin admin q.workspace_id) [
  | err e ↦ err e
  | ok workspace_id ↦ ok (
      take q.limit (
        drop q.offset (
          sort_by (λ (b : Binding) c. leb b.id c.id)
            (filter (binding_wanted q workspace_id) db.bindings))))
]

pub record SecretQuery : Type 0 where
  pub workspace_id : Option ℕ
  pub application_instance_id : Option ℕ
  pub owner_type : Option String
  pub owner_id : Option ℕ
  pub include_revoked : Bool
  pub limit : ℕ
  pub offset : ℕ

abbrev pub secret_wanted : SecretQuery → Option ℕ → Secret → Bool
secret_wanted q workspace_id t =
    is_wanted_id workspace_id t.workspace_id
    && is_wanted_id q.application_instance_id t.application_instance_id
    && is_wanted_text q.owner_type t.owner_type
    && is_wanted_id q.owner_id t.owner_id
    && (q.include_revoked || is_active t.status)

unfoldable pub list_secrets : AdminPrincipal → Db → SecretQuery → Result (List Secret)
unfolding workspace_filter_for_admin sort_by
list_secrets admin db q = elim (workspace_filter_for_admin admin q.workspace_id) [
  | err e ↦ err e
  | ok workspace_id ↦ ok (
      take q.limit (
        drop q.offset (
          sort_by (λ (t : Secret) u. leb t.id u.id)
            (filter (secret_wanted q workspace_id) db.secrets))))
]
