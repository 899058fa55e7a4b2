-- ===== src/Admin/Secrets.antt =====
-- `create_secret`, `rotate_secret` and `update_secret_status` of api/admin.py.
pub mod Laws
pub mod Rotation
use grantora.Prelude.{
  ℕ, String, Bool, true, false, Option, none, some, List, [], ◌∷◌, ◌++◌, map, find?, ◌==◌, nat_eq,
  string_eq, if◌then◌else◌,
}
use grantora.Errors.{
  ApiError, api_error, Result, ok, err, Exec, pure, raise, gets, lift, modify, when, or_else_do,
  or_default, ◌>>=◌, ◌>>◌,
}
use grantora.Db.Models.{
  Db, Workspace, ApplicationInstance, Agent, User, Secret, AuditEvent, is_active, active_status,
  revoked_status,
}
use grantora.Secrets.{stored_external_secret_reference}
use grantora.Admin.{
  Session, AdminEnv, flush_or_conflict, commit_or_conflict, get_or_raise, require,
  require_admin_workspace, require_same_workspace, get_active_workspace_or_404,
  get_active_application_or_404, get_active_agent_or_404, get_active_user_or_404, admin_audit_event,
  add_audit, keep_if,
}

-- `AdminSecretCreateRequest` and `AdminSecretRotateRequest`.
pub record SecretCreateRequest : Type 0 where
  pub workspace_id : ℕ
  pub application_instance_id : ℕ
  pub owner_type : String
  pub owner_id : ℕ
  pub secret_type : String
  pub value : Option String
  pub external_reference : Option String

pub record SecretRotateRequest : Type 0 where
  pub value : Option String
  pub external_reference : Option String
  pub secret_type : Option String

abbrev owner_mismatch : ApiError
owner_mismatch =
    api_error 422 "secret_owner_mismatch" "Secret owner does not belong to the workspace"

abbrev owner_invalid : ApiError
owner_invalid = api_error 422 "secret_owner_invalid" "Secret owner type is invalid"

abbrev require_user_owner : ℕ → ℕ → Exec Session (Unit {0})
require_user_owner workspace_id owner_id = do
  user ← get_active_user_or_404 owner_id
  require_same_workspace user.workspace_id workspace_id "user_workspace_mismatch"

abbrev require_agent_owner : ℕ → ℕ → Exec Session (Unit {0})
require_agent_owner workspace_id owner_id = do
  agent ← get_active_agent_or_404 owner_id
  require_same_workspace agent.workspace_id workspace_id "agent_workspace_mismatch"

-- `_validate_secret_owner`.
unfoldable pub validate_secret_owner : ℕ → String → ℕ → Exec Session (Unit {0})
validate_secret_owner workspace_id owner_type owner_id =
    if owner_type == "workspace"
    then require (owner_id == workspace_id) owner_mismatch
    else if owner_type == "user"
    then require_user_owner workspace_id owner_id
    else if owner_type == "agent"
    then require_agent_owner workspace_id owner_id
    else raise owner_invalid

-- `_secret_stored_value`.
unfoldable pub secret_stored_value : Option String → Option String → Result String
secret_stored_value value (some reference) = ok (stored_external_secret_reference reference)
secret_stored_value none none = err (api_error 422 "secret_value_invalid" "Secret value is invalid")
secret_stored_value (some value) none = ok value

-- `_validate_secret_can_be_active`.
unfoldable pub validate_secret_can_be_active : Secret → Exec Session (Unit {0})
unfolding validate_secret_owner
validate_secret_can_be_active secret = do
  workspace ← get_active_workspace_or_404 secret.workspace_id
  application ← get_active_application_or_404 secret.application_instance_id
  require_same_workspace application.workspace_id workspace.id "application_workspace_mismatch"
  validate_secret_owner workspace.id secret.owner_type secret.owner_id

abbrev pub secret_by_id : ℕ → Db → Option Secret
secret_by_id k db = find? (λ t. t.id == k) db.secrets

abbrev secret_not_found : ApiError
secret_not_found = api_error 404 "secret_not_found" "Secret was not found"

-- The assignment of a status to the row that the session holds.
abbrev pub with_status : ℕ → String → List Secret → List Secret
with_status k status secrets =
    map (λ t. if t.id == k then record t { status = status } else t) secrets

abbrev pub set_secret_status : ℕ → String → Session → Session
set_secret_status k status s = record s {
  db = record s.db { secrets = with_status k status s.db.secrets };
}

abbrev pub add_secret : Secret → Session → Session
add_secret t s = record s { db = record s.db { secrets = s.db.secrets ++ t ∷ [] } }

module _ (env : AdminEnv) where
  abbrev if_owned : String → String → ℕ → Option ℕ
  if_owned kind owner_type owner_id = if owner_type == kind then some owner_id else none

  -- `_record_secret_admin_audit_event`.
  abbrev pub secret_event : Secret → AuditEvent
  secret_event t =
      admin_audit_event env t.workspace_id (if_owned "agent" t.owner_type t.owner_id)
        (if_owned "user" t.owner_type t.owner_id) none (some t.application_instance_id)

  -- The value to store, encrypted.
  unfoldable pub encrypted : Option String → Option String → Exec Session String
  encrypted value external_reference = do
    stored ← lift (secret_stored_value value external_reference)
    or_else_do (env.cipher.encrypt env.settings.secret_encryption_key stored)
        (raise (api_error 500 "secret_encryption_unavailable" "Secret encryption is unavailable"))

  -- A new row, its event and the commit; `conflict_message` is the message of the conflict.
  unfoldable pub insert_secret : Secret → String → Exec Session Secret
  insert_secret t conflict_message = do
    modify (add_secret t)
    flush_or_conflict "secret_conflict" conflict_message
    modify (add_audit env (secret_event t))
    commit_or_conflict "secret_conflict" conflict_message
    pure t

  unfoldable pub create_secret : SecretCreateRequest → Exec Session Secret
  unfolding validate_secret_owner encrypted insert_secret
  create_secret payload = do
    require_admin_workspace env.admin payload.workspace_id
    workspace ← get_active_workspace_or_404 payload.workspace_id
    application ← get_active_application_or_404 payload.application_instance_id
    require (application.workspace_id == workspace.id) (
        api_error 422 "application_workspace_mismatch"
          "Application does not belong to the workspace")
    validate_secret_owner workspace.id payload.owner_type payload.owner_id
    encrypted_value ← encrypted payload.value payload.external_reference
    insert_secret
        (record {
          id = env.new_id;
          workspace_id = workspace.id;
          application_instance_id = application.id;
          owner_type = payload.owner_type;
          owner_id = payload.owner_id;
          secret_type = payload.secret_type;
          encrypted_value = encrypted_value;
          status = active_status;
        })
        "Secret could not be created"

  -- The row that replaces a secret.
  abbrev pub replacement : Secret → SecretRotateRequest → String → Secret
  replacement old payload encrypted_value = record old {
    id = env.new_id;
    secret_type = or_default payload.secret_type old.secret_type;
    encrypted_value = encrypted_value;
    status = active_status;
  }

  unfoldable pub rotate_secret : ℕ → SecretRotateRequest → Exec Session Secret
  unfolding validate_secret_can_be_active encrypted insert_secret
  rotate_secret secret_id payload = do
    old ←
        get_or_raise (λ db. keep_if (λ t. is_active t.status) (secret_by_id secret_id db))
          secret_not_found
    require_admin_workspace env.admin old.workspace_id
    validate_secret_can_be_active old
    encrypted_value ← encrypted payload.value payload.external_reference
    modify (set_secret_status secret_id revoked_status)
    insert_secret (replacement old payload encrypted_value) "Secret could not be rotated"

  unfoldable pub update_secret_status : ℕ → String → Exec Session Secret
  unfolding validate_secret_can_be_active
  update_secret_status secret_id status = do
    secret ← get_or_raise (secret_by_id secret_id) secret_not_found
    require_admin_workspace env.admin secret.workspace_id
    when (status == active_status) (validate_secret_can_be_active secret)
    modify (set_secret_status secret_id status)
    modify (add_audit env (secret_event secret))
    commit_or_conflict "secret_conflict" "Secret could not be updated"
    pure (record secret { status = status })
