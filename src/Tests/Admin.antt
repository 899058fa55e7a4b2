-- ===== src/Tests/Admin.antt =====
-- Runs and witnesses for api/admin.py: an administrator of the workspace acme.
use grantora.Prelude.{◌≡◌, refl, none, some, [], ◌∷◌, sym}
use grantora.Errors.{ok, err, ◌>>=◌}
use grantora.Db.Models.{Db, Binding, Secret}
use grantora.Db.Queries.{get_active_workspace_by_id}
use grantora.Db.Queries.Joins.{
  application_by_id, agent_by_id, user_by_id, capability_by_id, role_by_id,
}
use grantora.Auth.Admin.{AdminPrincipal}
use grantora.Secrets.{usable_value}
use grantora.Admin.{
  Session, AdminEnv, has_integrity, flush_or_conflict, commit_or_conflict, get_or_raise, require,
  admin_audit_event, conflict,
}
use grantora.Admin.Bindings.{
  BindingCreateRequest, get_parties, insert_binding, create_binding, store_status,
  update_binding_status,
}
use grantora.Admin.Bindings.Laws.{IsCreated, create-IsCreated, IsUpdated, update-IsUpdated}
use grantora.Admin.Secrets.{
  SecretCreateRequest, SecretRotateRequest, secret_stored_value, validate_secret_owner,
  validate_secret_can_be_active, encrypted, insert_secret, rotate_secret,
}
use grantora.Admin.Secrets.Rotation.{IsRotated, rotate-IsRotated, rotate-usable_value}
use grantora.Prelude.Text.{◌<>◌}
use grantora.Tests.Fixture.{lenient, small_db, hermes_for_alice, api_key, plain_cipher, settings}

abbrev pub acme_admin : AdminPrincipal
acme_admin = record { actor_type = "admin_token"; subject = "ops"; workspace_id = some 1 }

abbrev pub admin_env : AdminEnv
admin_env = record {
  settings = settings;
  cipher = plain_cipher;
  admin = acme_admin;
  request_id = "req_2";
  client_host = none;
  utc_now = 200;
  audit_event_id = 60;
  new_id = 70;
  hmac = λ key text. key <> text;
  random_token = "r";
  validator = lenient;
}

abbrev pub at_start : Session
at_start = record { db = small_db; committed = small_db }

abbrev unbound : Session
unbound = let db = record small_db { bindings = [] } in record { db = db; committed = db }

abbrev bind_hermes : BindingCreateRequest
bind_hermes = record {
  workspace_id = 1;
  agent_id = 3;
  user_id = 4;
  capability_id = "mock.phonebook.search";
  role_id = 5;
  status = "active";
}

abbrev bound : Binding
bound = record hermes_for_alice { id = 70 }

abbrev bound_db : Db
bound_db = record unbound.db {
  bindings = bound ∷ [];
  audit_events =
      admin_audit_event admin_env 1 (some 3) (some 4) (some "mock.phonebook.search") (some 2) ∷ [];
}

bound_run :
    create_binding admin_env bind_hermes unbound
    ≡ (ok bound, record { db = bound_db; committed = bound_db })
unfolding create_binding get_parties insert_binding ◌>>=◌ flush_or_conflict commit_or_conflict
    get_or_raise require has_integrity get_active_workspace_by_id agent_by_id user_by_id
    capability_by_id role_by_id
bound_run = refl

-- A second active binding with the same key is a conflict.
bound_twice :
    create_binding admin_env bind_hermes at_start
    ≡ (err (conflict "binding_conflict" "Binding could not be created"), at_start)
unfolding create_binding get_parties insert_binding ◌>>=◌ flush_or_conflict commit_or_conflict
    get_or_raise require has_integrity get_active_workspace_by_id agent_by_id user_by_id
    capability_by_id role_by_id
bound_twice = refl

create-IsCreated_example :
    IsCreated admin_env bind_hermes unbound bound (record { db = bound_db; committed = bound_db })
create-IsCreated_example = create-IsCreated admin_env bind_hermes unbound bound_run

abbrev disabled_db : Db
disabled_db = record small_db {
  bindings = record hermes_for_alice { status = "disabled" } ∷ [];
  audit_events =
      admin_audit_event admin_env 1 (some 3) (some 4) (some "mock.phonebook.search") (some 2) ∷ [];
}

disabled_run : update_binding_status admin_env 6 "disabled" at_start ≡ (
  ok (record hermes_for_alice { status = "disabled" }),
  record { db = disabled_db; committed = disabled_db },
)
unfolding update_binding_status store_status ◌>>=◌ commit_or_conflict get_or_raise require
    has_integrity capability_by_id
disabled_run = refl

update-IsUpdated_example :
    IsUpdated admin_env 6 "disabled" at_start
      (record hermes_for_alice { status = "disabled" })
      (record { db = disabled_db; committed = disabled_db })
update-IsUpdated_example = update-IsUpdated admin_env 6 "disabled" at_start disabled_run

abbrev new_secret : SecretCreateRequest
new_secret = record {
  workspace_id = 1;
  application_instance_id = 2;
  owner_type = "user";
  owner_id = 4;
  secret_type = "api_key";
  value = some "hush";
  external_reference = none;
}

abbrev new_value : SecretRotateRequest
new_value = record { value = some "hush"; external_reference = none; secret_type = none }

abbrev rotated : Secret
rotated = record api_key { id = 70; encrypted_value = "hush" }

abbrev rotated_db : Db
rotated_db = record small_db {
  secrets = record api_key { status = "revoked" } ∷ rotated ∷ [];
  audit_events = admin_audit_event admin_env 1 none none none (some 2) ∷ [];
}

rotated_run :
    rotate_secret admin_env 7 new_value at_start
    ≡ (ok rotated, record { db = rotated_db; committed = rotated_db })
unfolding rotate_secret validate_secret_can_be_active validate_secret_owner encrypted insert_secret
    secret_stored_value ◌>>=◌ flush_or_conflict commit_or_conflict get_or_raise require
    has_integrity get_active_workspace_by_id application_by_id
rotated_run = refl

rotate-IsRotated_example :
    IsRotated admin_env 7 new_value at_start rotated
      (record { db = rotated_db; committed = rotated_db })
rotate-IsRotated_example = rotate-IsRotated admin_env 7 new_value at_start rotated_run

rotate-usable_value_example : usable_value plain_cipher settings rotated ≡ some "hush"
rotate-usable_value_example =
    rotate-usable_value admin_env 7 new_value at_start "hush" (λ text c e. sym e) refl refl refl
      rotated_run
