-- ===== src/Tests/Requests.antt =====
-- Runs and witnesses for the handlers of api/admin.py as a whole.
use grantora.Prelude.{◌≡◌, refl, true, false, none, some, [], ◌∷◌, String}
use grantora.Errors.{ok, err, api_error}
use grantora.Db.Models.{Db, Capability}
use grantora.Admin.{has_integrity, admin_audit_event, conflict, get_or_raise, require}
use grantora.Db.Queries.{get_active_workspace_by_id}
use grantora.Db.Queries.Joins.{application_by_id}
use grantora.Admin.Atomic.{Ends}
use grantora.Admin.Directory.{UserCreateRequest, create_user}
use grantora.Admin.Roles.{create_role}
use grantora.Admin.Agents.{with_token_hash}
use grantora.Capabilities.Validation.{shape_ok}
use grantora.Capabilities.Validation.Shape.{walk_schema_nodes}
use grantora.Capabilities.Definition.{CapabilityDefinition, is_capability_id, is_identifier}
use grantora.Admin.Capabilities.{CapabilityCreateRequest, new_capability, create_capability}
use grantora.Admin.Capabilities.Created.{IsCreated, create_capability-IsCreated}
use grantora.Admin.Requests.{handle, fresh, post_users}
use grantora.Admin.Requests.Whole.{handle-Ends}
use grantora.Tests.Fixture.{small_db, search, closed_schema, hermes}
use grantora.Tests.Admin.{admin_env, at_start}

abbrev new_hash : String
new_hash = "hmac-sha256:peppergrt_agent_r"

abbrev rotated_db : Db
rotated_db = record small_db {
  agents = with_token_hash new_hash hermes ∷ [];
  audit_events = admin_audit_event admin_env 1 (some 3) none none none ∷ [];
}

abbrev alice_again : UserCreateRequest
alice_again = record {
  workspace_id = 1;
  external_id = "alice";
  display_name = "Alice";
  status = "active";
}

-- An external id can be used once in a workspace.
second_alice :
    create_user admin_env alice_again at_start
    ≡ (err (conflict "user_conflict" "User could not be created"), at_start)
unfolding create_user require get_or_raise get_active_workspace_by_id has_integrity
second_alice = refl

-- A role with a permission that nobody has defined.
unknown_permission :
    (create_role admin_env
      (record {
        workspace_id = 1;
        slug = "writer";
        display_name = "Writer";
        permission_codes = "capability.invoke.read_only" ∷ "nothing" ∷ [];
        status = "active";
      })
      at_start).0
    ≡ err (api_error 422 "permission_unknown" "Role references an unknown permission")
unfolding create_role require get_or_raise get_active_workspace_by_id has_integrity
unknown_permission = refl

handle-Ends_example : Ends small_db (handle admin_env (post_users alice_again) (fresh small_db))
handle-Ends_example = handle-Ends admin_env (post_users alice_again) small_db

abbrev get_person : CapabilityDefinition
get_person = record {
  capability_id = "mock.phonebook.get";
  name = "Get";
  provider_type = "mock";
  adapter = "mock";
  operation = "phonebook.get";
  auth_mode = "system";
  risk_class = "read_only";
  input_schema = closed_schema;
  output_schema = closed_schema;
}

abbrev add_get_person : CapabilityCreateRequest
add_get_person = record {
  workspace_id = 1;
  application_instance_id = 2;
  version = 1;
  definition = get_person;
  status = "active";
}

abbrev person_capability : Capability
person_capability = new_capability admin_env add_get_person 1 2

abbrev extended_db : Db
extended_db = record small_db {
  capabilities = search ∷ person_capability ∷ [];
  audit_events = admin_audit_event admin_env 1 none none (some "mock.phonebook.get") (some 2) ∷ [];
}

created_run :
    create_capability admin_env add_get_person at_start
    ≡ (ok person_capability, record { db = extended_db; committed = extended_db })
unfolding create_capability get_or_raise get_active_workspace_by_id require has_integrity
    application_by_id shape_ok walk_schema_nodes
created_run = refl

create_capability-IsCreated_example :
    IsCreated admin_env add_get_person at_start person_capability
      (record { db = extended_db; committed = extended_db })
create_capability-IsCreated_example =
    create_capability-IsCreated admin_env add_get_person at_start created_run

-- An operation that hands a request through.
raw_is_refused :
    (create_capability admin_env
      (record add_get_person { definition = record get_person { operation = "http.get" } })
      at_start).0
    ≡ err (
        api_error 422 "raw_passthrough_unavailable"
          "Raw upstream passthrough capabilities are not available")
unfolding create_capability get_or_raise get_active_workspace_by_id require has_integrity
    application_by_id shape_ok walk_schema_nodes
raw_is_refused = refl

two_dots : is_capability_id "mock..get" ≡ false
unfolding is_capability_id
two_dots = refl

underscores : is_identifier "a__b_" ≡ true
unfolding is_identifier
underscores = refl
