-- ===== src/Tests/Fixture.antt =====
-- A workspace with one application, one agent, one user, a capability that the agent may invoke
-- for the user, and the records around it.
use grantora.Prelude.{true, false, none, some, [], ◌∷◌, pos}
use grantora.Json.{Json, obj, end, field, str, bool}
use grantora.Config.{Settings}
use grantora.Db.Models.{
  Db, Workspace, ApplicationInstance, Agent, User, Capability, Role, RolePermission, Binding,
  Secret,
}
use grantora.Db.Models
use grantora.Adapters.{Adapter}
use grantora.Capabilities.Validation.{JsonSchema}
use grantora.Secrets.{Cipher}
use grantora.Runtime.State.{World, Env}
use grantora.Runtime.Invoke.{InvokeRequest}

abbrev pub acme : Workspace
acme = record { id = 1; slug = "acme"; display_name = "Acme"; status = "active" }

abbrev pub phonebook : ApplicationInstance
phonebook = record {
  id = 2;
  workspace_id = 1;
  slug = "phonebook";
  display_name = "Phonebook";
  provider_type = "mock";
  base_url = none;
  status = "active";
}

abbrev pub hermes : Agent
hermes = record {
  id = 3;
  workspace_id = 1;
  slug = "hermes";
  display_name = "Hermes";
  token_hash = "hmac-sha256:h";
  token_hash_algorithm = "hmac-sha256";
  status = "active";
}

abbrev pub alice : User
alice = record {
  id = 4;
  workspace_id = 1;
  external_id = "alice";
  display_name = "Alice";
  status = "active";
}

abbrev pub closed_schema : Json
closed_schema = obj (field "type" (str "object") (field "additionalProperties" (bool false) end))

abbrev pub search : Capability
search = record {
  id = "mock.phonebook.search";
  workspace_id = 1;
  application_instance_id = 2;
  name = "Search";
  version = 1;
  provider_type = "mock";
  adapter = "mock";
  operation = "phonebook.search";
  auth_mode = "system";
  risk_class = "read_only";
  input_schema = closed_schema;
  output_schema = closed_schema;
  status = "active";
}

abbrev pub reader : Role
reader = record {
  id = 5;
  workspace_id = 1;
  slug = "reader";
  display_name = "Reader";
  status = "active";
}

abbrev pub hermes_for_alice : Binding
hermes_for_alice = record {
  id = 6;
  workspace_id = 1;
  agent_id = 3;
  user_id = 4;
  capability_id = "mock.phonebook.search";
  role_id = 5;
  status = "active";
}

abbrev pub api_key : Secret
api_key = record {
  id = 7;
  workspace_id = 1;
  application_instance_id = 2;
  owner_type = "workspace";
  owner_id = 1;
  secret_type = "api_key";
  encrypted_value = "cipher";
  status = "active";
}

abbrev pub small_db : Db
small_db = record Models.empty {
  workspaces = acme ∷ [];
  application_instances = phonebook ∷ [];
  agents = hermes ∷ [];
  users = alice ∷ [];
  capabilities = search ∷ [];
  roles = reader ∷ [];
  role_permissions =
      record { role_id = 5; permission_code = "capability.describe" }
      ∷ record { role_id = 5; permission_code = "capability.invoke.read_only" }
      ∷ [];
  bindings = hermes_for_alice ∷ [];
  secrets = api_key ∷ [];
}

abbrev pub settings : Settings
settings = record {
  public_base_url = "http://localhost:9080";
  secret_encryption_key = "key";
  agent_token_pepper = "pepper";
  admin_bootstrap_token_hash = none;
  apisix_fail_closed = true;
  apisix_runtime_upstream_node = "grantora-api:8080";
  apisix_rate_limit_count = 1000;
  apisix_rate_limit_time_window = 60;
  audit_retention_days = 365;
  usage_retention_days = 365;
  request_id_header = "X-Request-Id";
  feature_oidc = false;
  oidc_admin_subjects = "";
  oidc_subject_header = "X-Grantora-Admin-Subject";
  oidc_trusted_proxy_cidrs = "127.0.0.1/32";
  feature_external_secret_store = false;
  upstream_max_response_bytes = pos 10485760;
  upstream_read_retry_attempts = pos 2;
}

-- A validator that accepts everything, and a cipher whose texts are the key and the plain text.
abbrev pub lenient : JsonSchema
lenient = record { check_schema = λ _. true; has_no_errors = λ _ _. true }

abbrev pub plain_cipher : Cipher
plain_cipher = record { encrypt = λ _ text. some text; decrypt = λ _ text. some text }

abbrev pub mock_adapter : Adapter
mock_adapter = record {
  id = "mock";
  provider_type = "mock";
  invoke = λ _ _ _ _. some (record {
    status = "ok";
    content = obj end;
    usage_units = pos 0;
    upstream_status = some 200;
    error_code = none;
    safe_message = none;
    retryable = false;
  });
}

abbrev pub env : Env
env = record {
  settings = settings;
  validator = lenient;
  cipher = plain_cipher;
  adapters = ("mock", mock_adapter) ∷ [];
  request_id = "req_1";
  client_host = some "10.0.0.1";
  elapsed_ms = pos 12;
  utc_now = 100;
  audit_event_id = 50;
  usage_event_id = 51;
}

abbrev pub start : World
start = record {
  db = small_db;
  committed = small_db;
  metrics = [];
  calls = [];
  logs = [];
  observed = none;
}

abbrev pub for_alice : InvokeRequest
for_alice = record { user = "alice"; input = obj end }
