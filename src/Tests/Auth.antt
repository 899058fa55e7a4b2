-- ===== src/Tests/Auth.antt =====
-- Runs and witnesses for auth/: the digest of a text is the text itself.
use grantora.Prelude.{String, true, ◌≡◌, refl, ◌↔◌, Option, none, some, nat_eq}
use grantora.Prelude.Text.{partition_space, lower_codes, strip, split_comma}
use grantora.Errors.{ok, Request, ◌>>=◌}
use grantora.Config.{Settings}
use grantora.Db.Queries.{get_active_agent_by_token_hash}
use grantora.Db.Queries.Joins.{workspace_active}
use grantora.Auth.Tokens.{hash_token, verify_token, verify_token_iff}
use grantora.Auth.Bearer.{extract_bearer_token}
use grantora.Auth.Admin.{
  AdminPrincipal, Ip, request_from_trusted_oidc_proxy, is_allowed_subject, oidc_admin_principal,
  require_admin_bootstrap, require_authenticated_agent,
}
use grantora.Auth.Admin.Principals.{
  IsAuthenticated, require_agent-IsAuthenticated, IsAdmin, require_admin_bootstrap-IsAdmin,
}
use grantora.Tests.Fixture.{hermes, small_db, settings}

abbrev plain_hmac : String → String → String
plain_hmac key text = text

abbrev hermes_header : Option String
hermes_header = some "Bearer h"

verify_token_iff_example :
    (verify_token plain_hmac "h" "hmac-sha256:h" "pepper" ≡ true)
    ↔ (hash_token plain_hmac "h" "pepper" ≡ some "hmac-sha256:h")
verify_token_iff_example = verify_token_iff plain_hmac "h" "hmac-sha256:h" "pepper"

hermes_token : extract_bearer_token hermes_header "missing" "invalid" "Invalid" ≡ ok "h"
unfolding extract_bearer_token partition_space lower_codes strip
hermes_token = refl

hermes_let_in : require_authenticated_agent plain_hmac small_db settings hermes_header ≡ ok hermes
unfolding require_authenticated_agent extract_bearer_token hash_token get_active_agent_by_token_hash
    workspace_active partition_space lower_codes strip
hermes_let_in = refl

require_agent-IsAuthenticated_example :
    IsAuthenticated plain_hmac small_db settings hermes_header hermes
require_agent-IsAuthenticated_example =
    require_agent-IsAuthenticated plain_hmac small_db settings hermes_header hermes_let_in

-- The subject that a proxy on this machine names.
abbrev oidc_settings : Settings
oidc_settings = record settings { feature_oidc = true; oidc_admin_subjects = "bob, root" }

abbrev one_host : Ip
one_host = record {
  Address = String;
  Network = String;
  ip_address = λ text. some text;
  ip_network = λ text. some text;
  is_in = λ address network. true;
}

abbrev from_proxy : Request
from_proxy = record {
  state_request_id = none;
  header = λ name. some "root";
  client_host = some "127.0.0.1";
}

abbrev root : AdminPrincipal
root = record { actor_type = "admin_oidc"; subject = "root"; workspace_id = none }

root_let_in :
    require_admin_bootstrap one_host plain_hmac small_db oidc_settings from_proxy none none
    ≡ (ok root, some root)
unfolding require_admin_bootstrap oidc_admin_principal request_from_trusted_oidc_proxy
    is_allowed_subject ◌>>=◌ split_comma strip
root_let_in = refl

require_admin_bootstrap-IsAdmin_example :
    IsAdmin one_host plain_hmac small_db oidc_settings from_proxy none root
    × (some root ≡ some root)
require_admin_bootstrap-IsAdmin_example =
    require_admin_bootstrap-IsAdmin one_host plain_hmac small_db oidc_settings from_proxy none none
      root_let_in
