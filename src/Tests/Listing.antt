-- ===== src/Tests/Listing.antt =====
-- Runs and witnesses for the listings of api/admin.py.
use grantora.Prelude.{◌≡◌, refl, none, false, [], ◌∷◌}
use grantora.Errors.{ok}
use grantora.Db.Models.{Binding, Secret}
use grantora.Admin.Listing.{BindingQuery, SecretQuery, list_bindings, list_secrets}
use grantora.Admin.Listing.Scope.{IsPage, list_bindings-IsPage, list_secrets-IsPage}
use grantora.Tests.Fixture.{small_db, hermes_for_alice, api_key}
use grantora.Tests.Admin.{acme_admin}

abbrev all_bindings : BindingQuery
all_bindings = record {
  workspace_id = none;
  agent_id = none;
  user_id = none;
  capability_id = none;
  role_id = none;
  include_disabled = false;
  limit = 100;
  offset = 0;
}

abbrev all_secrets : SecretQuery
all_secrets = record {
  workspace_id = none;
  application_instance_id = none;
  owner_type = none;
  owner_id = none;
  include_revoked = false;
  limit = 100;
  offset = 0;
}

bindings_listed : list_bindings acme_admin small_db all_bindings ≡ ok (hermes_for_alice ∷ [])
unfolding list_bindings
bindings_listed = refl

secrets_listed : list_secrets acme_admin small_db all_secrets ≡ ok (api_key ∷ [])
unfolding list_secrets
secrets_listed = refl

list_bindings-IsPage_example :
    IsPage
      (λ (b : Binding). b.workspace_id)
      (λ b. b.status)
      acme_admin
      small_db.bindings
      false
      100
      (hermes_for_alice ∷ [])
list_bindings-IsPage_example = list_bindings-IsPage acme_admin small_db all_bindings bindings_listed

list_secrets-IsPage_example :
    IsPage
      (λ (t : Secret). t.workspace_id)
      (λ t. t.status)
      acme_admin
      small_db.secrets
      false
      100
      (api_key ∷ [])
list_secrets-IsPage_example = list_secrets-IsPage acme_admin small_db all_secrets secrets_listed
