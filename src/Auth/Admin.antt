-- ===== src/Auth/Admin.antt =====
-- `require_admin_bootstrap`, its OIDC part and `require_authenticated_agent` of
-- auth/dependencies.py. What the request handlers remember of the principal is the state.
pub mod Principals
use grantora.Prelude.{
  ℕ, String, Bool, true, false, ◌&&◌, ◌||◌, not, Option, none, some, List, [], ◌∷◌, any, map,
  filter, ◌==◌, string_eq, if◌then◌else◌,
}
use grantora.Prelude.Text.{strip, split_comma}
use grantora.Errors.{
  ApiError, Result, ok, err, Exec, Request, pure, raise, lift, modify, or_else_do, ◌>>=◌, ◌>>◌,
}
use grantora.Config.{Settings}
use grantora.Db.Models.{Db, Agent, AdminCredential}
use grantora.Db.Queries.{get_active_agent_by_token_hash, get_active_admin_credential_by_token_hash}
use grantora.Auth.Tokens.{hash_token, verify_token}
use grantora.Auth.Bearer.{extract_bearer_token, unauthorized}

-- `AdminPrincipal`.
pub record AdminPrincipal : Type 0 where
  pub actor_type : String
  pub subject : String
  pub workspace_id : Option ℕ

-- The property `is_super_admin`.
abbrev pub is_super_admin : AdminPrincipal → Bool
is_super_admin principal = elim principal.workspace_id [ none ↦ true | some _ ↦ false ]

-- `ip_address` and `ip_network` of `ipaddress`, `none` where they raise, and `address in network`.
pub record Ip : Type 1 where
  pub Address : Type 0
  pub Network : Type 0
  pub ip_address : String → Option Address
  pub ip_network : String → Option Network
  pub is_in : Address → Network → Bool

abbrev pub invalid_admin : ApiError
invalid_admin = unauthorized "admin_auth_invalid" "Invalid admin token"

abbrev pub invalid_agent : ApiError
invalid_agent = unauthorized "agent_auth_invalid" "Invalid agent token"

module _ (ip : Ip) where
  open ip use {Address, Network, ip_address, ip_network, is_in}

  -- The loop over the networks: one that cannot be read refuses the request.
  trusted_from : Address → Bool → List String → Bool
  trusted_from client trusted [] = trusted
  trusted_from client trusted (raw_network ∷ more) =
      let network_value = strip raw_network in
      let skipped = trusted_from client trusted more in
      let inside = trusted_from client true more in
      if network_value == "" then skipped else elim (ip_network network_value) [
        | none ↦ false
        | some network ↦ if is_in client network then inside else skipped
      ]

  trusted_client : Option String → String → Bool
  trusted_client none cidrs = false
  trusted_client (some client_host) cidrs =
      if client_host == "" then false else elim (ip_address client_host) [
        | none ↦ false
        | some client ↦ trusted_from client false (split_comma cidrs)
      ]

  -- `_request_from_trusted_oidc_proxy`.
  unfoldable pub request_from_trusted_oidc_proxy : Request → String → Bool
  unfolding trusted_client trusted_from
  request_from_trusted_oidc_proxy request cidrs = trusted_client request.client_host cidrs

  -- `subject in {item.strip() for item in …split(",") if item.strip()}`.
  unfoldable pub is_allowed_subject : String → String → Bool
  is_allowed_subject subjects subject =
      any (λ item. item == subject)
        (filter (λ item. not (item == "")) (map strip (split_comma subjects)))

  -- `_oidc_admin_principal`: `none` where the request carries no OIDC subject, or the feature is off.
  abbrev principal_of_subject : Settings → Request → Option String → Result (Option AdminPrincipal)
  principal_of_subject settings request none = ok none
  principal_of_subject settings request (some subject) =
      if subject == ""
      then ok none
      else if not (request_from_trusted_oidc_proxy request settings.oidc_trusted_proxy_cidrs)
      then err invalid_admin
      else if not (is_allowed_subject settings.oidc_admin_subjects subject)
      then err invalid_admin
      else ok (some (record { actor_type = "admin_oidc"; subject = subject; workspace_id = none }))

  unfoldable pub oidc_admin_principal : Settings → Request → Result (Option AdminPrincipal)
  oidc_admin_principal settings request =
      if not settings.feature_oidc
      then ok none
      else principal_of_subject settings request (request.header settings.oidc_subject_header)

  module _ (hmac : String → String → String) (db : Db) (settings : Settings) where
    abbrev matches_bootstrap : Option String → String → Bool
    matches_bootstrap none token = false
    matches_bootstrap (some stored_hash) token =
        not (stored_hash == "") && verify_token hmac token stored_hash settings.agent_token_pepper

    -- `not settings.admin_bootstrap_token_hash`.
    abbrev is_unset : Option String → Bool
    is_unset none = true
    is_unset (some stored_hash) = stored_hash == ""

    abbrev credential_principal : AdminCredential → AdminPrincipal
    credential_principal c = record {
      actor_type = "admin_token";
      subject = c.subject;
      workspace_id = c.workspace_id;
    }

    -- The principal of a token whose hash is `token_hash`.
    abbrev principal_of_hash : String → String → Result AdminPrincipal
    principal_of_hash token token_hash =
        if matches_bootstrap settings.admin_bootstrap_token_hash token
        then ok
            (record { actor_type = "admin_bootstrap"; subject = "bootstrap"; workspace_id = none })
        else elim (get_active_admin_credential_by_token_hash db token_hash) [
          | some c ↦ ok (credential_principal c)
          | none ↦
              if is_unset settings.admin_bootstrap_token_hash
              then err
                  (unauthorized "admin_auth_unavailable" "Admin authentication is not configured")
              else err invalid_admin
        ]

    abbrev principal_of_token : Result String → Result AdminPrincipal
    principal_of_token (err e) = err e
    principal_of_token (ok token) = elim (hash_token hmac token settings.agent_token_pepper) [
      | none ↦ err invalid_admin
      | some token_hash ↦ principal_of_hash token token_hash
    ]

    abbrev principal_or : Result (Option AdminPrincipal) → Option String → Result AdminPrincipal
    principal_or (err e) authorization = err e
    principal_or (ok (some principal)) authorization = ok principal
    principal_or (ok none) authorization = principal_of_token (
        extract_bearer_token authorization "admin_auth_missing" "admin_auth_invalid"
          "Invalid admin token")

    -- `require_admin_bootstrap`. The principal is also stored in the state of the request.
    unfoldable pub require_admin_bootstrap :
        Request → Option String → Exec (Option AdminPrincipal) AdminPrincipal
    require_admin_bootstrap request authorization = do
      principal ← lift (principal_or (oidc_admin_principal settings request) authorization)
      modify (λ _. some principal)
      pure principal

module _ (hmac : String → String → String) (db : Db) (settings : Settings) where
  abbrev agent_of_hash : Option String → Result Agent
  agent_of_hash none = err invalid_agent
  agent_of_hash (some token_hash) = elim (get_active_agent_by_token_hash db token_hash) [
    | none ↦ err invalid_agent
    | some agent ↦ ok agent
  ]

  abbrev agent_of_token : Result String → Result Agent
  agent_of_token (err e) = err e
  agent_of_token (ok token) = agent_of_hash (hash_token hmac token settings.agent_token_pepper)

  -- `require_authenticated_agent`.
  unfoldable pub require_authenticated_agent : Option String → Result Agent
  require_authenticated_agent authorization = agent_of_token (
      extract_bearer_token authorization "agent_auth_missing" "agent_auth_invalid"
        "Invalid agent token")
