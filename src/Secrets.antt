-- ===== src/Secrets.antt =====
-- secrets/: the cipher that the code calls, the value behind a stored secret, and the secret that
-- an invocation uses.
use grantora.Prelude.{
  ℕ, String, Bool, ◌||◌, not, Option, none, some, ◌==◌, string_eq, if◌then◌else◌,
}
use grantora.Prelude.Text.{starts_with, drop_chars, text_length, ◌<>◌}
use grantora.Config.{Settings}
use grantora.Db.Models.{Db, Capability, User, Secret}
use grantora.Db.Queries.{get_active_secret_for_owner}
use grantora.Adapters.{SecretMaterial}
use grantora.Metrics.{Metric, secret_resolution}

-- `SecretCipher` over the library's Fernet: the key first, `none` where the library refuses the key
-- or the text.
pub record Cipher : Type 0 where
  pub encrypt : String → String → Option String
  pub decrypt : String → String → Option String

abbrev pub external_secret_prefix : String
external_secret_prefix = "external:"

unfoldable pub stored_external_secret_reference : String → String
stored_external_secret_reference reference = external_secret_prefix <> reference

-- `resolve_secret_value`; the store is what `resolve` answers, `none` where it raises. With no
-- store given, the disabled one raises.
unfoldable pub resolve_secret_value :
    String → Bool → Option (String → Option String) → Option String
unfolding text_length drop_chars
resolve_secret_value stored_value feature_external_secret_store external_store =
    if not (starts_with stored_value external_secret_prefix)
    then some stored_value
    else if not feature_external_secret_store
    then none
    else elim external_store [
      | none ↦ none
      | some resolve ↦ resolve (drop_chars (text_length external_secret_prefix) stored_value)
    ]

-- The secret, or the code and the message of `SecretResolutionError`.
pub data Resolution : Type 0 where
  resolved : SecretMaterial → Resolution
  failed : String → String → Resolution

-- The owner whose secret an auth mode needs; `none` where the mode has no runtime secret.
abbrev pub owner_of : Capability → User → Option (String × ℕ)
owner_of capability user =
    if capability.auth_mode == "user" || capability.auth_mode == "user+scope"
    then some ("user", user.id)
    else if capability.auth_mode == "system"
    then some ("workspace", capability.workspace_id)
    else none

module _ (cipher : Cipher) (settings : Settings) where
  -- `SecretCipher(key).decrypt(…)`, then the stored value.
  abbrev pub usable_value : Secret → Option String
  usable_value secret =
      elim (cipher.decrypt settings.secret_encryption_key secret.encrypted_value) [
        | none ↦ none
        | some stored_value ↦
            resolve_secret_value stored_value settings.feature_external_secret_store none
      ]

  -- The outcome, and what `record_secret_resolution` counts.
  unfoldable pub resolve_secret_material : Db → Capability → User → Resolution × Metric
  resolve_secret_material db capability user =
      let counted = secret_resolution capability.workspace_id capability.provider_type in
      elim (owner_of capability user) [
        | none ↦ (
          failed "capability_denied" "Capability is not allowed for runtime invocation",
          counted "denied",
        )
        | some (owner_type, owner_id) ↦
            elim (get_active_secret_for_owner db capability.workspace_id
              capability.application_instance_id owner_type owner_id) [
                | none ↦ (
                  failed "secret_not_found" "Required upstream secret was not found",
                  counted "not_found",
                )
                | some secret ↦ elim (usable_value secret) [
                  | none ↦ (
                    failed "secret_unavailable" "Required upstream secret could not be used",
                    counted "unavailable",
                  )
                  | some value ↦ (
                    resolved (record { secret_type = secret.secret_type; value = value }),
                    counted "success",
                  )
                ]
              ]
      ]
