-- ===== src/Adapters/Nextcloud/Search.antt =====
-- The adapter of adapters/nextcloud.py: its requests and what it makes of the responses.
use grantora.Prelude.{
  ℕ, String, false, not, ◌||◌, Option, none, some, List, [], ◌∷◌, pos, ◌==◌, string_eq,
  if◌then◌else◌, ◌++◌,
}
use grantora.Prelude.Text.{◌<>◌, text_contains}
use grantora.Json.{Json, num, str, arr, obj, end, field}
use grantora.Db.Models.{Capability}
use grantora.Adapters.{
  Adapter, AdapterResult, InvocationContext, SecretMaterial, HealthResult, ok_result, error_result,
}
use grantora.Adapters.Http.{Response, Sent, send_with_read_only_retries}
use grantora.Adapters.Upstream.{
  GetRequest, Options, query_of, maximum_limit, limit_within, error_of_status, invalid_response,
  too_large, payload_too_large, conclude, health_of, items_of,
}
use grantora.Adapters.Nextcloud.Files.{Library, normalized_files}

abbrev default_files_limit : ℕ
default_files_limit = 50

-- The constructor's defaults.
abbrev pub default_options : Options
default_options = record {
  max_response_bytes = pos 10485760;
  search_path = "/ocs/v2.php/search/providers/files/search";
  health_check_path = some "/ocs/v2.php/search/providers/files/search";
  read_retry_attempts = pos 2;
}

unfoldable pub schema_maximum_limit : Json → ℕ
unfolding maximum_limit
schema_maximum_limit input_schema = maximum_limit default_files_limit input_schema

unfoldable pub requested_limit : Json → Json → ℕ
unfolding limit_within
requested_limit input input_schema = limit_within default_files_limit input input_schema

unfoldable pub error_result_from_response : Response → Option AdapterResult
unfolding error_of_status
error_result_from_response r =
    error_of_status "The upstream file search endpoint was not found" r.status_code

unfoldable pub auth_headers : Library → SecretMaterial → Option (List (String × String))
unfolding text_contains
auth_headers library secret =
    if secret.secret_type == "bearer_token"
    then some (("Authorization", "Bearer " <> secret.value) ∷ [])
    else if not (secret.secret_type == "basic_auth") || not (text_contains ":" secret.value)
    then none
    else some (("Authorization", "Basic " <> library.b64encode secret.value) ∷ [])

-- `none` where the reading of the payload raises.
module _ (library : Library) (options : Options) where
  unfoldable pub read_response : ℕ → Response → Option AdapterResult
  unfolding error_result_from_response normalized_files items_of
  read_response limit r = elim (error_result_from_response r) [
    | some failure ↦ some failure
    | none ↦
        if too_large r options.max_response_bytes
        then some (payload_too_large r.status_code)
        else elim r.json [
          | none ↦ some (invalid_response r.status_code)
          | some payload ↦ elim (normalized_files library payload limit) [
            | none ↦ none
            | some none ↦ some (invalid_response r.status_code)
            | some (some files) ↦
                some
                  (ok_result (obj (field "files" (arr (items_of files)) end)) (some r.status_code))
          ]
        ]
  ]

  abbrev pub search_request : String → List (String × String) → String → ℕ → GetRequest
  search_request base_url headers query limit = record {
    base_url = base_url;
    path = options.search_path;
    headers = headers ++ ("Accept", "application/json") ∷ ("OCS-APIRequest", "true") ∷ [];
    params = field "term" (str query) (field "limit" (num (pos limit)) end);
  }

module _ (library : Library) (repr : Json → String) (answer : GetRequest → ℕ → Sent)
    (options : Options) where
  unfoldable pub invoke :
      Capability → Json → InvocationContext → SecretMaterial → Option AdapterResult
  unfolding auth_headers requested_limit query_of send_with_read_only_retries conclude read_response
  invoke capability input context secret =
      if not (capability.operation == "files.search")
      then some (
          error_result "adapter_operation_unsupported"
            "Capability operation is not supported by this adapter" none false)
      else elim context.application.base_url [
        | none ↦ some (
            error_result "upstream_not_found" "The upstream application endpoint was not configured"
              none false)
        | some base_url ↦ elim (auth_headers library secret) [
          | none ↦ some (
              error_result "secret_type_unsupported" "Required upstream secret could not be used"
                none false)
          | some headers ↦
              let limit = requested_limit input capability.input_schema in
              let request =
                search_request library options base_url headers (query_of repr input) limit in
              let exchanged =
                send_with_read_only_retries capability (answer request)
                  options.read_retry_attempts in
              conclude (read_response library options limit) exchanged.reply
        ]
      ]

  unfoldable pub adapter : Adapter
  unfolding invoke
  adapter = record { id = "nextcloud"; provider_type = "nextcloud"; invoke = invoke }

unfoldable pub health : Options → Option String → (String → String → Sent) → Option HealthResult
unfolding health_of
health options base_url answer =
    health_of "The upstream file search endpoint was not found" options base_url answer
