-- ===== src/Runtime/Invoke/Messages.antt =====
-- The errors of `_invoke_capability_by_id` of api/runtime.py.
use grantora.Errors.{ApiError, api_error, or_default}
use grantora.Adapters.{AdapterResult}
use grantora.Capabilities.Validation.{SchemaError}

abbrev pub capability_denied : ApiError
capability_denied =
    api_error 403 "capability_denied" "Capability is not allowed for this agent and user"

abbrev pub adapter_not_found : ApiError
adapter_not_found = api_error 502 "adapter_not_found" "Capability adapter is unavailable"

abbrev pub adapter_error : ApiError
adapter_error = api_error 502 "adapter_error" "Capability adapter returned an error"

-- An adapter's own error: its code and its message, if it gave them.
abbrev pub upstream_failed : AdapterResult → ApiError
upstream_failed result =
    api_error 502 (or_default result.error_code "adapter_error")
      (or_default result.safe_message "Capability adapter returned an error")

abbrev pub invalid_input : SchemaError
invalid_input = record {
  code = "invalid_capability_input";
  message = "Capability input did not match the capability schema";
}

abbrev pub invalid_output : SchemaError
invalid_output = record {
  code = "adapter_invalid_response";
  message = "Capability adapter returned invalid data";
}
