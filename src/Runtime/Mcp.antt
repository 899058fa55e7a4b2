-- ===== src/Runtime/Mcp.antt =====
-- `call_mcp_tool` of api/runtime.py. `sha256` is the digest of the tool names, `dumps` is
-- `json.dumps` with sorted keys and no blanks.
pub mod Tools
use grantora.Prelude.{
  ℕ, String, Bool, true, false, Option, none, some, List, [], ◌∷◌, find?, is_some_of, string_eq,
  all, not, ltb, ◌&&◌, ◌||◌, ◌==◌, nat_eq, if◌then◌else◌,
}
use grantora.Errors.{
  ApiError, api_error, Result, ok, err, Exec, pure, raise, gets, unhandled, or_else_do, ◌>>=◌, ◌>>◌,
}
use grantora.Prelude.Text.{codes, text_length, is_alphanumeric}
use grantora.Json.{Json, Fields, obj, end, field, str}
use grantora.Db.Models.{Db, Workspace, Agent, User, Capability}
use grantora.Openapi.Tools.{lookup, sorted_by_id, capability_tool_name_map}
use grantora.Runtime.State.{World, Env}
use grantora.Runtime.Visible.{active_user, select_runtime_user, list_visible_capabilities}
use grantora.Runtime.Invoke.{InvokeRequest, InvokeResponse, deny, invoke_capability_by_id}

-- `MCPToolCallRequest` and `MCPToolCallResponse`.
pub record McpToolCallRequest : Type 0 where
  pub user : String
  pub name : String
  pub arguments : Json

pub record McpToolCallResponse : Type 0 where
  pub content_text : String
  pub structured_content : Json
  pub is_error : Bool
  pub meta : Fields

-- `EXTERNAL_ID_PATTERN` and `MCP_TOOL_NAME_PATTERN`, with the lengths of `ExternalId` and `MCPToolName`.
abbrev has_form : (ℕ → Bool) → String → Bool
has_form later text = elim (codes text) [ [] ↦ false | c ∷ cs ↦ is_alphanumeric c && all later cs ]

unfoldable pub is_external_id : String → Bool
unfolding codes text_length
is_external_id text =
    has_form
      (λ c. is_alphanumeric c || c == b'.' || c == b'_' || c == b'@' || c == b':' || c == b'-') text
    && not (ltb 128 (text_length text))

unfoldable pub is_mcp_tool_name : String → Bool
unfolding codes text_length
is_mcp_tool_name text =
    has_form (λ c. is_alphanumeric c || c == b'_') text && not (ltb 128 (text_length text))

abbrev pub is_valid_call : McpToolCallRequest → Bool
is_valid_call payload = is_external_id payload.user && is_mcp_tool_name payload.name

-- `request_validation_error_handler` of main.py.
abbrev pub request_validation_failed : ApiError
request_validation_failed = api_error 422 "request_validation_failed" "Request validation failed"

module _ (sha256 : String → String) where
  -- The capability that a tool name stands for; the outer `none` where naming the tools raises.
  unfoldable pub get_mcp_capability_by_tool_name :
      Db → Agent → User → String → Option (Option Capability)
  unfolding sorted_by_id capability_tool_name_map
  get_mcp_capability_by_tool_name db agent user tool_name =
      let visible_capabilities = sorted_by_id sha256 (list_visible_capabilities db agent user) in
      elim (capability_tool_name_map sha256 visible_capabilities) [
        | none ↦ none
        | some tool_names ↦
            some (find? (λ c. is_some_of (lookup c.id tool_names) tool_name) visible_capabilities)
      ]

  module _ (dumps : Json → String) where
    -- `_mcp_response_from_invocation`.
    abbrev pub mcp_response_from_invocation : InvokeResponse → McpToolCallResponse
    mcp_response_from_invocation invocation = record {
      content_text = dumps invocation.content;
      structured_content = invocation.content;
      is_error = false;
      meta =
          field "grantora/request_id" (str invocation.request_id)
            (field "grantora/capability_id" (str invocation.capability) end);
    }

    abbrev pub arguments_of : McpToolCallRequest → InvokeRequest
    arguments_of payload = record { user = payload.user; input = payload.arguments }

    -- The call of the capability that the name stands for.
    abbrev pub invoke_tool :
        Env → Agent → Workspace → Capability → McpToolCallRequest → Exec World McpToolCallResponse
    invoke_tool env agent workspace capability payload = do
      invocation ← invoke_capability_by_id env agent workspace capability.id (arguments_of payload)
      pure (mcp_response_from_invocation invocation)

    unfoldable pub call_mcp_tool :
        Env → Agent → Workspace → McpToolCallRequest → Exec World McpToolCallResponse
    unfolding get_mcp_capability_by_tool_name
    call_mcp_tool env agent workspace payload = do
      selection ← gets (λ (w : World). select_runtime_user w.db agent payload.user)
      user ←
          or_else_do (active_user selection)
            (deny env agent workspace payload.name selection.user none)
      looked_up ← gets (λ (w : World). get_mcp_capability_by_tool_name w.db agent user payload.name)
      found ← or_else_do looked_up (raise unhandled)
      capability ← or_else_do found (deny env agent workspace payload.name (some user) none)
      invoke_tool env agent workspace capability payload

    -- The endpoint: the framework checks the body before it calls the handler.
    unfoldable pub post_mcp_tools_call :
        Env → Agent → Workspace → McpToolCallRequest → Exec World McpToolCallResponse
    unfolding is_external_id is_mcp_tool_name call_mcp_tool
    post_mcp_tools_call env agent workspace payload =
        if is_valid_call payload
        then call_mcp_tool env agent workspace payload
        else raise request_validation_failed
