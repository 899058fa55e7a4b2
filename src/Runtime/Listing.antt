-- ===== src/Runtime/Listing.antt =====
-- `list_capabilities` and `list_mcp_tools` of api/runtime.py.
use grantora.Prelude.{ℕ, String, Option, none, some, List, [], take, drop}
use grantora.Json.{Json}
use grantora.Db.Models.{Db, Agent, Capability}
use grantora.Openapi.Tools.{build_mcp_tool_list}
use grantora.Runtime.Visible.{active_user, select_runtime_user, list_visible_capabilities}

-- `CapabilityListResponse`; a summary is the capability's columns.
pub record CapabilityListResponse : Type 0 where
  pub capabilities : List Capability
  pub limit : ℕ
  pub offset : ℕ

-- The capabilities that are shown for an external user id.
unfoldable pub shown_capabilities : Db → Agent → String → List Capability
shown_capabilities db agent user = elim (active_user (select_runtime_user db agent user)) [
  | none ↦ []
  | some selected_user ↦ list_visible_capabilities db agent selected_user
]

unfoldable pub list_capabilities : Db → Agent → String → ℕ → ℕ → CapabilityListResponse
unfolding shown_capabilities
list_capabilities db agent user limit offset = record {
  capabilities = take limit (drop offset (shown_capabilities db agent user));
  limit = limit;
  offset = offset;
}

unfoldable pub list_mcp_tools :
    (sha256 : String → String) → Db → Agent → String → Option (List Json)
unfolding shown_capabilities
list_mcp_tools sha256 db agent user = build_mcp_tool_list sha256 (shown_capabilities db agent user)
