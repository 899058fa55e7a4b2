-- ===== src/Tests/Mcp.antt =====
-- Runs and witnesses for the MCP tools: a digest that is the same for every text.
use grantora.Prelude.{String, ◌≡◌, refl, true, false, some, [], ◌∷◌, Memᴰ}
use grantora.Prelude.Text.{◌<>◌}
use grantora.Errors.{ok}
use grantora.Json.{Json, obj, end}
use grantora.Db.Models.{Capability}
use grantora.Db.Queries.{
  capability_available, capability_joined, get_active_binding, binding_available,
  role_grants_permission, list_active_capabilities_for_agent_user,
}
use grantora.Db.Queries.Joins.{
  workspace_active, application_active, agent_active, user_active, role_active, capability_by_id,
  role_by_id, application_by_id, sort_by, insert_sorted,
}
use grantora.Capabilities.{invoke_permission_for_risk_class}
use grantora.Openapi.Tools.{Dict, hashed_tool_name, sorted_by_id, capability_tool_name_map}
use grantora.Openapi.Tools.Names.{IsHashedName, hashed-IsHashedName}
use grantora.Runtime.Visible.{is_visible, list_visible_capabilities}
use grantora.Runtime.Invoke.{Authorized, authorize_invocation}
use grantora.Runtime.Mcp.{
  McpToolCallRequest, arguments_of, is_external_id, is_mcp_tool_name, is_valid_call,
}
use grantora.Runtime.Mcp.Tools.{IsToolCall, Reaches, call-IsToolCall, tool-Reaches}
use grantora.Tests.Fixture.{acme, hermes, alice, search, small_db, env, start}
use grantora.Tests.Runtime.{alice_selected, search_keys}

abbrev digest : String → String
digest text = "0123456789abcdef"

abbrev dumps : Json → String
dumps value = "{}"

abbrev search_call : McpToolCallRequest
search_call = record { user = "alice"; name = "mock_phonebook_search"; arguments = obj end }

abbrev twice : String → String
twice text = text <> text

abbrev search_names : Dict
search_names = ("mock.phonebook.search", "mock_phonebook_search") ∷ []

search_visible : list_visible_capabilities small_db hermes alice ≡ search ∷ []
unfolding list_visible_capabilities list_active_capabilities_for_agent_user is_visible
    capability_available capability_joined get_active_binding binding_available
    role_grants_permission workspace_active application_active agent_active user_active role_active
    capability_by_id role_by_id application_by_id invoke_permission_for_risk_class sort_by
    insert_sorted
search_visible = refl

search_valid : is_valid_call search_call ≡ true
unfolding is_external_id is_mcp_tool_name
search_valid = refl

-- A name of 138 characters is refused.
abbrev long_name : String
long_name = "tool_" <> twice (twice (twice "0123456789abcdef")) <> "_abcd"

long_refused : is_mcp_tool_name long_name ≡ false
unfolding is_mcp_tool_name
long_refused = refl

search_named :
    capability_tool_name_map digest (sorted_by_id digest (search ∷ [])) ≡ some search_names
unfolding capability_tool_name_map
search_named = refl

-- A base name that two capabilities share gives both a hash, and a third capability may have such a
-- name as its own.
abbrev named : String → Capability
named capability_id = record search { id = capability_id }

names_collide :
    capability_tool_name_map digest (named "a-b" ∷ named "a.b" ∷ named "a.b.0123456789abcdef" ∷ [])
    ≡ some (
        ("a-b", "a_b_01234567")
        ∷ ("a.b", "a_b_0123456789abcdef")
        ∷ ("a.b.0123456789abcdef", "a_b_0123456789abcdef")
        ∷ [])
unfolding capability_tool_name_map hashed_tool_name
names_collide = refl

hashed-IsHashedName_example :
    IsHashedName digest "a_b" "a.b" [] (hashed_tool_name digest "a_b" "a.b" [])
hashed-IsHashedName_example = hashed-IsHashedName digest "a_b" "a.b" []

call-IsToolCall_example : IsToolCall digest dumps env hermes acme search_call start
call-IsToolCall_example = call-IsToolCall digest dumps env hermes acme search_call start

tool-Reaches_example :
    (d : Capability) × Reaches digest dumps env hermes acme search_call start d
    × ((a : Authorized) × (authorize_invocation env hermes acme d.id
            (arguments_of digest dumps search_call)
            start
          ≡ (ok a, start))
        × (a.capability ≡ d))
tool-Reaches_example =
    tool-Reaches digest dumps env hermes acme search_call start alice search_names search
      search_valid search_keys alice_selected (rw search_visible search_named)
      (rw search_visible (Memᴰ.head refl)) refl
