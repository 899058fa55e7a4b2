-- ===== src/Openapi/Tools.antt =====
-- openapi/tools.py: the MCP tools that stand for capabilities, and their names. `sha256` is the
-- library's digest in hexadecimal.
pub mod Names
use grantora.Prelude.{
  ℕ, zero, suc, ◌+◌, ◌-◌, String, Bool, true, false, ◌&&◌, not, Option, none, some, List, [], ◌∷◌,
  ◌++◌, map, any, ltb, leb, length, filter, ◌==◌, nat_eq, string_eq, if◌then◌else◌,
}
use grantora.Prelude.Text.{
  text_leb, text_length, take_chars, sub_runs, strip_underscore, rstrip_underscore, lower,
  starts_with_digit, ◌<>◌,
}
use grantora.Json.{Json, Fields, obj, end, field, str}
use grantora.Db.Models.{Capability}
use grantora.Db.Queries.Joins.{sort_by}

abbrev pub max_mcp_tool_name_length : ℕ
max_mcp_tool_name_length = 128

abbrev pub tool_name_hash_length : ℕ
tool_name_hash_length = 8

-- A dict with texts as its keys.
abbrev pub Dict : Type 0
Dict = List (String × String)

abbrev pub lookup : String → Dict → Option String
lookup key [] = none
lookup key ((k, v) ∷ d) = if k == key then some v else lookup key d

abbrev pub set_key : String → String → Dict → Dict
set_key key v [] = (key, v) ∷ []
set_key key v ((k, w) ∷ d) =
    let rest = (k, w) ∷ set_key key v d in if k == key then (k, v) ∷ d else rest

unfoldable pub capability_tool_name : String → String
unfolding sub_runs strip_underscore lower starts_with_digit
capability_tool_name capability_id =
    let normalized = lower (strip_underscore (sub_runs false capability_id)) in
    if normalized == ""
    then "capability"
    else if starts_with_digit normalized
    then "capability_" <> normalized
    else normalized

-- `name in used_names`.
abbrev pub is_used : List String → String → Bool
is_used used_names name = any (λ used. used == name) used_names

-- `x or default`.
abbrev text_or : String → String → String
text_or s default = if s == "" then default else s

-- The name with the first `hash_length` digits of the digest.
unfoldable pub name_with_hash : String → String → ℕ → String
unfolding take_chars rstrip_underscore text_length
name_with_hash base_name digest hash_length =
    let suffix = take_chars hash_length digest in
    let max_base_length = max_mcp_tool_name_length - text_length suffix - 1 in
    text_or (rstrip_underscore (take_chars max_base_length base_name)) "capability" <> "_" <> suffix

-- The loop of `_hashed_tool_name`, with `rounds` as its fuel; `none` where it raises.
unfoldable pub hashed_from : String → String → List String → ℕ → ℕ → Option String
unfolding name_with_hash text_length
hashed_from base_name digest used_names zero hash_length = none
hashed_from base_name digest used_names (suc rounds) hash_length =
    let tool_name = name_with_hash base_name digest hash_length in
    let longer =
      hashed_from base_name digest used_names rounds (hash_length + tool_name_hash_length) in
    if leb hash_length (text_length digest)
    then (if is_used used_names tool_name then longer else some tool_name)
    else none

module _ (sha256 : String → String) where
  -- `_hashed_tool_name`. A round adds to the length, so there are no more rounds than digits.
  unfoldable pub hashed_tool_name : String → String → List String → Option String
  unfolding hashed_from text_length
  hashed_tool_name base_name capability_id used_names =
      let digest = sha256 capability_id in
      hashed_from base_name digest used_names (text_length digest) tool_name_hash_length

  -- `base_name_counts[base_name] > 1`, of the dict of the base names.
  unfoldable pub is_duplicate : Dict → String → Bool
  is_duplicate base_names base_name = ltb 1 (length (filter (λ (_, v). v == base_name) base_names))

  abbrev base_names_of : List Capability → Dict → Dict
  base_names_of [] d = d
  base_names_of (c ∷ cs) d = base_names_of cs (set_key c.id (capability_tool_name c.id) d)

  -- The name that the loop gives to a capability.
  unfoldable pub tool_name_for : Dict → List String → Capability → Option String
  unfolding is_duplicate capability_tool_name
  tool_name_for base_names used_names c =
      let base_name = capability_tool_name c.id in
      if is_duplicate base_names base_name
      then hashed_tool_name base_name c.id used_names
      else some base_name

  -- The loop of `capability_tool_name_map`.
  unfoldable pub name_tools : Dict → List Capability → List String → Dict → Option Dict
  unfolding tool_name_for
  name_tools base_names [] used_names tool_names = some tool_names
  name_tools base_names (c ∷ cs) used_names tool_names =
      elim (tool_name_for base_names used_names c) [
        | none ↦ none
        | some tool_name ↦
            name_tools base_names cs (tool_name ∷ used_names) (set_key c.id tool_name tool_names)
      ]

  -- `sorted(capabilities, key=lambda capability: capability.id)`.
  unfoldable pub sorted_by_id : List Capability → List Capability
  unfolding sort_by text_leb
  sorted_by_id capabilities = sort_by (λ c d. text_leb c.id d.id) capabilities

  unfoldable pub capability_tool_name_map : List Capability → Option Dict
  unfolding name_tools sorted_by_id
  capability_tool_name_map capabilities =
      let sorted_capabilities = sorted_by_id capabilities in
      name_tools (base_names_of sorted_capabilities []) sorted_capabilities [] []

  abbrev tool_of : Dict → Capability → Option Json
  tool_of tool_names c = elim (lookup c.id tool_names) [
    | none ↦ none
    | some name ↦ some (
        obj (
          field "name" (str name) (
            field "description" (str c.name) (
              field "inputSchema" c.input_schema (
                field "_meta"
                  (obj (
                    field "grantora/capability_id" (str c.id)
                      (field "grantora/invocation_path" (str ("/v1/invoke/" <> c.id)) end)))
                  end)))))
  ]

  abbrev tools_of : Dict → List Capability → Option (List Json)
  tools_of tool_names [] = some []
  tools_of tool_names (c ∷ cs) = elim (tool_of tool_names c) [
    | none ↦ none
    | some tool ↦ elim (tools_of tool_names cs) [ none ↦ none | some tools ↦ some (tool ∷ tools) ]
  ]

  -- The value of the key "tools"; `none` where it raises.
  unfoldable pub build_mcp_tool_list : List Capability → Option (List Json)
  unfolding capability_tool_name_map
  build_mcp_tool_list capabilities =
      let sorted_capabilities = sorted_by_id capabilities in
      elim (capability_tool_name_map sorted_capabilities) [
        | none ↦ none
        | some tool_names ↦ tools_of tool_names sorted_capabilities
      ]
