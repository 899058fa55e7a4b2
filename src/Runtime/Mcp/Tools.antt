-- ===== src/Runtime/Mcp/Tools.antt =====
-- Which capability a tool call of api/runtime.py reaches, and what the call leaves in the logs.
use mathlib.Core.Path.{subst}
use grantora.Prelude.{
  String, ◌≡◌, refl, sym, ap, ◌⊎◌, inl, inr, true, false, Bool-cases, Option-cases, Option, none,
  some, arith, Memᴰ, find?-some, find?-of_mem, is_some_of, string_eq, eq_iff,
}
use grantora.Errors.{Result, ok, err, unhandled, Exec, pure, ◌>>=◌, continue}
use mathlib.Core.Option.{some-injective}
use grantora.Json.{Json}
use grantora.Db.Models.{Db, Workspace, Agent, User, Capability}
use grantora.Db.Queries.Sorting.{sort_by-mem, mem-sort_by}
use grantora.Openapi.Tools.{Dict, lookup, sorted_by_id, capability_tool_name_map}
use grantora.Prelude.Text.{text_leb}
use grantora.Runtime.State.{World, Env}
use grantora.Runtime.Recording.{record_and_raise_invocation_error}
use grantora.Runtime.Visible.{active_user, select_runtime_user, list_visible_capabilities}
use grantora.Runtime.Invoke.{Authorized, deny, authorize_invocation, invoke_capability_by_id}
use grantora.Runtime.Invoke.Endings.{IsRecorded, ends-again}
use grantora.Runtime.Invoke.Trail.{invoke-IsRecorded, Keeps-deny, IsUntouched-refl}
use grantora.Runtime.Invoke.Agreement.{HasCapabilityKeys, visible_iff_invocable}
use grantora.Runtime.Mcp.{
  McpToolCallRequest, McpToolCallResponse, get_mcp_capability_by_tool_name,
  mcp_response_from_invocation, arguments_of, invoke_tool, is_valid_call, request_validation_failed,
  post_mcp_tools_call,
}

module _ (sha256 : String → String) where
  -- The visible capability whose tool has the name.
  pub record IsTool (db : Db) (agent : Agent) (user : User) (tool_name : String)
      (capability : Capability) : Type 0 where
    pub visible : Memᴰ capability (list_visible_capabilities db agent user)
    pub tool_names : Dict
    pub mapped :
        capability_tool_name_map sha256
          (sorted_by_id sha256 (list_visible_capabilities db agent user))
        ≡ some tool_names
    pub named : lookup capability.id tool_names ≡ some tool_name

  is_some_of-true : (o : Option String) (s : String) → is_some_of o s ≡ true → o ≡ some s
  is_some_of-true none s h = cc
  is_some_of-true (some t) s h = ap some ((eq_iff t s).0 h)

  is_some_of_self : (o : Option String) (s : String) → o ≡ some s → is_some_of o s ≡ true
  is_some_of_self none s h = cc
  is_some_of_self (some t) s h = (eq_iff t s).1 (some-injective _ _ h)

  looked_up-IsTool :
      (db : Db) (agent : Agent) (user : User) (tool_name : String) (o : Option Dict)
      {capability : Capability}
      → capability_tool_name_map sha256
          (sorted_by_id sha256 (list_visible_capabilities db agent user))
        ≡ o
      → get_mcp_capability_by_tool_name sha256 db agent user tool_name ≡ some (some capability)
      → IsTool db agent user tool_name capability
  unfolding get_mcp_capability_by_tool_name sorted_by_id
  looked_up-IsTool db agent user tool_name none {capability} mapped h =
      let h' : none ≡ some (some capability) = rw (get_mcp_capability_by_tool_name, mapped) at h in
      absurd (ground arith)
  looked_up-IsTool db agent user tool_name (some tool_names) mapped h =
      let (m, same) =
        find?-some _ _ (some-injective _ _ (rw (get_mcp_capability_by_tool_name, mapped) at h)) in
      record {
        visible = sort_by-mem (λ c d. text_leb c.id d.id) _ m;
        tool_names = tool_names;
        mapped = mapped;
        named = is_some_of-true _ _ same;
      }

-- Answering with a part of what was computed leaves the logs as they are.
IsRecorded-map :
    {A B : Type 0} (f : A → B) (env : Env) (agent : Agent) (capability_id : String) (w : World)
    (r : Result A × World)
    → IsRecorded env agent capability_id w r.0 r.1
    → IsRecorded env agent capability_id w
        (continue r (λ a. pure (f a))).0
        (continue r (λ a. pure (f a))).1
unfolding ◌>>=◌
IsRecorded-map f env agent capability_id w (ok a, w') h = record {
  attempted = h.attempted;
  by_agent = h.by_agent;
  at_capability = h.at_capability;
  ending = elim h.ending [
    | inl s ↦ inl (record {
      fits = s.fits;
      describes = s.describes;
      added = s.added;
      committed = s.committed;
    })
    | inr l ↦ absurd (ground (arith, l.raised))
  ];
}
IsRecorded-map f env agent capability_id w (err e, w') h = record {
  attempted = h.attempted;
  by_agent = h.by_agent;
  at_capability = h.at_capability;
  ending = ends-again env w h.attempted h.ending;
}

deny-IsRecorded :
    {A : Type 0} (env : Env) (agent : Agent) (workspace : Workspace) (name : String)
    (user : Option User) (w : World)
    → let (r, w') = deny env agent workspace name {A = A} user none w in
      IsRecorded env agent name w r w'
unfolding record_and_raise_invocation_error
deny-IsRecorded env agent workspace name user w =
    (Keeps-deny env agent workspace name w user none).at w (IsUntouched-refl w)

module _ (sha256 : String → String) (dumps : Json → String) (env : Env) (agent : Agent)
    (workspace : Workspace) (payload : McpToolCallRequest) (w : World) where
  abbrev Call : Exec World McpToolCallResponse
  Call = post_mcp_tools_call sha256 dumps env agent workspace payload

  -- The call invokes the capability whose tool it names, for the active user that it names.
  pub record Reaches (capability : Capability) : Type 0 where
    pub user : User
    pub selected : active_user (select_runtime_user w.db agent payload.user) ≡ some user
    pub tool : IsTool sha256 w.db agent user payload.name capability
    pub invokes : Call w ≡ invoke_tool sha256 dumps env agent workspace capability payload w

  -- The call is denied before a capability is known: there is no active user, or no tool of that name.
  pub record IsDenied : Type 0 where
    pub user : Option User
    pub reason :
        (active_user (select_runtime_user w.db agent payload.user) ≡ none)
        ⊎ ((u : User) × (active_user (select_runtime_user w.db agent payload.user) ≡ some u)
            × (get_mcp_capability_by_tool_name sha256 w.db agent u payload.name ≡ some none))
    pub denies : Call w ≡ deny env agent workspace payload.name user none w

  -- The tools of the active user could not be named.
  pub record IsUnnamed : Type 0 where
    pub user : User
    pub selected : active_user (select_runtime_user w.db agent payload.user) ≡ some user
    pub unnamed :
        capability_tool_name_map sha256
          (sorted_by_id sha256 (list_visible_capabilities w.db agent user))
        ≡ none
    pub raises : Call w ≡ (err unhandled, w)

  -- The framework refused the body.
  abbrev pub IsRefused : Type 0
  IsRefused = (is_valid_call payload ≡ false) × (Call w ≡ (err request_validation_failed, w))

  abbrev pub Outcome : Type 0
  Outcome = IsRefused ⊎ IsDenied ⊎ IsUnnamed ⊎ ((c : Capability) × Reaches c)

  unnamed_lookup :
      (user : User)
      → get_mcp_capability_by_tool_name sha256 w.db agent user payload.name ≡ none
      → capability_tool_name_map sha256
          (sorted_by_id sha256 (list_visible_capabilities w.db agent user))
        ≡ none
  unfolding get_mcp_capability_by_tool_name sorted_by_id
  unnamed_lookup user h =
      elim (Option-cases (
        capability_tool_name_map sha256
          (sorted_by_id sha256 (list_visible_capabilities w.db agent user)))) [
            | inl unnamed ↦ unnamed
            | inr (names, mapped) ↦
                absurd (ground (arith, rw (get_mcp_capability_by_tool_name, mapped) at h))
          ]

  module _ (valid : is_valid_call payload ≡ true) where
    for_tool :
        (user : User) (o : Option (Option Capability))
        → active_user (select_runtime_user w.db agent payload.user) ≡ some user
        → get_mcp_capability_by_tool_name sha256 w.db agent user payload.name ≡ o
        → Outcome
    unfolding post_mcp_tools_call ◌>>=◌ record_and_raise_invocation_error
    for_tool user none selected looked_up = inr (
        inr (
          inl (record {
            user = user;
            selected = selected;
            unnamed = unnamed_lookup user looked_up;
            raises = rw (valid, selected, looked_up);
          })))
    for_tool user (some none) selected looked_up = inr (
        inl (record {
          user = some user;
          reason = inr (user, selected, looked_up);
          denies = rw (valid, selected, looked_up);
        }))
    for_tool user (some (some capability)) selected looked_up = inr (
        inr (
          inr (
            capability,
            record {
              user = user;
              selected = selected;
              tool = looked_up-IsTool sha256 w.db agent user payload.name _ refl looked_up;
              invokes = rw (valid, selected, looked_up);
            },
          )))

    for_user :
        (o : Option User) → active_user (select_runtime_user w.db agent payload.user) ≡ o → Outcome
    unfolding post_mcp_tools_call ◌>>=◌ record_and_raise_invocation_error
    for_user none selected = inr (
        inl (record {
          user = (select_runtime_user w.db agent payload.user).user;
          reason = inl selected;
          denies = rw (valid, selected);
        }))
    for_user (some user) selected = for_tool user _ selected refl

  for_request : Outcome
  unfolding post_mcp_tools_call ◌>>=◌
  for_request = elim (Bool-cases (is_valid_call payload)) [
    | inl valid ↦ for_user valid _ refl
    | inr refused ↦ inl (refused, rw (post_mcp_tools_call, refused))
  ]

  abbrev pub IsRecordedAt : String → Type 0
  IsRecordedAt name = IsRecorded env agent name w (Call w).0 (Call w).1

  moved :
      (name : String) {x : Result McpToolCallResponse × World}
      → Call w ≡ x
      → IsRecorded env agent name w x.0 x.1
      → IsRecordedAt name
  moved name e h = subst (λ x. IsRecorded env agent name w x.0 x.1) (sym e) h

  -- How a tool call ends, with what it leaves in the logs.
  abbrev pub IsToolCall : Type 0
  IsToolCall =
      IsRefused
      ⊎ (IsDenied × IsRecordedAt payload.name)
      ⊎ IsUnnamed
      ⊎ ((c : Capability) × Reaches c × IsRecordedAt c.id)

  recorded : Outcome → IsToolCall
  unfolding record_and_raise_invocation_error ◌>>=◌ invoke_capability_by_id
  recorded (inl refused) = inl refused
  recorded (inr (inl denied)) = inr (
      inl (
        denied,
        moved payload.name denied.denies
            (deny-IsRecorded env agent workspace payload.name denied.user w),
      ))
  recorded (inr (inr (inl crashed))) = inr (inr (inl crashed))
  recorded (inr (inr (inr (c, reaches)))) = inr (
      inr (
        inr (
          c,
          reaches,
          moved c.id reaches.invokes (
              IsRecorded-map (mcp_response_from_invocation sha256 dumps) env agent c.id w _
                (invoke-IsRecorded env agent workspace c.id (arguments_of sha256 dumps payload) w)),
        )))

  -- A tool call ends in one of four ways. The framework refuses its body with 422. It is denied, since
  -- there is no active user or no tool of the name, and the denied attempt is recorded under the tool's
  -- name. The tools of the user cannot be named, which answers 500 and writes nothing. Or it invokes a
  -- visible capability of the active user whose tool has the name, and the attempt is recorded under
  -- that capability's id. Recorded means that the attempt is committed in both logs, or that it does not
  -- fit into their columns: then the call answers 500 and leaves what was committed.
  pub call-IsToolCall : IsToolCall
  call-IsToolCall = recorded for_request

  found-named :
      (user : User) (tool_names : Dict) (c : Capability)
      → capability_tool_name_map sha256
          (sorted_by_id sha256 (list_visible_capabilities w.db agent user))
        ≡ some tool_names
      → Memᴰ c (list_visible_capabilities w.db agent user)
      → lookup c.id tool_names ≡ some payload.name
      → (d : Capability) × (get_mcp_capability_by_tool_name sha256 w.db agent user payload.name
          ≡ some (some d))
  unfolding get_mcp_capability_by_tool_name sorted_by_id
  found-named user tool_names c mapped m named =
      let (d, found, md, pd) =
        find?-of_mem (λ e. is_some_of (lookup e.id tool_names) payload.name) _
          (mem-sort_by (λ e f. text_leb e.id f.id) _ m) (is_some_of_self sha256 _ _ named) in
      (d, rw (get_mcp_capability_by_tool_name, mapped) (ap some found))

  Reaches-tool :
      (user : User) (d : Capability)
      → is_valid_call payload ≡ true
      → active_user (select_runtime_user w.db agent payload.user) ≡ some user
      → get_mcp_capability_by_tool_name sha256 w.db agent user payload.name ≡ some (some d)
      → Reaches d
  unfolding post_mcp_tools_call ◌>>=◌
  Reaches-tool user d valid selected found = record {
    user = user;
    selected = selected;
    tool = looked_up-IsTool sha256 w.db agent user payload.name _ refl found;
    invokes = rw (valid, selected, found);
  }

  -- For an active user, with capability ids that are keys, and where the framework lets the body
  -- through, that is, the user is an external id and the name a tool name of at most 128 characters each:
  -- a call with the name that a visible capability's tool has reaches a visible capability whose tool
  -- has that name, and the invocation of it passes every check of the caller.
  pub tool-Reaches :
      (user : User) (tool_names : Dict) (c : Capability)
      → is_valid_call payload ≡ true
      → HasCapabilityKeys w.db
      → active_user (select_runtime_user w.db agent payload.user) ≡ some user
      → capability_tool_name_map sha256
          (sorted_by_id sha256 (list_visible_capabilities w.db agent user))
        ≡ some tool_names
      → Memᴰ c (list_visible_capabilities w.db agent user)
      → lookup c.id tool_names ≡ some payload.name
      → (d : Capability) × Reaches d
        × ((a : Authorized) × (authorize_invocation env agent workspace d.id
                (arguments_of sha256 dumps payload)
                w
              ≡ (ok a, w))
            × (a.capability ≡ d))
  tool-Reaches user tool_names c valid keys selected mapped m named =
      let (d, found) = found-named user tool_names c mapped m named in
      let reaches = Reaches-tool user d valid selected found in
      let visible = (looked_up-IsTool sha256 w.db agent user payload.name _ refl found).visible in
      (
        d,
        reaches,
        (visible_iff_invocable env agent workspace (arguments_of sha256 dumps payload) w user d keys
              selected).0
            visible,
      )
