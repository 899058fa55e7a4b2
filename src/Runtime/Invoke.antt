-- ===== src/Runtime/Invoke.antt =====
-- `_invoke_capability_by_id` of api/runtime.py, in the order of its checks: who may call, what the
-- call needs, and the call itself.
pub mod Messages
pub mod Endings
pub mod Trail
pub mod Authority
pub mod Agreement
pub mod Calls
use grantora.Prelude.{
  ℕ, String, Bool, true, false, ◌&&◌, not, Option, none, some, List, [], ◌∷◌, ◌++◌, ℤ, max_with,
  ◌==◌, string_eq, if◌then◌else◌,
}
use grantora.Errors.{
  ApiError, api_error, Result, ok, err, Exec, pure, gets, modify, when, or_else_do, except_do,
  ◌>>=◌, ◌>>◌,
}
use grantora.Json.{Json}
use grantora.Db.Models.{
  Db, Workspace, ApplicationInstance, Agent, User, Capability, Binding, is_active,
}
use grantora.Db.Queries.{get_active_capability_by_id, get_active_binding, role_grants_permission}
use grantora.Db.Queries.Joins.{application_by_id}
use grantora.Capabilities.{describe_permission, invoke_permission_for_risk_class}
use grantora.Capabilities.Validation.{SchemaError, validate_json_schema}
use grantora.Adapters
use grantora.Adapters.{Adapter, AdapterResult, InvocationContext, SecretMaterial}
use grantora.Secrets.{Resolution, resolved, failed, resolve_secret_material}
use grantora.Metrics.{upstream_result}
use grantora.Runtime.State.{World, Env, AdapterCall, count}
use grantora.Runtime.Recording.{
  Attempt, record_invocation_attempt, record_and_raise_invocation_error,
}
use grantora.Runtime.Visible.{RuntimeUserSelection, active_user, select_runtime_user}
use Messages.{
  capability_denied, adapter_not_found, adapter_error, invalid_input, invalid_output,
  upstream_failed,
}

-- `CapabilityInvokeRequest` and `CapabilityInvokeResponse`; `content` is the field `data`.
pub record InvokeRequest : Type 0 where
  pub user : String
  pub input : Json

pub record InvokeResponse : Type 0 where
  pub request_id : String
  pub capability : String
  pub status : String
  pub content : Json

-- The capability that the query returned with its application instance, if that is active. The
-- foreign key gives every capability its application.
abbrev if_application_active :
    Capability → Option ApplicationInstance → Option (Capability × ApplicationInstance)
if_application_active c none = none
if_application_active c (some a) = if is_active a.status then some (c, a) else none

abbrev with_active_application : Db → Option Capability → Option (Capability × ApplicationInstance)
with_active_application db none = none
with_active_application db (some c) =
    if_application_active c (application_by_id db c.application_instance_id)

-- The test before the call: a binding whose role may describe and invoke the capability.
abbrev binding_allows : Db → Option Binding → Option String → Bool
binding_allows db (some binding) (some permission_code) =
    role_grants_permission db binding.role_id describe_permission
    && role_grants_permission db binding.role_id permission_code
binding_allows db _ _ = false

unfoldable pub is_allowed : Db → Agent → User → Capability → Bool
is_allowed db agent user capability =
    binding_allows db (get_active_binding db agent.workspace_id agent.id user.id capability.id)
      (invoke_permission_for_risk_class capability.risk_class)

-- What the checks hand on to the call.
pub record Authorized : Type 0 where
  pub user : User
  pub capability : Capability
  pub application : ApplicationInstance

module _ (env : Env) (agent : Agent) (workspace : Workspace) (capability_id : String) where
  -- The arguments of an attempt that did not succeed.
  abbrev pub attempt : Option User → Option Capability → String → String → Attempt
  attempt user capability decision usage_status = record {
    agent = agent;
    user = user;
    capability = capability;
    capability_id = capability_id;
    decision = decision;
    outcome = "error";
    error_code = none;
    usage_status = usage_status;
    units = 1;
  }

  abbrev pub deny : {A : Type 0} → Option User → Option Capability → Exec World A
  deny user capability =
      record_and_raise_invocation_error env (attempt user capability "deny" "denied")
        capability_denied

  abbrev fail : {A : Type 0} → User → Capability → ApiError → Exec World A
  fail user capability e =
      record_and_raise_invocation_error env (attempt (some user) (some capability) "allow" "error")
        e

  -- Up to the check of the binding: the agent's workspace is `workspace`.
  unfoldable pub authorize_invocation : InvokeRequest → Exec World Authorized
  authorize_invocation payload = do
    selection ← gets (λ (w : World). select_runtime_user w.db agent payload.user)
    user ← or_else_do (active_user selection) (deny selection.user none)
    found ← gets (λ (w : World).
        with_active_application w.db
          (get_active_capability_by_id w.db agent.workspace_id capability_id))
    (capability, application) ← or_else_do found (deny (some user) none)
    allowed ← gets (λ (w : World). is_allowed w.db agent user capability)
    when (not allowed) (deny (some user) (some capability))
    pure (record { user = user; capability = capability; application = application })

  abbrev check_input : InvokeRequest → Authorized → Exec World (Unit {0})
  check_input payload a =
      except_do
        (validate_json_schema env.validator payload.input a.capability.input_schema invalid_input)
        λ e. fail a.user a.capability (api_error 422 e.code e.message)

  abbrev use_secret : Authorized → Resolution → Exec World SecretMaterial
  use_secret a (resolved secret) = pure secret
  use_secret a (failed code message) =
      record_and_raise_invocation_error env
        (attempt (some a.user) (some a.capability) "deny" "denied") (api_error 424 code message)

  -- The checks of the input, the secret and the adapter.
  unfoldable pub prepare_invocation :
      InvokeRequest → Authorized → Exec World (SecretMaterial × Adapter)
  prepare_invocation payload a = do
    check_input payload a
    (resolution, counted) ←
        gets
          (λ (w : World). resolve_secret_material env.cipher env.settings w.db a.capability a.user)
    modify (count (counted ∷ []))
    secret ← use_secret a resolution
    adapter ←
        or_else_do (Adapters.get a.capability.adapter env.adapters)
          (fail a.user a.capability adapter_not_found)
    pure (secret, adapter)

  -- `_build_invocation_context`.
  unfoldable pub build_invocation_context : Authorized → InvocationContext
  build_invocation_context a = record {
    request_id = env.request_id;
    workspace = record { id = workspace.id; slug = workspace.slug };
    agent = record { id = agent.id; slug = agent.slug };
    user = record { id = a.user.id; external_id = a.user.external_id };
    application = record {
      id = a.application.id;
      provider_type = a.application.provider_type;
      base_url = a.application.base_url;
    };
    capability = record { id = a.capability.id; operation = a.capability.operation };
  }

  -- The `except` around the adapter's call: it counts, records and raises.
  abbrev adapter_raised : {A : Type 0} → Authorized → Exec World A
  adapter_raised a = do
    modify (
        count (
          upstream_result agent.workspace_id a.capability.provider_type none
            (some "adapter_error")))
    fail a.user a.capability adapter_error

  -- `result.error_code if result.status != "ok" else None`.
  abbrev counted_code : AdapterResult → Option String
  counted_code result = if result.status == "ok" then none else result.error_code

  abbrev check_output : Authorized → AdapterResult → Exec World (Unit {0})
  check_output a result =
      except_do
        (validate_json_schema env.validator result.content a.capability.output_schema
          invalid_output)
        λ e. fail a.user a.capability (api_error 502 e.code e.message)

  -- The call of the adapter, and what is done with its result.
  unfoldable pub call_adapter :
      InvokeRequest → Authorized → SecretMaterial × Adapter → Exec World InvokeResponse
  call_adapter payload a (secret, adapter) = do
    let context = build_invocation_context a
    modify (λ (w : World). record w {
      calls =
          w.calls
          ++ record {
            adapter_id = adapter.id;
            input = payload.input;
            context = context;
            secret = secret;
          }
            ∷ [];
    })
    result ←
        or_else_do (adapter.invoke a.capability payload.input context secret) (adapter_raised a)
    modify (
        count (
          upstream_result agent.workspace_id a.capability.provider_type result.upstream_status
            (counted_code result)))
    when (not (result.status == "ok")) (fail a.user a.capability (upstream_failed result))
    check_output a result
    record_invocation_attempt env
        (record (attempt (some a.user) (some a.capability) "allow" "success") {
          outcome = "success";
          units = max_with 1 result.usage_units;
        })
    pure (record {
      request_id = env.request_id;
      capability = a.capability.id;
      status = "ok";
      content = result.content;
    })

  -- `_invoke_capability_by_id`.
  unfoldable pub invoke_capability_by_id : InvokeRequest → Exec World InvokeResponse
  invoke_capability_by_id payload = do
    authorized ← authorize_invocation payload
    prepared ← prepare_invocation payload authorized
    call_adapter payload authorized prepared
