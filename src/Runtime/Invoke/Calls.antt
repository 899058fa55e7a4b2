-- ===== src/Runtime/Invoke/Calls.antt =====
-- The calls that adapters get from `_invoke_capability_by_id` of api/runtime.py.
use mathlib.Core.Path.{subst}
use grantora.Prelude.{
  String, Bool, true, false, ◌≡◌, refl, ap, sym, ◌∙◌, ◌⊎◌, inl, inr, none, some, List, [], ◌∷◌,
  ◌++◌,
}
use grantora.Errors.{ApiError, Result, ok, Exec, modify, ◌>>=◌}
use grantora.Errors.Keeps.{
  Keeps, keeps_rules, Keeps-modify, modify-Keeps, Raises, bind-cases, gets-bind, modify-bind,
  or_else_do-bind, except_do-bind, pure-ok,
}
use grantora.Db.Models.{Workspace, Agent}
use grantora.Capabilities.Validation.{validate_json_schema}
use grantora.Adapters
use grantora.Adapters.{Adapter, SecretMaterial}
use grantora.Metrics.{Metric}
use grantora.Secrets.{Resolution, resolved, failed, resolve_secret_material}
use grantora.Runtime.State.{World, Env, AdapterCall, count}
use grantora.Runtime.Recording.{
  Attempt, commit_attempt, record_invocation_attempt, record_and_raise_invocation_error,
}
use grantora.Runtime.Invoke.{
  InvokeRequest, InvokeResponse, Authorized, authorize_invocation, use_secret, prepare_invocation,
  build_invocation_context, call_adapter, invoke_capability_by_id,
}
use grantora.Runtime.Invoke.Authority.{MayInvoke, authorize-MayInvoke}
use grantora.Runtime.Invoke.Messages.{invalid_input}

module _ (env : Env) (agent : Agent) (workspace : Workspace) (capability_id : String) where
  -- The calls made so far.
  abbrev Made : List AdapterCall → World → Type 0
  Made cs w = w.calls ≡ cs

  module _ (cs : List AdapterCall) where
    commit-Made :
        (fits : Bool) (a : Attempt) (w : World)
        → Made cs w
        → Made cs (commit_attempt env fits a w).1
    commit-Made true a w h = h
    commit-Made false a w h = h

    record-Made : (a : Attempt) → Keeps (Made cs) (record_invocation_attempt env a)
    unfolding record_invocation_attempt
    record-Made a = record { kept = λ w h. commit-Made _ a _ h }

    raise-Made :
        {A : Type 0} (a : Attempt) (e : ApiError)
        → Keeps (Made cs) (record_and_raise_invocation_error env {A = A} a e)
    unfolding record_and_raise_invocation_error
    raise-Made a e = record { kept = λ s h. (record-Made _).kept s h }

    count-Made : (ms : List Metric) → Keeps (Made cs) (modify (count ms))
    count-Made ms = Keeps-modify _ (λ s h. h)

    ruleset made_rules = (keeps_rules, raise-Made, count-Made, record-Made)

    use_secret-Made :
        (a : Authorized) (resolution : Resolution)
        → Keeps (Made cs) (use_secret env agent workspace capability_id a resolution)
    use_secret-Made a (resolved secret) = search made_rules
    use_secret-Made a (failed code message) = search made_rules

    authorize-Made :
        (payload : InvokeRequest)
        → Keeps (Made cs) (authorize_invocation env agent workspace capability_id payload)
    unfolding authorize_invocation
    authorize-Made payload = search made_rules depth 12

    prepare-Made :
        (payload : InvokeRequest) (a : Authorized)
        → Keeps (Made cs) (prepare_invocation env agent workspace capability_id payload a)
    unfolding prepare_invocation
    prepare-Made payload a = search (made_rules, use_secret-Made) depth 12

  -- The call that an invocation makes.
  abbrev pub the_call : InvokeRequest → Authorized → SecretMaterial → Adapter → AdapterCall
  the_call payload a secret adapter = record {
    adapter_id = adapter.id;
    input = payload.input;
    context = build_invocation_context env agent workspace capability_id a;
    secret = secret;
  }

  call-Made :
      (payload : InvokeRequest) (a : Authorized) (secret : SecretMaterial) (adapter : Adapter)
      (w : World)
      → (call_adapter env agent workspace capability_id payload a (secret, adapter) w).1.calls
        ≡ w.calls ++ the_call payload a secret adapter ∷ []
  unfolding call_adapter
  call-Made payload a secret adapter w =
      modify-Keeps {P = Made (w.calls ++ the_call payload a secret adapter ∷ [])} _ _ w
        (search made_rules depth 16) refl

  -- What the checks before the call have found.
  pub record IsPrepared (payload : InvokeRequest) (a : Authorized) (w : World)
      (prepared : SecretMaterial × Adapter) : Type 0 where
    pub input_valid :
        validate_json_schema env.validator payload.input a.capability.input_schema invalid_input
        ≡ none
    pub secret :
        (resolve_secret_material env.cipher env.settings w.db a.capability a.user).0
        ≡ resolved prepared.0
    pub adapter : Adapters.get a.capability.adapter env.adapters ≡ some prepared.1

  raise-Raises :
      {A : Type 0} (a : Attempt) (e : ApiError)
      → Raises (record_and_raise_invocation_error env {A = A} a e)
  unfolding record_and_raise_invocation_error
  raise-Raises a e s = (_, _, refl)

  use_secret-bind :
      {B : Type 0} (a : Authorized) (resolution : Resolution) (f : SecretMaterial → Exec World B)
      (w : World) {b : B} {w' : World}
      → (use_secret env agent workspace capability_id a resolution >>= f) w ≡ (ok b, w')
      → (secret : SecretMaterial) × (resolution ≡ resolved secret) × (f secret w ≡ (ok b, w'))
  unfolding ◌>>=◌ record_and_raise_invocation_error
  use_secret-bind a (resolved secret) f w h = (secret, refl, h)
  use_secret-bind a (failed code message) f w h = cc

  prepare-IsPrepared :
      (payload : InvokeRequest) (a : Authorized) (w : World) {prepared : SecretMaterial × Adapter}
      {w' : World}
      → prepare_invocation env agent workspace capability_id payload a w ≡ (ok prepared, w')
      → IsPrepared payload a w prepared
  unfolding prepare_invocation
  prepare-IsPrepared payload a w h =
      let (valid, h₁) = except_do-bind _ _ _ w (λ e. raise-Raises _ _) h in
      let (secret, found, h₂) = use_secret-bind a _ _ _ (modify-bind _ _ _ (gets-bind _ _ w h₁)) in
      let (adapter, registered, h₃) = or_else_do-bind _ _ _ _ (raise-Raises _ _) h₂ in
      let (same, _) = pure-ok _ _ h₃ in
      subst (IsPrepared payload a w) same
        (record { input_valid = valid; secret = found; adapter = registered })

  -- What an invocation that reached an adapter gave it, and on what grounds.
  pub record HasCalled (payload : InvokeRequest) (w w' : World) : Type 0 where
    pub authorized : Authorized
    pub prepared : SecretMaterial × Adapter
    pub may_invoke : MayInvoke w.db agent payload.user capability_id authorized
    pub checked : IsPrepared payload authorized w prepared
    pub call : w'.calls ≡ w.calls ++ the_call payload authorized prepared.0 prepared.1 ∷ []

  -- The calls of a world that a pair of results names.
  calls_of :
      {A : Type 0} (r : Result A × World) (m : Exec World A) {w s' : World} {q : Result A}
      → m w ≡ r
      → Keeps (Made w.calls) m
      → r ≡ (q, s')
      → s'.calls ≡ w.calls
  calls_of r m {w} e k q = sym (ap (λ p. p.1.calls) q) ∙ sym (ap (λ p. p.1.calls) e) ∙ k.kept w refl

  -- What follows the checks of the caller.
  abbrev rest_of : InvokeRequest → Authorized → Exec World InvokeResponse
  rest_of payload a =
      prepare_invocation env agent workspace capability_id payload a
      >>= call_adapter env agent workspace capability_id payload a

  after_authorize :
      (payload : InvokeRequest) (a : Authorized) (w : World)
      → MayInvoke w.db agent payload.user capability_id a
      → let w' = (rest_of payload a w).1 in (w'.calls ≡ w.calls) ⊎ HasCalled payload w w'
  after_authorize payload a w may =
      elim (bind-cases (prepare_invocation env agent workspace capability_id payload a)
        (call_adapter env agent workspace capability_id payload a) w) [
          | inl (e, s', q, whole) ↦
              inl (ap (λ p. p.1.calls) whole ∙ calls_of _ _ refl (prepare-Made w.calls payload a) q)
          | inr (prepared, s', q, whole) ↦ inr (record {
            authorized = a;
            prepared = prepared;
            may_invoke = may;
            checked = prepare-IsPrepared payload a w q;
            call =
                ap (λ p. p.1.calls) whole
                ∙ call-Made payload a prepared.0 prepared.1 s'
                ∙ ap (λ cs. cs ++ the_call payload a prepared.0 prepared.1 ∷ [])
                    (calls_of _ _ refl (prepare-Made w.calls payload a) q);
          })
        ]

  -- An invocation calls no adapter, or it calls exactly one, once. Then the rows of the database
  -- entitle the agent to this capability for this user, the input has passed the capability's input
  -- schema, the secret is the one that was resolved for the capability and the user, the adapter is
  -- the one that is registered under the capability's adapter id, and the call hands on the request's
  -- input and a context of this agent, user, application and capability.
  pub calls-invoke :
      (payload : InvokeRequest) (w : World)
      → let w' = (invoke_capability_by_id env agent workspace capability_id payload w).1 in
        (w'.calls ≡ w.calls) ⊎ HasCalled payload w w'
  unfolding invoke_capability_by_id
  calls-invoke payload w =
      elim (bind-cases (authorize_invocation env agent workspace capability_id payload)
        (rest_of payload) w) [
          | inl (e, s', q, whole) ↦
              inl (ap (λ p. p.1.calls) whole ∙ calls_of _ _ refl (authorize-Made w.calls payload) q)
          | inr (a, s', q, whole) ↦
              let (may, same) = authorize-MayInvoke env agent workspace capability_id payload w q in
              rw (whole, same) (after_authorize payload a w may)
        ]
