-- ===== src/Runtime/Invoke/Endings.antt =====
-- How an invocation ends, as the audit log and the usage log tell it, and what of it does not fit into
-- their columns (`_invoke_capability_by_id` of api/runtime.py).
use grantora.Prelude.{
  ℕ, ◌≤◌, String, ◌≡◌, refl, ap, ◌⊎◌, inl, inr, true, false, none, some, string_eq, ◌&&◌,
  Bool-cases, Option-cases, arith,
}
use grantora.Errors.{ApiError, unhandled, Result, ok, err}
use grantora.Db.Models.{Db, Agent, User, Capability}
use grantora.Secrets.{Resolution, resolved, failed, owner_of, usable_value, resolve_secret_material}
use grantora.Runtime.Invoke.Messages.{invalid_input}
use grantora.Capabilities.Validation.{
  SchemaError, JsonSchema, schema_invalid, shape_ok, validate_json_schema,
}
use grantora.Json.{Json}
use mathlib.Core.Path.{subst}
use mathlib.Core.Option.{some-injective}
use grantora.Db.Queries.{get_active_secret_for_owner}
use grantora.Runtime.State.{World, Env}
use grantora.Runtime.Recording.{Attempt, ids_fit, code_fits, add_events}
use grantora.Runtime.Invoke.{InvokeRequest, Authorized}

-- A denial answers 403 or 424 and is charged as denied; any other failure answers 422 or 502 and
-- is charged as an error.
abbrev pub FailsAs : Attempt → ℕ → Type 0
FailsAs a status_code =
    ((a.decision ≡ "deny")
      × (a.usage_status ≡ "denied")
      × ((status_code ≡ 403) ⊎ (status_code ≡ 424)))
    ⊎ ((a.decision ≡ "allow")
        × (a.usage_status ≡ "error")
        × ((status_code ≡ 422) ⊎ (status_code ≡ 502)))

-- The attempt tells how the invocation ended.
pub record DescribesSuccess (a : Attempt) : Type 0 where
  pub decision : a.decision ≡ "allow"
  pub outcome : a.outcome ≡ "success"
  pub error_code : a.error_code ≡ none
  pub usage_status : a.usage_status ≡ "success"
  pub units : 1 ≤ a.units

pub record DescribesFailure (a : Attempt) (e : ApiError) : Type 0 where
  pub outcome : a.outcome ≡ "error"
  pub error_code : a.error_code ≡ some e.code
  pub units : a.units ≡ 1
  pub fails_as : FailsAs a e.status_code

abbrev pub Describes {ℓ} : {A : Type ℓ} → Attempt → Result A → Type 0
Describes a (ok _) = DescribesSuccess a
Describes a (err e) = DescribesFailure a e

-- The attempt was added to both logs, and was committed.
pub record IsStored {A : Type 0} (env : Env) (a : Attempt) (w : World) (r : Result A) (w' : World)
    : Type 0 where
  pub fits : (ids_fit env a.capability_id && code_fits env a.error_code) ≡ true
  pub describes : Describes a r
  pub added : w'.db ≡ add_events env a w.db
  pub committed : w'.committed ≡ w'.db

-- What does not fit into the columns: an identifier of the request, or the code with which an upstream
-- failed.
abbrev pub TooLong : Env → Attempt → Type 0
TooLong env a =
    (ids_fit env a.capability_id ≡ false)
    ⊎ ((e : ApiError) × DescribesFailure a e
        × (e.status_code ≡ 502)
        × (code_fits env a.error_code ≡ false))

-- The commit raised: nothing of the attempt is kept.
pub record IsLost {A : Type 0} (env : Env) (a : Attempt) (w : World) (r : Result A) (w' : World)
    : Type 0 where
  pub too_long : TooLong env a
  pub raised : r ≡ err unhandled
  pub rolled_back : w'.db ≡ w.committed
  pub committed : w'.committed ≡ w.committed

-- One attempt of the agent at the capability was recorded, or could not be.
pub record IsRecorded {A : Type 0} (env : Env) (agent : Agent) (capability_id : String) (w : World)
    (r : Result A) (w' : World) : Type 0 where
  pub attempted : Attempt
  pub by_agent : attempted.agent ≡ agent
  pub at_capability : attempted.capability_id ≡ capability_id
  pub ending : IsStored env attempted w r w' ⊎ IsLost env attempted w r w'

abbrev fails : {A : Type 0} → ApiError → Result A
fails e = err e

err-injective : {A : Type 0} {e f : ApiError} → fails {A = A} e ≡ fails f → e ≡ f
err-injective h = cc

-- A validation fails with one of two errors.
error_cases :
    (validator : JsonSchema) (instance_value schema : Json) (failure : SchemaError)
    {e : SchemaError}
    → validate_json_schema validator instance_value schema failure ≡ some e
    → (schema_invalid ≡ e) ⊎ (failure ≡ e)
unfolding validate_json_schema
error_cases validator instance_value schema failure h = elim (Bool-cases (shape_ok schema)) [
  | inr misshapen ↦ inl (some-injective _ _ (rw (validate_json_schema, misshapen) at h))
  | inl shape ↦ elim (Bool-cases (validator.check_schema schema)) [
    | inr refused ↦ inl (some-injective _ _ (rw (validate_json_schema, shape, refused) at h))
    | inl accepted ↦ elim (Bool-cases (validator.has_no_errors schema instance_value)) [
      | inl valid ↦ absurd (ground (arith, rw (validate_json_schema, shape, accepted, valid) at h))
      | inr invalid ↦
          inr (some-injective _ _ (rw (validate_json_schema, shape, accepted, invalid) at h))
    ]
  ]
]

-- The code of a secret that could not be used fits.
abbrev pub HasShortCode : Env → Resolution → Type 0
HasShortCode env (resolved _) = Unit {0}
HasShortCode env (failed code _) = code_fits env (some code) ≡ true

pub resolve-HasShortCode :
    (env : Env) (db : Db) (capability : Capability) (user : User)
    → HasShortCode env (resolve_secret_material env.cipher env.settings db capability user).0
unfolding resolve_secret_material code_fits
resolve-HasShortCode env db capability user = elim (Option-cases (owner_of capability user)) [
  | inl no_owner ↦ rw (HasShortCode, no_owner) refl
  | inr ((owner_type, owner_id), owner) ↦
      elim (Option-cases (
        get_active_secret_for_owner db capability.workspace_id capability.application_instance_id
          owner_type owner_id)) [
            | inl not_found ↦ rw (HasShortCode, owner, not_found) refl
            | inr (secret, found) ↦
                elim (Option-cases (usable_value env.cipher env.settings secret)) [
                  | inl unusable ↦ rw (HasShortCode, owner, found, unusable) refl
                  | inr (value, usable) ↦ rw (HasShortCode, owner, found, usable) tt
                ]
          ]
]

pub code_fits-schema :
    (env : Env) (a : Authorized) (payload : InvokeRequest) (e : SchemaError)
    → validate_json_schema env.validator payload.input a.capability.input_schema invalid_input
      ≡ some e
    → code_fits env (some e.code) ≡ true
unfolding code_fits
code_fits-schema env a payload e found =
    elim (error_cases env.validator payload.input a.capability.input_schema invalid_input found) [
      | inl malformed ↦
          subst (λ (x : SchemaError). code_fits env (some x.code) ≡ true) malformed refl
      | inr refused ↦ subst (λ (x : SchemaError). code_fits env (some x.code) ≡ true) refused refl
    ]

pub does_not_fit :
    (env : Env) (a : Attempt) (e : ApiError)
    → (ids_fit env a.capability_id && code_fits env a.error_code) ≡ false
    → DescribesFailure a e
    → (code_fits env a.error_code ≡ true) ⊎ (e.status_code ≡ 502)
    → TooLong env a
does_not_fit env a e unfit describes (inl short) = inl (ground (arith, unfit, short))
does_not_fit env a e unfit describes (inr upstream) =
    elim (Bool-cases (ids_fit env a.capability_id)) [
      | inr ids ↦ inl ids
      | inl ids ↦ inr (e, describes, upstream, ground (arith, unfit, ids))
    ]

pub no_code-fits :
    (env : Env) (a : Attempt)
    → a.error_code ≡ none
    → (ids_fit env a.capability_id && code_fits env a.error_code) ≡ false
    → ids_fit env a.capability_id ≡ false
unfolding code_fits
no_code-fits env a none_given unfit =
    let h : (ids_fit env a.capability_id && code_fits env none) ≡ false =
      subst (λ c. (ids_fit env a.capability_id && code_fits env c) ≡ false) none_given unfit in
    ground (arith, h)

pub ends-again :
    {A B : Type 0} (env : Env) (w : World) (a : Attempt) {w' : World} {e : ApiError}
    → IsStored {A = A} env a w (err e) w' ⊎ IsLost {A = A} env a w (err e) w'
    → IsStored {A = B} env a w (err e) w' ⊎ IsLost {A = B} env a w (err e) w'
ends-again env w a (inl s) =
    inl
      (record { fits = s.fits; describes = s.describes; added = s.added; committed = s.committed })
ends-again env w a (inr l) = inr (record {
  too_long = l.too_long;
  raised = ap err (err-injective l.raised);
  rolled_back = l.rolled_back;
  committed = l.committed;
})
