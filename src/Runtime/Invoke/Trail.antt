-- ===== src/Runtime/Invoke/Trail.antt =====
-- What an invocation leaves in the audit log and in the usage log, by how it ends
-- (`_invoke_capability_by_id` of api/runtime.py).
use grantora.Prelude.{
  String, ◌≡◌, refl, ◌∙◌, ap, ◌⊎◌, inl, inr, Bool, true, false, Option, none, some, List,
  le-max_with, string_eq, ◌&&◌,
}
use grantora.Errors.{
  ApiError, api_error, unhandled, Result, ok, err, Exec, pure, gets, modify, when, or_else_do,
  except_do, continue, ◌>>=◌, ◌>>◌,
}
use grantora.Db.Models.{Workspace, Agent, User, Capability}
use grantora.Metrics.{Metric}
use grantora.Adapters.{Adapter, SecretMaterial}
use grantora.Secrets.{Resolution, resolved, failed}
use grantora.Runtime.State.{World, Env, count}
use grantora.Runtime.Recording.{
  Attempt, ids_fit, code_fits, raised_after, add_events, commit_attempt, record_invocation_attempt,
  record_and_raise_invocation_error,
}
use grantora.Runtime.Invoke.{
  InvokeRequest, InvokeResponse, Authorized, deny, fail, authorize_invocation, check_input,
  use_secret, prepare_invocation, call_adapter, invoke_capability_by_id,
}
use grantora.Runtime.Invoke.Endings.{
  FailsAs, DescribesSuccess, DescribesFailure, Describes, TooLong, IsRecorded, ends-again,
  does_not_fit, no_code-fits, HasShortCode, resolve-HasShortCode, code_fits-schema,
}

-- So far the handler has written nothing.
pub record IsUntouched (w w' : World) : Type 0 where
  pub db : w'.db ≡ w.db
  pub committed : w'.committed ≡ w.committed

pub IsUntouched-refl : (w : World) → IsUntouched w w
IsUntouched-refl w = record { db = refl; committed = refl }

module _ (env : Env) (agent : Agent) (workspace : Workspace) (capability_id : String)
    (w : World) where
  -- A step that raises has recorded the attempt, one that returns has written nothing.
  abbrev pub Ends : {A : Type 0} → Result A × World → Type 0
  Ends (ok a, w') = IsUntouched w w'
  Ends {A} (err e, w') = IsRecorded {A = A} env agent capability_id w (err e) w'

  pub record Keeps {A : Type 0} (m : Exec World A) : Type 0 where
    pub at : (w₁ : World) → IsUntouched w w₁ → Ends (m w₁)

  -- The whole of an invocation: the attempt is recorded however it ends.
  record Leaves {A : Type 0} (m : Exec World A) : Type 0 where
    at : (w₁ : World) → IsUntouched w w₁ → IsRecorded env agent capability_id w (m w₁).0 (m w₁).1

  IsRecorded-again :
      {A B : Type 0} {w' : World} {e : ApiError}
      → IsRecorded {A = A} env agent capability_id w (err e) w'
      → IsRecorded {A = B} env agent capability_id w (err e) w'
  IsRecorded-again h = record {
    attempted = h.attempted;
    by_agent = h.by_agent;
    at_capability = h.at_capability;
    ending = ends-again env w h.attempted h.ending;
  }

  module _ {A : Type 0} where
    Keeps-pure : (a : A) → Keeps (pure a)
    unfolding ◌>>=◌
    Keeps-pure a = record { at = λ w₁ same. same }

    Keeps-gets : (f : World → A) → Keeps (gets f)
    unfolding ◌>>=◌
    Keeps-gets f = record { at = λ w₁ same. same }

    Keeps-or_else_do :
        (o : Option A) (handler : Exec World A) → Keeps handler → Keeps (or_else_do o handler)
    unfolding ◌>>=◌
    Keeps-or_else_do none handler h = h
    Keeps-or_else_do (some a) handler h = Keeps-pure a

  Keeps-modify : (f : World → World) → ((v : World) → IsUntouched v (f v)) → Keeps (modify f)
  unfolding ◌>>=◌
  Keeps-modify f h = record {
    at = λ w₁ same. record {
      db = (h w₁).db ∙ same.db;
      committed = (h w₁).committed ∙ same.committed;
    };
  }

  Keeps-when : (b : Bool) (handler : Exec World (Unit {0})) → Keeps handler → Keeps (when b handler)
  unfolding ◌>>=◌
  Keeps-when true handler h = h
  Keeps-when false handler h = Keeps-pure tt

  Keeps-except_do :
      {E : Type 0} (o : Option E) (handler : E → Exec World (Unit {0}))
      → ((e : E) → o ≡ some e → Keeps (handler e))
      → Keeps (except_do o handler)
  unfolding ◌>>=◌
  Keeps-except_do none handler h = Keeps-pure tt
  Keeps-except_do (some e) handler h = h e refl

  Keeps-count : (ms : List Metric) → Keeps (modify (count ms))
  Keeps-count ms = Keeps-modify _ (λ v. record { db = refl; committed = refl })

  module _ {A B : Type 0} where
    Keeps-gets-bind :
        (g : World → A) (f : A → Exec World B)
        → ((w₁ : World) → Keeps (f (g w₁)))
        → Keeps (gets g >>= f)
    unfolding ◌>>=◌
    Keeps-gets-bind g f k = record { at = λ w₁ same. (k w₁).at w₁ same }

    Keeps-continue :
        (r : Result A × World) (f : A → Exec World B)
        → Ends r
        → ((a : A) → Keeps (f a))
        → Ends (continue r f)
    Keeps-continue (ok a, w') f h k = (k a).at w' h
    Keeps-continue (err e, w') f h k = IsRecorded-again h

    Keeps-bind :
        (m : Exec World A) (f : A → Exec World B)
        → Keeps m
        → ((a : A) → Keeps (f a))
        → Keeps (m >>= f)
    unfolding ◌>>=◌
    Keeps-bind m f h k = record { at = λ w₁ same. Keeps-continue (m w₁) f (h.at w₁ same) k }

    Leaves-continue :
        (r : Result A × World) (f : A → Exec World B)
        → Ends r
        → ((a : A) → Leaves (f a))
        → IsRecorded env agent capability_id w (continue r f).0 (continue r f).1
    Leaves-continue (ok a, w') f h k = (k a).at w' h
    Leaves-continue (err e, w') f h k = IsRecorded-again h

    Leaves-bind :
        (m : Exec World A) (f : A → Exec World B)
        → Keeps m
        → ((a : A) → Leaves (f a))
        → Leaves (m >>= f)
    unfolding ◌>>=◌
    Leaves-bind m f h k = record { at = λ w₁ same. Leaves-continue (m w₁) f (h.at w₁ same) k }

  module _ (a : Attempt) (by : a.agent ≡ agent) (at_c : a.capability_id ≡ capability_id)
      (w₁ : World) (same : IsUntouched w w₁) where
    stored :
        {A : Type 0} (r : Result A)
        → (ids_fit env a.capability_id && code_fits env a.error_code) ≡ true
        → Describes a r
        → IsRecorded env agent capability_id w r (commit_attempt env true a w₁).1
    stored r fits describes = record {
      attempted = a;
      by_agent = by;
      at_capability = at_c;
      ending = inl (record {
        fits = fits;
        describes = describes;
        added = ap (add_events env a) same.db;
        committed = refl;
      });
    }

    lost :
        {A : Type 0}
        → TooLong env a
        → IsRecorded {A = A} env agent capability_id w
            (err unhandled)
            (commit_attempt env false a w₁).1
    lost too_long = record {
      attempted = a;
      by_agent = by;
      at_capability = at_c;
      ending = inr (record {
        too_long = too_long;
        raised = refl;
        rolled_back = same.committed;
        committed = same.committed;
      });
    }

    after_failure :
        {A : Type 0} (e : ApiError) (b : Bool)
        → (ids_fit env a.capability_id && code_fits env a.error_code) ≡ b
        → DescribesFailure a e
        → (code_fits env a.error_code ≡ true) ⊎ (e.status_code ≡ 502)
        → let x = commit_attempt env b a w₁ in
          IsRecorded {A = A} env agent capability_id w (err (raised_after env x.0 e)) x.1
    after_failure e true fits describes short = stored (err e) fits describes
    after_failure e false unfit describes short = lost (does_not_fit env a e unfit describes short)

    after_success :
        {A : Type 0} (response : A) (b : Bool)
        → (ids_fit env a.capability_id && code_fits env a.error_code) ≡ b
        → DescribesSuccess a
        → let x = continue (commit_attempt env b a w₁) (λ _. pure response) in
          IsRecorded env agent capability_id w x.0 x.1
    unfolding ◌>>=◌
    after_success response true fits success = stored (ok response) fits success
    after_success response false unfit success =
        lost (inl (no_code-fits env a (success.error_code) unfit))

  Keeps-raise :
      {A : Type 0} (a : Attempt) (e : ApiError)
      → a.agent ≡ agent
      → a.capability_id ≡ capability_id
      → a.units ≡ 1
      → FailsAs a e.status_code
      → (code_fits env (some e.code) ≡ true) ⊎ (e.status_code ≡ 502)
      → Keeps {A = A} (record_and_raise_invocation_error env a e)
  unfolding record_and_raise_invocation_error record_invocation_attempt
  Keeps-raise a e by at_c one fails short = record {
    at = λ w₁ same.
        after_failure (record a { outcome = "error"; error_code = some e.code }) by at_c _
          (record { db = same.db; committed = same.committed }) e _ refl
          (record { outcome = refl; error_code = refl; units = one; fails_as = fails }) short;
  }

  pub Keeps-deny :
      {A : Type 0} (user : Option User) (capability : Option Capability)
      → Keeps {A = A} (deny env agent workspace capability_id user capability)
  unfolding code_fits
  Keeps-deny user capability =
      Keeps-raise _ _ refl refl refl (inl (refl, refl, inl refl)) (inl refl)

  Keeps-fail :
      {A : Type 0} (user : User) (capability : Capability) (e : ApiError)
      → (e.status_code ≡ 422) ⊎ (e.status_code ≡ 502)
      → (code_fits env (some e.code) ≡ true) ⊎ (e.status_code ≡ 502)
      → Keeps {A = A} (fail env agent workspace capability_id user capability e)
  Keeps-fail user capability e status short =
      Keeps-raise _ e refl refl refl (inr (refl, refl, status)) short

  ruleset keeps_rules = (
    Keeps-pure, Keeps-gets, Keeps-or_else_do, Keeps-when, Keeps-except_do, Keeps-count, Keeps-bind,
    Keeps-deny, Keeps-fail, inl, inr, refl,
  )

  -- The codes of this program's own errors fit.
  check_input-Keeps :
      (payload : InvokeRequest) (a : Authorized)
      → Keeps (check_input env agent workspace capability_id payload a)
  unfolding code_fits
  check_input-Keeps payload a = Keeps-except_do _ _ λ e found.
      Keeps-fail a.user a.capability (api_error 422 e.code e.message) (inl refl)
        (inl (code_fits-schema env a payload e found))

  authorize-Keeps :
      (payload : InvokeRequest)
      → Keeps (authorize_invocation env agent workspace capability_id payload)
  unfolding authorize_invocation
  authorize-Keeps payload = search keeps_rules depth 12

  use_secret-Keeps :
      (a : Authorized) (resolution : Resolution)
      → HasShortCode env resolution
      → Keeps (use_secret env agent workspace capability_id a resolution)
  use_secret-Keeps a (resolved secret) short = Keeps-pure secret
  use_secret-Keeps a (failed code message) short =
      Keeps-raise _ _ refl refl refl (inl (refl, refl, inr refl)) (inl short)

  prepare-Keeps :
      (payload : InvokeRequest) (a : Authorized)
      → Keeps (prepare_invocation env agent workspace capability_id payload a)
  unfolding prepare_invocation
  prepare-Keeps payload a = Keeps-bind _ _ (check_input-Keeps payload a) λ _.
      Keeps-gets-bind _ _ λ w₁. Keeps-bind _ _ (Keeps-count _) λ _.
        Keeps-bind _ _ (use_secret-Keeps a _ (resolve-HasShortCode env w₁.db a.capability a.user))
          λ secret. search keeps_rules depth 12

  -- The last two statements: the success is recorded, then the response is returned.
  Leaves-success :
      (a : Attempt) (response : InvokeResponse)
      → a.agent ≡ agent
      → a.capability_id ≡ capability_id
      → DescribesSuccess a
      → Leaves (record_invocation_attempt env a >> pure response)
  unfolding ◌>>=◌ record_invocation_attempt
  Leaves-success a response by at_c success = record {
    at = λ w₁ same.
        after_success a by at_c _ (record { db = same.db; committed = same.committed }) response _
          refl success;
  }

  call-Leaves :
      (payload : InvokeRequest) (a : Authorized) (prepared : SecretMaterial × Adapter)
      → Leaves (call_adapter env agent workspace capability_id payload a prepared)
  unfolding call_adapter
  call-Leaves payload a (secret, adapter) =
      Leaves-bind _ _ (Keeps-modify _ (λ v. record { db = refl; committed = refl })) λ _.
        Leaves-bind _ _ (search keeps_rules depth 12) λ result. Leaves-bind _ _ (Keeps-count _) λ _.
          Leaves-bind _ _ (search keeps_rules depth 12) λ _.
            Leaves-bind _ _ (search keeps_rules depth 12) λ _.
              Leaves-success _ _ refl refl (record {
                decision = refl;
                outcome = refl;
                error_code = refl;
                usage_status = refl;
                units = le-max_with 1 result.usage_units;
              })

  invoke-Leaves :
      (payload : InvokeRequest)
      → Leaves (invoke_capability_by_id env agent workspace capability_id payload)
  unfolding invoke_capability_by_id
  invoke-Leaves payload =
      Leaves-bind _ _ (authorize-Keeps payload)
        λ a. Leaves-bind _ _ (prepare-Keeps payload a) (call-Leaves payload a)

-- However an invocation ends, it has made one attempt of this agent at this capability. If the texts
-- of the attempt fit into the columns, one audit event and one usage event of it are added to what the
-- session held, and are committed; the attempt says how the invocation ended: on success allow, success
-- and at least one unit; on an error the error's code and one unit, with deny and denied exactly as the
-- error answers 403 or 424, and allow and error as it answers 422 or 502. Otherwise the request id, the
-- capability id or the client's address is too long, or the code of a failure that would have answered
-- 502; then the invocation answers 500 and leaves what was committed.
pub invoke-IsRecorded :
    (env : Env) (agent : Agent) (workspace : Workspace) (capability_id : String)
    (payload : InvokeRequest) (w : World)
    → let (r, w') = invoke_capability_by_id env agent workspace capability_id payload w in
      IsRecorded env agent capability_id w r w'
invoke-IsRecorded env agent workspace capability_id payload w =
    (invoke-Leaves env agent workspace capability_id w payload).at w (IsUntouched-refl w)
