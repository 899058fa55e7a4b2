-- ===== src/Runtime/Invoke/Authority.antt =====
-- Who may invoke a capability: what the rows of the database say, against the checks of
-- `_invoke_capability_by_id` of api/runtime.py.
use grantora.Prelude.{
  String, ◌≡◌, refl, ap, sym, ◌∙◌, inl, inr, Bool, true, false, not, Option, none, some, arith,
  Bool-cases, and_true, nat_eq, string_eq,
}
use mathlib.Core.Path.{subst}
use grantora.Errors.{ok}
use grantora.Errors.Keeps.{Raises, gets-bind, or_else_do-bind, when-bind, pure-ok}
use grantora.Db.Models.{
  Db, Workspace, ApplicationInstance, Agent, User, Capability, Binding, active_status, is_active,
}
use grantora.Db.Queries.{get_active_capability_by_id, get_active_binding}
use grantora.Db.Queries.Joins.{application_by_id}
use grantora.Db.Queries.Sound.{
  IsActiveBinding, IsActiveCapability, IsGranted, IsUser, get_active_binding_sound,
  get_active_capability_by_id_sound, get_user_by_external_id_sound, role_grants_permission_sound,
  text_eq→≡,
}
use grantora.Capabilities.{describe_permission, invoke_permission_for_risk_class}
use grantora.Runtime.State.{World, Env}
use grantora.Runtime.Recording.{record_and_raise_invocation_error}
use grantora.Runtime.Visible.{if_active, active_user, select_runtime_user}
use grantora.Runtime.Invoke.{
  InvokeRequest, Authorized, deny, if_application_active, with_active_application, binding_allows,
  is_allowed, authorize_invocation,
}

-- The agent holds an active binding for the user and the capability, whose role may describe the
-- capability and may invoke capabilities of its risk class.
pub record IsEntitled (db : Db) (agent : Agent) (user : User) (c : Capability) : Type 0 where
  pub binding : Binding
  pub active : IsActiveBinding db agent.workspace_id agent.id user.id c.id binding
  pub permission_code : String
  pub of_risk_class : invoke_permission_for_risk_class c.risk_class ≡ some permission_code
  pub may_describe : IsGranted db binding.role_id describe_permission
  pub may_invoke : IsGranted db binding.role_id permission_code

pub record MayInvoke (db : Db) (agent : Agent) (external_id id : String) (a : Authorized)
    : Type 0 where
  pub user : IsUser db agent.workspace_id external_id a.user
  pub user_active : a.user.status ≡ active_status
  pub capability : IsActiveCapability db agent.workspace_id a.capability
  pub capability_id : a.capability.id ≡ id
  pub application : application_by_id db a.capability.application_instance_id ≡ some a.application
  pub application_active : a.application.status ≡ active_status
  pub entitled : IsEntitled db agent a.user a.capability

if_active-some :
    (o : Option User) {u : User} → if_active o ≡ some u → (o ≡ some u) × (u.status ≡ active_status)
if_active-some none h = cc
if_active-some (some v) {u} h = elim (Bool-cases (is_active v.status)) [
  | inl active ↦
      let same : v ≡ u = ground arith in
      (ap some same, ap (λ (x : User). x.status) (sym same) ∙ text_eq→≡ _ _ active)
  | inr other ↦ absurd (ground arith)
]

module _ (db : Db) (agent : Agent) where
  pub active_user_sound :
      (external_id : String) {u : User}
      → active_user (select_runtime_user db agent external_id) ≡ some u
      → IsUser db agent.workspace_id external_id u × (u.status ≡ active_status)
  unfolding active_user select_runtime_user
  active_user_sound external_id h =
      let (found, active) = if_active-some _ h in
      (get_user_by_external_id_sound db _ external_id found, active)

  application-some :
      (c' : Capability) (o : Option ApplicationInstance) {c : Capability} {a : ApplicationInstance}
      → if_application_active c' o ≡ some (c, a)
      → (c' ≡ c) × (o ≡ some a) × (a.status ≡ active_status)
  application-some c' none h = cc
  application-some c' (some b) {c} {a} h = elim (Bool-cases (is_active b.status)) [
    | inl active ↦
        let same : b ≡ a = ground arith in
        (
          ground arith,
          ap some same,
          ap (λ (x : ApplicationInstance). x.status) (sym same) ∙ text_eq→≡ _ _ active,
        )
    | inr other ↦ absurd (ground arith)
  ]

  pub with_active_application_sound :
      (o : Option Capability) {c : Capability} {a : ApplicationInstance}
      → with_active_application db o ≡ some (c, a)
      → (o ≡ some c)
        × (application_by_id db c.application_instance_id ≡ some a)
        × (a.status ≡ active_status)
  with_active_application_sound none h = cc
  with_active_application_sound (some c') h =
      let (same, found, active) =
        application-some c' (application_by_id db c'.application_instance_id) h in
      (
        ap some same,
        ap (λ (x : Capability). application_by_id db x.application_instance_id) (sym same) ∙ found,
        active,
      )

  IsEntitled-sound :
      (user : User) (c : Capability) (o : Option Binding) (p : Option String)
      → get_active_binding db agent.workspace_id agent.id user.id c.id ≡ o
      → invoke_permission_for_risk_class c.risk_class ≡ p
      → binding_allows db o p ≡ true
      → IsEntitled db agent user c
  IsEntitled-sound user c none p found code h = cc
  IsEntitled-sound user c (some b) none found code h = cc
  IsEntitled-sound user c (some b) (some permission) found code h =
      let (describes, invokes) = and_true _ _ h in
      record {
        binding = b;
        active = get_active_binding_sound db _ _ _ _ found;
        permission_code = permission;
        of_risk_class = code;
        may_describe = role_grants_permission_sound db _ _ describes;
        may_invoke = role_grants_permission_sound db _ _ invokes;
      }

  pub is_allowed_sound :
      (user : User) (c : Capability)
      → is_allowed db agent user c ≡ true
      → IsEntitled db agent user c
  unfolding is_allowed
  is_allowed_sound user c h = IsEntitled-sound user c _ _ refl refl h

not-false : (b : Bool) → not b ≡ false → b ≡ true
not-false true h = refl
not-false false h = cc

module _ (env : Env) (agent : Agent) (workspace : Workspace) (capability_id : String) where
  deny-Raises :
      {A : Type 0} (user : Option User) (capability : Option Capability)
      → Raises (deny env agent workspace capability_id {A = A} user capability)
  unfolding record_and_raise_invocation_error
  deny-Raises user capability s = (_, _, refl)

  -- The checks that an authorized request has passed.
  pub record HasPassed (payload : InvokeRequest) (w : World) (a : Authorized) : Type 0 where
    pub selected : active_user (select_runtime_user w.db agent payload.user) ≡ some a.user
    pub available :
        with_active_application w.db
          (get_active_capability_by_id w.db agent.workspace_id capability_id)
        ≡ some (a.capability, a.application)
    pub allowed : is_allowed w.db agent a.user a.capability ≡ true

  pub authorize-HasPassed :
      (payload : InvokeRequest) (w : World) {a : Authorized} {w' : World}
      → authorize_invocation env agent workspace capability_id payload w ≡ (ok a, w')
      → HasPassed payload w a × (w' ≡ w)
  unfolding authorize_invocation
  authorize-HasPassed payload w {a} h =
      let (user, selected, h₁) = or_else_do-bind _ _ _ w (deny-Raises _ _) (gets-bind _ _ w h) in
      let (found, available, h₂) = or_else_do-bind _ _ _ w (deny-Raises _ _) (gets-bind _ _ w h₁) in
      let (denied, h₃) = when-bind _ _ _ w (deny-Raises _ _) (gets-bind _ _ w h₂) in
      let (same, unchanged) = pure-ok _ w h₃ in
      (
        subst (HasPassed payload w) same
            (record { selected = selected; available = available; allowed = not-false _ denied }),
        unchanged,
      )

  -- Where the checks let a request through, the session is as it was, and the rows of the database
  -- entitle the agent: the user of that external id is active, the capability, its workspace and its
  -- application are active, and an active binding of the agent, the user and the capability names an
  -- active role that may describe and that may invoke the risk class.
  pub authorize-MayInvoke :
      (payload : InvokeRequest) (w : World) {a : Authorized} {w' : World}
      → authorize_invocation env agent workspace capability_id payload w ≡ (ok a, w')
      → MayInvoke w.db agent payload.user capability_id a × (w' ≡ w)
  authorize-MayInvoke payload w {a} h =
      let (passed, unchanged) = authorize-HasPassed payload w h in
      let (is_user, is_active_user) = active_user_sound w.db agent payload.user passed.selected in
      let (by_id, application, active) =
        with_active_application_sound w.db agent _ passed.available in
      let (is_capability, has_id) = get_active_capability_by_id_sound w.db _ _ by_id in
      (
        record {
          user = is_user;
          user_active = is_active_user;
          capability = is_capability;
          capability_id = has_id;
          application = application;
          application_active = active;
          entitled = is_allowed_sound w.db agent a.user a.capability passed.allowed;
        },
        unchanged,
      )
