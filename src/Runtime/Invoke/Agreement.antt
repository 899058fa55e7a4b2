-- ===== src/Runtime/Invoke/Agreement.antt =====
-- The capabilities that `GET /v1/capabilities`, the OpenAPI document and the MCP tool list show,
-- against those that `POST /v1/invoke` lets through (api/runtime.py).
use grantora.Prelude.{
  ℕ, String, ◌≡◌, refl, ap, sym, ◌∙◌, ◌↔◌, true, ◌&&◌, Option, none, some, arith, Memᴰ, and_true,
  true_and, find?-of_mem, find?-some, filter-mem, mem-filter, ◌==◌, nat_eq, string_eq, eq_iff,
}
use mathlib.Core.Path.{ap₂}
use mathlib.Core.Option.{some-injective}
use grantora.Errors.{ok, ◌>>=◌}
use grantora.Db.Models.{
  Db, Workspace, ApplicationInstance, Agent, User, Capability, Binding, is_active,
}
use grantora.Db.Queries.{
  get_active_capability_by_id, capability_available, capability_joined, get_active_binding,
}
use grantora.Db.Queries.Joins.{application_by_id, application_active}
use grantora.Db.Queries.Rows.{joins, list_active-mem, mem-list_active}
use grantora.Db.Queries.Sound.{holds_at-true, text_eq→≡}
use grantora.Runtime.State.{World, Env}
use grantora.Runtime.Visible.{
  active_user, select_runtime_user, binding_shows, is_visible, list_visible_capabilities,
}
use grantora.Runtime.Invoke.{
  InvokeRequest, Authorized, if_application_active, with_active_application, binding_allows,
  is_allowed, authorize_invocation,
}
use grantora.Runtime.Invoke.Authority.{with_active_application_sound, authorize-HasPassed}

-- The primary key of the capabilities.
abbrev pub HasCapabilityKeys : Db → Type 0
HasCapabilityKeys db =
    (c d : Capability) → Memᴰ c db.capabilities → Memᴰ d db.capabilities → c.id ≡ d.id → c ≡ d

module _ (db : Db) (agent : Agent) (user : User) where
  shows-allows :
      (o : Option Binding) (p : Option String) → binding_shows db o p ≡ binding_allows db o p
  shows-allows none p = refl
  shows-allows (some b) none = refl
  shows-allows (some b) (some code) = refl

  -- The two copies of the test agree.
  visible-allowed : (c : Capability) → is_visible db agent user c ≡ is_allowed db agent user c
  unfolding is_visible is_allowed
  visible-allowed c = shows-allows _ _

  found_by_id :
      HasCapabilityKeys db
      → (workspace_id : ℕ) (c : Capability) → Memᴰ c db.capabilities
      → capability_available db workspace_id c ≡ true
      → get_active_capability_by_id db workspace_id c.id ≡ some c
  unfolding get_active_capability_by_id
  found_by_id keys workspace_id c m available =
      let (d, found, md, pd) =
        find?-of_mem (λ d. d.id == c.id && capability_available db workspace_id d) db.capabilities m
          (true_and _ _ ((eq_iff c.id c.id).1 refl) available) in
      found ∙ ap some (keys d c md m (text_eq→≡ _ _ (and_true _ _ pd).0))

  active_application :
      (workspace_id : ℕ) (c : Capability)
      → capability_available db workspace_id c ≡ true
      → (a : ApplicationInstance) × (with_active_application db (some c) ≡ some (c, a))
  unfolding capability_available capability_joined application_active
  active_application workspace_id c available =
      let (a, found, active) =
        holds_at-true (application_by_id db c.application_instance_id)
          (λ a. a.workspace_id == workspace_id && is_active a.status) (ground arith) in
      (a, ap (if_application_active c) found ∙ ground arith)

module _ (env : Env) (agent : Agent) (workspace : Workspace) (capability_id : String) where
  authorize-returns :
      (payload : InvokeRequest) (w : World) (u : User) (c : Capability) (a : ApplicationInstance)
      → active_user (select_runtime_user w.db agent payload.user) ≡ some u
      → with_active_application w.db
          (get_active_capability_by_id w.db agent.workspace_id capability_id)
        ≡ some (c, a)
      → is_allowed w.db agent u c ≡ true
      → authorize_invocation env agent workspace capability_id payload w
        ≡ (ok (record { user = u; capability = c; application = a }), w)
  unfolding authorize_invocation ◌>>=◌
  authorize-returns payload w u c a selected found allowed =
      rw selected (rw found (rw allowed refl))

module _ (env : Env) (agent : Agent) (workspace : Workspace) where
  module _ (payload : InvokeRequest) (w : World) (keys : HasCapabilityKeys w.db) (user : User)
      (selected : active_user (select_runtime_user w.db agent payload.user) ≡ some user)
      (c : Capability) where
    visible-invocable :
        Memᴰ c (list_visible_capabilities w.db agent user)
        → (a : Authorized) × (authorize_invocation env agent workspace c.id payload w ≡ (ok a, w))
          × (a.capability ≡ c)
    unfolding list_visible_capabilities
    visible-invocable m =
        let (listed, visible) = filter-mem (is_visible w.db agent user) _ m in
        let (mc, available) = list_active-mem w.db _ _ _ listed in
        let (a, application) = active_application w.db agent user agent.workspace_id c available in
        (
          _,
          authorize-returns env agent workspace c.id payload w user c a selected
              (ap (with_active_application w.db) (found_by_id w.db agent user keys _ c mc available)
                ∙ application)
              (sym (visible-allowed w.db agent user c) ∙ visible),
          refl,
        )

  allowed_binding :
      (db : Db) (o : Option Binding) (p : Option String)
      → binding_allows db o p ≡ true
      → (b : Binding) × (o ≡ some b)
  allowed_binding db none p h = cc
  allowed_binding db (some b) p h = (b, refl)

  module _ (payload : InvokeRequest) (w : World) (user : User)
      (selected : active_user (select_runtime_user w.db agent payload.user) ≡ some user)
      (c : Capability) where
    listed_binding :
        is_allowed w.db agent user c ≡ true
        → (b : Binding) × Memᴰ b w.db.bindings
          × (joins w.db agent.workspace_id agent.id user.id c b ≡ true)
    unfolding is_allowed get_active_binding
    listed_binding allowed =
        let (b, found) = allowed_binding w.db _ _ allowed in
        let (m, t) = find?-some _ w.db.bindings found in (b, m, ground arith)

    listed_capability :
        get_active_capability_by_id w.db agent.workspace_id c.id ≡ some c
        → Memᴰ c w.db.capabilities × (capability_available w.db agent.workspace_id c ≡ true)
    unfolding get_active_capability_by_id
    listed_capability found = let (m, t) = find?-some _ w.db.capabilities found in (m, ground arith)

    allowed-visible :
        get_active_capability_by_id w.db agent.workspace_id c.id ≡ some c
        → is_allowed w.db agent user c ≡ true
        → Memᴰ c (list_visible_capabilities w.db agent user)
    unfolding list_visible_capabilities
    allowed-visible found allowed =
        let (b, mb, j) = listed_binding allowed in
        let (mc, available) = listed_capability found in
        mem-filter (is_visible w.db agent user) _ (mem-list_active w.db _ _ _ b mc available mb j)
          (visible-allowed w.db agent user c ∙ allowed)

    invocable-visible :
        (a : Authorized)
        → authorize_invocation env agent workspace c.id payload w ≡ (ok a, w)
        → a.capability ≡ c
        → Memᴰ c (list_visible_capabilities w.db agent user)
    invocable-visible a h same =
        let (passed, _) = authorize-HasPassed env agent workspace c.id payload w h in
        let (by_id, _, _) = with_active_application_sound w.db agent _ passed.available in
        let same_user : a.user ≡ user = some-injective _ _ (sym passed.selected ∙ selected) in
        allowed-visible (by_id ∙ ap some same)
          (ap₂ (is_allowed w.db agent) (sym same_user) (sym same) ∙ passed.allowed)

  -- For an active user, and with capability ids that are keys: a capability is in the list that the
  -- agent is shown exactly if a request to invoke it by its id passes every check of the caller, and
  -- that request is then for this very capability and changes nothing before the call.
  pub visible_iff_invocable :
      (payload : InvokeRequest) (w : World) (user : User) (c : Capability)
      → HasCapabilityKeys w.db
      → active_user (select_runtime_user w.db agent payload.user) ≡ some user
      → Memᴰ c (list_visible_capabilities w.db agent user) ↔ (
          (a : Authorized) × (authorize_invocation env agent workspace c.id payload w ≡ (ok a, w))
          × (a.capability ≡ c))
  visible_iff_invocable payload w user c keys selected = (
    visible-invocable payload w keys user selected c,
    λ (a, passes, same). invocable-visible payload w user selected c a passes same,
  )
