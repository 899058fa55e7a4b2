-- ===== src/Tests/Runtime.antt =====
-- Runs and witnesses for api/runtime.py.
use mathlib.Core.List.Memᴰ
use grantora.Prelude.{◌≡◌, refl, sym, ◌∙◌, ◌↔◌, ◌⊎◌, some, Memᴰ}
use grantora.Errors.{ok, ◌>>=◌}
use grantora.Db.Queries.{
  get_user_by_external_id, get_active_capability_by_id, capability_available, capability_joined,
  get_active_binding, binding_available, role_grants_permission,
}
use grantora.Db.Queries.Joins.{
  workspace_active, application_active, agent_active, user_active, role_active, capability_by_id,
  role_by_id, application_by_id,
}
use grantora.Capabilities.{invoke_permission_for_risk_class}
use grantora.Runtime.Visible.{active_user, select_runtime_user, list_visible_capabilities}
use grantora.Runtime.Invoke.{Authorized, is_allowed, authorize_invocation, invoke_capability_by_id}
use grantora.Runtime.Invoke.Endings.{IsRecorded}
use grantora.Runtime.Invoke.Trail.{invoke-IsRecorded}
use grantora.Runtime.Invoke.Authority.{MayInvoke, authorize-MayInvoke}
use grantora.Runtime.Invoke.Agreement.{HasCapabilityKeys, visible_iff_invocable}
use grantora.Runtime.Invoke.Calls.{HasCalled, calls-invoke}
use grantora.Tests.Fixture.{acme, phonebook, hermes, alice, search, small_db, env, start, for_alice}

abbrev cleared : Authorized
cleared = record { user = alice; capability = search; application = phonebook }

pub alice_selected : active_user (select_runtime_user small_db hermes "alice") ≡ some alice
unfolding active_user select_runtime_user get_user_by_external_id workspace_active
alice_selected = refl

-- Hermes may search the phonebook for Alice.
search_cleared :
    authorize_invocation env hermes acme "mock.phonebook.search" for_alice start
    ≡ (ok cleared, start)
unfolding authorize_invocation ◌>>=◌ is_allowed active_user select_runtime_user
    get_user_by_external_id get_active_capability_by_id capability_available capability_joined
    get_active_binding binding_available role_grants_permission workspace_active application_active
    agent_active user_active role_active capability_by_id role_by_id application_by_id
    invoke_permission_for_risk_class
search_cleared = refl

pub search_keys : HasCapabilityKeys small_db
search_keys c d (Memᴰ.head e) (Memᴰ.head f) same = e ∙ sym f
search_keys c d (Memᴰ.head e) (Memᴰ.tail m) same = absurd (Memᴰ.not-nil m)
search_keys c d (Memᴰ.tail m) n same = absurd (Memᴰ.not-nil m)

authorize-MayInvoke_example :
    MayInvoke small_db hermes "alice" "mock.phonebook.search" cleared × (start ≡ start)
authorize-MayInvoke_example =
    authorize-MayInvoke env hermes acme "mock.phonebook.search" for_alice start search_cleared

visible_iff_invocable_example : Memᴰ search (list_visible_capabilities small_db hermes alice) ↔ (
    (a : Authorized) × (authorize_invocation env hermes acme "mock.phonebook.search" for_alice start
      ≡ (ok a, start))
    × (a.capability ≡ search))
visible_iff_invocable_example =
    visible_iff_invocable env hermes acme for_alice start alice search search_keys alice_selected

invoke-IsRecorded_example :
    let (r, w') = invoke_capability_by_id env hermes acme "mock.phonebook.search" for_alice start in
    IsRecorded env hermes "mock.phonebook.search" start r w'
invoke-IsRecorded_example =
    invoke-IsRecorded env hermes acme "mock.phonebook.search" for_alice start

calls-invoke_example :
    let w' = (invoke_capability_by_id env hermes acme "mock.phonebook.search" for_alice start).1 in
    (w'.calls ≡ start.calls) ⊎ HasCalled env hermes acme "mock.phonebook.search" for_alice start w'
calls-invoke_example = calls-invoke env hermes acme "mock.phonebook.search" for_alice start
