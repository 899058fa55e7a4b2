-- ===== src/Admin/Capabilities/Created.antt =====
-- What the creation of a capability checks and adds.
use grantora.Prelude.{
  ◌≡◌, refl, sym, ap, Bool, true, false, not, none, some, [], ◌∷◌, ◌++◌, ◌==◌, nat_eq, string_eq,
}
use grantora.Errors.{Exec, api_error, ok, raise, ◌>>=◌, ◌>>◌}
use grantora.Errors.Keeps.{Raises, except_do-bind}
use grantora.Db.Models.{Capability, Workspace, ApplicationInstance}
use grantora.Db.Queries.{get_active_workspace_by_id}
use grantora.Capabilities.Validation.{SchemaError}
use grantora.Capabilities.Definition.{validate_capability_definition}
use grantora.Admin.{
  Session, AdminEnv, has_integrity, manages, active_application, require, admin_audit_event,
}
use grantora.Admin.Steps.{get_or_raise-bind, require-bind, insert-bind}
use grantora.Admin.Capabilities.{
  CapabilityCreateRequest, is_raw_passthrough, add_capability, capability_event, new_capability,
  create_capability, store_capability,
}

module _ (env : AdminEnv) (payload : CapabilityCreateRequest) (s : Session) where
  -- The checks that a new capability has passed, and the rows it adds.
  pub record IsCreated (capability : Capability) (s' : Session) : Type 0 where
    pub managed : manages env.admin payload.workspace_id ≡ true
    pub workspace : Workspace
    pub active_workspace : get_active_workspace_by_id s.db payload.workspace_id ≡ some workspace
    pub application : ApplicationInstance
    pub active_instance : active_application payload.application_instance_id s.db ≡ some application
    pub same_workspace : (application.workspace_id == workspace.id) ≡ true
    pub same_provider : (application.provider_type == payload.definition.provider_type) ≡ true
    pub well_defined : validate_capability_definition env.validator payload.definition ≡ none
    pub no_passthrough :
        is_raw_passthrough payload.definition.operation payload.definition.input_schema ≡ false
    pub row : capability ≡ new_capability env payload workspace.id application.id
    pub db : s'.db ≡ record s.db {
      capabilities = s.db.capabilities ++ capability ∷ [];
      audit_events =
          s.db.audit_events
          ++ admin_audit_event env workspace.id none none (some capability.id) (some application.id)
            ∷ [];
    }
    pub no_conflict : has_integrity s'.db ≡ true
    pub committed : s'.committed ≡ s'.db

  invalid-Raises :
      (e : SchemaError)
      → Raises (raise {S = Session} {A = Unit {0}} (api_error 422 e.code e.message))
  unfolding ◌>>=◌
  invalid-Raises e t = (_, _, refl)

  abbrev after_check : Workspace → ApplicationInstance → Exec Session Capability
  after_check workspace application =
      require
        (not (is_raw_passthrough payload.definition.operation payload.definition.input_schema))
        (api_error 422 "raw_passthrough_unavailable"
          "Raw upstream passthrough capabilities are not available")
      >> store_capability env (new_capability env payload workspace.id application.id)

  store_capability-bind :
      (new : Capability) (t : Session) {capability : Capability} {s' : Session}
      → store_capability env new t ≡ (ok capability, s')
      → let added =
          capability_event env new.workspace_id new.id new.application_instance_id
            (add_capability new t) in
        (new ≡ capability)
        × (s' ≡ record added { committed = added.db })
        × (has_integrity added.db ≡ true)
  unfolding store_capability
  store_capability-bind new t h =
      insert-bind "capability_conflict" "Capability could not be created" (add_capability new)
        (capability_event env new.workspace_id new.id new.application_instance_id) new t h

  not-true : {b : Bool} → not b ≡ true → b ≡ false
  not-true {b = true} h = cc
  not-true {b = false} h = refl

  -- A creation that succeeds has an active workspace that the administrator manages, an active
  -- application of that workspace and of the capability's provider type, a valid definition and no raw
  -- passthrough. It adds the capability with its definition and one event, and nothing else, to a
  -- database that then meets the constraints and is committed.
  pub create_capability-IsCreated :
      {capability : Capability} {s' : Session}
      → create_capability env payload s ≡ (ok capability, s')
      → IsCreated capability s'
  unfolding create_capability
  create_capability-IsCreated {capability} {s'} h =
      let (managed, h₁) = require-bind _ _ _ s h in
      let (workspace, active_workspace, h₂) = get_or_raise-bind _ _ _ s h₁ in
      let (application, active_instance, h₃) = get_or_raise-bind _ _ _ s h₂ in
      let (same_workspace, h₄) = require-bind _ _ _ s h₃ in
      let (same_provider, h₅) = require-bind _ _ _ s h₄ in
      let (well_defined, h₆) =
        except_do-bind (validate_capability_definition env.validator payload.definition)
          (λ (e : SchemaError). raise (api_error 422 e.code e.message))
          (λ _. after_check workspace application) s invalid-Raises h₅ in
      let (passes, h₇) = require-bind _ _ _ s h₆ in
      let (same, e, good) =
        store_capability-bind (new_capability env payload workspace.id application.id) s h₇ in
      record {
        managed = managed;
        workspace = workspace;
        active_workspace = active_workspace;
        application = application;
        active_instance = active_instance;
        same_workspace = same_workspace;
        same_provider = same_provider;
        well_defined = well_defined;
        no_passthrough = not-true passes;
        row = sym same;
        db = rw (sym same) (ap (λ t. t.db) e);
        no_conflict = rw e good;
        committed = rw e refl;
      }
