-- ===== src/Admin/Bindings/Laws.antt =====
-- What a binding that api/admin.py creates relies on, and what the creation changes.
use mathlib.Core.Path.{subst}
use grantora.Prelude.{
  nat_beq_iff, ℕ, String, ◌≡◌, refl, sym, ap, ◌∙◌, Bool, true, false, Option, some, [], ◌∷◌, ◌++◌,
  arith, ◌==◌, nat_eq, string_eq,
}
use grantora.Errors.{ok, when, ◌>>=◌}
use grantora.Errors.Keeps.{
  Keeps, Keeps-modify, Keeps-when, Keeps-gets, gets-bind, modify-bind, bind-ok, pure-ok,
}
use grantora.Db.Models.{Db, Binding, active_status}
use grantora.Admin.{
  Session, AdminEnv, has_integrity, manages, active_agent, the_active_user, active_capability,
  active_role,
}
use grantora.Db.Queries.{get_active_workspace_by_id}
use grantora.Admin.Atomic.{
  Sees, Ends, admin_rules, Keeps-get_or_raise, Keeps-require, Sees-flush, IsAtomic-bind,
  IsAtomic-commit,
}
use grantora.Admin.Steps.{get_or_raise-bind, require-bind, flush-bind, commit-bind}
use grantora.Admin.Bindings.{
  BindingCreateRequest, Parties, get_parties, new_binding, binding_event, insert_binding,
  create_binding, binding_by_id, set_binding_status, application_of, store_status,
  validate_binding_can_be_active, update_binding_status,
}

-- The parties are active rows, all of one workspace.
pub record AreParties (db : Db) (workspace_id agent_id user_id : ℕ) (capability_id : String)
    (role_id : ℕ) (p : Parties) : Type 0 where
  pub workspace : get_active_workspace_by_id db workspace_id ≡ some p.workspace
  pub agent : active_agent agent_id db ≡ some p.agent
  pub user : the_active_user user_id db ≡ some p.user
  pub capability : active_capability capability_id db ≡ some p.capability
  pub role : active_role role_id db ≡ some p.role
  pub agent_workspace : p.agent.workspace_id ≡ p.workspace.id
  pub user_workspace : p.user.workspace_id ≡ p.workspace.id
  pub capability_workspace : p.capability.workspace_id ≡ p.workspace.id
  pub role_workspace : p.role.workspace_id ≡ p.workspace.id

pub get_parties-AreParties :
    (workspace_id agent_id user_id : ℕ) (capability_id : String) (role_id : ℕ) (s : Session)
    {p : Parties} {s' : Session}
    → get_parties workspace_id agent_id user_id capability_id role_id s ≡ (ok p, s')
    → AreParties s.db workspace_id agent_id user_id capability_id role_id p × (s' ≡ s)
unfolding get_parties
get_parties-AreParties workspace_id agent_id user_id capability_id role_id s {p} h =
    let (workspace, ew, h₁) = get_or_raise-bind _ _ _ s h in
    let (agent, ea, h₂) = get_or_raise-bind _ _ _ s h₁ in
    let (user, eu, h₃) = get_or_raise-bind _ _ _ s h₂ in
    let (capability, ec, h₄) = get_or_raise-bind _ _ _ s h₃ in
    let (role, er, h₅) = get_or_raise-bind _ _ _ s h₄ in
    let (wa, h₆) = require-bind _ _ _ s h₅ in
    let (wu, h₇) = require-bind _ _ _ s h₆ in
    let (wc, h₈) = require-bind _ _ _ s h₇ in
    let (wr, h₉) = require-bind _ _ _ s h₈ in
    let (same, unchanged) = pure-ok _ s h₉ in
    (
      subst (AreParties s.db workspace_id agent_id user_id capability_id role_id) same (record {
        workspace = ew;
        agent = ea;
        user = eu;
        capability = ec;
        role = er;
        agent_workspace = (nat_beq_iff _ _).0 wa;
        user_workspace = (nat_beq_iff _ _).0 wu;
        capability_workspace = (nat_beq_iff _ _).0 wc;
        role_workspace = (nat_beq_iff _ _).0 wr;
      }),
      unchanged,
    )

-- The row and its event were added, and committed.
pub record IsInserted (env : AdminEnv) (p : Parties) (status : String) (s : Session) (b : Binding)
    (s' : Session) : Type 0 where
  pub binding : b ≡ new_binding env p status
  pub db : s'.db ≡ record s.db {
    bindings = s.db.bindings ++ b ∷ [];
    audit_events = s.db.audit_events ++ binding_event env p ∷ [];
  }
  pub no_conflict : has_integrity s'.db ≡ true
  pub committed : s'.committed ≡ s'.db

insert-IsInserted :
    (env : AdminEnv) (p : Parties) (status : String) (s : Session) {b : Binding} {s' : Session}
    → insert_binding env p status s ≡ (ok b, s')
    → IsInserted env p status s b s'
unfolding insert_binding has_integrity
insert-IsInserted env p status s {b} {s'} h =
    let (good, h₁) = flush-bind _ _ _ _ (modify-bind _ _ s h) in
    let (same, e, _) = commit-bind _ _ _ _ (modify-bind _ _ _ h₁) in
    record {
      binding = sym same;
      db = rw (e, ← same) refl;
      no_conflict = rw e good;
      committed = rw e refl;
    }

module _ (env : AdminEnv) (payload : BindingCreateRequest) (s : Session) where
  -- A binding was created, and nothing else but one audit event.
  pub record IsCreated (b : Binding) (s' : Session) : Type 0 where
    pub managed : manages env.admin payload.workspace_id ≡ true
    pub parties : Parties
    pub are_parties :
        AreParties s.db payload.workspace_id payload.agent_id payload.user_id payload.capability_id
          payload.role_id parties
    pub inserted : IsInserted env parties payload.status s b s'

  -- A binding that is created is in a workspace that the administrator manages, its workspace, agent,
  -- user, capability and role are active, and the four belong to that workspace. The tables then have
  -- that binding and one event for the allowed change, and are otherwise as before; no two active
  -- bindings, and no two active secrets, have the same key; and all of it is committed.
  pub create-IsCreated :
      {b : Binding} {s' : Session} → create_binding env payload s ≡ (ok b, s') → IsCreated b s'
  unfolding create_binding
  create-IsCreated {b} {s'} h =
      let (managed, h₁) = require-bind _ _ _ s h in
      let (p, s₁, e, h₂) = bind-ok _ _ s h₁ in
      let (are, same) = get_parties-AreParties _ _ _ _ _ s e in
      record {
        managed = managed;
        parties = p;
        are_parties = are;
        inserted =
            insert-IsInserted env p payload.status s
              (ap (insert_binding env p payload.status) (sym same) ∙ h₂);
      }

  parties-Sees : Keeps (Sees s.committed) (
      get_parties payload.workspace_id payload.agent_id payload.user_id payload.capability_id
        payload.role_id)
  unfolding get_parties
  parties-Sees = search admin_rules depth 24

  pub create-Ends : Ends s.committed (create_binding env payload s)
  unfolding create_binding insert_binding
  create-Ends =
      (IsAtomic-bind s.committed _ _ (Keeps-require _ _) λ _.
          IsAtomic-bind s.committed _ _ parties-Sees λ p.
            IsAtomic-bind s.committed _ _ (Keeps-modify _ (λ _ h. h)) λ _.
              IsAtomic-bind s.committed _ _ (Sees-flush s.committed _ _) λ _.
                IsAtomic-bind s.committed _ _ (Keeps-modify _ (λ _ h. h))
                  λ _. IsAtomic-commit s.committed _ _ _).ends
        s refl

validate-Sees : (c : Db) (b : Binding) → Keeps (Sees c) (validate_binding_can_be_active b)
unfolding validate_binding_can_be_active get_parties
validate-Sees c b = search admin_rules depth 24

validated :
    (b : Binding) (s : Session) {u : Unit {0}} {s' : Session}
    → validate_binding_can_be_active b s ≡ (ok u, s')
    → (s' ≡ s)
      × ((p : Parties) × AreParties s.db b.workspace_id b.agent_id b.user_id b.capability_id
            b.role_id p)
unfolding validate_binding_can_be_active
validated b s h =
    let (p, s₁, e, h₁) = bind-ok _ _ s h in
    let (are, same) = get_parties-AreParties _ _ _ _ _ s e in
    let (_, unchanged) = pure-ok _ s₁ h₁ in (unchanged ∙ same, (p, are))

validated_when :
    (b : Binding) (t : Bool) (s : Session) {u : Unit {0}} {s' : Session}
    → when t (validate_binding_can_be_active b) s ≡ (ok u, s')
    → (s' ≡ s)
      × (t ≡ true
          → (p : Parties) × AreParties s.db b.workspace_id b.agent_id b.user_id b.capability_id
              b.role_id p)
unfolding ◌>>=◌
validated_when b true s h = let (same, are) = validated b s h in (same, λ _. are)
validated_when b false s h = let (_, same) = pure-ok _ s h in (same, λ q. absurd (ground arith))

module _ (env : AdminEnv) (binding_id : ℕ) (status : String) (s : Session) where
  pub update-Ends : Ends s.committed (update_binding_status env binding_id status s)
  unfolding update_binding_status store_status
  update-Ends =
      (IsAtomic-bind s.committed _ _ (Keeps-get_or_raise _ _) λ b.
          IsAtomic-bind s.committed _ _ (Keeps-require _ _) λ _.
            IsAtomic-bind s.committed _ _ (Keeps-when _ _ (validate-Sees s.committed b)) λ _.
              IsAtomic-bind s.committed _ _ (Keeps-gets _) λ _.
                IsAtomic-bind s.committed _ _ (Keeps-modify _ (λ _ h. h)) λ _.
                  IsAtomic-bind s.committed _ _ (Keeps-modify _ (λ _ h. h))
                    λ _. IsAtomic-commit s.committed _ _ _).ends
        s refl

  stored :
      (old : Binding) (application_id : Option ℕ) {b : Binding} {s' : Session}
      → store_status env binding_id status old application_id s ≡ (ok b, s')
      → (b ≡ record old { status = status })
        × (s'.db.bindings ≡ (set_binding_status binding_id status s).db.bindings)
        × (has_integrity s'.db ≡ true)
        × (s'.committed ≡ s'.db)
  unfolding store_status
  stored old application_id {b} {s'} h =
      let h₁ = modify-bind _ _ s h in
      let (same, e, good) = commit-bind _ _ _ _ (modify-bind _ _ _ h₁) in
      (
        sym same,
        ap (λ (x : Session). x.db.bindings) e,
        ap (λ (x : Session). has_integrity x.db) e ∙ good,
        rw e refl,
      )

  -- The row has the new status, and if that is active its parties are active and of one workspace.
  pub record IsUpdated (b : Binding) (s' : Session) : Type 0 where
    pub old : Binding
    pub found : binding_by_id binding_id s.db ≡ some old
    pub updated : b ≡ record old { status = status }
    pub managed : manages env.admin old.workspace_id ≡ true
    pub activated :
        status ≡ active_status
        → (p : Parties) × AreParties s.db old.workspace_id old.agent_id old.user_id
            old.capability_id old.role_id p
    pub bindings : s'.db.bindings ≡ (set_binding_status binding_id status s).db.bindings
    pub no_conflict : has_integrity s'.db ≡ true
    pub committed : s'.committed ≡ s'.db

  -- A binding whose status is set exists, in a workspace that the administrator manages; the rows of
  -- the table are as before but for that status; it becomes active only if its workspace, agent, user,
  -- capability and role are active and of one workspace, and no other active binding has its key; and
  -- the change is committed.
  pub update-IsUpdated :
      {b : Binding} {s' : Session}
      → update_binding_status env binding_id status s ≡ (ok b, s')
      → IsUpdated b s'
  unfolding update_binding_status
  update-IsUpdated {b} {s'} h =
      let (old, found, h₁) = get_or_raise-bind _ _ _ s h in
      let (managed, h₂) = require-bind _ _ _ s h₁ in
      let (_, s₁, e, h₃) = bind-ok _ _ s h₂ in
      let (same, activated) = validated_when old _ s e in
      let (updated, bindings, good, committed) = stored old _ (
        ap (store_status env binding_id status old (application_of s₁.db old)) (sym same)
        ∙ gets-bind _ _ s₁ h₃) in
      record {
        old = old;
        found = found;
        updated = updated;
        managed = managed;
        activated = λ active. activated (ap (λ x. x == active_status) active);
        bindings = bindings;
        no_conflict = good;
        committed = committed;
      }
