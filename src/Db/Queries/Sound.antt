-- ===== src/Db/Queries/Sound.antt =====
-- What the statements of db/queries.py guarantee of the rows that they return, in terms of the
-- rows that the tables hold.
use grantora.Prelude.{
  ℕ, String, ◌≡◌, refl, Bool, true, ◌&&◌, Option, none, some, List, arith, Memᴰ, find?, find?-some,
  any-true, and_true, nat_beq_iff, eq_iff, ◌==◌, nat_eq, string_eq,
}
use grantora.Db.Models
use grantora.Db.Models.{
  Db, Workspace, ApplicationInstance, Agent, User, Capability, Role, RolePermission, Binding,
  active_status,
}
use grantora.Db.Queries.{
  get_user_by_external_id, get_active_capability_by_id, capability_available, capability_joined,
  get_active_binding, binding_available, role_grants_permission,
}
use grantora.Db.Queries.Joins.{
  holds_at, workspace_active, application_active, agent_active, user_active, role_active,
}

pub nat_eq→≡ : (a b : ℕ) → (a == b) ≡ true → a ≡ b
nat_eq→≡ a b h = (nat_beq_iff a b).0 h

pub text_eq→≡ : (s t : String) → (s == t) ≡ true → s ≡ t
text_eq→≡ s t h = (eq_iff s t).0 h

-- The table has a row with the key, in the workspace and active.
pub record IsActiveRow {R : Type 0} (table : List R) (id workspace : R → ℕ) (status : R → String)
    (workspace_id k : ℕ) : Type 0 where
  pub row : R
  pub mem : Memᴰ row table
  pub has_id : id row ≡ k
  pub in_workspace : workspace row ≡ workspace_id
  pub is_active : status row ≡ active_status

pub record IsActiveWorkspace (db : Db) (k : ℕ) : Type 0 where
  pub row : Workspace
  pub mem : Memᴰ row db.workspaces
  pub has_id : row.id ≡ k
  pub is_active : row.status ≡ active_status

module _ (db : Db) (workspace_id k : ℕ) where
  abbrev pub IsActiveApplication : Type 0
  IsActiveApplication =
      IsActiveRow db.application_instances (λ r. r.id) (λ r. r.workspace_id) (λ r. r.status)
        workspace_id k

  abbrev pub IsActiveAgent : Type 0
  IsActiveAgent =
      IsActiveRow db.agents (λ r. r.id) (λ r. r.workspace_id) (λ r. r.status) workspace_id k

  abbrev pub IsActiveUser : Type 0
  IsActiveUser =
      IsActiveRow db.users (λ r. r.id) (λ r. r.workspace_id) (λ r. r.status) workspace_id k

  abbrev pub IsActiveRole : Type 0
  IsActiveRole =
      IsActiveRow db.roles (λ r. r.id) (λ r. r.workspace_id) (λ r. r.status) workspace_id k

pub holds_at-true {ℓ} :
    {A : Type ℓ} (o : Option A) (q : A → Bool)
    → holds_at o q ≡ true
    → (a : A) × (o ≡ some a) × (q a ≡ true)
holds_at-true none q h = cc
holds_at-true (some a) q h = (a, refl, h)

-- The joined row meets the statement's condition.
holds_at-find? {ℓ} :
    {A : Type ℓ} (p q : A → Bool) (xs : List A)
    → holds_at (find? p xs) q ≡ true
    → (a : A) × Memᴰ a xs × (p a ≡ true) × (q a ≡ true)
holds_at-find? p q xs h =
    let (a, e, qa) = holds_at-true (find? p xs) q h in
    let (m, pa) = find?-some p xs e in (a, m, pa, qa)

row_active_sound :
    {R : Type 0} (table : List R) (id workspace : R → ℕ) (status : R → String) (workspace_id k : ℕ)
    → holds_at
        (find? (λ r. id r == k) table)
        (λ r. workspace r == workspace_id && Models.is_active (status r))
      ≡ true
    → IsActiveRow table id workspace status workspace_id k
row_active_sound table id workspace status workspace_id k h =
    let (r, m, p, q) =
      holds_at-find? (λ r. id r == k)
        (λ r. workspace r == workspace_id && Models.is_active (status r)) table h in
    let (q₁, q₂) = and_true _ _ q in
    record {
      row = r;
      mem = m;
      has_id = nat_eq→≡ _ _ p;
      in_workspace = nat_eq→≡ _ _ q₁;
      is_active = text_eq→≡ _ _ q₂;
    }

module _ (db : Db) where
  pub workspace_active_sound : (k : ℕ) → workspace_active db k ≡ true → IsActiveWorkspace db k
  unfolding workspace_active
  workspace_active_sound k h =
      let (w, m, p, q) =
        holds_at-find? (λ (w : Workspace). w.id == k) (λ w. Models.is_active w.status) _ h in
      record { row = w; mem = m; has_id = nat_eq→≡ _ _ p; is_active = text_eq→≡ _ _ q }

  pub application_active-sound :
      (ws k : ℕ) → application_active db ws k ≡ true → IsActiveApplication db ws k
  unfolding application_active
  application_active-sound ws k h = row_active_sound _ _ _ _ ws k h

  pub agent_active-sound : (ws k : ℕ) → agent_active db ws k ≡ true → IsActiveAgent db ws k
  unfolding agent_active
  agent_active-sound ws k h = row_active_sound _ _ _ _ ws k h

  pub user_active-sound : (ws k : ℕ) → user_active db ws k ≡ true → IsActiveUser db ws k
  unfolding user_active
  user_active-sound ws k h = row_active_sound _ _ _ _ ws k h

  pub role_active-sound : (ws k : ℕ) → role_active db ws k ≡ true → IsActiveRole db ws k
  unfolding role_active
  role_active-sound ws k h = row_active_sound _ _ _ _ ws k h

-- The binding that lets the agent act for the user on the capability.
pub record IsActiveBinding (db : Db) (workspace_id agent_id user_id : ℕ) (capability_id : String)
    (b : Binding) : Type 0 where
  pub mem : Memᴰ b db.bindings
  pub in_workspace : b.workspace_id ≡ workspace_id
  pub has_agent : b.agent_id ≡ agent_id
  pub has_user : b.user_id ≡ user_id
  pub has_capability : b.capability_id ≡ capability_id
  pub is_active : b.status ≡ active_status
  pub workspace : IsActiveWorkspace db b.workspace_id
  pub agent : IsActiveAgent db workspace_id b.agent_id
  pub user : IsActiveUser db workspace_id b.user_id
  pub role : IsActiveRole db workspace_id b.role_id

pub record IsActiveCapability (db : Db) (workspace_id : ℕ) (c : Capability) : Type 0 where
  pub mem : Memᴰ c db.capabilities
  pub in_workspace : c.workspace_id ≡ workspace_id
  pub is_active : c.status ≡ active_status
  pub application : IsActiveApplication db workspace_id c.application_instance_id
  pub workspace : IsActiveWorkspace db c.workspace_id

-- The role holds the permission, and is active.
pub record IsGranted (db : Db) (role_id : ℕ) (permission_code : String) : Type 0 where
  pub row : RolePermission
  pub mem : Memᴰ row db.role_permissions
  pub has_role : row.role_id ≡ role_id
  pub has_code : row.permission_code ≡ permission_code

-- The user of the workspace with the external id, active or not.
pub record IsUser (db : Db) (workspace_id : ℕ) (external_id : String) (u : User) : Type 0 where
  pub mem : Memᴰ u db.users
  pub in_workspace : u.workspace_id ≡ workspace_id
  pub has_external_id : u.external_id ≡ external_id
  pub workspace : IsActiveWorkspace db u.workspace_id

module _ (db : Db) where
  pub get_user_by_external_id_sound :
      (workspace_id : ℕ) (external_id : String) {u : User}
      → get_user_by_external_id db workspace_id external_id ≡ some u
      → IsUser db workspace_id external_id u
  unfolding get_user_by_external_id
  get_user_by_external_id_sound workspace_id external_id h =
      let (m, t) = find?-some _ db.users h in
      record {
        mem = m;
        in_workspace = ground arith;
        has_external_id = text_eq→≡ _ _ (ground arith);
        workspace = workspace_active_sound db _ (ground arith);
      }

  pub capability_available_sound :
      (workspace_id : ℕ) {c : Capability}
      → Memᴰ c db.capabilities
      → capability_available db workspace_id c ≡ true
      → IsActiveCapability db workspace_id c
  unfolding capability_available capability_joined
  capability_available_sound workspace_id m t = record {
    mem = m;
    in_workspace = ground arith;
    is_active = text_eq→≡ _ _ (ground arith);
    application = application_active-sound db _ _ (ground arith);
    workspace = workspace_active_sound db _ (ground arith);
  }

  pub get_active_capability_by_id_sound :
      (workspace_id : ℕ) (capability_id : String) {c : Capability}
      → get_active_capability_by_id db workspace_id capability_id ≡ some c
      → IsActiveCapability db workspace_id c × (c.id ≡ capability_id)
  unfolding get_active_capability_by_id
  get_active_capability_by_id_sound workspace_id capability_id h =
      let (m, t) = find?-some _ db.capabilities h in
      (capability_available_sound workspace_id m (ground arith), text_eq→≡ _ _ (ground arith))

  pub get_active_binding_sound :
      (workspace_id agent_id user_id : ℕ) (capability_id : String) {b : Binding}
      → get_active_binding db workspace_id agent_id user_id capability_id ≡ some b
      → IsActiveBinding db workspace_id agent_id user_id capability_id b
  unfolding get_active_binding binding_available
  get_active_binding_sound workspace_id agent_id user_id capability_id h =
      let (m, t) = find?-some _ db.bindings h in
      record {
        mem = m;
        in_workspace = ground arith;
        has_agent = ground arith;
        has_user = ground arith;
        has_capability = text_eq→≡ _ _ (ground arith);
        is_active = text_eq→≡ _ _ (ground arith);
        workspace = workspace_active_sound db _ (ground arith);
        agent = agent_active-sound db _ _ (ground arith);
        user = user_active-sound db _ _ (ground arith);
        role = role_active-sound db _ _ (ground arith);
      }

  pub role_grants_permission_sound :
      (role_id : ℕ) (permission_code : String)
      → role_grants_permission db role_id permission_code ≡ true
      → IsGranted db role_id permission_code
  unfolding role_grants_permission
  role_grants_permission_sound role_id permission_code h =
      let (row, m, t) = any-true _ db.role_permissions h in
      record {
        row = row;
        mem = m;
        has_role = ground arith;
        has_code = text_eq→≡ _ _ (ground arith);
      }
