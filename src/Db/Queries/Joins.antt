-- ===== src/Db/Queries/Joins.antt =====
-- The joined tables of db/queries.py: a row by its primary key, and the conditions that the
-- statements put on it.
use grantora.Prelude.{
  ℕ, String, Bool, false, ◌&&◌, Option, none, some, List, [], ◌∷◌, find?, ◌==◌, nat_eq, string_eq,
  if◌then◌else◌,
}
use grantora.Db.Models.{
  Db, Workspace, ApplicationInstance, Agent, User, Capability, Role, is_active,
}

-- The condition on a joined row, false where there is no such row.
abbrev pub holds_at {ℓ} : {A : Type ℓ} → Option A → (A → Bool) → Bool
holds_at none p = false
holds_at (some a) p = p a

module _ (db : Db) where
  -- `session.get(Model, id)`.
  unfoldable pub workspace_by_id : ℕ → Option Workspace
  workspace_by_id k = find? (λ w. w.id == k) db.workspaces

  unfoldable pub application_by_id : ℕ → Option ApplicationInstance
  application_by_id k = find? (λ a. a.id == k) db.application_instances

  unfoldable pub agent_by_id : ℕ → Option Agent
  agent_by_id k = find? (λ a. a.id == k) db.agents

  unfoldable pub user_by_id : ℕ → Option User
  user_by_id k = find? (λ u. u.id == k) db.users

  unfoldable pub capability_by_id : String → Option Capability
  capability_by_id k = find? (λ c. c.id == k) db.capabilities

  unfoldable pub role_by_id : ℕ → Option Role
  role_by_id k = find? (λ r. r.id == k) db.roles

  -- `Workspace.status == ACTIVE_STATUS` on the joined workspace.
  unfoldable pub workspace_active : ℕ → Bool
  unfolding workspace_by_id
  workspace_active k = holds_at (workspace_by_id k) (λ w. is_active w.status)

  -- `X.workspace_id == workspace_id, X.status == ACTIVE_STATUS` on a joined row of X.
  unfoldable pub application_active : ℕ → ℕ → Bool
  unfolding application_by_id
  application_active workspace_id k =
      holds_at (application_by_id k) (λ a. a.workspace_id == workspace_id && is_active a.status)

  unfoldable pub agent_active : ℕ → ℕ → Bool
  unfolding agent_by_id
  agent_active workspace_id k =
      holds_at (agent_by_id k) (λ a. a.workspace_id == workspace_id && is_active a.status)

  unfoldable pub user_active : ℕ → ℕ → Bool
  unfolding user_by_id
  user_active workspace_id k =
      holds_at (user_by_id k) (λ u. u.workspace_id == workspace_id && is_active u.status)

  unfoldable pub role_active : ℕ → ℕ → Bool
  unfolding role_by_id
  role_active workspace_id k =
      holds_at (role_by_id k) (λ r. r.workspace_id == workspace_id && is_active r.status)

-- `ORDER BY key`, and Python's `sorted`: a stable insertion sort.
module _ {ℓ} {A : Type ℓ} (le : A → A → Bool) where
  unfoldable pub insert_sorted : A → List A → List A
  insert_sorted x [] = x ∷ []
  insert_sorted x (y ∷ ys) =
      let rest = y ∷ insert_sorted x ys in if le x y then x ∷ y ∷ ys else rest

  unfoldable pub sort_by : List A → List A
  unfolding insert_sorted
  sort_by [] = []
  sort_by (x ∷ xs) = insert_sorted x (sort_by xs)
