-- ===== src/Admin/Agents.antt =====
-- The handlers of api/admin.py for agents and their tokens.
pub mod Rotation
use grantora.Prelude.{
  ℕ, String, Bool, true, false, Option, none, some, List, [], ◌∷◌, ◌++◌, map, ◌==◌, nat_eq,
  if◌then◌else◌,
}
use grantora.Errors.{ApiError, api_error, Exec, unhandled, pure, raise, or_else_do, ◌>>=◌, ◌>>◌}
use grantora.Db.Models.{Db, Agent, active_status}
use grantora.Db.Queries.Joins.{agent_by_id}
use grantora.Auth.Tokens.{create_agent_token, hash_token, token_hash_algorithm}
use grantora.Admin.{
  Session, AdminEnv, get_or_raise, require_admin_workspace, get_active_workspace_or_404,
  admin_audit_event, add_audit, insert_and_commit, change_and_commit,
}
use grantora.Admin.Directory.{require_active_workspace_for}

pub record AgentCreateRequest : Type 0 where
  pub workspace_id : ℕ
  pub slug : String
  pub display_name : String

abbrev agent_not_found : ApiError
agent_not_found = api_error 404 "agent_not_found" "Agent was not found"

abbrev pub add_agent : Agent → Session → Session
add_agent a s = record s { db = record s.db { agents = s.db.agents ++ a ∷ [] } }

-- The assignments to the agent that the session holds.
abbrev pub change_agent : ℕ → (Agent → Agent) → Session → Session
change_agent k change s = record s {
  db = record s.db { agents = map (λ a. if a.id == k then change a else a) s.db.agents };
}

abbrev pub with_token_hash : String → Agent → Agent
with_token_hash token_hash a = record a {
  token_hash = token_hash;
  token_hash_algorithm = token_hash_algorithm;
}

module _ (env : AdminEnv) where
  -- The token that a response shows, and its hash.
  abbrev pub plaintext_token : String
  plaintext_token = create_agent_token env.random_token

  abbrev pub hashed : Exec Session String
  hashed =
      or_else_do (hash_token env.hmac plaintext_token env.settings.agent_token_pepper)
        (raise unhandled)

  abbrev pub agent_event : ℕ → ℕ → Session → Session
  agent_event workspace_id agent_id =
      add_audit env (admin_audit_event env workspace_id (some agent_id) none none none)

  unfoldable pub create_agent : AgentCreateRequest → Exec Session (Agent × String)
  unfolding ◌>>=◌ insert_and_commit create_agent_token hash_token
  create_agent payload = do
    require_admin_workspace env.admin payload.workspace_id
    workspace ← get_active_workspace_or_404 payload.workspace_id
    token_hash ← hashed
    let agent : Agent = record {
      id = env.new_id;
      workspace_id = workspace.id;
      slug = payload.slug;
      display_name = payload.display_name;
      token_hash = token_hash;
      token_hash_algorithm = token_hash_algorithm;
      status = active_status;
    }
    insert_and_commit "agent_conflict" "Agent could not be created" (add_agent agent)
        (agent_event workspace.id agent.id) (agent, plaintext_token)

  unfoldable pub rotate_agent_token : ℕ → Exec Session (Agent × String)
  unfolding ◌>>=◌ change_and_commit create_agent_token hash_token
  rotate_agent_token agent_id = do
    agent ← get_or_raise (λ db. agent_by_id db agent_id) agent_not_found
    require_admin_workspace env.admin agent.workspace_id
    token_hash ← hashed
    change_and_commit "agent_conflict" "Agent token could not be rotated"
        (change_agent agent_id (with_token_hash token_hash))
        (agent_event agent.workspace_id agent.id)
        (with_token_hash token_hash agent, plaintext_token)

  unfoldable pub update_agent_status : ℕ → String → Exec Session Agent
  unfolding ◌>>=◌ change_and_commit
  update_agent_status agent_id status = do
    agent ← get_or_raise (λ db. agent_by_id db agent_id) agent_not_found
    require_admin_workspace env.admin agent.workspace_id
    require_active_workspace_for status agent.workspace_id
    change_and_commit "agent_conflict" "Agent could not be updated"
        (change_agent agent_id (λ a. record a { status = status }))
        (agent_event agent.workspace_id agent.id) (record agent { status = status })
