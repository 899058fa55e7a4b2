-- ===== src/Admin/Agents/Rotation.antt =====
-- What a rotation of an agent's token changes.
use grantora.Prelude.{
  ℕ, String, ◌≡◌, true, none, some, [], ◌∷◌, ◌++◌, map, ◌==◌, nat_eq, if◌then◌else◌,
}
use grantora.Errors.{Exec}
use grantora.Db.Models.{Agent}
use grantora.Db.Queries.Joins.{agent_by_id}
use grantora.Auth.Tokens.{hash_token, verify_token}
use grantora.Admin.{Session, AdminEnv, has_integrity, manages, admin_audit_event, change_and_commit}
use grantora.Admin.Agents.{change_agent, agent_event, with_token_hash, plaintext_token}

module _ (env : AdminEnv) (agent_id : ℕ) (s : Session) where
  -- The agent's hash is that of the new token, in its row and nowhere else.
  pub record IsRotated (shown : Agent × String) (s' : Session) : Type 0 where
    pub old : Agent
    pub found : agent_by_id s.db agent_id ≡ some old
    pub managed : manages env.admin old.workspace_id ≡ true
    pub token_hash : String
    pub hashed : hash_token env.hmac shown.1 env.settings.agent_token_pepper ≡ some token_hash
    pub agent : shown.0 ≡ with_token_hash token_hash old
    pub only_shown :
        (token : String)
        → verify_token env.hmac token token_hash env.settings.agent_token_pepper ≡ true
        → token ≡ shown.1
    pub db : s'.db ≡ record s.db {
      agents =
          map
            (λ (a : Agent). if a.id == agent_id then with_token_hash token_hash a else a)
            s.db.agents;
      audit_events =
          s.db.audit_events
          ++ admin_audit_event env old.workspace_id (some old.id) none none none ∷ [];
    }
    pub no_conflict : has_integrity s'.db ≡ true
    pub committed : s'.committed ≡ s'.db

  abbrev rotate_to : Agent → String → Exec Session (Agent × String)
  rotate_to old token_hash =
      change_and_commit "agent_conflict" "Agent token could not be rotated"
        (change_agent agent_id (with_token_hash token_hash))
        (agent_event env old.workspace_id old.id)
        (with_token_hash token_hash old, plaintext_token env)
