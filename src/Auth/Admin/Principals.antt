-- ===== src/Auth/Admin/Principals.antt =====
-- Whom `require_authenticated_agent` and `require_admin_bootstrap` of auth/dependencies.py let in,
-- and on what grounds.
use mathlib.Core.Path.{subst}
use grantora.Prelude.{
  String, ◌≡◌, refl, ◌⊎◌, inl, inr, sym, ap, ◌∙◌, Bool, true, false, Option, none, some, arith,
  Memᴰ, find?-some, Bool-cases, string_eq, nat_eq,
}
use grantora.Errors.{Result, ok, err, Request, lift, modify, pure, ◌>>=◌, ◌>>◌}
use grantora.Config.{Settings}
use grantora.Db.Models.{Db, Agent, AdminCredential, active_status}
use grantora.Db.Queries.{
  get_active_agent_by_token_hash, get_active_admin_credential_by_token_hash, credential_in_scope,
}
use grantora.Db.Queries.Sound.{IsActiveWorkspace, workspace_active_sound, text_eq→≡}
use grantora.Auth.Tokens.{hash_token, verify_token}
use grantora.Auth.Bearer.{extract_bearer_token, NamesToken, extract_bearer_token-ok}
use grantora.Auth.Admin.{
  AdminPrincipal, Ip, invalid_agent, request_from_trusted_oidc_proxy, is_allowed_subject,
  oidc_admin_principal, principal_of_subject, matches_bootstrap, credential_principal,
  principal_of_hash, principal_of_token, principal_or, require_admin_bootstrap, agent_of_hash,
  agent_of_token, require_authenticated_agent,
}

module _ (hmac : String → String → String) (db : Db) (settings : Settings) where
  -- The header names a token whose hash is the one of an active agent in an active workspace.
  pub record IsAuthenticated (header : Option String) (agent : Agent) : Type 0 where
    pub authorization : String
    pub sent : header ≡ some authorization
    pub token : String
    pub named : NamesToken authorization token
    pub hashed : hash_token hmac token settings.agent_token_pepper ≡ some agent.token_hash
    pub mem : Memᴰ agent db.agents
    pub active : agent.status ≡ active_status
    pub workspace : IsActiveWorkspace db agent.workspace_id

  agent_row :
      (token_hash : String) {agent : Agent}
      → get_active_agent_by_token_hash db token_hash ≡ some agent
      → Memᴰ agent db.agents
        × (agent.token_hash ≡ token_hash)
        × (agent.status ≡ active_status)
        × IsActiveWorkspace db agent.workspace_id
  unfolding get_active_agent_by_token_hash
  agent_row token_hash h =
      let (m, t) = find?-some _ db.agents h in
      (
        m,
        text_eq→≡ _ _ (ground arith),
        text_eq→≡ _ _ (ground arith),
        workspace_active_sound db _ (ground arith),
      )

  hash_row :
      (o : Option String) {agent : Agent}
      → agent_of_hash hmac db settings o ≡ ok agent
      → (h : String) × (o ≡ some h) × (get_active_agent_by_token_hash db h ≡ some agent)
  hash_row none e = cc
  hash_row (some h) {agent} e = (h, refl, found (get_active_agent_by_token_hash db h) e)
    where
      found :
          (o : Option Agent)
          → elim o [ none ↦ err invalid_agent | some a ↦ ok a ] ≡ ok agent
          → o ≡ some agent
      found none q = cc
      found (some a) q = cc

  token_sent :
      (r : Result String) {agent : Agent}
      → agent_of_token hmac db settings r ≡ ok agent
      → (token : String) × (r ≡ ok token)
        × (agent_of_hash hmac db settings (hash_token hmac token settings.agent_token_pepper)
            ≡ ok agent)
  token_sent (err e) q = cc
  token_sent (ok token) q = (token, refl, q)

  -- An agent that is let in sent a bearer token whose hash, with the pepper, is the hash stored for
  -- that agent, and the agent and its workspace are active.
  pub require_agent-IsAuthenticated :
      (header : Option String) {agent : Agent}
      → require_authenticated_agent hmac db settings header ≡ ok agent
      → IsAuthenticated header agent
  unfolding require_authenticated_agent
  require_agent-IsAuthenticated header h =
      let (token, extracted, h₁) = token_sent _ h in
      let (authorization, sent, named) = extract_bearer_token-ok header _ _ _ extracted in
      let (token_hash, hashed, h₂) = hash_row _ h₁ in
      let (m, same, active, workspace) = agent_row token_hash h₂ in
      record {
        authorization = authorization;
        sent = sent;
        token = token;
        named = named;
        hashed = hashed ∙ ap some (sym same);
        mem = m;
        active = active;
        workspace = workspace;
      }

module _ (ip : Ip) (hmac : String → String → String) (db : Db) (settings : Settings)
    (request : Request) where
  -- The identity provider names the subject: the feature is on, the request comes from a trusted
  -- proxy, and the subject is one of the administrators.
  pub record ByOidc (p : AdminPrincipal) : Type 0 where
    pub feature : settings.feature_oidc ≡ true
    pub subject : request.header settings.oidc_subject_header ≡ some p.subject
    pub trusted :
        request_from_trusted_oidc_proxy ip request settings.oidc_trusted_proxy_cidrs ≡ true
    pub listed : is_allowed_subject ip settings.oidc_admin_subjects p.subject ≡ true
    pub super : p.workspace_id ≡ none

  -- The token is the bootstrap token.
  pub record ByBootstrap (token : String) (p : AdminPrincipal) : Type 0 where
    pub stored_hash : String
    pub configured : settings.admin_bootstrap_token_hash ≡ some stored_hash
    pub verified : verify_token hmac token stored_hash settings.agent_token_pepper ≡ true
    pub super : p.workspace_id ≡ none

  -- The token's hash is that of an active credential, whose workspace, if it has one, is active and
  -- is the principal's.
  pub record ByCredential (token : String) (p : AdminPrincipal) : Type 0 where
    pub row : AdminCredential
    pub mem : Memᴰ row db.admin_credentials
    pub hashed : hash_token hmac token settings.agent_token_pepper ≡ some row.token_hash
    pub active : row.status ≡ active_status
    pub subject : p.subject ≡ row.subject
    pub workspace_id : p.workspace_id ≡ row.workspace_id
    pub in_scope : credential_in_scope db row.workspace_id ≡ true

  abbrev pub IsAdmin : Option String → AdminPrincipal → Type 0
  IsAdmin header p =
      ByOidc p
      ⊎ ((authorization : String) × (token : String) × (header ≡ some authorization)
          × NamesToken authorization token
          × (ByBootstrap token p ⊎ ByCredential token p))

  by_bootstrap :
      (o : Option String) (token : String) (p : AdminPrincipal)
      → settings.admin_bootstrap_token_hash ≡ o
      → matches_bootstrap ip hmac db settings o token ≡ true
      → p.workspace_id ≡ none
      → ByBootstrap token p
  by_bootstrap none token p set h super = cc
  by_bootstrap (some stored_hash) token p set h super = record {
    stored_hash = stored_hash;
    configured = set;
    verified = ground arith;
    super = super;
  }

  by_credential :
      (token token_hash : String) {c : AdminCredential}
      → hash_token hmac token settings.agent_token_pepper ≡ some token_hash
      → get_active_admin_credential_by_token_hash db token_hash ≡ some c
      → ByCredential token (credential_principal ip hmac db settings c)
  unfolding get_active_admin_credential_by_token_hash
  by_credential token token_hash {c} hashed h =
      let (m, t) = find?-some _ db.admin_credentials h in
      let same : c.token_hash ≡ token_hash = text_eq→≡ _ _ (ground arith) in
      record {
        row = c;
        mem = m;
        hashed = hashed ∙ ap some (sym same);
        active = text_eq→≡ _ _ (ground arith);
        subject = refl;
        workspace_id = refl;
        in_scope = ground arith;
      }

  by_hash :
      (token token_hash : String) (b : Bool) (o : Option AdminCredential) {p : AdminPrincipal}
      → hash_token hmac token settings.agent_token_pepper ≡ some token_hash
      → matches_bootstrap ip hmac db settings settings.admin_bootstrap_token_hash token ≡ b
      → get_active_admin_credential_by_token_hash db token_hash ≡ o
      → principal_of_hash ip hmac db settings token token_hash ≡ ok p
      → ByBootstrap token p ⊎ ByCredential token p
  by_hash token token_hash true o {p} hashed matches found h =
      inl (by_bootstrap _ token p refl matches (ground arith))
  by_hash token token_hash false none hashed matches found h = absurd (ground arith)
  by_hash token token_hash false (some c) hashed matches found h =
      inr (subst (ByCredential token) (ground arith) (by_credential token token_hash hashed found))

  by_token :
      (token : String) (o : Option String) {p : AdminPrincipal}
      → hash_token hmac token settings.agent_token_pepper ≡ o
      → principal_of_token ip hmac db settings (ok token) ≡ ok p
      → ByBootstrap token p ⊎ ByCredential token p
  by_token token none hashed h = absurd (ground arith)
  by_token token (some token_hash) hashed h =
      by_hash token token_hash _ _ hashed refl refl (ground arith)

  by_header :
      (header : Option String) (r : Result String) {p : AdminPrincipal}
      → extract_bearer_token header "admin_auth_missing" "admin_auth_invalid" "Invalid admin token"
        ≡ r
      → principal_of_token ip hmac db settings r ≡ ok p
      → IsAdmin header p
  by_header header (err e) extracted h = cc
  by_header header (ok token) extracted h =
      let (authorization, sent, named) = extract_bearer_token-ok header _ _ _ extracted in
      inr (authorization, token, sent, named, by_token token _ refl h)

  by_subject :
      (o : Option String) {p : AdminPrincipal}
      → settings.feature_oidc ≡ true
      → request.header settings.oidc_subject_header ≡ o
      → principal_of_subject ip settings request o ≡ ok (some p)
      → ByOidc p
  by_subject none feature sent h = cc
  by_subject (some subject) feature sent h = record {
    feature = feature;
    subject = sent ∙ ap some (ground arith);
    trusted = ground arith;
    listed = ground arith;
    super = ground arith;
  }

  by_oidc : {p : AdminPrincipal} → oidc_admin_principal ip settings request ≡ ok (some p) → ByOidc p
  unfolding oidc_admin_principal
  by_oidc h = elim (Bool-cases settings.feature_oidc) [
    | inl feature ↦ by_subject _ feature refl (ground arith)
    | inr off ↦ absurd (ground arith)
  ]

  grounds :
      (header : Option String) (r : Result (Option AdminPrincipal)) {p : AdminPrincipal}
      → oidc_admin_principal ip settings request ≡ r
      → principal_or ip hmac db settings r header ≡ ok p
      → IsAdmin header p
  grounds header (err e) asked h = cc
  grounds header (ok (some q)) asked h =
      inl (by_oidc (asked ∙ ap (λ x. ok (some x)) (ground arith)))
  grounds header (ok none) asked h = by_header header _ refl h

  lifted :
      (r : Result AdminPrincipal) (s : Option AdminPrincipal) {p : AdminPrincipal}
      {s' : Option AdminPrincipal}
      → (lift r >>= λ q. modify (λ _. some q) >> pure q) s ≡ (ok p, s')
      → (r ≡ ok p) × (s' ≡ some p)
  unfolding ◌>>=◌
  lifted (ok q) s h = (cc, cc)
  lifted (err e) s h = cc

  -- An administrator that is let in is one of three: the subject that a trusted proxy names, if it is
  -- listed and the feature is on; the bearer of the bootstrap token; or the bearer of the token of an
  -- active credential, limited to that credential's workspace, which is then active. What the request
  -- remembers is the principal that is returned.
  pub require_admin_bootstrap-IsAdmin :
      (header : Option String) (s : Option AdminPrincipal) {p : AdminPrincipal}
      {s' : Option AdminPrincipal}
      → require_admin_bootstrap ip hmac db settings request header s ≡ (ok p, s')
      → IsAdmin header p × (s' ≡ some p)
  unfolding require_admin_bootstrap
  require_admin_bootstrap-IsAdmin header s h =
      let (granted, stored) = lifted _ s h in (grounds header _ refl granted, stored)
