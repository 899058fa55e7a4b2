-- ===== src/Lib.antt =====
-- The model of Grantora, the gateway between agents and the applications they act on for users.
--
-- An agent authenticates with a token, names a user and a capability, and the gateway checks the
-- binding of the three, validates the input, finds the secret, calls the application's adapter,
-- validates the output, and leaves one audit event and one usage event. The parts:
--
--   Prelude       Python's tests, lists, texts and integers over the native numbers.
--   Json          JSON documents.
--   Errors        src/grantora/api/errors.py, and handlers: a handler takes the state and gives a
--                 result or an error together with the state that it leaves, so what it wrote before
--                 it raised stays visible. Errors/Keeps has the rules for such handlers.
--   Db            src/grantora/db/models.py and db/queries.py: the tables as lists of rows, every
--                 query as a function on them. Db/Queries/Sound says what a row that a query returns
--                 satisfies; Sorting and Rows are about the ordered and joined statements.
--   Config, Metrics   the settings of config.py that the code reads, the counters of metrics.py.
--   Adapters      src/grantora/adapters/: base.py and registry.py, with Http the retries of http.py,
--                 Upstream what nethvoice.py and nextcloud.py have in common, Nethvoice and Nextcloud
--                 (Files reads a payload, Search makes the requests), Mock, Templates, and Defaults,
--                 the default registry.
--   Capabilities  src/grantora/capabilities/: permissions, the checks of definitions and of JSON
--                 schemas.
--   Secrets       src/grantora/secrets/: the secret of an invocation.
--   Auth          src/grantora/auth/: tokens, bearer headers, agents and administrators.
--   Runtime       src/grantora/api/runtime.py with audit/events.py and usage/events.py. Runtime/Invoke
--                 is _invoke_capability_by_id in three steps (authorize, prepare, call); Recording is
--                 the audit and usage trail; Visible and Listing are what agents are shown; Mcp is
--                 call_mcp_tool behind the framework's check of its body, Usage is get_usage_me.
--                 The lengths of the columns count at the commit of an attempt (Recording).
--   Admin         src/grantora/api/admin.py: the session with its unique indexes, the guards and
--                 lookups, and the handlers that change rows: Directory has workspaces, applications
--                 and users, Agents, Roles, Capabilities, Bindings and Secrets the others, Requests
--                 their POST and PATCH requests as one step. Listing has two of the lists. Admin/Atomic and
--                 Admin/Steps have the rules for a handler that commits at its end.
--   Apisix        src/grantora/apisix/: the desired routes and the drift check, in Reconcile the
--                 reconciliation with any client on a gateway state, in Client the client itself.
--   Openapi       src/grantora/openapi/tools.py: the MCP tools and their names.
--   Retention     src/grantora/retention.py: the purge of old events.
--   Tests         runs on small data and the theorems at concrete inputs.
--
-- The database is a record of tables: what the session sees and what is committed are two such
-- records, so that a missing commit shows. Primary keys, where a theorem needs them, are hypotheses.
-- The clock, identifiers, the cipher, HMAC and SHA-256, the JSON Schema validator, the ipaddress
-- module and what httpx comes back with are parameters; to the invocation every
-- adapter is one. A UUID is a number, a moment a number of microseconds.
--
-- Recursion is structural but for the search of a tool name with a hash, whose fuel is the number of
-- the digest's digits: every round adds eight digits and stops beyond the last.
--
-- Not modelled: most Pydantic schemas, the OpenAPI documents, the framework's wiring, logging and
-- tracing, the command line tools; of the admin API the reports and the lists but two; of JSON,
-- numbers with fractions; of the database, that it is not there, other failures of a commit than those
-- of the constraints and, for an attempt, of the columns' lengths, and texts with a NUL.
pub mod Prelude
pub mod Json
pub mod Errors
pub mod Db
pub mod Config
pub mod Metrics
pub mod Adapters
pub mod Capabilities
pub mod Secrets
pub mod Auth
pub mod Runtime
pub mod Admin
pub mod Apisix
pub mod Openapi
pub mod Retention
pub mod Tests
