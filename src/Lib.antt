-- ===== src/Lib.antt =====
-- SupportOps AI takes customers' support tickets, lets a workflow of language-model agents draft
-- the answers, and sends the drafts that its policy picks out to supervisors. This library
-- models the backend (backend/) and proves what makes its parts correct.
--
-- A request to create a ticket (backend/api/routes/tickets.py) goes to a service
-- (backend/services/ticket.py) that claims the request's idempotency key in Redis, stores the
-- ticket and runs the workflow (backend/graph/): classification, choice of an agent, the agent's
-- draft from knowledge-base articles, the policy's decision on review, and the supervisor's
-- queue (backend/api/supervisor.py). Caches, checkpoints and audit events are kept beside it,
-- best effort.
--
-- Files and code:
-- - Common, Str: lists, texts and tests; `lower`, `strip`, `in` and `join` of `str`.
-- - Python: exceptions and `try`, `except` and `async with` on explicit worlds; Python/Returns,
--   Python/Keeps and Python/Inversion are their rules.
-- - Json, Redis, Services: what is called and not implemented here, with laws where the code
--   relies on them: `json`, the Redis client, the database session, OpenAI, CrewAI, the clock.
-- - Enums, Models: backend/database/enums.py, backend/graph/state.py, backend/database/models/.
-- - Policy: `evaluate_policy` of backend/policy/rules.py; Policy/Amount is its regular
--   expression and its decimals.
-- - Cache: backend/core/cache.py. Bridge: backend/core/asyncio_utils.py; Bridge/Loop is the
--   lazily started loop with its threads. Scoped: backend/core/redis_client.py and
--   backend/database/session.py.
-- - Knowledge: backend/database/repositories/knowledge_article.py.
-- - Agents: backend/tools/knowledge_base.py and backend/agents/.
-- - Classifier, Checkpoint: backend/graph/classifier.py and backend/graph/checkpoint.py.
-- - Graph: backend/graph/state.py, nodes.py and workflow.py.
-- - Audit, Approvals: backend/services/audit.py and
--   backend/database/repositories/approval_request.py.
-- - Idempotency, Tickets: backend/services/idempotency.py, backend/services/ticket.py,
--   backend/schemas/ticket.py, backend/database/repositories/ticket.py and
--   backend/api/routes/tickets.py. Tickets/Queued follows a request for a ticket into the
--   supervisor's queue.
-- - Auth: backend/auth/, backend/core/security.py and backend/schemas/auth.py.
-- - Supervisor: backend/api/supervisor.py and backend/schemas/supervisor.py.
-- - Customers: backend/api/routes/customers.py, backend/database/repositories/customer.py and
--   backend/schemas/customer.py.
-- - RateLimit: backend/core/rate_limit.py, with its registration in backend/main.py.
-- - Migrations: alembic/versions/. Migrations/Baseline and Migrations/Revisions are the
--   statements, Migrations/Effect and Migrations/Sound what they document, Migrations/Values
--   when a table takes a row, Migrations/Rows the rows that the backend inserts,
--   Migrations/Metadata the tables that backend/database/base.py and backend/database/models/
--   declare, and Migrations/Migrator a database that executes the statements.
-- - Seed: backend/scripts/seed.py. Seed/Accounts, Seed/Desk and Seed/Articles are its data,
--   Seed/Run its functions, Seed/Database what it calls, and Seed/Values the columns of its
--   rows.
-- - LoadTest: backend/scripts/load_test.py and backend/scripts/load_test_tickets.py.
-- - Sample, Tests: concrete parameters that keep the laws, and the theorems at them.
--
-- Each operation is a function from a world to an outcome and a world; the world is a parameter,
-- and changes only through the services. An operation on a service that fails leaves a world
-- too.
--
-- A text is a list of codes; `lower` and `str.isspace` are those of ASCII. A score is an exact
-- binary fraction, as floats are, and the amounts of the policy are exact decimals, compared
-- with the threshold after the rounding of `float`. Times are numbers, and UUIDs their canonical
-- texts. LangGraph is a parameter: a graph whose edges form one chain runs its nodes in their
-- order, which is followed with the number of edges as fuel; the workflow's six nodes are
-- reached with its seven edges. All other loops are structural.
--
-- A migration is a list of statements, and what a statement makes of a schema is a function that
-- is defined where the schema allows the statement. The schema has the types, the tables with
-- their columns and constraints, and the indexes. A statement is not allowed where a name that
-- it makes is taken. What a database does with an allowed statement is a hypothesis on a
-- database without views, rules and triggers, which may hold other tables and types that share
-- no name with the program's; the one statement that rows may stop in these migrations, a column
-- that becomes NOT NULL, is executed where no row has NULL there. The floats of the load test
-- are a parameter.
--
-- Not modelled: logging, settings from the environment, Alembic's own table of the current
-- revision, the limiter (slowapi counts the requests), the cancellation of a request, the
-- configuration of Alembic, and the scripts that only print.
pub mod Common
pub mod Str
pub mod Policy
pub mod Python
pub mod Redis
pub mod Json
pub mod Idempotency
pub mod Enums
pub mod Cache
pub mod Knowledge
pub mod Models
pub mod Services
pub mod Scoped
pub mod Seed
pub mod Migrations
pub mod Bridge
pub mod Agents
pub mod Classifier
pub mod Checkpoint
pub mod Graph
pub mod Audit
pub mod Approvals
pub mod Tickets
pub mod Auth
pub mod Supervisor
pub mod Customers
pub mod LoadTest
pub mod RateLimit
pub mod Sample
pub mod Tests
