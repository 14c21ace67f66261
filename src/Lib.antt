-- ===== src/Lib.antt =====
-- The workflow, organization and authentication code of the backend (backend/app), a multi-tenant
-- FastAPI service over PostgreSQL and Redis: members of an organization draw workflows as graphs
-- of nodes, publish them as numbered versions, and manage members, invitations, departments and
-- API keys.
--
-- The parts. An endpoint gets its caller from the dependencies (a token, then a member row with a
-- role), checks the role, and calls one service function, which reads and writes the tables of
-- its session. Publishing runs the graph validator over the stored form of the graph, with the
-- registry of node types. The files, with the code they are about:
--   Prelude, Prelude/*: Boolean tests, lists, sets and dicts that the other files share.
--   Errors: core/exceptions.py as a result type, with the status of each answer.
--   Database: rows of a table under add, change and delete, for modules/organizations.
--   Security: the tokens of core/security.py (create_access_token, decode_access_token and the
--     two for refresh tokens). Security/Tokens has its theorems.
--   Workflows/Graph: modules/workflows/schemas.py, the graph models, model_dump and
--     model_validate. Workflows/Registry: nodes/registry.py and the imports of nodes/__init__.py.
--   Workflows/Cycles: the nested function dfs of modules/workflows/validator.py and its loop;
--     Walks has the cycles of a graph, Rule, Clean, Correct and Total the proofs.
--   Workflows/Validator: validate_graph; Publishable describes the graphs it accepts.
--   Workflows/Models, Workflows/Service: the tables and every function of
--     modules/workflows/service.py (Queries has its helpers, with find_workflow for
--     _get_workflow); Invariant, Tenant, Publish, Revert and Accepted have the proofs.
--   Workflows/Router: the endpoints of modules/workflows/router.py that change the tables, and
--     Permitted, the roles for each.
--   Organizations: modules/organizations; Roles and Models are models.py, Members, Invitations,
--     Orgs, Slugs (_slugify) and ApiKeys are service.py, Schemas the checks of schemas.py,
--     Dependencies is dependencies.py, Router is router.py.
--   Auth: modules/auth. Models is models.py, with the columns of both kinds of one-time tokens
--     as TokenRow. Schemas has the checks of schemas.py. service.py is in OneTime (looking up,
--     using and replacing a one-time token), Accounts (register, with accept_invite for
--     _accept_invitation, verify_email, resend_verification, forgot_password, reset_password),
--     Memberships (_get_user_memberships), Sessions (login, _store_refresh_token) and Refresh
--     (refresh, logout, me). Dependencies is dependencies.py; Router has the endpoints of
--     router.py for sessions, AccountRequests those that change the tables. Sessions/Runs has the
--     sequences of operations that the theorems on sessions speak of, Organizations/ApiKeys/Life
--     those on keys.
--   RateLimit: core/rate_limit.py; Window has its history of requests, Scores lists of times.
--   Tests: sample data, runs of the definitions and uses of the theorems.
--
-- How state is modelled. A table is the list of its rows in the order in which they were added. A
-- function gets the tables and returns them with its result, or an error, in which case nothing
-- is kept: get_db rolls the session back. The tables after a call are those of its session. The
-- endpoints of modules/organizations commit them; those of modules/workflows and modules/auth do
-- not, and get_db only closes the session, so for these the theorems say what a call does within
-- its session, or take the tables of a later request as arbitrary ones, with what is needed of
-- them as hypotheses. Redis has no such sessions: what is written there stays. Identifiers are
-- numbers, since they are only compared; a path's identifier of a workflow is a text, which the
-- database reads (Workflows/Router.path_id); drawn ones (uuid4, the database's) and the time are
-- arguments. A violated primary key or unique constraint is an uncaught error, except where the
-- code catches it. The primary keys of the rows of nodes and edges, and foreign keys to users,
-- are not checked. An object read twice in a session is one object, so a change by key is a
-- change of the object.
--
-- Parameters, for code that is not in the repository: SHA-256, str.lower, int(float), UUID(text),
-- the database's reading of a UUID, jwt.encode and jwt.decode, and the values that the code hands
-- on without a look inside (JSON configuration, floats). create_org takes _slugify as an
-- argument, which Organizations/Slugs has; str.strip is one of Organizations/Schemas.
-- Auth/Platform collects those of modules/auth in one record, with bcrypt, the texts of UUIDs and
-- SQL's LOWER, and the laws that the theorems ask of them in another. Redis is one of them:
-- Auth/Redis has its commands on session keys (GET, SET with EX, DEL, SCAN; GETDEL is GET and
-- DEL), RateLimit those on sorted sets, each with its documented laws. Tests/Redis and
-- Tests/Platform have all the laws.
--
-- Time. A request reads the clock once. core/rate_limit.py reads its own, in ticks. Sessions stay
-- in Redis also when a request raises, so the functions on them return their result and the
-- store side by side.
--
-- Fuel. The search takes fuel for the depth of its calls; the validator gives it the number of
-- nodes and edges. It calls itself only for a text that was not visited, and every text it meets
-- is a node or the target of an edge, so that is enough. Python's own recursion limit, which a
-- very deep graph would meet, is not modelled.
--
-- Not modelled: the endpoints that only read, the OAuth accounts, which no code uses, the checks
-- of addresses in request bodies, the execute methods of the nodes, middleware, configuration,
-- migrations but for the unique index on the addresses of users, response models, message texts
-- and time stamps that nothing reads, the time that bcrypt takes, and the frontend.
pub mod Prelude
pub mod Errors
pub mod Database
pub mod Organizations
pub mod Security
pub mod Auth
pub mod RateLimit
pub mod Workflows
pub mod Tests
