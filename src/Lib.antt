-- ===== src/Lib.antt =====
-- Converse AI: the shared kernel of the services, the gateway, and the aggregates of the services.
--
-- The program is a set of services over one shared package, packages/shared-kernel/src/converse_shared.
-- A request reaches the gateway, which limits it and forwards it to a service. There it passes the
-- middlewares of the package, which give it a context, record it and turn exceptions into responses;
-- the endpoint sends a command through the mediator; the handler works on aggregates inside a unit of
-- work, which commits and then sends the events of the aggregates to a bus. The files follow the
-- package:
--
--   Domain          domain/: Value and Exceptions (exceptions.py), Events (domain_events.py), Entity
--                   (base_entity.py, aggregate_root.py), Pagination (value_objects.py, repository.py),
--                   Specification (specification.py), ValueObjects and Names (value_objects.py)
--   Security        security/: Rbac (rbac.py), ApiKey (api_key.py), TenantContext (tenant_context.py),
--                   Jwt (jwt_handler.py), PiiMasker (pii_masker.py)
--   Middleware      middleware/: RateLimiter (rate_limiter.py), ErrorHandler (error_handler.py),
--                   RequestLogging (request_logging.py), Context (correlation_id.py,
--                   tenant_middleware.py, auth_middleware.py)
--   Infrastructure  infrastructure/: EventBus (event_bus.py, with EventBus/Kafka for its second bus),
--                   UnitOfWork (unit_of_work.py), Cache (cache.py), Health (health.py), Messaging
--                   (messaging.py, with Messaging/Producer), Database and Url (database.py, cache.py),
--                   Rows (the shape of the repositories), Redis (the commands of Redis that the limiter
--                   sends)
--   Application     application/: Dto (dto.py), Mediator (mediator.py), UseCase (use_case.py), Outcomes
--                   (command.py, query.py), Commands (what the command handlers of the services share)
--   App             Stack (the middlewares of fastapi.py, in their order), Gateway
--                   (services/api-gateway/src/api_gateway: main.py, proxy.py), Endpoints (fastapi.py),
--                   Lifespan and Wiring (services/auth-service/src/auth_service/main.py)
--   Observability   observability/: Metrics (metrics.py), Logging (logging.py)
--   Auth            services/auth-service/src/auth_service: Credentials
--                   (domain/entities/user_credentials.py), Password (domain/value_objects), Repository
--                   (infrastructure/persistence), Login and Register (application/commands)
--   Org             services/org-service/src/org_service: Organization
--                   (domain/entities/organization.py), Repository (infrastructure/persistence),
--                   CreateOrg (application/commands)
--   Users           services/user-service/src/user_service: Profile, Repository, UpdateProfile
--                   (application/commands and queries)
--   Agents          services/agent-service/src/agent_service: Agent, Repository, CreateAgent
--   Audit           services/audit-service/src/audit_service: Log, LogAction
--   Prelude         shared names, lists, dicts, texts, numbers, results and regular expressions
--
-- A method that changes an object takes it and returns the new one; a method that raises returns a
-- Result beside the state that it leaves, so that what a failed call has done is visible. The functions
-- have the names of the methods, without a leading underscore, or a longer name where two classes have
-- one. The clock, new identifiers and random tokens are arguments, one for each time that the code
-- asks. Times are whole seconds, identifiers are numbers, and integers of the source that cannot be
-- negative are natural numbers. All loops run over a list or over nested data and are structural, but
-- for the descent of the masker, which has the depth that the source counts, and the printing of a
-- decimal number, which runs on fuel: it gets one more than the number, enough since each digit divides
-- it by ten.
--
-- Code outside the repository is a parameter: Redis (Infrastructure/Redis and KeyValue of the cache),
-- json, the sessions of SQLAlchemy, the handlers of events and requests, the clients of Kafka, httpx,
-- the jwt package, the substitution of the re library, hashlib and secrets, uuid.UUID, passlib,
-- prometheus_client, and the names that the command handlers use and that the package lacks (`Result`,
-- `JWTHandler`, `add_domain_event`, `register_aggregate`: Kernel of Application/Commands). A command
-- handler returns its answer beside the unit of work, and raises what the code raises, so a call of an
-- exception with arguments that its constructor does not take raises a TypeError.
--
-- With the package as it is, no command of these handlers succeeds: the modules do not import, the
-- aggregates have no `add_domain_event`, and `Email` of value_objects.py, a model of pydantic that login
-- and registration call with a positional argument, raises a TypeError. These three are parameters that
-- may return or raise (`Kernel`, `email_of`), so that what is said of a handler holds for the package as
-- it is and for one in which they are mended; where a theorem is about the package as it is, it has the
-- hypothesis that `add_domain_event` raises.
--
-- A write of Redis may raise, and the laws of the cache's Redis say what holds when it has returned; a
-- value comes back from the cache as JSON gives it back. The CORS middleware is a parameter that leaves a
-- request without the Origin header as it is, and the theorems on the applications are about such
-- requests. The sessions of a database are counted from their making to their close, and what a commit
-- that raises has stored is left open.
-- Where a theorem needs what such code does, the record of its operations has the documented laws, and
-- the tests give an instance of it.
--
-- Log lines are left out everywhere. Not modelled: settings, tracing and the configuration of the
-- logs; the columns and the engine of SQLAlchemy; the routes of FastAPI; what the CORS middleware adds to a response;
-- the migrations and the seed
-- script, which imports names that do not exist; the identifiers that only wrap a uuid.UUID.
pub mod Prelude
pub mod Domain
pub mod Security
pub mod Infrastructure
pub mod Middleware
pub mod Auth
pub mod Observability
pub mod Org
pub mod Users
pub mod Agents
pub mod Audit
pub mod Application
pub mod App
