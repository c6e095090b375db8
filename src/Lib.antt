-- ===== src/Lib.antt =====
-- dAvePi: the core of a schema-driven backend.
--
-- A schema file declares a resource: its fields, who may read and write them, its state machines, hooks and
-- aggregations. From it the program generates REST routes, a GraphQL API and tools for agents, which all
-- rest on the same rules. This library models those rules and the wrappers that apply them.
--
-- The parts, and the files of the repository that they model:
--
--   Js              JavaScript values and objects: reading, writing, deleting, spreading, equality, text.
--                   Laws has what these operations satisfy.
--   Schema          the shape of a schema and of a caller, as far as the modelled code reads them.
--   Acl             utils/acl.js: roles, hidden and writable fields, the stamp of the owner, the bypasses
--                   of the owner's scope, and the mandatory filters of a role. Read, Write and Owner hold
--                   what is shown of it.
--   Fragment        utils/scopeResolver.js, matchesScopeFragment: a filter evaluated on a record. Merge
--                   relates it to the filters that Acl merges.
--   ScopeResolver   utils/scopeResolver.js with utils/hooks.js: the wrappers round the GraphQL resolvers.
--                   Results has projectResult and emitForMutation, Filter wrapFilter, Find the lookups
--                   and the computed fields, Create and ById the mutations. Isolation, Bypass, Owner, Updates,
--                   Seen and Guards hold what is shown, with the lemmas of Traces.
--   Program         programs that ask the world outside: commands, answers, and statements over every
--                   run, with the commands that came before.
--   Rest            utils/schemaLoader.js, buildRestRouter: the handlers of a resource's routes. Numbers and
--                   Pages have the page parameter and the answer's page, Create, Read, Update, Bulk and
--                   Delete the routes, Files those of a file field, with utils/fileFields.js; Steps,
--                   Targets, Confined, Created, Changed, Many, Deleted, Uploaded, Paging and History are
--                   about them.
--   Webhooks        utils/webhookDispatcher.js; Attempts and Retries are about its deliveries.
--   Runner          utils/migrations/runner.js; Order is about which files are pending, Applied about its
--                   runs.
--   Relations       utils/relations.js; Included is about its finds, Grouped about what records are given,
--                   Named about the names of a request.
--   Retention       utils/retention.js; Expired is about what it deletes.
--   StateMachine    utils/stateMachine.js; Moves is about one field, Records about a whole record.
--   Aggregations    utils/aggregations.js; Safety is about pipelines, Params about their parameters;
--                   Runs is runAggregation of utils/schemaLoader.js, Reached and Own are about its cache.
--   AggregationCache  utils/aggregationCache.js over the insertion-ordered map of its Map; Keys is
--                   about the texts of its keys, Entries about what an operation leaves.
--   Scopes, Auth    utils/scopes.js, middleware/requireScope.js, middleware/clientAuth.js and
--                   middleware/auth.js; Words has the texts of the headers.
--   Errors          utils/errors.js; Handler is middleware/errorHandler.js.
--   Idempotency     utils/idempotency.js and middleware/idempotency.js.
--   CronLock        packages/davepi-plugin-cron/lib/lock.js; World is the step relation of its processes.
--   MigrationLock   utils/migrations/lock.js; Heartbeat is about a whole run under the lock.
--   Audit           lib/matcher.js and lib/redact.js of packages/davepi-plugin-audit; Diff is the
--                   computeDiff of utils/audit.js.
--   Collection      what the program relies on of a database collection with a unique index: an interface
--                   of operations and laws, which Collection.Table meets.
--   Base, Tests     shared names and lemmas; samples on which the definitions run.
--
-- How the parts interact: a request gets its caller in Auth, and passes the wrappers of ScopeResolver or the
-- middleware of Idempotency. The wrappers ask Acl who may do what, rewrite the filter or the payload, call the
-- wrapped resolver and project its result. A wrapper is modelled as a computation with an outcome, which may be
-- an error, and the list of its effects: lookups, hooks, calls of the wrapped resolver, events. What these
-- answer is given by functions, the parameters of the model: the wrapped resolver, Model.findOne, the runner of
-- a transition, the hooks, the check of a token, the lookups of keys and clients, the casts of aggregation
-- parameters, the lower case and the JSON of a value. The database is the interface Collection.
--
-- The handlers of Rest, the dispatcher, the runner, the relations and the purge are programs over commands: each
-- call of the database, of a hook, of the storage, of a subscriber or of a migration is a command, the rest of
-- the program is given for any answer, and a statement about a program speaks of all its runs. What other
-- requests do between two commands shows in the answers. A command that throws ends its program unless the code
-- catches it. Rest uses the same Acl, StateMachine and hooks as the wrappers; the properties that the loading of
-- relations, of computed values and of file URLs adds to a record are answers in Rest.
--
-- Choices. A number is a natural number and a time is its milliseconds; an ObjectId is the text of its digits.
-- An object is the list of its properties in insertion order; a theorem that needs distinct names says so, and
-- every object of JavaScript has them. Functions that the code writes as loops are structural recursion. The
-- digits of a number take fuel, one round more than the number, which is enough since a round divides by ten.
-- An idempotent answer is sent by res.json and is stored before the next request under its key. Concurrency
-- is explicit: what other requests do between two operations of the database is a function, or a step of a
-- relation.
--
-- A delivery of a webhook takes one fuel for each attempt, one more than its schedule has delays. The dispatcher
-- starts its deliveries side by side; the model lists them one after another, and says nothing that depends on
-- the order. A page size is positive. An update that a hook answers with a text or an array fails.
-- A document that is to be created may be an array, of which the database creates each element; its answer
-- stands for what was created. In the run of migrations a heartbeat and the release may throw, which the code
-- swallows.
--
-- Not modelled: the loading of schemas and the header of an aggregation's answer in utils/schemaLoader.js, the agent server, the generators of clients and descriptions, the queue and the plugins
-- for external services. In the parts above: the request hash and the stored headers of an idempotent answer,
-- the JSON text of the parameters in a cache key, the details of an error body, the timer of the heartbeats of a run of migrations, the
-- cancelling of webhook timers, a record's version and request in an event, and the removal of owner fields from
-- GraphQL's input types.
pub mod Base
pub mod Js
pub mod Program
pub mod Rest
pub mod Webhooks
pub mod Runner
pub mod Relations
pub mod Retention
pub mod Schema
pub mod Acl
pub mod Fragment
pub mod StateMachine
pub mod Scopes
pub mod ScopeResolver
pub mod Aggregations
pub mod AggregationCache
pub mod Errors
pub mod Auth
pub mod Collection
pub mod Idempotency
pub mod CronLock
pub mod MigrationLock
pub mod Audit
pub mod Tests
