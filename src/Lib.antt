-- ===== src/Lib.antt =====
-- The semantic workspace: a web application (app, lib) and a worker (worker/src) around PostgreSQL and
-- Kafka. Sensors send telemetry through Kafka. The worker stores each reading, applies the
-- deterministic rules to it, asks for a decision where a threshold is passed, and takes in the results of
-- device commands; what it cannot process becomes a dead letter. The web application checks the rules
-- that are given to it, explains events from a trace of evidence, and answers questions with tools.
--
-- Js holds the part of JavaScript that the code computes with: Number the IEEE numbers (a finite one is
-- the integer that counts its multiples of 2^-1074), Json the values of JSON.parse, Text the tests on texts,
-- Result values or the message of a thrown Error, and Runtime the functions of the runtime
-- and of PostgreSQL that are taken as they are, without any law.
--
-- Worker models worker/src:
--   Contracts: contracts/telemetry.ts (parseTelemetry) and contracts/command-result.ts
--     (parseCommandResult);
--   Rule: rules/deterministic-rule.ts (matchesCondition, applyAction);
--   Config: config.ts and retention/retention-config.ts;
--   Store: the tables of infra/postgres/migrations, calls that may throw, and the transaction that the methods
--     of PostgresService share. A call runs in a world: the database, the messages sent, the offsets
--     committed, the clock, and a list that says which coming calls of PostgreSQL and Kafka fail. Each
--     theorem on a call holds for every such list;
--   Postgres: the methods of persistence/postgres-service.ts, one module each for insertTelemetry,
--     insertDeadLetter and insertAuditEvent, cleanupRetention, applyDeterministicRules, and
--     applyCommandResult;
--   Services: mastra/mastra-decision-service.ts with agent-result, dead-letter/dead-letter-service.ts, and the
--     handlers telemetry/telemetry-service.ts, commands/command-result-service.ts and audit;
--   Consumer: eachMessage and classifyFailure of consumer/telemetry-consumer.ts;
--   Writes: every single write of the worker as a step on the database;
--   History: the runs of the worker: messages, redeliveries, cleanups and changes from outside;
--   Startup: startWithRetry of the consumer, and the guard of retention/retention-service.ts;
--   Process: main.ts and health/health-server.ts, the start and the shutdown as steps that may come in any
--     order that the code allows; a step ends at an await.
-- Explain models lib/explain/workflow.ts and lib/ai/llm/explain-review.ts: Trace the data, Review what is
-- left of the answers of a language model, Workflow the steps, Stages the list of them that is reported. The
-- fetched trace, the model and the files of its credentials are parameters; its configuration is that of
-- Api/Gemini/Vertex.
-- Api models the routes of the web application:
--   RateLimit: lib/server/rate-limit.ts; Rules: lib/services/rules.ts;
--   Chat: app/api/ai/chat/route.ts with lib/ai/tool-layer.ts, where a tool's name is looked up among the six and
--     then among the members that every object inherits, its handler in Post; Propose: app/api/ai/rules/propose/route.ts
--     with lib/ai/http.ts; ExplainEvent: app/api/ai/explain-event/route.ts;
--   Gemini: lib/ai/llm/gemini-provider.ts and lib/ai/gemini.ts. Gemini itself is the conversion of schemas,
--     Clean the schemas that Gemini takes, Messages that of messages, Token the access token that is kept, Request the settings of a request and
--     the provider's three calls, Vertex the configuration and the client's call;
--   Gateway: the routes that forward to the gateway and answer for one that is not there.
-- Client models the code of the browser. A handler is an Action: it changes its component's state and may
-- throw, and what it changed before a throw stays; the state lists the requests that were sent.
--   Policy: lib/client/semantic-policy.ts and domain/ontology.ts; Consent: the confirmation of a role that
--     two pages ask for;
--   Timeline: the events of components/dashboard/workspace-dashboard.tsx, with the buffer of a hidden page;
--     Dashboard: its handlers;
--   Studio: components/rules/rule-studio.tsx; Copilot: components/ai/ask-ai.tsx, where the runs that explain
--     an event are numbered, and start and end in any order;
--   Layout: where the nodes of components/ontology/ontology-graph.tsx stand, without their colours;
--     GraphView: its handlers, each cut at its awaits;
--   App: app/client-app.tsx.
-- Tests holds concrete inputs.
--
-- Recursion is on lists, on the limit of a delete and on the turns of a conversation that are left, seven
-- at the start as in the code. The start of the consumer alone has fuel, its rounds, and the theorem on it holds
-- for any fuel above the number of failed attempts. Times are natural numbers of
-- milliseconds; a sequence is checked against 64 bits where PostgreSQL casts it.
--
-- A page of the browser runs a handler to its end before the next event, except in GraphView, where each
-- await is a state and anything may come between, and where runs are numbered; and the replies to calls that are made at once settle in the order of the calls.
--
-- Not modelled: logging, the connections' own lifecycle, concurrency between workers beyond the advisory lock,
-- the markup of the user interface and the texts of the dashboard, the routes that only name a path of the
-- gateway, and the services in Go and Rust.
mod Prelude
pub mod Js
pub mod Worker
pub mod Explain
pub mod Api
pub mod Client
pub mod Tests
