-- ===== src/Lib.antt =====
-- A model of the Go services of the ARE foundation, with theorems about them. Paths are from the
-- repository's root.
--
-- The program
--
-- Agents are registered in a registry, are given passports by an issuance engine, and reach both
-- through an API gateway. The registry keeps its agents in PostgreSQL and tells of each change of
-- status through an outbox that a processor delivers to Kafka. The issuance engine keeps its
-- passports in memory and asks the registry for an agent's status, a credential service for
-- signatures, and a policy engine for the active bundle. The gateway checks each request and sends
-- it to an upstream: a simulator of the services, or a client of a REST service, as its
-- configuration tells. The REST service keeps its agents and passports in memory or in PostgreSQL,
-- and may delegate registration, status and passports to the registry and the issuance engine.
--
-- The files
--
-- Base        Shared names: Tests (Booleans), Lists, Text and Letters (Go's strings), Int (signed
--             integers and int64), Dict (Go's maps).
-- Passport    s0/passport-issuance-engine/internal. Model and Service are domain/passport.go and
--             service/service.go: issue_passport is IssuePassport, and so on for GetPassport,
--             GetAgentPassport, VerifyPassport and RevokePassport. Grpc is grpc/server.go, Local is
--             local/wiring.go. Cases, Consistent, Reach, Issue, Errors, Verify, Replies and
--             RoundTrip are proofs.
-- Registry    s0/agent-registry-service/internal. Model and Domain are domain/ and registryerr/;
--             Tables, Repository and Listing are repository/postgres/repository.go; Service is
--             service/registry.go; Outbox is outbox/processor.go; Grpc is grpc/server.go.
--             Statements, Cases, Admission, Invariant, Lifecycle, Results, Updates, Delivery,
--             Backoff, Rows, Pages, Waiting and Drain are proofs.
-- Gateway     sx/are-api-gateway/internal/gateway. Routes is phase1_contract.go, Server is
--             gateway.go and auth.go, Simulator, Issuing and Decisions are upstream.go, and Proxy is
--             s0s1_http_proxy.go and upstream_mode.go. Tracing is tracing.go, Cors is cors.go,
--             Labels is red_metrics.go, Opa is opa_evaluate.go, Readiness is readiness.go. Guards,
--             Replay, Grants, Headers and Propagation are proofs.
-- Bff         sx/s0s1-rest-bff, the REST service; Entry is cmd/are-s0s1-rest-bff/main.go, and the
--             rest is of internal/. Model is the types of repo/repo.go and repo/passport_index.go;
--             Memory is repo/memory.go, Postgres and its Reads are repo/postgres.go. Responses,
--             Register, Agents, Issue, Grants and Handler are api/api.go and api/api_s0.go, Policy is
--             policy/evaluate.go, Delegate and its Passports are s0delegate/. Requests sends requests
--             through Handler. Postgres/Race, Calls, Effects, Consistent, Issued, Related, Refines,
--             Laws, Failures, Replay, Demo, Scopes, Services, Registrations, Refusals, Composed and
--             Through are proofs; Services has the registry of Registry behind the REST service, and
--             Through has it behind the gateway.
--
-- An operation that changes state is a function from the state to a result and the next state, and
-- a module Examples of each part runs some of them and applies the theorems.
--
-- What the definitions take as arguments
--
-- Clocks, generators of identifiers, SHA-256, time formats, JSON coding, jwt.Parse, the policy
-- engine, Kafka and the other interfaces of the code are fields of a record Env, World or Delivery,
-- so that a theorem holds for all their answers, errors included. What it needs of them it states
-- as a hypothesis, such as that a new identifier is not in use. Each SQL statement is a function of
-- the tables, written from its text; a field of Faults tells for each call of the driver whether it
-- fails, and a failed transaction leaves the tables as they were. A commit whose answer is lost is
-- a failed one, and so is a value that a column type or a CHECK constraint refuses. What PostgreSQL
-- makes of a UUID, an instant and a JSONB value in the tables of the registry is a record Columns. An
-- agent's identifier is given in the canonical text of a UUID, as the registry draws it.
--
-- Bounds
--
-- An instant is a count of nanoseconds. The product of a time to live with a second wraps as int64
-- does; the sum with the clock does not, which holds for clocks up to the year 2200 or so. A page
-- has at most 1000 agents and a batch at most 100 rows, as in the code. The transactions of the REST
-- service's PostgreSQL store run again after a lost race, at most eight times, as in the code:
-- a run that loses finds the winner's row, so that the next one reads it.
--
-- What is not modelled
--
-- Error texts that are added to a sentinel error, log lines and metrics; the export and sampling of
-- spans. The concurrency of the simulator between its critical sections; the issuance engine and
-- the registry are modelled with the steps that a lock or a transaction makes, and the read after
-- the commit of UpdateAgentStatus with any work of others before it. What net/http does by itself,
-- and the HTTP and gRPC clients; the outbox loop and the conformance service of the gateway; the
-- services that are not in Go; generated code, commands and tools.
pub mod Base
pub mod Bff
pub mod Gateway
pub mod Passport
pub mod Registry
