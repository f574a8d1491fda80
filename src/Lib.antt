-- ===== src/Lib.antt =====
-- Verification of the ComputeID Go SDK and server.
--
-- The program issues passports to AI agents and to devices. The SDK (the root package) keeps
-- passports in memory: it issues them, checks and revokes them, keeps an audit trail in each, and
-- registers them in an office. The server (package server) keeps passports in PostgreSQL behind an
-- HTTP API and signs them with an RSA key.
--
-- Files, and the code that each is about:
--   Common             lists, maps, JSON values and tests on the native numbers
--   Sys                what time.Now and crypto/rand give, as streams read in order
--   Uuid               newUUID of agent.go and of server/server.go
--   Errors             errors.go
--   Capabilities       capabilities.go
--   Agent              agent.go: AgentPassport and its methods; Agent/Log, Trust, Clock, History,
--                      Finality and Validity are proofs about them
--   Issue              agent.go and helpers.go: IssueAgentPassport, IssueAgentPassportQuick
--   RequirePassport    helpers.go: RequirePassport
--   Export             agent.go: Export and LoadAgentPassport
--   Device             device.go: DevicePassport and its two tests
--   Url                what client.go uses of net/url, and how a path is read back
--   Client             client.go: options, NewClient, parseAPIError; Client/Requests is do,
--                      Client/Endpoints the calls of the API, with those of device.go and
--                      helpers.go that go through it; Client/Paths relates them to the server
--   Command            cmd/computeid-server/main.go
--   Network            a client of client.go whose transport is the server of server/server.go
--   Office             office.go: PassportOffice; Office/Heap, Registry, History and Report are
--                      proofs about it
--   Server/Db          the tables of server/migrations/001_init.up.sql, and how a statement runs
--   Server/Text        server/server.go: readJSON, and the answers of the handlers
--   Server/Route       server/server.go: routeAgentSub and routeDeviceSub
--   Server/Admin       server/server.go: checkAdmin and constantTimeEq
--   Server/Signer      server/signer.go
--   Server/Platform    what the handlers take from the standard library and from PostgreSQL
--   Server/Tables      the SQL statements of server/handlers_agents.go
--   Server/Agents      server/handlers_agents.go: register, verify, capability
--   Server/Actions     server/handlers_agents.go: log an action, revoke
--   Server/Devices     server/handlers_devices.go: authenticate, approve, signJWT; its
--                      child Register is the registration with its transaction, Jwt is verifyJWT,
--                      Approval the proofs about approve
--   Server/Listing     the listing handlers of server/handlers_agents.go, handlers_devices.go
--   Server/Migrate     server/migrate.go
--   Server/Mux         server/server.go: the patterns of Handler, and http.ServeMux
--   Server/Start       server/server.go: New, handleHealth and logMiddleware; server/postgres.go:
--                      ConnectPostgres
--   Server/Writes      the writes of the five agent handlers as a step relation, and the proofs over
--                      sequences of requests to them: Rows, Consistent, Final, Registration, Revocation
--   Tests              runs of the model and the theorems at concrete inputs
--
-- A method of a passport is a function that takes the passport and the system and gives its result
-- with both as they are afterwards: the mutex of the passport makes each locked part one step. A
-- handler is a function from the world (tables, system, database backend) to its answer and the
-- world after it; every statement may fail, whatever it is. The office holds pointers into a heap of
-- passports, which its callers share. Maps are association lists, and a loop over a map is given
-- the order in which it meets the pairs.
--
-- All loops are structural recursion, so there is no fuel. A time is a natural number of
-- nanoseconds, without the bounds of Go's int64 durations. An int is an integer without
-- a bound; the counter of device codes is PostgreSQL's INTEGER, whose overflow is an error.
--
-- Parameters of the model, since their code is not in the repository: SHA-256, RSA, HMAC, PEM, base64,
-- JSON, case mapping, strconv and the formats of fmt and time; the transport of the client; pgx,
-- PostgreSQL's reading of uuid and jsonb texts, its ORDER BY and what a migration script does; and the
-- function that RequirePassport wraps.
--
-- Not modelled: the methods of server/postgres.go that pass a call on to pgx,
-- and the examples. A dropped context or a time-out is an error of the call that meets it. The listener
-- of the command runs until something ends it, and requests come one after the other: interleavings
-- of two threads inside one method, and of the statements of two handlers, are not modelled, except
-- that the table of keys may hold another process's key when a server inserts its own. http.ServeMux
-- is modelled on the patterns of the server, CONNECT requests left out.
pub mod Common
pub mod Sys
pub mod Uuid
pub mod Errors
pub mod Capabilities
pub mod Agent
pub mod Issue
pub mod RequirePassport
pub mod Export
pub mod Url
pub mod Client
pub mod Command
pub mod Network
pub mod Device
pub mod Office
pub mod Server
mod Tests
