-- ===== src/Lib.antt =====
-- grpc-datacon carries HTTP requests to services that its clients cannot reach. An agent
-- (app/client) runs beside the services and keeps a gRPC connection to the controller (app/server).
-- A client sends an HTTP request to the controller with a credential that names an agent, a service
-- and its type. The controller looks for a session of the agent that offers the service, puts the
-- request on the session's channel, and WaitForRequest passes it to the agent. The agent runs it and
-- sends the response back over DataFlowAgentToController, whose messages reach the HTTP client over
-- the channels of an echo.
--
-- The files, and the code that each is about:
--   Tunnel: the messages of internal/tunnel, and streamflow.go.
--   JwtUtil: internal/jwtutil. The registry of tokens is a package that is not in this repository:
--     the record JwtRegistry, and what its users rely on is SignsTruly in JwtUtil/RoundTrip.
--   JwtAuth: app/server/jwtauth.go. JwtAuth/Gate is about the interceptor.
--   Sessions: app/server/sessions.go; each method that locks the table is one step. Its children are
--     about the invariant (Valid), find (Lookup), the cleaner (Expiry) and the order in which the map
--     is visited (Order).
--   HttpWriter: what the code uses of net/http's ResponseWriter and Header.
--   Echo: the interface HTTPEcho of internal/serviceconfig/http_echo.go. A call returns, waits for
--     ever or panics.
--   ServerEcho: app/server/echo.go and runEcho of app/server/service_server.go. The channels are
--     unbuffered, so a send and its receipt are one step, and a send waits for ever once runEcho has
--     returned.
--   Streams: app/server/stream.go. Echoes are shared, so the table holds references into a store.
--   Controller: the RPCs of app/server/server.go. What Recv and select give is a list of events. The
--     panic of Hello on a message without AgentInfo is hello_call; the rest uses hello, which is Hello
--     of a message that has it. Alive is about the sessions under pings and the cleaner.
--   Headers: internal/serviceconfig/headers.go.
--   Endpoint: endpoints.go, generic_endpoint.go (configuration) and serviceconfig.go of
--     internal/serviceconfig, and findEndpoint and the order of calls of app/client/main.go.
--   AgentEcho: app/client/echo.go, with the goroutine of RunDataSender. A message is marshalled after it
--     has been received, and a Send of the RPC may block for ever.
--   Execute: ExecuteHTTPRequest and RunHTTPRequest of generic_endpoint.go, and waitForRequest of
--     app/client/main.go. The HTTP client is a parameter, whose Do may never return; a body is the list
--     of its reads, all into one buffer, and a read may come before the chunk of the read before it has
--     been marshalled. The panic on a header without values is an end of its own. Ends is
--     about how the goroutine of a request ends.
--   EndToEnd: the agent's messages given to the controller.
--   Service: the handlers of app/server/service_server.go.
--   Ca: internal/ca/ca.go, the names in certificates; Ca/Authority is the authority itself. Keys,
--     signatures and PEM are the record Crypto, and what its users rely on is IsLawful in
--     Ca/Validity. Times are nanoseconds, of which X.509 keeps the whole
--     seconds, and AddDate is Common/Calendar.
--   Fwdapi, CncServer: internal/fwdapi and app/server/cncserver, the control API.
--   Config: app/server/config.go and app/client/config.go.
--   ServerMain: app/server/main.go, from the configuration, the key files and the authority's files to
--     the listeners that are started. A key set is a parameter (KeyOps).
--   AgentMain: app/client/main.go, up to Hello, the metadata of the agent's RPCs and the pinger.
--   GetCreds, MakeCa: app/get-creds and app/make-ca. The files of make-ca are a list, the latest first.
--   System: the goroutines of the controller in any order, as a step relation. A body that holds a lock
--     is one step, and so is a send on an unbuffered channel with its receipt.
--   Tests: runs on concrete inputs.
--
-- State is passed explicitly. A map is an association list whose functions keep one entry for a key.
-- A number of Go is a natural number; the sum in the cleaner's test wraps as int64 does (Common/Int64),
-- and a conversion to int32 is % 2 ^ 32. All loops are over lists, so nothing needs fuel: a loop that
-- waits for ever in the code ends in a value that says so when its list of events ends.
--
-- Not modelled: generated code, logging and tracing, TLS connections, the Kubernetes client, YAML and
-- JSON (a parameter, or the outcome of parsing), health checks and metrics, and RunServer and its
-- like, which only give the handlers to net/http and gRPC.
pub mod Common
pub mod Tunnel
pub mod JwtUtil
pub mod JwtAuth
pub mod GetCreds
pub mod AgentMain
pub mod System
pub mod MakeCa
pub mod ServerMain
pub mod Sessions
pub mod HttpWriter
pub mod Echo
pub mod ServerEcho
pub mod Streams
pub mod Controller
pub mod AgentEcho
pub mod Headers
pub mod Endpoint
pub mod Execute
pub mod EndToEnd
pub mod Ca
pub mod Service
pub mod Fwdapi
pub mod CncServer
pub mod Config
pub mod Tests
