-- ===== src/Tests/Fixtures.antt =====
-- An agent with one session, its request and its answer.
use grpc_datacon.Common.{ℕ, List, [], ◌∷◌, true, length}
use grpc_datacon.Tunnel.{EndpointHealth, HelloRequest, TunnelHeaders}
use grpc_datacon.HttpWriter.{ResponseWriter, WriteResult, wrote}
use grpc_datacon.ServerEcho.{ServerEcho, EchoPair, make_incoming_echoer}
use grpc_datacon.ServerEcho.Delivery.{fresh_pair}
use grpc_datacon.Sessions.{AgentContext, AgentSessions}
use grpc_datacon.Streams.{Stream, StreamManager, Echoes}

abbrev pub health : EndpointHealth
health = record {
  name = "ci";
  type = "jenkins";
  configured = true;
  namespaces = [];
  annotations = [];
}

abbrev pub hello_request : HelloRequest
hello_request = record {
  endpoints = health ∷ [];
  version = "v1";
  agent_info = record { annotations = [] };
  hostname = "host";
}

abbrev pub session : AgentContext
session = record {
  key = record { agent_id = "smith"; session_id = "s1" };
  endpoints = (record { name = "ci"; type = "jenkins"; configured = true; annotations = [] }) ∷ [];
  agent_info = record { annotations = [] };
  version = "v1";
  hostname = "host";
  connected_at = 100;
  last_ping = 0;
  last_use = 100;
}

abbrev pub sessions : AgentSessions
sessions = record { agents = (record { agent_id = "smith"; session_id = "s1" }, session) ∷ [] }

abbrev pub stream : Stream
stream = record { agent_id = "smith"; session_id = "s1"; echo = "e1" }

abbrev pub streams : StreamManager
streams = record { streams = ("e1", stream) ∷ [] }

abbrev pub echo : ServerEcho
unfolding make_incoming_echoer
echo = make_incoming_echoer "e1"

abbrev pub echoes : Echoes EchoPair
echoes k = fresh_pair echo

-- A connection that takes whatever is written.
abbrev pub open_net : ResponseWriter → List ℕ → WriteResult
open_net w bytes = wrote (length bytes)

abbrev pub response : TunnelHeaders
response = record { stream_id = "e1"; status_code = 200; headers = []; content_length = 2 }
