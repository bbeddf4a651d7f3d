-- ===== src/Tests/Channels.antt =====
-- Runs of WaitForRequest, of the methods of the session table, of the
-- configuration and of URIs.
use grpc_datacon.Common.{
  String, [], ◌∷◌, ◌++◌, none, some, true, false, ok, ◌==◌, string_eq, if◌then◌else◌, ◌≡◌, refl,
}
use grpc_datacon.Common.Assoc.{get}
use grpc_datacon.Common.Slash.{split_slash}
use grpc_datacon.Sessions.{AgentKey, agent_key_eq, expire_old_sessions, make_agent_sessions}
use grpc_datacon.Sessions.Valid.{IsValid, made, expired, Reachable-IsValid}
use grpc_datacon.Streams.Flush.{belongs}
use grpc_datacon.Controller.{Controller, ServiceRequest, ctx_done, wait_canceled, wait_for_request}
use grpc_datacon.Controller.Ping.{as_session}
use grpc_datacon.Controller.Wait.{sent_all, requests, wait_for_request-canceled}
use grpc_datacon.Config.{
  ControllerConfig, load_config, add_all_hostnames, add_if_missing, has_server_name,
}
use grpc_datacon.JwtUtil.{mutation_is_registered}
use grpc_datacon.Tests.Registry.{vault}
use grpc_datacon.Tests.Tokens.{user_vault}
use grpc_datacon.Tests.Fixtures.{session, sessions, streams, echoes, open_net}
use grpc_datacon.Tests.Flow.{streams-IsValid}
use grpc_datacon.Tests.Sessions.{found}

Reachable-IsValid_example : IsValid (expire_old_sessions make_agent_sessions 10 5)
Reachable-IsValid_example =
    Reachable-IsValid (expire_old_sessions make_agent_sessions 10 5) (expired made 10 5)

abbrev request : ServiceRequest
request = record {
  req = record {
    stream_id = "e2";
    name = "ci";
    type = "jenkins";
    method = "GET";
    uri = "/";
    headers = [];
    body = [];
  };
  echo = "e2";
}

abbrev controller : Controller
controller = record { sessions = sessions; streams = streams; echoes = echoes; sent = [] }

wait_for_request-canceled_example :
    (d : Controller) × (wait_for_request open_net controller
        (as_session "smith" "s1")
        (sent_all (request ∷ []) ++ ctx_done ∷ [])
      ≡ wait_canceled d)
    × (d.sent ≡ controller.sent ++ requests (request ∷ []))
    × ((k : AgentKey)
        → get d.sessions.agents k ≡ (if session.key == k then none else get sessions.agents k))
    × ((k : String) → belongs "s1" (get d.streams.streams k) ≡ false)
wait_for_request-canceled_example =
    wait_for_request-canceled open_net session controller (as_session "smith" "s1") (request ∷ [])
      [] found (refl, tt) streams-IsValid (λ k h. refl)

abbrev pub file : ControllerConfig
file = record {
  service_auth_secrets_path = "";
  agent_auth_secrets_path = "";
  server_names = "a" ∷ [];
  prometheus_listen_port = 0;
  service_hostname = some "s";
  service_listen_port = 0;
  control_hostname = some "a";
  control_listen_port = 0;
  agent_hostname = some "a";
  agent_listen_port = 7000;
  agent_advertise_port = 0;
}

abbrev pub loaded : ControllerConfig
loaded = record {
  service_auth_secrets_path = "/app/secrets/serviceAuth";
  agent_auth_secrets_path = "/app/secrets/agentAuth";
  server_names = "a" ∷ "s" ∷ [];
  prometheus_listen_port = 9102;
  service_hostname = some "s";
  service_listen_port = 9002;
  control_hostname = some "a";
  control_listen_port = 9003;
  agent_hostname = some "a";
  agent_listen_port = 7000;
  agent_advertise_port = 7000;
}

pub loads : load_config (some file) ≡ ok loaded
unfolding load_config add_all_hostnames add_if_missing has_server_name
loads = refl

parts : split_slash "/authorize/t0/x" ≡ "" ∷ "authorize" ∷ "t0" ∷ "x" ∷ []
unfolding split_slash
parts = refl

registered : mutation_is_registered vault user_vault ≡ true
unfolding mutation_is_registered
registered = refl
