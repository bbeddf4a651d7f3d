-- ===== src/Tests/Joined.antt =====
-- A start of the agent.
use grpc_datacon.Common.{[], ◌∷◌, none, some, true, false, ok, ◌≡◌, refl, string_eq}
use grpc_datacon.Common.Calendar.{add_years}
use grpc_datacon.JwtUtil.{JwtState}
use grpc_datacon.Ca.Authority.{root_template}
use grpc_datacon.Config.{AgentConfig}
use grpc_datacon.JwtUtil.{validate_agent_jwt}
use grpc_datacon.JwtAuth.{intercept}
use grpc_datacon.Common.Assoc.{get}
use grpc_datacon.Sessions.{agent_key_eq, AgentSessions, make_agent_sessions}
use grpc_datacon.Controller.{hello}
use grpc_datacon.Controller.Ping.{as_session}
use grpc_datacon.Endpoint.{Codec}
use grpc_datacon.AgentMain
use grpc_datacon.AgentMain.{pinger}
use grpc_datacon.AgentMain.Pinging.{controller_ping, pinger-sleeps}
use grpc_datacon.Controller.Alive.{IsUsed}
use grpc_datacon.Tests.Fixtures.{session, sessions}
use grpc_datacon.Tests.Sessions.{sessions-IsValid}
use grpc_datacon.AgentMain.Greeted.{controller_hello, IsGreeted, start-IsGreeted}
use grpc_datacon.Tests.Registry.{vault, vault_validate, registered_vault}
use grpc_datacon.Tests.Tokens.{agent_claims}
use grpc_datacon.Tests.Authority.{now, server_crypto}

abbrev no_config_file : AgentConfig
no_config_file = record {
  controller_hostname = "";
  ca_cert_file = "";
  auth_token_file = "";
  services_config_file = "";
  dial_max_retries = 0;
  dial_retry_time = 0;
  prometheus_listen_port = 0;
}

abbrev agent_world : AgentMain.World
agent_world = record {
  crypto = server_crypto;
  config_file = some no_config_file;
  services_file = some [];
  env_token = none;
  token_file = some "t0";
  info_file = some [];
  later_loader = none;
  loader_made = true;
  takes_pem = λ cert. true;
  ca_file = some "root";
  ca_text = "";
  decode64 = λ s. some s;
  pem_decode = λ s. some s;
  now = now;
  os_hostname = none;
  version = "v1";
  dials = λ address. true;
}

abbrev plain : Codec
plain = record { encode64 = λ s. s; decode64 = λ s. some s }

abbrev smith : JwtState vault
smith = registered_vault agent_claims

abbrev joined : AgentMain.Joined AgentSessions
unfolding hello
joined = record {
  remote =
      (hello make_agent_sessions (as_session "smith" "")
        (record {
          endpoints = [];
          version = "v1";
          agent_info = record { annotations = [] };
          hostname = "unknown";
        })
        "s1" "v2" 5).0;
  session = record { agent_id = "smith"; session_id = "s1"; authorization = "t0" };
  endpoints = [];
  dialed = "localhost:8003";
}

joins :
    AgentMain.start plain agent_world (controller_hello vault smith make_agent_sessions "s1" "v2" 5)
    ≡ ok joined
unfolding AgentMain.start root_template add_years make_agent_sessions joined intercept get
    validate_agent_jwt vault_validate
joins = refl

smith_valid : validate_agent_jwt vault smith "t0" none ≡ ok "smith"
unfolding validate_agent_jwt vault_validate get
smith_valid = refl

start-IsGreeted_example : IsGreeted vault smith make_agent_sessions "s1" "v2" 5 "smith" joined
unfolding joined
start-IsGreeted_example =
    start-IsGreeted vault smith make_agent_sessions "s1" "v2" 5 plain agent_world "smith" joined
      joins smith_valid

-- Two pings of the agent whose session was made at 100.
pinger-sleeps_example :
    (b : AgentSessions) × (pinger
        (record { agent_id = "smith"; session_id = "s1"; authorization = "t0" })
        (controller_ping vault smith)
        sessions
        (110 ∷ 120 ∷ [])
      ≡ (b, false))
    × IsUsed session 120 b
unfolding get agent_key_eq
pinger-sleeps_example =
    pinger-sleeps vault smith
      (record { agent_id = "smith"; session_id = "s1"; authorization = "t0" }) session smith_valid
      refl 100 sessions (110 ∷ 120 ∷ []) (record { valid = sessions-IsValid; there = refl })
