-- ===== src/Config.antt =====
-- app/server/config.go and app/client/config.go: the defaults of the configurations. The file is what
-- its YAML parses to, `none` where it cannot be read or parsed. A port is a `uint16` that is only
-- compared and copied. Fields that are copied unread are left out.
pub mod Names
use grpc_datacon.Common.{
  ℕ, String, List, [], ◌∷◌, ◌++◌, Option, none, some, Bool, true, false, ◌||◌, Result, ok, err,
  ◌>>=◌, or_fail, ◌==◌, nat_eq, string_eq, if◌then◌else◌,
}

pub record ControllerConfig : Type 0 where
  pub service_auth_secrets_path : String
  pub agent_auth_secrets_path : String
  pub server_names : List String
  pub prometheus_listen_port : ℕ
  pub service_hostname : Option String
  pub service_listen_port : ℕ
  pub control_hostname : Option String
  pub control_listen_port : ℕ
  pub agent_hostname : Option String
  pub agent_listen_port : ℕ
  pub agent_advertise_port : ℕ

pub data ConfigError : Type 0 where
  unreadable no_agent_hostname no_service_hostname no_control_hostname : ConfigError

abbrev pub or_port : ℕ → ℕ → ℕ
or_port port default = if port == 0 then default else port

abbrev pub or_text : String → String → String
or_text text default = if text == "" then default else text

unfoldable pub has_server_name : List String → String → Bool
has_server_name [] target = false
has_server_name (a ∷ names) target = a == target || has_server_name names target

-- `addIfMissing`, on the list of the configuration.
unfoldable pub add_if_missing : List String → Option String → List String
unfolding has_server_name
add_if_missing names none = names
add_if_missing names (some target) =
    if has_server_name names target then names else names ++ target ∷ []

unfoldable pub add_all_hostnames : ControllerConfig → ControllerConfig
unfolding add_if_missing
add_all_hostnames c = record c {
  server_names =
      add_if_missing
        (add_if_missing (add_if_missing c.server_names c.agent_hostname) c.control_hostname)
        c.service_hostname;
}

-- The assignments of `LoadConfig`, without its returns.
abbrev pub with_defaults : ControllerConfig → ControllerConfig
with_defaults c = record c {
  agent_listen_port = or_port c.agent_listen_port 9001;
  agent_advertise_port = or_port c.agent_advertise_port (or_port c.agent_listen_port 9001);
  service_listen_port = or_port c.service_listen_port 9002;
  control_listen_port = or_port c.control_listen_port 9003;
  prometheus_listen_port = or_port c.prometheus_listen_port 9102;
  service_auth_secrets_path = or_text c.service_auth_secrets_path "/app/secrets/serviceAuth";
  agent_auth_secrets_path = or_text c.agent_auth_secrets_path "/app/secrets/agentAuth";
}

unfoldable pub load_config : Option ControllerConfig → Result ConfigError ControllerConfig
unfolding add_all_hostnames
load_config parsed = do
  c ← or_fail parsed unreadable
  agent ← or_fail c.agent_hostname no_agent_hostname
  service ← or_fail c.service_hostname no_service_hostname
  control ← or_fail c.control_hostname no_control_hostname
  ok (add_all_hostnames (with_defaults c))

-- `agentConfig` of app/client/config.go.
pub record AgentConfig : Type 0 where
  pub controller_hostname : String
  pub ca_cert_file : String
  pub auth_token_file : String
  pub services_config_file : String
  pub dial_max_retries : ℕ
  pub dial_retry_time : ℕ
  pub prometheus_listen_port : ℕ

unfoldable pub apply_defaults : AgentConfig → AgentConfig
apply_defaults c = record {
  controller_hostname = or_text c.controller_hostname "agent-controller:9001";
  ca_cert_file = or_text c.ca_cert_file "/app/config/ca.pem";
  auth_token_file = or_text c.auth_token_file "/app/secrets/authtoken";
  services_config_file = or_text c.services_config_file "/app/config/services.yaml";
  dial_max_retries = or_port c.dial_max_retries 10;
  dial_retry_time = or_port c.dial_retry_time 10;
  prometheus_listen_port = or_port c.prometheus_listen_port 9102;
}
