-- ===== src/ServerMain.antt =====
-- app/server/main.go: how the controller starts. `log.Fatal` is an error; what a goroutine serves is a
-- listener in the list of what was started. The key sets are those of github.com/lestrrat-go/jwx, the
-- record `KeyOps`; a walk over a directory is the list of what its function is called with. Tracing
-- and the Prometheus listener's pages are left out.
pub mod Keys
mod Listening
pub mod Ready
use grpc_datacon.Common.{
  ℕ, ◌*◌, String, List, [], ◌∷◌, ◌++◌, map, Option, none, some, Bool, true, false, not, Result, ok,
  err, ◌>>=◌, ◌>>◌, ensure, or_fail, map_err, ◌==◌, string_eq, if◌then◌else◌,
}
use grpc_datacon.Common.Calendar.{Time, second}
use grpc_datacon.JwtUtil.{
  JwtRegistry, JwtState, JwtError, register_service_keyset, register_mutation_keyset,
  register_agent_keyset, make_agent_jwt,
}
use grpc_datacon.Ca.Authority.{
  Crypto, KeyPair, CaConfig, CaError, load_ca_from_file, make_server_cert,
}
use grpc_datacon.Config.{ControllerConfig, ConfigError, load_config}

-- The keys of a directory: `jwk.FromRaw`, which may refuse what a file holds, `AddKey`, which may
-- refuse a key, here with the name and the algorithm that it is given before, and `LookupKeyID`.
pub record KeyOps (Keyset : Type 0) : Type 1 where
  pub Key : Type 0
  pub no_keys : Keyset
  pub from_raw : String → Option Key
  pub add_key : Keyset → Key → String → Option Keyset
  pub has_key : Keyset → String → Bool

-- A call of the function that `filepath.WalkDir` is given: its error, the type of the entry, its name
-- and what is read from it.
pub record WalkEntry : Type 0 where
  pub failed : Bool
  pub is_regular : Bool
  pub name : String
  pub content : Option String

pub data StartError : Type 0 where
  no_current_key walk_failed key_not_loaded no_mutation_key : StartError
  bad_config : ConfigError → StartError
  not_registered : JwtError → StartError
  bad_ca : CaError → StartError
  no_sample_token : JwtError → StartError

-- `serviceAuthConfig`, and `agentAuthConfig` with no key for headers.
pub record AuthConfig : Type 0 where
  pub secrets_path : String
  pub current_key_name : String
  pub header_mutation_key_name : String

-- `IncomingServiceConfig`, as far as the start reads it.
pub record Incoming : Type 0 where
  pub name : String
  pub port : ℕ
  pub use_http : Bool

-- The flag, unless it is given: then what the environment has in its place.
unfoldable pub jaeger_endpoint : String → Option String → String
jaeger_endpoint flag none = if flag == "" then flag else ""
jaeger_endpoint flag (some env) = if flag == "" then flag else env

pub data Listener : Type 0 where
  control : ℕ → Listener
  agents : ℕ → Listener
  service_https : Incoming → Listener
  service_http : Incoming → Listener
  prometheus : ℕ → Listener

-- The loop over the services of the configuration.
unfoldable pub service_listeners : List Incoming → List Listener
service_listeners [] = []
service_listeners (s ∷ rest) =
    (if s.use_http then service_http s else service_https s) ∷ service_listeners rest

-- What `main` starts, in order.
unfoldable pub listeners : ControllerConfig → List Incoming → List Listener
unfolding service_listeners
listeners config services =
    control config.control_listen_port
      ∷ agents config.agent_listen_port
      ∷ service_https
          (record { name = "_services"; port = config.service_listen_port; use_http = false })
      ∷ service_listeners services
    ++ prometheus config.prometheus_listen_port ∷ []

-- `idleTimeout.Nanoseconds()` of `runAgentGRPCServer` of app/server/server.go.
abbrev pub agent_idle_timeout : ℕ
agent_idle_timeout = 60 * second

module _ (jwt : JwtRegistry) (keys : KeyOps jwt.Keyset) where
  open keys use {no_keys, from_raw, add_key, has_key}

  -- One call of the walk's function, for a regular file.
  abbrev pub load_key : jwt.Keyset → WalkEntry → Result StartError jwt.Keyset
  load_key keyset entry = do
    content ← or_fail entry.content walk_failed
    key ← or_fail (from_raw content) walk_failed
    or_fail (add_key keyset key entry.name) walk_failed

  -- The walk, which ends at the first error.
  unfoldable pub load_keys : jwt.Keyset → List WalkEntry → Result StartError jwt.Keyset
  load_keys keyset [] = ok keyset
  load_keys keyset (entry ∷ rest) = do
    ensure (not entry.failed) walk_failed
    more ← if entry.is_regular then load_key keyset entry else ok keyset
    load_keys more rest

  -- What `loadServiceAuthKeyset` and `loadAgentAuthKeyset` have in common.
  unfoldable pub load_agent_auth_keyset :
      AuthConfig → (String → List WalkEntry) → Result StartError jwt.Keyset
  unfolding load_keys
  load_agent_auth_keyset auth walk = do
    ensure (not (auth.current_key_name == "")) no_current_key
    keyset ← load_keys no_keys (walk auth.secrets_path)
    ensure (has_key keyset auth.current_key_name) key_not_loaded
    ok keyset

  unfoldable pub load_service_auth_keyset :
      AuthConfig → (String → List WalkEntry) → Result StartError jwt.Keyset
  unfolding load_agent_auth_keyset
  load_service_auth_keyset auth walk = do
    keyset ← load_agent_auth_keyset auth walk
    ensure (not (auth.header_mutation_key_name == "")) no_mutation_key
    ok keyset

  -- `if err = Register…; err != nil { logger.Fatal(err) }`
  abbrev pub or_fatal : JwtState jwt × Option JwtError → Result StartError (JwtState jwt)
  or_fatal (s, none) = ok s
  or_fatal (s, some e) = err (not_registered e)

  -- The state of the package jwtutil after the three registrations.
  unfoldable pub register_all :
      JwtState jwt
      → AuthConfig
      → AuthConfig
      → jwt.Keyset
      → jwt.Keyset
      → Result StartError (JwtState jwt)
  unfolding register_service_keyset register_mutation_keyset register_agent_keyset
  register_all s service agent service_keys agent_keys = do
    s1 ← or_fatal (register_service_keyset jwt s service_keys service.current_key_name)
    s2 ← or_fatal (register_mutation_keyset jwt s1 service_keys service.header_mutation_key_name)
    or_fatal (register_agent_keyset jwt s2 agent_keys agent.current_key_name)

  -- What is read from outside: the configuration file, the directories, the authority's files and the
  -- time.
  pub record World (crypto : Crypto) : Type 0 where
    pub config_file : Option ControllerConfig
    pub walk : String → List WalkEntry
    pub load_pair : String → String → Option (KeyPair crypto.Key)
    pub loaded_at : Time
    pub cert_at : Time

  -- What runs when the controller is up.
  pub record Running (crypto : Crypto) : Type 0 where
    pub config : ControllerConfig
    pub service_keys : jwt.Keyset
    pub agent_keys : jwt.Keyset
    pub state : JwtState jwt
    pub authority : KeyPair crypto.Key
    pub server_cert : KeyPair crypto.Key
    pub started : List Listener
    pub sample_token : String

  -- `main`: the parts of the configuration that the other files leave out are arguments.
  unfoldable pub start :
      (crypto : Crypto)
      → World crypto
      → JwtState jwt
      → AuthConfig
      → AuthConfig
      → CaConfig
      → List Incoming
      → Result StartError (Running crypto)
  unfolding load_config load_service_auth_keyset load_agent_auth_keyset register_all
      load_ca_from_file make_server_cert listeners make_agent_jwt
  start crypto world s service_auth agent_auth ca_config services = do
    config ← map_err bad_config (load_config world.config_file)
    service_keys ←
        load_service_auth_keyset
          (record service_auth { secrets_path = config.service_auth_secrets_path }) world.walk
    agent_keys ←
        load_agent_auth_keyset (record agent_auth { secrets_path = config.agent_auth_secrets_path })
          world.walk
    state ← register_all s service_auth agent_auth service_keys agent_keys
    authority ← map_err bad_ca (load_ca_from_file crypto world.load_pair world.loaded_at ca_config)
    server_cert ←
        map_err bad_ca (make_server_cert crypto authority world.cert_at config.server_names)
    token ← map_err no_sample_token (make_agent_jwt jwt state "smith" none)
    ok (record {
      config = config;
      service_keys = service_keys;
      agent_keys = agent_keys;
      state = state;
      authority = authority;
      server_cert = server_cert;
      started = listeners config services;
      sample_token = token;
    })
