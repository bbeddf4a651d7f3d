-- ===== src/AgentMain.antt =====
-- app/client/main.go: how an agent starts, and the metadata of its RPCs. `log.Fatal` is an error; a
-- file is what is read from it, `none` where that fails, and YAML the outcome of parsing. The RPC
-- `Hello` is a function of the metadata and the request, which also says what the controller becomes
-- by it. Tracing, the Kubernetes client and the
-- Prometheus listener are left out.
pub mod Greeted
pub mod Pinging
use grpc_datacon.Common.{
  ℕ, String, List, [], ◌∷◌, ◌++◌, map, Option, none, some, Bool, true, false, not, Result, ok, err,
  ◌>>=◌, ◌>>◌, ensure, or_fail, map_err, ◌==◌, string_eq, if◌then◌else◌,
}
use grpc_datacon.Common.Assoc.{Assoc}
use grpc_datacon.Common.Text.{trim_space, drop_lf_cr}
use grpc_datacon.Common.Calendar.{Time}
use grpc_datacon.Tunnel.{
  Annotation, AgentInfo, EndpointHealth, HelloRequest, HelloResponse, PingResponse,
}
use grpc_datacon.JwtAuth.{Metadata}
use grpc_datacon.Ca.Authority.{Crypto, CaError, validate_ca_cert}
use grpc_datacon.Config.{AgentConfig, apply_defaults}
use grpc_datacon.Endpoint.{
  Codec, SecretLoader, OutgoingService, ConfiguredEndpoint, agent_endpoints, endpoints_to_pb,
}

pub record AgentSession : Type 0 where
  pub agent_id : String
  pub session_id : String
  pub authorization : String

pub data StartError : Type 0 where
  no_config no_services bad_endpoint no_token no_agent_info no_ca_cert bad_ca_cert64 : StartError
  bad_ca_pem bad_ca_pool no_loader not_connected no_hello : StartError
  bad_ca_cert : CaError → StartError

-- `metadata.New`, then `Set`: the keys are in lower case.
unfoldable pub get_header_context : AgentSession → Metadata
get_header_context session =
    ("authorization", session.authorization ∷ [])
    ∷ (if session.session_id == "" then [] else ("x-session-id", session.session_id ∷ []) ∷ [])

-- The request of `sendHello`.
unfoldable pub hello_request : AgentInfo → List ConfiguredEndpoint → String → String → HelloRequest
unfolding endpoints_to_pb
hello_request info endpoints hostname version = record {
  endpoints = endpoints_to_pb endpoints;
  version = version;
  agent_info = info;
  hostname = hostname;
}

unfoldable pub get_hostname : Option String → String
get_hostname none = "unknown"
get_hostname (some name) = name

-- `AUTH_TOKEN` of the environment, as it is; otherwise the token file, without the space around it.
unfoldable pub get_auth_token : Option String → Option String → Option String
unfolding trim_space drop_lf_cr
get_auth_token (some token) file = some token
get_auth_token none none = none
get_auth_token none (some text) = some (drop_lf_cr (trim_space text))

abbrev annotation : String × String → Annotation
annotation (k, v) = record { name = k; value = v }

-- The annotations of the file, in the order in which the map is visited.
unfoldable pub load_agent_info : Option (Assoc String String) → Option AgentInfo
load_agent_info none = none
load_agent_info (some annotations) = some (record { annotations = map annotation annotations })

-- The certificate's file, or the configuration's base64 text.
unfoldable pub load_ca_cert_pem :
    (String → Option String) → Option String → String → Result StartError String
load_ca_cert_pem decode64 (some cert) text = ok cert
load_ca_cert_pem decode64 none text = do
  ensure (not (text == "")) no_ca_cert
  or_fail (decode64 text) bad_ca_cert64

-- `pem_decode` gives the bytes of the first block, if there is one.
unfoldable pub load_ca_cert :
    Crypto → (String → Option String) → Time → Result StartError String → Result StartError String
unfolding validate_ca_cert
load_ca_cert crypto pem_decode now loaded = do
  cert_pem ← loaded
  block ← or_fail (pem_decode cert_pem) bad_ca_pem
  map_err bad_ca_cert (validate_ca_cert crypto now block) >> ok cert_pem

-- What the agent reads when it starts.
pub record World : Type 1 where
  pub crypto : Crypto
  pub config_file : Option AgentConfig
  pub services_file : Option (List OutgoingService)
  pub env_token : Option String
  pub token_file : Option String
  pub info_file : Option (Assoc String String)
  pub later_loader : SecretLoader
  -- false where `POD_NAMESPACE` is set and its loader cannot be made
  pub loader_made : Bool
  pub ca_file : Option String
  pub ca_text : String
  pub decode64 : String → Option String
  pub pem_decode : String → Option String
  -- whether `AppendCertsFromPEM` takes a text
  pub takes_pem : String → Bool
  pub now : Time
  pub os_hostname : Option String
  pub version : String
  -- whether `grpc.Dial` of an address succeeds
  pub dials : String → Bool

-- An agent that has said Hello, and what the controller has become by it.
pub record Joined (S : Type 0) : Type 0 where
  pub remote : S
  pub session : AgentSession
  pub endpoints : List ConfiguredEndpoint
  pub dialed : String

-- The session before the agent has said Hello.
abbrev pub with_token : String → AgentSession
with_token token = record { agent_id = ""; session_id = ""; authorization = token }

-- `main`, up to the goroutines that take requests and that ping. The address is the one in the code:
-- the host name of the configuration is not used.
unfoldable pub start :
    {S : Type 0}
    → Codec
    → World
    → (Metadata → HelloRequest → Option (S × HelloResponse))
    → Result StartError (Joined S)
unfolding apply_defaults agent_endpoints get_auth_token load_agent_info load_ca_cert_pem
    load_ca_cert hello_request get_header_context get_hostname
start codec world rpc = do
  file ← or_fail world.config_file no_config
  let config = apply_defaults file
  services ← or_fail world.services_file no_services
  endpoints ← or_fail (agent_endpoints codec world.later_loader services) bad_endpoint
  token ← or_fail (get_auth_token world.env_token world.token_file) no_token
  info ← or_fail (load_agent_info world.info_file) no_agent_info
  ensure world.loader_made no_loader
  ca_cert ←
      load_ca_cert world.crypto world.pem_decode world.now
        (load_ca_cert_pem world.decode64 world.ca_file world.ca_text)
  ensure (world.takes_pem ca_cert) bad_ca_pool
  ensure (world.dials "localhost:8003") not_connected
  let greeting = with_token token
  answer ←
      or_fail
        (rpc (get_header_context greeting)
          (hello_request info endpoints (get_hostname world.os_hostname) world.version))
        no_hello
  ok (record {
    remote = answer.0;
    session = record {
      agent_id = answer.1.agent_id;
      session_id = answer.1.instance_id;
      authorization = token;
    };
    endpoints = endpoints;
    dialed = "localhost:8003";
  })

-- `pinger`, with whether it has returned: one time for each round, at which it has slept; when the
-- list ends it sleeps. The RPC `Ping` is a function like `Hello`.
unfoldable pub pinger :
    {S : Type 0}
    → AgentSession
    → (S → Metadata → ℕ → Option (S × PingResponse))
    → S
    → List ℕ
    → S × Bool
unfolding get_header_context
pinger session rpc remote [] = (remote, false)
pinger session rpc remote (ts ∷ times) = elim (rpc remote (get_header_context session) ts) [
  | none ↦ (remote, true)
  | some (next, response) ↦ pinger session rpc next times
]
