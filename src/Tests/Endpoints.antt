-- ===== src/Tests/Endpoints.antt =====
-- Runs of the configuration of an agent's endpoints.
use grpc_datacon.Common.{String, List, [], ◌∷◌, none, some, true, false, ok, ◌≡◌, refl, string_eq}
use grpc_datacon.Sessions.{SessionSearch, serves, endpoint_of}
use grpc_datacon.Endpoint.{
  Codec, Credentials, EndpointConfig, OutgoingService, ConfiguredEndpoint, configure_endpoints,
  endpoints_of, endpoints_to_pb, find_endpoint, make_generic_endpoint,
}
use grpc_datacon.Common.Assoc.{get}
use grpc_datacon.Endpoint.{
  GenericEndpoint, SecretLoader, load_secrets, load_kubernetes_secrets, token_from_secret, get_item,
}
use grpc_datacon.Endpoint.Secrets.{IsSourced, load_secrets-IsSourced}
use grpc_datacon.Endpoint.Configured.{IsReady, offered-IsFound}

-- A codec that changes nothing.
abbrev plain : Codec
plain = record { encode64 = λ s. s; decode64 = λ s. some s }

abbrev credentials : String → Credentials
credentials secret_name = record {
  type = "token";
  username = "";
  password = "";
  token = "abc";
  secret_name = secret_name;
  raw_username = "";
  raw_password = "";
  raw_token = "";
}

abbrev config : String → EndpointConfig
config secret_name = record {
  url = "http://h";
  insecure = false;
  credentials = credentials secret_name;
}

abbrev service : String → OutgoingService
service secret_name = record {
  enabled = true;
  name = "ci";
  type = "jenkins";
  config = some (config secret_name);
  annotations = [];
  namespaces = [];
}

abbrev target : SessionSearch
target = record { agent_id = "smith"; service_name = "ci"; service_type = "jenkins" }

abbrev configured : List ConfiguredEndpoint
unfolding make_generic_endpoint
configured =
    endpoints_of (service "") [] (make_generic_endpoint plain "jenkins" "ci" (config "") none)

ready : configure_endpoints plain none (service "" ∷ []) ≡ some configured
unfolding configure_endpoints configured
ready = refl

offered-IsFound_example :
    (ep : ConfiguredEndpoint) × (find_endpoint configured "ci" "jenkins" ≡ some ep) × IsReady ep
unfolding configured find_endpoint serves endpoints_to_pb endpoint_of
offered-IsFound_example = offered-IsFound plain none (service "" ∷ []) target ready (refl, tt) refl

abbrev unloaded : GenericEndpoint
unloaded = record { endpoint_type = "jenkins"; endpoint_name = "ci"; config = config "vault" }

abbrev loaded : GenericEndpoint
loaded = record unloaded {
  config = record (config "vault") {
    credentials = record (credentials "vault") { raw_token = "xyz" };
  };
}

-- A loader with one secret.
abbrev loader : SecretLoader
loader = some (λ name. some (("token", "xyz") ∷ []))

loads : load_secrets plain unloaded loader ≡ ok loaded
unfolding load_secrets load_kubernetes_secrets token_from_secret get_item get
loads = refl

load_secrets-IsSourced_example : IsSourced plain loader loaded.config.credentials
load_secrets-IsSourced_example = load_secrets-IsSourced plain unloaded loader loaded loads
