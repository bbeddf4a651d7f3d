-- ===== src/Endpoint.antt =====
-- internal/serviceconfig: the services that an agent offers (endpoints.go, generic_endpoint.go,
-- serviceconfig.go). Codecs are parameters: YAML stands as the outcome of parsing, base64 as the two
-- functions of `Codec`. Logging is left out; `logger.Fatal` ends the process.
pub mod Configured
pub mod Uri
pub mod Secrets
mod Generic
unfoldable pub use Generic.*
use grpc_datacon.Common.{
  ℕ, String, List, [], ◌∷◌, ◌++◌, map, Option, none, some, Bool, true, false, ◌&&◌, ◌||◌, not,
  Result, ok, err, ◌>>=◌, ◌>>◌, ensure, or_fail, map_err, ◌==◌, string_eq, if◌then◌else◌,
}
use grpc_datacon.Common.Assoc.{Assoc, get}
use grpc_datacon.Common.Text.{trim_suffix_slash}
use grpc_datacon.Common.Slash.{split_slash, join_slash}
use grpc_datacon.Tunnel.{Annotation, EndpointHealth}
use grpc_datacon.JwtUtil.{JwtRegistry, JwtState, JwtError, mutation_is_registered, unmutate_header}

-- `Instance` is `none` for the nil endpoint.
pub record ConfiguredEndpoint : Type 0 where
  pub name : String
  pub type : String
  pub configured : Bool
  pub annotations : Assoc String String
  pub namespace : List String
  pub instance_of : Option GenericEndpoint

pub record ServiceNamespace : Type 0 where
  pub name : String
  pub namespaces : List String

-- `config` is what the YAML of the service's configuration parses to, `none` where it does not.
pub record OutgoingService : Type 0 where
  pub enabled : Bool
  pub name : String
  pub type : String
  pub config : Option EndpointConfig
  pub annotations : Assoc String String
  pub namespaces : List ServiceNamespace

abbrev pub in_namespace :
    OutgoingService → Option GenericEndpoint × Bool → ServiceNamespace → ConfiguredEndpoint
in_namespace service (made, configured) ns = record {
  name = ns.name;
  type = service.type;
  configured = configured;
  annotations = [];
  namespace = ns.namespaces;
  instance_of = made;
}

abbrev without_namespace : OutgoingService → Option GenericEndpoint × Bool → ConfiguredEndpoint
without_namespace service (made, configured) = record {
  name = service.name;
  type = service.type;
  configured = configured;
  annotations = service.annotations;
  namespace = [];
  instance_of = made;
}

-- What one enabled service adds to the list.
abbrev pub endpoints_of :
    OutgoingService
    → List ServiceNamespace
    → Option GenericEndpoint × Bool
    → List ConfiguredEndpoint
endpoints_of service [] made = without_namespace service made ∷ []
endpoints_of service (ns ∷ rest) made = map (in_namespace service made) (ns ∷ rest)

abbrev pub join_lists :
    List ConfiguredEndpoint → Option (List ConfiguredEndpoint) → Option (List ConfiguredEndpoint)
join_lists eps none = none
join_lists eps (some rest) = some (eps ++ rest)

-- A configuration that does not parse is an error of `MakeGenericEndpoint`, at which the process ends.
abbrev pub add_service :
    Codec
    → SecretLoader
    → OutgoingService
    → Option EndpointConfig
    → Option (List ConfiguredEndpoint)
    → Option (List ConfiguredEndpoint)
unfolding make_generic_endpoint
add_service codec loader service none rest = none
add_service codec loader service (some config) rest =
    join_lists
      (endpoints_of service service.namespaces
        (make_generic_endpoint codec service.type service.name config loader))
      rest

-- `none` is `logger.Fatal`.
unfoldable pub configure_endpoints :
    Codec → SecretLoader → List OutgoingService → Option (List ConfiguredEndpoint)
unfolding make_generic_endpoint
configure_endpoints codec loader [] = some []
configure_endpoints codec loader (service ∷ services) =
    let rest = configure_endpoints codec loader services in
    if service.enabled then add_service codec loader service service.config rest else rest

-- The order of `main` of app/client/main.go: the endpoints are configured while the variable
-- `secretsLoader` is still nil; the loader that is made afterwards is used by nothing.
unfoldable pub agent_endpoints :
    Codec → SecretLoader → List OutgoingService → Option (List ConfiguredEndpoint)
unfolding configure_endpoints
agent_endpoints codec later services = configure_endpoints codec none services

abbrev annotation : String × String → Annotation
annotation (k, v) = record { name = k; value = v }

unfoldable pub endpoint_to_pb : ConfiguredEndpoint → EndpointHealth
endpoint_to_pb ep = record {
  name = ep.name;
  type = ep.type;
  configured = ep.configured;
  namespaces = ep.namespace;
  annotations = map annotation ep.annotations;
}

-- `EndpointsToPB`, for the `Hello` of the agent.
unfoldable pub endpoints_to_pb : List ConfiguredEndpoint → List EndpointHealth
unfolding endpoint_to_pb
endpoints_to_pb = map endpoint_to_pb

-- `findEndpoint` of app/client/main.go.
unfoldable pub find_endpoint : List ConfiguredEndpoint → String → String → Option ConfiguredEndpoint
find_endpoint [] name type = none
find_endpoint (ep ∷ eps) name type =
    if ep.name == name && ep.type == type then some ep else find_endpoint eps name type

module _ (r : JwtRegistry) (s : JwtState r) where
  -- `parts[2], err = UnmutateHeader(parts[2])` where there are three parts and the second is right.
  abbrev pub unmutate_parts : String → List String → Result JwtError String
  unmutate_parts uri [] = ok uri
  unmutate_parts uri (p ∷ []) = ok uri
  unmutate_parts uri (p ∷ q ∷ []) = ok uri
  unmutate_parts uri (p ∷ q ∷ t ∷ rest) =
      if q == "authorize"
      then (unmutate_header r s t none >>= λ user. ok (join_slash (p ∷ q ∷ user ∷ rest)))
      else ok uri

  -- `unmutateURI`, at the nil clock that its caller passes.
  unfoldable pub unmutate_uri : String → String → String → Result JwtError String
  unfolding split_slash join_slash
  unmutate_uri type method uri =
      if type == "fiat" && method == "GET" && mutation_is_registered r s
      then unmutate_parts uri (split_slash uri)
      else ok uri
