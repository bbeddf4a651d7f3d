-- ===== src/Endpoint/Configured.antt =====
-- The endpoints of internal/serviceconfig/endpoints.go and generic_endpoint.go: which are configured,
-- and which one of them the agent picks for a request.
use grpc_datacon.Common.{
  String, List, [], ◌∷◌, map, Option, none, some, Bool, true, false, ◌==◌, ◌&&◌, string_eq, ◌≡◌,
  ◌≢◌, subst, ap, inl, inr, arith, Bool-cases,
}
use mathlib.Core.List.{append-nil}
use grpc_datacon.Headers.Stripped.{All, All-append}
use grpc_datacon.Sessions.{endpoint_of, SessionSearch, serves}
use grpc_datacon.Endpoint.{
  Codec, EndpointConfig, GenericEndpoint, SecretLoader, make_generic_endpoint, load_secrets,
  ConfiguredEndpoint, OutgoingService, ServiceNamespace, configure_endpoints, agent_endpoints,
  endpoints_to_pb, endpoint_to_pb, find_endpoint, endpoints_of, in_namespace, join_lists,
  add_service, load_kubernetes_secrets,
}

-- It says that it is configured, and is ready to execute requests.
abbrev pub IsReady : ConfiguredEndpoint → Type 0
IsReady ep = (ep.configured ≡ true) × (ep.instance_of ≢ none)

-- No other endpoint has the name and type of an endpoint.
abbrev pub IsUnique : List ConfiguredEndpoint → Type 0
IsUnique [] = Unit
IsUnique (ep ∷ eps) = (find_endpoint eps ep.name ep.type ≡ none) × IsUnique eps

-- What is said to be configured has an instance.
abbrev pub IsHonest : ConfiguredEndpoint → Type 0
IsHonest ep = ep.configured ≡ true → ep.instance_of ≢ none

make_generic_endpoint-honest :
    (codec : Codec) (type name : String) (config : EndpointConfig) (loader : SecretLoader)
    → (make_generic_endpoint codec type name config loader).1 ≡ true
    → (make_generic_endpoint codec type name config loader).0 ≢ none
unfolding make_generic_endpoint
make_generic_endpoint-honest codec type name config loader h e = ground arith

namespaces-IsHonest :
    (service : OutgoingService) (made : Option GenericEndpoint × Bool) (nss : List ServiceNamespace)
    → (made.1 ≡ true → made.0 ≢ none)
    → All IsHonest (map (in_namespace service made) nss)
namespaces-IsHonest service made [] h = tt
namespaces-IsHonest service made (ns ∷ nss) h = (h, namespaces-IsHonest service made nss h)

endpoints_of-IsHonest :
    (service : OutgoingService) (made : Option GenericEndpoint × Bool) (nss : List ServiceNamespace)
    → (made.1 ≡ true → made.0 ≢ none)
    → All IsHonest (endpoints_of service nss made)
endpoints_of-IsHonest service made [] h = (h, tt)
endpoints_of-IsHonest service made (ns ∷ nss) h = namespaces-IsHonest service made (ns ∷ nss) h

-- One of them, at least, was configured when its instance was made, and is found first.
module _ (target : SessionSearch) where
  abbrev name : String
  name = target.service_name

  abbrev type : String
  type = target.service_type

  IsFound : List ConfiguredEndpoint → Type 0
  unfolding find_endpoint
  IsFound eps = (ep : ConfiguredEndpoint) × (find_endpoint eps name type ≡ some ep) × IsReady ep

  IsFound-here :
      (x : ConfiguredEndpoint) (xs : List ConfiguredEndpoint)
      → x.name ≡ name
      → x.type ≡ type
      → IsReady x
      → IsFound (x ∷ xs)
  unfolding IsFound find_endpoint
  IsFound-here x xs n t ready =
      (x, ground (arith, string_eq.beq_iff x.name name, string_eq.beq_iff x.type type), ready)

  IsFound-later :
      (x : ConfiguredEndpoint) (xs : List ConfiguredEndpoint)
      → find_endpoint xs x.name x.type ≡ none
      → IsFound xs
      → IsFound (x ∷ xs)
  unfolding IsFound find_endpoint
  IsFound-later x xs u (ep, found, ready) = (
    ep,
    elim (Bool-cases (x.name == name && x.type == type)) [
      | inl same ↦
          let n : x.name ≡ name = ground (arith, string_eq.beq_iff x.name name) in
          let t : x.type ≡ type = ground (arith, string_eq.beq_iff x.type type) in cc
      | inr other ↦ rw other found
    ],
    ready,
  )

  offered-IsReady :
      (eps : List ConfiguredEndpoint)
      → All IsHonest eps
      → IsUnique eps
      → serves target (map endpoint_of (endpoints_to_pb eps)) ≡ true
      → IsFound eps
  unfolding endpoints_to_pb endpoint_to_pb endpoint_of serves
  offered-IsReady [] h u e = cc
  offered-IsReady (x ∷ xs) (hx, h) (ux, u) e =
      elim (Bool-cases (x.configured && x.name == name && x.type == type)) [
        | inl here ↦
            IsFound-here x xs (ground (arith, string_eq.beq_iff x.name name))
              (ground (arith, string_eq.beq_iff x.type type)) (ground arith, hx (ground arith))
        | inr other ↦ IsFound-later x xs ux (offered-IsReady xs h u (ground arith))
      ]

abbrev AreHonest : Option (List ConfiguredEndpoint) → Type 0
AreHonest none = Unit
AreHonest (some eps) = All IsHonest eps

join_lists-AreHonest :
    (eps : List ConfiguredEndpoint) (rest : Option (List ConfiguredEndpoint))
    → All IsHonest eps
    → AreHonest rest
    → AreHonest (join_lists eps rest)
join_lists-AreHonest eps none h hr = tt
join_lists-AreHonest eps (some rest) h hr = All-append IsHonest eps rest h hr

add_service-AreHonest :
    (codec : Codec) (loader : SecretLoader) (service : OutgoingService)
    (config : Option EndpointConfig) (rest : Option (List ConfiguredEndpoint))
    → AreHonest rest
    → AreHonest (add_service codec loader service config rest)
unfolding add_service
add_service-AreHonest codec loader service none rest hr = tt
add_service-AreHonest codec loader service (some config) rest hr =
    join_lists-AreHonest _ rest
      (endpoints_of-IsHonest service
        (make_generic_endpoint codec service.type service.name config loader) service.namespaces
        (make_generic_endpoint-honest codec service.type service.name config loader))
      hr

configure_endpoints-AreHonest :
    (codec : Codec) (loader : SecretLoader) (services : List OutgoingService)
    → AreHonest (configure_endpoints codec loader services)
unfolding configure_endpoints
configure_endpoints-AreHonest codec loader [] = tt
configure_endpoints-AreHonest codec loader (service ∷ services) =
    elim (Bool-cases service.enabled) [
      | inl on ↦ rw on (
          add_service-AreHonest codec loader service service.config
            (configure_endpoints codec loader services)
            (configure_endpoints-AreHonest codec loader services))
      | inr off ↦ rw off (configure_endpoints-AreHonest codec loader services)
    ]

-- A request that the controller may send to this agent, because one of the endpoints of its `Hello`
-- is configured and has the service's name and type, finds an endpoint that is configured and has an
-- instance, whatever the services are and however their secrets load. The condition is that no two
-- endpoints have the same name and type.
pub offered-IsFound :
    (codec : Codec) (loader : SecretLoader) (services : List OutgoingService)
    (target : SessionSearch) {eps : List ConfiguredEndpoint}
    → configure_endpoints codec loader services ≡ some eps
    → IsUnique eps
    → serves target (map endpoint_of (endpoints_to_pb eps)) ≡ true
    → (ep : ConfiguredEndpoint) × (find_endpoint eps target.service_name target.service_type
        ≡ some ep)
      × IsReady ep
unfolding IsFound
offered-IsFound codec loader services target {eps} e u h =
    offered-IsReady target eps
      (subst AreHonest e (configure_endpoints-AreHonest codec loader services)) u h

-- Without a secret loader nothing that names a secret gets an instance.
make_generic_endpoint-no_loader :
    (codec : Codec) (type name : String) (config : EndpointConfig)
    → config.credentials.secret_name ≢ ""
    → make_generic_endpoint codec type name config none ≡ (none, false)
unfolding make_generic_endpoint load_secrets load_kubernetes_secrets
make_generic_endpoint-no_loader codec type name config h =
    ground (arith, string_eq.beq_iff config.credentials.secret_name "")

-- The agent's order of calls makes the endpoints before it makes the secret loader: an enabled
-- service whose credentials are in a secret is listed as not configured and without an instance,
-- whatever loader is made afterwards and whatever the secret holds.
pub agent_endpoints-secret :
    (codec : Codec) (later : SecretLoader) (service : OutgoingService) (config : EndpointConfig)
    → service.enabled ≡ true
    → service.config ≡ some config
    → config.credentials.secret_name ≢ ""
    → agent_endpoints codec later (service ∷ [])
      ≡ some (endpoints_of service service.namespaces (none, false))
unfolding agent_endpoints configure_endpoints
agent_endpoints-secret codec later service config on c h =
    rw (on, c, make_generic_endpoint-no_loader codec service.type service.name config h)
      (ap some (append-nil _))
