-- ===== src/JwtUtil.antt =====
-- internal/jwtutil: the tokens of services, of agents and of mutated headers (jwt.go,
-- mutateheaders.go). The registry that signs and validates is the package
-- github.com/skandragon/jwtregistry: the record `JwtRegistry` stands for it, its global state made
-- explicit. A clock is `none` where the code passes nil.
pub mod Claims
pub mod RoundTrip
use grpc_datacon.Common.{
  ℕ, ◌*◌, String, List, [], ◌∷◌, Option, none, some, Bool, true, false, ◌==◌, Result, ok, err,
  ◌>>=◌, or_fail, map_err, string_eq,
}
use grpc_datacon.Common.Assoc.{Assoc, get}

pub record JwtRegistry : Type 1 where
  pub State : Type 0
  pub Keyset : Type 0
  pub Clock : Type 0
  -- registry name, issuer, keys, signing key name, validity period in seconds
  pub register : State → String → String → Keyset → String → Option ℕ → Result String State
  pub remove : State → String → State
  pub sign : State → String → Assoc String String → Option Clock → Result String String
  pub validate : State → String → String → Option Clock → Result String (Assoc String String)

pub data JwtError : Type 0 where
  registry_error : String → JwtError
  missing_key : String → JwtError
  no_u_field : JwtError

abbrev pub jwt_endpoint_type_key : String
jwt_endpoint_type_key = "t"

abbrev pub jwt_endpoint_name_key : String
jwt_endpoint_name_key = "n"

abbrev pub jwt_agent_key : String
jwt_agent_key = "a"

abbrev pub issuer : String
issuer = "opsmx"

abbrev pub agent_issuer : String
agent_issuer = "opsmx-agent-auth"

abbrev pub serviceauth_registry_name : String
serviceauth_registry_name = "service-auth"

abbrev pub agent_registry_name : String
agent_registry_name = "agent-auth"

abbrev pub claim_opsmx_agent_name : String
claim_opsmx_agent_name = "opsmx.agent.name"

abbrev pub mutate_registry_name : String
mutate_registry_name = "header-mutation"

abbrev pub mutate_issuer : String
mutate_issuer = "opsmx-header-mutation"

-- 15 minutes
abbrev pub mutate_validity : ℕ
mutate_validity = 15 * 60

-- What `ValidateServiceJWT` returns beside its error.
pub record ServiceClaims : Type 0 where
  pub ep_type : String
  pub ep_name : String
  pub agent : String

abbrev no_claims : ServiceClaims
no_claims = record { ep_type = ""; ep_name = ""; agent = "" }

-- `claims[key]`, which is "" where the key is missing.
abbrev pub value_or_empty : Option String → String
value_or_empty none = ""
value_or_empty (some v) = v

-- `if …, found = claims[key]; !found { err = … }`: an error that is there stays if this key is found.
abbrev pub note_missing : Option String → String → Option JwtError → Option JwtError
note_missing none key earlier = some (missing_key key)
note_missing (some v) key earlier = earlier

unfoldable pub read_service_claims : Assoc String String → ServiceClaims × Option JwtError
read_service_claims claims =
    let ep_type = get claims jwt_endpoint_type_key in
    let ep_name = get claims jwt_endpoint_name_key in
    let agent = get claims jwt_agent_key in
    let missing_t = note_missing ep_type jwt_endpoint_type_key none in
    let missing_n = note_missing ep_name jwt_endpoint_name_key missing_t in
    (
      record {
        ep_type = value_or_empty ep_type;
        ep_name = value_or_empty ep_name;
        agent = value_or_empty agent;
      },
      note_missing agent jwt_agent_key missing_n,
    )

module _ (r : JwtRegistry) where
  open r use {State, Keyset, Clock, register, remove, sign, validate}

  -- The package's state: the registry's and the flag `mutationRegistered`.
  pub record JwtState : Type 0 where
    pub registry : State
    pub mutation_registered : Bool

  -- A registration that fails leaves the registry as it was.
  abbrev pub registered : JwtState → Result String State → JwtState × Option JwtError
  registered s (ok registry) = (record s { registry = registry }, none)
  registered s (err e) = (s, some (registry_error e))

  unfoldable pub register_service_keyset : JwtState → Keyset → String → JwtState × Option JwtError
  register_service_keyset s keyset key =
      registered s (register s.registry serviceauth_registry_name issuer keyset key none)

  unfoldable pub register_agent_keyset : JwtState → Keyset → String → JwtState × Option JwtError
  register_agent_keyset s keyset key =
      registered s (register s.registry agent_registry_name agent_issuer keyset key none)

  -- The flag is set before the registration is tried.
  unfoldable pub register_mutation_keyset : JwtState → Keyset → String → JwtState × Option JwtError
  register_mutation_keyset s keyset key =
      registered (record s { mutation_registered = true })
        (register s.registry mutate_registry_name mutate_issuer keyset key (some mutate_validity))

  unfoldable pub unregister_mutation_keyset : JwtState → JwtState
  unregister_mutation_keyset s = record {
    registry = remove s.registry mutate_registry_name;
    mutation_registered = false;
  }

  unfoldable pub mutation_is_registered : JwtState → Bool
  mutation_is_registered s = s.mutation_registered

  -- `sign` of jwt.go.
  unfoldable pub sign_claims :
      JwtState → String → Assoc String String → Option Clock → Result JwtError String
  sign_claims s name claims clock = map_err registry_error (sign s.registry name claims clock)

  unfoldable pub make_service_jwt :
      JwtState → String → String → String → Option Clock → Result JwtError String
  unfolding sign_claims
  make_service_jwt s ep_type ep_name agent clock =
      sign_claims s serviceauth_registry_name
        ((jwt_endpoint_type_key, ep_type)
          ∷ (jwt_endpoint_name_key, ep_name)
          ∷ (jwt_agent_key, agent)
          ∷ [])
        clock

  unfoldable pub make_agent_jwt : JwtState → String → Option Clock → Result JwtError String
  unfolding sign_claims
  make_agent_jwt s agent clock =
      sign_claims s agent_registry_name ((claim_opsmx_agent_name, agent) ∷ []) clock

  abbrev service_result : Result String (Assoc String String) → ServiceClaims × Option JwtError
  unfolding read_service_claims
  service_result (ok claims) = read_service_claims claims
  service_result (err e) = (no_claims, some (registry_error e))

  -- The claims come back beside an error too, as far as they were found.
  unfoldable pub validate_service_jwt :
      JwtState → String → Option Clock → ServiceClaims × Option JwtError
  unfolding read_service_claims
  validate_service_jwt s token clock =
      service_result (validate s.registry serviceauth_registry_name token clock)

  unfoldable pub validate_agent_jwt : JwtState → String → Option Clock → Result JwtError String
  validate_agent_jwt s token clock = do
    claims ← map_err registry_error (validate s.registry agent_registry_name token clock)
    or_fail (get claims claim_opsmx_agent_name) (missing_key claim_opsmx_agent_name)

  unfoldable pub mutate_header : JwtState → String → Option Clock → Result JwtError String
  mutate_header s text clock =
      map_err registry_error (sign s.registry mutate_registry_name (("u", text) ∷ []) clock)

  unfoldable pub unmutate_header : JwtState → String → Option Clock → Result JwtError String
  unmutate_header s token clock = do
    claims ← map_err registry_error (validate s.registry mutate_registry_name token clock)
    or_fail (get claims "u") no_u_field
