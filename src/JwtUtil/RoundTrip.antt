-- ===== src/JwtUtil/RoundTrip.antt =====
-- What was signed by internal/jwtutil is read back by it, as far as the registry keeps its word.
use grpc_datacon.Common.{
  String, [], ◌∷◌, Option, none, some, ok, ◌≡◌, refl, string_eq, map_err-eq-ok,
}
use grpc_datacon.Common.Assoc.{Assoc, get}
use grpc_datacon.JwtUtil.{
  JwtRegistry, JwtState, registry_error, make_service_jwt, validate_service_jwt, make_agent_jwt,
  validate_agent_jwt, mutate_header, unmutate_header, serviceauth_registry_name,
  agent_registry_name, mutate_registry_name, jwt_endpoint_type_key, jwt_endpoint_name_key,
  jwt_agent_key, claim_opsmx_agent_name,
}
use grpc_datacon.JwtUtil.Claims.{read_service_claims_iff}

-- What the documentation of the registry says: a token that `sign` made, read while it is fresh, is
-- valid, and its claims hold at least those that were signed.
pub record SignsTruly (r : JwtRegistry)
    (IsFresh : r.State → String → Option r.Clock → Option r.Clock → Type 0) : Type 0 where
  pub validate-sign :
      (s : r.State) (name : String) (claims : Assoc String String) (signed read : Option r.Clock)
      (token : String)
      → r.sign s name claims signed ≡ ok token
      → IsFresh s name signed read
      → (found : Assoc String String) × (r.validate s name token read ≡ ok found)
        × ((k v : String) → get claims k ≡ some v → get found k ≡ some v)

module _ (r : JwtRegistry) {IsFresh : r.State → String → Option r.Clock → Option r.Clock → Type 0}
    (law : SignsTruly r IsFresh) (s : JwtState r) (signed read : Option r.Clock)
    (token : String) where
  -- A service token names the type, the name and the agent that it was made for.
  pub validate-make_service_jwt :
      (ep_type ep_name agent : String)
      → make_service_jwt r s ep_type ep_name agent signed ≡ ok token
      → IsFresh s.registry serviceauth_registry_name signed read
      → validate_service_jwt r s token read
        ≡ (record { ep_type = ep_type; ep_name = ep_name; agent = agent }, none)
  unfolding make_service_jwt validate_service_jwt get
  validate-make_service_jwt ep_type ep_name agent made fresh =
      let (found, valid, has) =
        law.validate-sign s.registry serviceauth_registry_name
          ((jwt_endpoint_type_key, ep_type)
            ∷ (jwt_endpoint_name_key, ep_name)
            ∷ (jwt_agent_key, agent)
            ∷ [])
          signed read token (map_err-eq-ok registry_error _ made) fresh in
      rw (valid, validate_service_jwt)
        ((read_service_claims_iff found _).1 (
          has jwt_endpoint_type_key ep_type refl,
          has jwt_endpoint_name_key ep_name refl,
          has jwt_agent_key agent refl,
        ))

  -- An agent token names its agent.
  pub validate-make_agent_jwt :
      (agent : String)
      → make_agent_jwt r s agent signed ≡ ok token
      → IsFresh s.registry agent_registry_name signed read
      → validate_agent_jwt r s token read ≡ ok agent
  unfolding make_agent_jwt validate_agent_jwt get
  validate-make_agent_jwt agent made fresh =
      let (found, valid, has) =
        law.validate-sign s.registry agent_registry_name ((claim_opsmx_agent_name, agent) ∷ [])
          signed read token (map_err-eq-ok registry_error _ made) fresh in
      rw (valid, validate_agent_jwt) (rw (has claim_opsmx_agent_name agent refl))

  -- A mutated header reads back as what it was.
  pub unmutate-mutate_header :
      (text : String)
      → mutate_header r s text signed ≡ ok token
      → IsFresh s.registry mutate_registry_name signed read
      → unmutate_header r s token read ≡ ok text
  unfolding mutate_header unmutate_header get
  unmutate-mutate_header text made fresh =
      let (found, valid, has) =
        law.validate-sign s.registry mutate_registry_name (("u", text) ∷ []) signed read token
          (map_err-eq-ok registry_error _ made) fresh in
      rw (valid, unmutate_header) (rw (has "u" text refl))
