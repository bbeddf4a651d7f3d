-- ===== src/JwtUtil/Claims.antt =====
-- What the validators of internal/jwtutil/jwt.go accept.
use grpc_datacon.Common.{String, none, some, ◌≡◌, ◌↔◌, arith, string_eq}
use grpc_datacon.Common.Assoc.{Assoc, get}
use grpc_datacon.JwtUtil.{
  ServiceClaims, read_service_claims, jwt_endpoint_type_key, jwt_endpoint_name_key, jwt_agent_key,
}

-- The token is valid and its claims hold the three keys, with these values.
abbrev pub Names : Assoc String String → ServiceClaims → Type 0
Names claims c =
    (get claims jwt_endpoint_type_key ≡ some c.ep_type)
    × (get claims jwt_endpoint_name_key ≡ some c.ep_name)
    × (get claims jwt_agent_key ≡ some c.agent)

-- The claims of a service token are accepted exactly if they hold a type, a name and an agent, and
-- then these are what is returned: the error of an earlier missing key is never lost.
pub read_service_claims_iff :
    (claims : Assoc String String) (c : ServiceClaims)
    → (read_service_claims claims ≡ (c, none)) ↔ Names claims c
unfolding read_service_claims
read_service_claims_iff claims c = (λ h. ground arith, λ h. ground arith)
