-- ===== src/Tests/Tokens.antt =====
-- Runs of the token functions and of the headers of the tunnel, at the registry of one token.
use grpc_datacon.Common.{String, List, [], ◌∷◌, none, false, ok, ◌≡◌, refl}
use grpc_datacon.Common.Assoc.{Assoc}
use grpc_datacon.Common.Text.{equal_fold}
use grpc_datacon.Tunnel.{HttpHeader}
use grpc_datacon.JwtUtil.{
  JwtState, ServiceClaims, make_service_jwt, make_agent_jwt, mutate_header, sign_claims,
  mutation_is_registered, jwt_endpoint_type_key, jwt_endpoint_name_key, jwt_agent_key,
  claim_opsmx_agent_name,
}
use grpc_datacon.Headers.{http_headers_to_pb}
use grpc_datacon.Headers.Stripped.{IsFiltered, http_headers_to_pb-IsFiltered}
use grpc_datacon.Tests.Registry.{vault, registered_vault, same_claims, vault_sign}

abbrev service_claims : Assoc String String
service_claims =
    (jwt_endpoint_type_key, "jenkins")
    ∷ (jwt_endpoint_name_key, "ci")
    ∷ (jwt_agent_key, "smith")
    ∷ []

abbrev expected : ServiceClaims
expected = record { ep_type = "jenkins"; ep_name = "ci"; agent = "smith" }

service_token :
    make_service_jwt vault (registered_vault service_claims) "jenkins" "ci" "smith" none ≡ ok "t0"
unfolding make_service_jwt sign_claims vault_sign same_claims
service_token = refl

abbrev pub agent_claims : Assoc String String
agent_claims = (claim_opsmx_agent_name, "smith") ∷ []

pub agent_token : make_agent_jwt vault (registered_vault agent_claims) "smith" none ≡ ok "t0"
unfolding make_agent_jwt sign_claims vault_sign same_claims
agent_token = refl

abbrev pub user_vault : JwtState vault
user_vault = registered_vault (("u", "alice") ∷ [])

pub user_token : mutate_header vault user_vault "alice" none ≡ ok "t0"
unfolding mutate_header vault_sign same_claims
user_token = refl

abbrev wire : List HttpHeader
wire = (record { name = "X-Spinnaker-User"; values = "t0" ∷ [] }) ∷ []

-- An agent's state of the package.
abbrev agent_vault : JwtState vault
agent_vault = record user_vault { mutation_registered = false }

abbrev incoming : List (String × List String)
incoming = ("AUTHORIZATION", "Bearer x" ∷ []) ∷ ("Accept", "a" ∷ []) ∷ []

abbrev kept : List HttpHeader
kept = (record { name = "Accept"; values = "a" ∷ [] }) ∷ []

kept_lem : http_headers_to_pb vault user_vault incoming ≡ ok kept
unfolding http_headers_to_pb mutation_is_registered equal_fold
kept_lem = refl

http_headers_to_pb-IsFiltered_example : IsFiltered vault user_vault incoming kept
http_headers_to_pb-IsFiltered_example =
    http_headers_to_pb-IsFiltered vault user_vault incoming kept_lem
