-- ===== src/Tests/Service.antt =====
-- Runs of the HTTPS service and of the interceptor.
use grpc_datacon.Common.{String, [], ◌∷◌, none, some, ok, ◌≡◌, refl, string_eq}
use grpc_datacon.Common.Assoc.{get}
use grpc_datacon.JwtUtil.{validate_agent_jwt, claim_opsmx_agent_name}
use grpc_datacon.JwtAuth.{Context, Metadata, intercept, identity_from_context, authorize}
use grpc_datacon.JwtAuth.Gate.{IsIdentified, intercept-ok}
use grpc_datacon.Ca.{Json}
use grpc_datacon.Endpoint.{Codec}
use grpc_datacon.Sessions.{SessionSearch}
use grpc_datacon.Service.{IncomingRequest, secure_api_handler}
use grpc_datacon.Service.Routing.{IsSecured, secure_api_handler-IsSecured}
use grpc_datacon.Tests.Registry.{vault, registered_vault, vault_validate}
use grpc_datacon.Tests.Tokens.{user_vault}
use grpc_datacon.Tests.Fixtures.{sessions}
use grpc_datacon.Tests.Sessions.{sessions-IsValid}

abbrev plain : Codec
plain = record { encode64 = λ s. s; decode64 = λ s. some s }

abbrev json : Json
json = record { marshal = λ n. n.name; unmarshal = λ s. none }

abbrev target : SessionSearch
target = record { agent_id = "smith"; service_name = "ci"; service_type = "jenkins" }

abbrev request : IncomingRequest
request = record {
  peer_certificates = [];
  header = ("Accept", "a" ∷ []) ∷ [];
  method = "GET";
  request_uri = "/x";
  body = some [];
}

secure_api_handler-IsSecured_example :
    IsSecured vault user_vault json plain sessions "e1" request
      (secure_api_handler vault user_vault json plain sessions "e1" request)
secure_api_handler-IsSecured_example =
    secure_api_handler-IsSecured vault user_vault json plain sessions "e1" request sessions-IsValid

abbrev metadata : Metadata
metadata = ("authorization", "t0" ∷ []) ∷ ("x-session-id", "s1" ∷ []) ∷ []

abbrev nobody : Context
nobody = record { session_id = none; agent_id = none }

passes :
    intercept vault
      (registered_vault ((claim_opsmx_agent_name, "smith") ∷ []))
      (some metadata)
      nobody
      (λ ctx. ctx)
    ≡ ok (record { session_id = some "s1"; agent_id = some "smith" })
unfolding intercept authorize validate_agent_jwt vault_validate get
passes = refl

intercept-ok_example :
    (agent : String) × (session : String) × (ctx' : Context) × IsIdentified vault
      (registered_vault ((claim_opsmx_agent_name, "smith") ∷ []))
      (some metadata)
      agent
      session
    × (identity_from_context ctx' ≡ (agent, session))
    × ((record { session_id = some "s1"; agent_id = some "smith" }) ≡ ctx')
intercept-ok_example =
    intercept-ok vault (registered_vault ((claim_opsmx_agent_name, "smith") ∷ [])) (some metadata)
      nobody (λ ctx. ctx) (record { session_id = some "s1"; agent_id = some "smith" }) passes
