-- ===== src/Tests/Cnc.antt =====
-- Runs of the control API.
use grpc_datacon.Common.{inr, ℕ, String, List, [], ◌∷◌, none, some, true, ok, ◌≡◌, refl, string_eq}
use grpc_datacon.Common.Assoc.{get}
use grpc_datacon.Common.Text.{canonical_header_key}
use grpc_datacon.JwtUtil.{
  make_service_jwt, sign_claims, jwt_endpoint_type_key, jwt_endpoint_name_key, jwt_agent_key,
  claim_opsmx_agent_name,
}
use grpc_datacon.JwtAuth.{Metadata}
use grpc_datacon.HttpWriter.{header_get, header_del}
use grpc_datacon.Ca.{
  CertificateName, Certificate, Json, generate_certificate, get_certificate_name_from_cert,
  purpose_control,
}
use grpc_datacon.Endpoint.{Codec}
use grpc_datacon.Service.Tokens.{IsShown}
use grpc_datacon.Common.Text.{cut}
use grpc_datacon.Service.{IncomingRequest, extract_endpoint}
use grpc_datacon.Fwdapi.{
  KubeConfigRequest, KubeConfigResponse, ManifestRequest, ManifestResponse,
  ServiceCredentialRequest, ServiceCredentialResponse, basic, ControlCredentialsRequest,
  ControlCredentialsResponse, name_present, type_valid, all_type_chars, validate_service_credential,
  validate_kube_config, validate_control_credentials,
}
use grpc_datacon.CncServer.{
  CncConfig, Authority, CncRequest, Reply, replied, authenticate, sign_certificate,
  generate_kubectl_components, generate_control_credentials, generate_service_credentials,
}
use grpc_datacon.CncServer.Access.{
  IsControl, IsShutOut, control_name, authenticate-replied,
  authenticate-generate_control_credentials,
}
use grpc_datacon.CncServer.Issued.{
  kubernetes_name, extract_endpoint-generate_service_credentials,
  extract_endpoint-generate_kubectl_components,
}
use grpc_datacon.Tests.Registry.{vault, vault-SignsTruly, registered_vault, vault_sign, same_claims}
use grpc_datacon.Tests.Tokens.{user_vault}

abbrev plain : Codec
plain = record { encode64 = λ s. s; decode64 = λ s. some s }

-- JSON that knows one name.
abbrev pub json_of : CertificateName → Json
json_of name = record { marshal = λ n. "name"; unmarshal = λ s. some name }

abbrev pub authority : CertificateName → Authority
authority name = record { json = json_of name; signs = λ c. true; has_ca_cert = true }

abbrev pub cfg : CncConfig
cfg = record {
  agent_hostname = "agent.local";
  agent_advertise_port = 9001;
  service_url = "https://service.local";
  control_url = "https://control.local";
  is_release = true;
  git_branch = "main";
}

abbrev pub controller_name : CertificateName
controller_name = record { name = "root"; type = ""; agent = ""; purpose = purpose_control }

unfoldable pub admin : CncRequest
unfolding generate_certificate
admin = record {
  method = "GET";
  peer_certificates = generate_certificate (json_of controller_name) controller_name ∷ [];
}

abbrev page : Reply ℕ
page = replied 7

let_in : authenticate (json_of controller_name) "GET" admin page ≡ page
unfolding authenticate admin get_certificate_name_from_cert generate_certificate
let_in = refl

authenticate-replied_example :
    (admin.method ≡ "GET")
    × IsControl (json_of controller_name) admin.peer_certificates
    × (page ≡ replied 7)
unfolding admin
authenticate-replied_example =
    authenticate-replied (json_of controller_name) "GET" admin page 7 let_in

abbrev control_request : ControlCredentialsRequest
control_request = record { name = "alice" }

abbrev control_response : ControlCredentialsResponse Certificate
unfolding generate_certificate
control_response = record {
  name = "alice";
  url = "https://control.local";
  certificate =
      generate_certificate (json_of (control_name control_request)) (control_name control_request);
}

controlled :
    generate_control_credentials cfg
      (authority (control_name control_request))
      (some control_request)
    ≡ ok control_response
unfolding generate_control_credentials sign_certificate validate_control_credentials name_present
    control_response
controlled = refl

authenticate-generate_control_credentials_example :
    IsShutOut cfg (authority (control_name control_request)) "GET" page control_response.certificate
authenticate-generate_control_credentials_example =
    authenticate-generate_control_credentials cfg (authority (control_name control_request)) "GET"
      page control_request control_response controlled refl

abbrev service_request : ServiceCredentialRequest
service_request = record {
  agent_name = "smith";
  type = "";
  name = "ci";
  old_type = "jenkins";
  old_name = "";
}

abbrev service_response : ServiceCredentialResponse
service_response = record {
  agent_name = "smith";
  name = "ci";
  type = "jenkins";
  credential = basic "ci.smith" "t0";
  url = "https://service.local";
}

abbrev service_claims : List (String × String)
service_claims =
    (jwt_endpoint_type_key, "jenkins")
    ∷ (jwt_endpoint_name_key, "ci")
    ∷ (jwt_agent_key, "smith")
    ∷ []

served :
    generate_service_credentials vault
      (registered_vault service_claims)
      none
      cfg
      (authority controller_name)
      (some service_request)
    ≡ ok service_response
unfolding generate_service_credentials validate_service_credential name_present type_valid
    all_type_chars make_service_jwt sign_claims vault_sign same_claims
served = refl

abbrev incoming : IncomingRequest
incoming = record {
  peer_certificates = [];
  header = ("Authorization", "Basic ci.smith:t0" ∷ []) ∷ [];
  method = "GET";
  request_uri = "/x";
  body = some [];
}

shown : IsShown plain incoming.header "t0"
unfolding header_get canonical_header_key get cut
shown = inr (record {
  user = "ci.smith";
  encoded = "ci.smith:t0";
  text = "ci.smith:t0";
  no_own = refl;
  scheme = refl;
  decoded = refl;
  pair = refl;
})

extract_endpoint-generate_service_credentials_example :
    extract_endpoint vault
      (registered_vault service_claims)
      (json_of controller_name)
      plain
      incoming
    ≡ (
      some (record { agent_id = "smith"; service_name = "ci"; service_type = "jenkins" }),
      record incoming { header = header_del incoming.header "X-Opsmx-Token" },
    )
extract_endpoint-generate_service_credentials_example =
    extract_endpoint-generate_service_credentials vault vault-SignsTruly
      (registered_vault service_claims) none cfg (authority controller_name)
      (json_of controller_name) plain service_request service_response incoming served tt refl shown

abbrev manifest_request : ManifestRequest
manifest_request = record { agent_name = "smith" }

abbrev manifest_response : ManifestResponse
manifest_response = record {
  agent_name = "smith";
  server_hostname = "agent.local";
  server_port = 9001;
  agent_version = "main";
  agent_token = "t0";
}

abbrev agent_claims : List (String × String)
agent_claims = (claim_opsmx_agent_name, "smith") ∷ []

abbrev metadata : Metadata
metadata = ("authorization", "t0" ∷ []) ∷ []

abbrev kube_request : KubeConfigRequest
kube_request = record { agent_name = "smith"; name = "prod" }

abbrev kube_authority : Authority
kube_authority = authority (kubernetes_name "prod" "smith")

abbrev kube_response : KubeConfigResponse Certificate
unfolding generate_certificate
kube_response = record {
  agent_name = "smith";
  name = "prod";
  server_url = "https://service.local";
  user_certificate = generate_certificate kube_authority.json (kubernetes_name "prod" "smith");
}

kubed : generate_kubectl_components cfg kube_authority (some kube_request) ≡ ok kube_response
unfolding generate_kubectl_components sign_certificate validate_kube_config name_present
    kube_response
kubed = refl

abbrev kubectl : IncomingRequest
kubectl = record incoming { peer_certificates = kube_response.user_certificate ∷ [] }

extract_endpoint-generate_kubectl_components_example :
    extract_endpoint vault user_vault kube_authority.json plain kubectl ≡ (
      some (record { agent_id = "smith"; service_name = "prod"; service_type = "kubernetes" }),
      kubectl,
    )
unfolding kube_response
extract_endpoint-generate_kubectl_components_example =
    extract_endpoint-generate_kubectl_components cfg kube_authority vault user_vault plain
      kube_request kube_response kubectl kubed refl refl
