-- ===== src/CncServer.antt =====
-- app/server/cncserver/cnc-server.go: the control API, which hands out credentials. The body of a
-- request is the outcome of decoding its JSON; a reply is what is encoded. A certificate stands with
-- its key and the authority's certificate.
pub mod Access
pub mod Issued
use Prim.Native.String
use grpc_datacon.Common.{
  ℕ, String, List, [], ◌∷◌, Option, none, some, Bool, true, false, not, Result, ok, err, ◌>>=◌,
  ◌>>◌, ensure, or_fail, map_err, ◌==◌, string_eq, if◌then◌else◌,
}
use grpc_datacon.JwtUtil.{JwtRegistry, JwtState, JwtError, make_agent_jwt, make_service_jwt}
use grpc_datacon.Ca.{
  CertificateName, Certificate, Json, NameError, generate_certificate,
  get_certificate_name_from_cert, purpose_control, purpose_agent, purpose_service,
}
use grpc_datacon.Fwdapi.{
  KubeConfigRequest, KubeConfigResponse, ManifestRequest, ManifestResponse,
  ServiceCredentialRequest, ServiceCredentialResponse, Credential, aws, basic,
  ControlCredentialsRequest, ControlCredentialsResponse, StatisticsResponse, validate_kube_config,
  validate_manifest, validate_service_credential, validate_control_credentials, kubeconfig_endpoint,
  manifest_endpoint, service_endpoint, control_endpoint, statistics_endpoint,
}

-- `cncConfig`, and what the build sets: whether it is a release, and its branch.
pub record CncConfig : Type 0 where
  pub agent_hostname : String
  pub agent_advertise_port : ℕ
  pub service_url : String
  pub control_url : String
  pub is_release : Bool
  pub git_branch : String

-- `cncCertificateAuthority`: whether a certificate can be signed, and the authority's own one read.
pub record Authority : Type 0 where
  pub json : Json
  pub signs : Certificate → Bool
  pub has_ca_cert : Bool

-- The request, up to its body.
pub record CncRequest : Type 0 where
  pub method : String
  pub peer_certificates : List Certificate

-- What a handler does: `failed` is `util.FailRequest` with its status, `crashed` the panic of an index
-- that is out of range.
pub data Reply (B : Type 0) : Type 0 where
  failed : ℕ → Reply B
  replied : B → Reply B
  crashed : Reply B

abbrev pub reply_of : {B : Type 0} → Result ℕ B → Reply B
reply_of (ok b) = replied b
reply_of (err code) = failed code

abbrev pub check_purpose : {B : Type 0} → Result NameError CertificateName → Reply B → Reply B
check_purpose (err e) handled = failed 403
check_purpose (ok names) handled = if names.purpose == purpose_control then handled else failed 403

abbrev pub check_first : {B : Type 0} → Json → List Certificate → Reply B → Reply B
unfolding get_certificate_name_from_cert
check_first json [] handled = crashed
check_first json (cert ∷ more) handled =
    check_purpose (get_certificate_name_from_cert json cert) handled

-- `handled` is what the handler would do.
unfoldable pub authenticate : {B : Type 0} → Json → String → CncRequest → Reply B → Reply B
unfolding get_certificate_name_from_cert
authenticate json method r handled =
    if r.method == method then check_first json r.peer_certificates handled else failed 405

abbrev bad_request : {E : Type 0} → E → ℕ
bad_request e = 400

abbrev internal_error : {E : Type 0} → E → ℕ
internal_error e = 500

unfoldable pub sign_certificate : Authority → CertificateName → Result ℕ Certificate
unfolding generate_certificate
sign_certificate ca name =
    let cert = generate_certificate ca.json name in if ca.signs cert then ok cert else err 400

unfoldable pub generate_kubectl_components :
    CncConfig → Authority → Option KubeConfigRequest → Result ℕ (KubeConfigResponse Certificate)
unfolding sign_certificate validate_kube_config
generate_kubectl_components cfg ca body = do
  req ← or_fail body 400
  map_err bad_request (validate_kube_config req)
  cert ← sign_certificate ca (record {
    name = req.name;
    type = "kubernetes";
    agent = req.agent_name;
    purpose = purpose_service;
  })
  ok (record {
    agent_name = req.agent_name;
    name = req.name;
    server_url = cfg.service_url;
    user_certificate = cert;
  })

unfoldable pub generate_control_credentials :
    CncConfig
    → Authority
    → Option ControlCredentialsRequest
    → Result ℕ (ControlCredentialsResponse Certificate)
unfolding sign_certificate validate_control_credentials
generate_control_credentials cfg ca body = do
  req ← or_fail body 400
  map_err bad_request (validate_control_credentials req)
  cert ←
      sign_certificate ca
        (record { name = req.name; type = ""; agent = ""; purpose = purpose_agent })
  ok (record { name = req.name; url = cfg.control_url; certificate = cert })

-- `len(req.Type) == 0`: the deprecated field stands in.
abbrev pub or_old : String → String → String
or_old new old = if new == "" then old else new

abbrev pub with_old_fields : ServiceCredentialRequest → ServiceCredentialRequest
with_old_fields req = record req {
  type = or_old req.type req.old_type;
  name = or_old req.name req.old_name;
}

abbrev credential_of : String → String → String → Credential
credential_of type username token =
    if type == "aws" then aws username token else basic username token

unfoldable pub get_statistics : {S : Type 0} → ℕ → String → S → StatisticsResponse S
get_statistics now version agents = record {
  server_time = now;
  version = version;
  connected_agents = agents;
}

module _ (jwt : JwtRegistry) (s : JwtState jwt) (clock : Option jwt.Clock) (cfg : CncConfig)
    (ca : Authority) where
  unfoldable pub generate_agent_manifest_components :
      Option ManifestRequest → Result ℕ ManifestResponse
  unfolding make_agent_jwt validate_manifest
  generate_agent_manifest_components body = do
    req ← or_fail body 400
    map_err bad_request (validate_manifest req)
    ensure ca.has_ca_cert 400
    token ← map_err internal_error (make_agent_jwt jwt s req.agent_name clock)
    ok (record {
      agent_name = req.agent_name;
      server_hostname = cfg.agent_hostname;
      server_port = cfg.agent_advertise_port;
      agent_version = if cfg.is_release then cfg.git_branch else "latest";
      agent_token = token;
    })

  unfoldable pub issue_service : ServiceCredentialRequest → Result ℕ ServiceCredentialResponse
  unfolding make_service_jwt validate_service_credential
  issue_service req = do
    map_err bad_request (validate_service_credential req)
    token ← map_err bad_request (make_service_jwt jwt s req.type req.name req.agent_name clock)
    ensure ca.has_ca_cert 400
    let username = String.◌++◌ req.name (String.◌++◌ "." req.agent_name)
    ok (record {
      agent_name = req.agent_name;
      name = req.name;
      type = req.type;
      credential = credential_of req.type username token;
      url = cfg.service_url;
    })

  unfoldable pub generate_service_credentials :
      Option ServiceCredentialRequest → Result ℕ ServiceCredentialResponse
  unfolding make_service_jwt validate_service_credential issue_service
  generate_service_credentials body = do req ← or_fail body 400; issue_service (with_old_fields req)

-- The five routes, each with the body that it reads and the agents' statistics.
pub data CncCall (S : Type 0) : Type 0 where
  kubeconfig : Option KubeConfigRequest → CncCall S
  manifest : Option ManifestRequest → CncCall S
  service : Option ServiceCredentialRequest → CncCall S
  control : Option ControlCredentialsRequest → CncCall S
  statistics : ℕ → String → S → CncCall S

-- The path that `routes` gives the handler.
unfoldable pub endpoint_of : {S : Type 0} → CncCall S → String
endpoint_of (kubeconfig body) = kubeconfig_endpoint
endpoint_of (manifest body) = manifest_endpoint
endpoint_of (service body) = service_endpoint
endpoint_of (control body) = control_endpoint
endpoint_of (statistics now version agents) = statistics_endpoint

pub data CncReply (S : Type 0) : Type 0 where
  kubeconfig_reply : Reply (KubeConfigResponse Certificate) → CncReply S
  manifest_reply : Reply ManifestResponse → CncReply S
  service_reply : Reply ServiceCredentialResponse → CncReply S
  control_reply : Reply (ControlCredentialsResponse Certificate) → CncReply S
  statistics_reply : Reply (StatisticsResponse S) → CncReply S

-- `routes`: which call a method and a handler stand for.
unfoldable pub routes :
    (jwt : JwtRegistry)
    → JwtState jwt
    → Option jwt.Clock
    → CncConfig
    → Authority
    → {S : Type 0} → CncRequest
    → CncCall S
    → CncReply S
unfolding authenticate generate_kubectl_components generate_agent_manifest_components
    generate_service_credentials generate_control_credentials get_statistics
routes jwt s clock cfg ca r (kubeconfig body) =
    kubeconfig_reply
      (authenticate ca.json "POST" r (reply_of (generate_kubectl_components cfg ca body)))
routes jwt s clock cfg ca r (manifest body) = manifest_reply (
    authenticate ca.json "POST" r
      (reply_of (generate_agent_manifest_components jwt s clock cfg ca body)))
routes jwt s clock cfg ca r (service body) = service_reply (
    authenticate ca.json "POST" r (reply_of (generate_service_credentials jwt s clock cfg ca body)))
routes jwt s clock cfg ca r (control body) =
    control_reply
      (authenticate ca.json "POST" r (reply_of (generate_control_credentials cfg ca body)))
routes jwt s clock cfg ca r (statistics now version agents) =
    statistics_reply (authenticate ca.json "GET" r (replied (get_statistics now version agents)))
