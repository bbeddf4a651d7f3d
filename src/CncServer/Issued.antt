-- ===== src/CncServer/Issued.antt =====
-- What the credentials that the control API hands out are good for: the service port and the agents'
-- RPCs of the controller accept them for what the request asked.
use grpc_datacon.Common.{
  String, [], ◌∷◌, Option, none, some, Result, ok, ◌≡◌, sym, ap, ◌∙◌, map_err, map_err-eq-ok,
  ensure, OnOk, OnOk-bind, OnOk-ok, string_eq, ◌==◌, Bool-cases, inl, inr,
}
use grpc_datacon.JwtUtil.{
  JwtRegistry, JwtState, JwtError, make_agent_jwt, make_service_jwt, serviceauth_registry_name,
}
use grpc_datacon.JwtUtil.RoundTrip.{SignsTruly}
use grpc_datacon.HttpWriter.{header_del}
use grpc_datacon.Ca.{CertificateName, Certificate, Json, generate_certificate, purpose_service}
use grpc_datacon.Endpoint.{Codec}
use grpc_datacon.Service.{IncomingRequest, extract_endpoint}
use grpc_datacon.Service.Tokens.{
  IsShown, extract_endpoint-make_service_jwt, extract_endpoint-generate_certificate,
}
use grpc_datacon.Fwdapi.{
  KubeConfigRequest, KubeConfigResponse, ManifestResponse, ServiceCredentialRequest,
  ServiceCredentialResponse, Credential, aws, basic, validate_kube_config,
  validate_service_credential,
}
use grpc_datacon.CncServer.{
  CncConfig, Authority, sign_certificate, generate_kubectl_components, generate_service_credentials,
  with_old_fields, issue_service, credential_of,
}
use grpc_datacon.CncServer.Access.{sign_certificate-eq-ok}

-- The token in a credential.
abbrev pub secret_of : Credential → String
secret_of (aws user token) = token
secret_of (basic user token) = token

secret_of-credential_of :
    (type user token : String) → secret_of (credential_of type user token) ≡ token
secret_of-credential_of type user token = elim (Bool-cases (type == "aws")) [
  | inl e ↦ rw e
  | inr e ↦ rw e
]

module _ (jwt : JwtRegistry)
    {IsFresh : jwt.State → String → Option jwt.Clock → Option jwt.Clock → Type 0}
    (law : SignsTruly jwt IsFresh) (s : JwtState jwt) (clock : Option jwt.Clock) (cfg : CncConfig)
    (ca : Authority) where
  -- The token of a response was made for what the response says.
  abbrev pub IsTokenOf : ServiceCredentialResponse → Type 0
  IsTokenOf resp =
      make_service_jwt jwt s resp.type resp.name resp.agent_name clock
      ≡ ok (secret_of resp.credential)

  generate_service_credentials-OnOk :
      (req : ServiceCredentialRequest)
      → OnOk IsTokenOf (generate_service_credentials jwt s clock cfg ca (some req))
  unfolding generate_service_credentials issue_service
  generate_service_credentials-OnOk req =
      OnOk-bind IsTokenOf (map_err (λ e. 400) (validate_service_credential new)) _ (λ t v.
        OnOk-bind IsTokenOf (map_err (λ e. 400) made) _ (λ token m.
          OnOk-bind IsTokenOf (ensure ca.has_ca_cert 400) _
            (λ u c. rw (secret_of-credential_of new.type _ token) (map_err-eq-ok _ made m))))
    where
      new : ServiceCredentialRequest
      new = with_old_fields req

      made : Result JwtError String
      made = make_service_jwt jwt s new.type new.name new.agent_name clock

  -- The password of issued service credentials, shown to the service port by a client without a
  -- certificate, leads to the agent, the type and the name that the response states. It is shown as
  -- the password of Basic authorization, with no X-Opsmx-Token beside it, or in X-Opsmx-Token, where
  -- it must not be empty. The registry keeps its word, and the token is fresh.
  pub extract_endpoint-generate_service_credentials :
      (json : Json) (codec : Codec) (req : ServiceCredentialRequest)
      (resp : ServiceCredentialResponse) (r : IncomingRequest)
      → generate_service_credentials jwt s clock cfg ca (some req) ≡ ok resp
      → IsFresh s.registry serviceauth_registry_name clock none
      → r.peer_certificates ≡ []
      → IsShown codec r.header (secret_of resp.credential)
      → extract_endpoint jwt s json codec r ≡ (
        some (record {
          agent_id = resp.agent_name;
          service_name = resp.name;
          service_type = resp.type;
        }),
        record r { header = header_del r.header "X-Opsmx-Token" },
      )
  extract_endpoint-generate_service_credentials json codec req resp r issued fresh bare shown =
      extract_endpoint-make_service_jwt jwt law s json codec r resp.type resp.name resp.agent_name
        (secret_of resp.credential) clock
        (OnOk-ok IsTokenOf (generate_service_credentials jwt s clock cfg ca (some req))
          (generate_service_credentials-OnOk req) issued)
        fresh bare shown

  abbrev pub IsAgentTokenOf : ManifestResponse → Type 0
  IsAgentTokenOf resp = make_agent_jwt jwt s resp.agent_name clock ≡ ok resp.agent_token

-- The name in the certificate for kubectl.
abbrev pub kubernetes_name : String → String → CertificateName
kubernetes_name name agent = record {
  name = name;
  type = "kubernetes";
  agent = agent;
  purpose = purpose_service;
}

module _ (cfg : CncConfig) (ca : Authority) where
  abbrev pub IsCertificateOf : KubeConfigResponse Certificate → Type 0
  IsCertificateOf resp =
      generate_certificate ca.json (kubernetes_name resp.name resp.agent_name)
      ≡ resp.user_certificate

  generate_kubectl_components-OnOk :
      (req : KubeConfigRequest)
      → OnOk IsCertificateOf (generate_kubectl_components cfg ca (some req))
  unfolding generate_kubectl_components
  generate_kubectl_components-OnOk req =
      OnOk-bind IsCertificateOf (map_err (λ e. 400) (validate_kube_config req)) _ (λ t v.
        OnOk-bind IsCertificateOf (sign_certificate ca (kubernetes_name req.name req.agent_name)) _
          (λ cert signed.
            sign_certificate-eq-ok ca (kubernetes_name req.name req.agent_name) cert signed))

  -- A certificate that is issued for kubectl leads to a service of the type "kubernetes" with the
  -- name and the agent that the response states, if this name survives JSON.
  pub extract_endpoint-generate_kubectl_components :
      (jwt : JwtRegistry) (s : JwtState jwt) (codec : Codec) (req : KubeConfigRequest)
      (resp : KubeConfigResponse Certificate) (r : IncomingRequest)
      → generate_kubectl_components cfg ca (some req) ≡ ok resp
      → ca.json.unmarshal (ca.json.marshal (kubernetes_name resp.name resp.agent_name))
        ≡ some (kubernetes_name resp.name resp.agent_name)
      → r.peer_certificates ≡ resp.user_certificate ∷ []
      → extract_endpoint jwt s ca.json codec r ≡ (
        some (record {
          agent_id = resp.agent_name;
          service_name = resp.name;
          service_type = "kubernetes";
        }),
        r,
      )
  extract_endpoint-generate_kubectl_components jwt s codec req resp r issued law shown =
      let is_made =
        OnOk-ok IsCertificateOf (generate_kubectl_components cfg ca (some req))
          (generate_kubectl_components-OnOk req) issued in
      extract_endpoint-generate_certificate jwt s ca.json codec r resp.name "kubernetes"
        resp.agent_name law (shown ∙ ap (λ c. c ∷ []) (sym is_made))
