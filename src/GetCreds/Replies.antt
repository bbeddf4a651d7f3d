-- ===== src/GetCreds/Replies.antt =====
-- The replies of the control API of app/server/cncserver/cnc-server.go to requests that pass its checks.
use grpc_datacon.Common.{
  ℕ, String, Option, some, true, Result, ok, ◌==◌, nat_eq, string_eq, ◌≡◌, refl, sym, subst, inl,
  inr, arith, Bool-cases, IsOk, IsOk-bind, map_err-ok, ensure-ok,
}
use grpc_datacon.Fwdapi.{
  KubeConfigRequest, ManifestRequest, ServiceCredentialRequest, ControlCredentialsRequest,
  validate_kube_config, validate_manifest, validate_service_credential,
  validate_control_credentials,
}
use grpc_datacon.JwtUtil.{JwtRegistry, JwtState, make_agent_jwt, make_service_jwt}
use grpc_datacon.Ca.{Certificate, CertificateName, generate_certificate}
use grpc_datacon.CncServer.{
  CncConfig, Authority, Reply, replied, reply_of, CncCall, CncReply, kubeconfig_reply,
  manifest_reply, service_reply, control_reply, statistics_reply, with_old_fields, or_old,
  issue_service, sign_certificate, generate_kubectl_components, generate_agent_manifest_components,
  generate_service_credentials, generate_control_credentials,
}
use grpc_datacon.CncServer.Issued.{kubernetes_name}
use grpc_datacon.CncServer.Access.{control_name}
use grpc_datacon.GetCreds.{Body, kubeconfig, manifest, service, control, no_body}

-- The call that a request makes at the controller, and the reply to it.
abbrev pub call_of : {S : Type 0} → ℕ → String → S → Body → CncCall S
call_of now version agents (kubeconfig q) = CncCall.kubeconfig (some q)
call_of now version agents (manifest q) = CncCall.manifest (some q)
call_of now version agents (service q) = CncCall.service (some q)
call_of now version agents (control q) = CncCall.control (some q)
call_of now version agents no_body = CncCall.statistics now version agents

abbrev pub IsReplied : {B : Type 0} → Reply B → Type 0
IsReplied {B} r = (b : B) × (r ≡ replied b)

abbrev pub IsAnswered : {S : Type 0} → CncReply S → Type 0
IsAnswered (kubeconfig_reply r) = IsReplied r
IsAnswered (manifest_reply r) = IsReplied r
IsAnswered (service_reply r) = IsReplied r
IsAnswered (control_reply r) = IsReplied r
IsAnswered (statistics_reply r) = IsReplied r

-- The controller signs certificates and tokens.
pub record CanIssue (jwt : JwtRegistry) (s : JwtState jwt) (clock : Option jwt.Clock)
    (ca : Authority) : Type 0 where
  pub signs : (cert : Certificate) → ca.signs cert ≡ true
  pub has_cert : ca.has_ca_cert ≡ true
  pub agent_token : (agent : String) → (t : String) × (make_agent_jwt jwt s agent clock ≡ ok t)
  pub service_token :
      (type name agent : String)
      → (t : String) × (make_service_jwt jwt s type name agent clock ≡ ok t)

IsOk-IsReplied : {B : Type 0} (r : Result ℕ B) → IsOk r → IsReplied (reply_of r)
IsOk-IsReplied r (b, e) = (b, rw e refl)

module _ (jwt : JwtRegistry) (s : JwtState jwt) (clock : Option jwt.Clock) (cfg : CncConfig)
    (ca : Authority) (issue : CanIssue jwt s clock ca) where
  signed_lem :
      (name : CertificateName) → sign_certificate ca name ≡ ok (generate_certificate ca.json name)
  unfolding sign_certificate
  signed_lem name = rw (issue.signs (generate_certificate ca.json name)) refl

  pub kubectl_lem :
      (q : KubeConfigRequest)
      → validate_kube_config q ≡ ok tt
      → IsReplied (reply_of (generate_kubectl_components cfg ca (some q)))
  unfolding generate_kubectl_components sign_certificate
  kubectl_lem q valid = IsOk-IsReplied _ (
      IsOk-bind _ _ tt (map_err-ok _ _ tt valid) (
        IsOk-bind (sign_certificate ca (kubernetes_name q.name q.agent_name))
          (λ cert. ok (record {
            agent_name = q.agent_name;
            name = q.name;
            server_url = cfg.service_url;
            user_certificate = cert;
          }))
          (generate_certificate ca.json (kubernetes_name q.name q.agent_name))
          (signed_lem (kubernetes_name q.name q.agent_name)) (_, refl)))

  pub manifest_lem :
      (q : ManifestRequest)
      → validate_manifest q ≡ ok tt
      → IsReplied (reply_of (generate_agent_manifest_components jwt s clock cfg ca (some q)))
  unfolding generate_agent_manifest_components
  manifest_lem q valid =
      let (t, made) = issue.agent_token q.agent_name in
      IsOk-IsReplied _ (
        IsOk-bind _ _ tt (map_err-ok _ _ tt valid) (
          IsOk-bind _ _ tt (ensure-ok ca.has_ca_cert 400 issue.has_cert)
            (IsOk-bind _ _ t (map_err-ok _ _ t made) (_, refl))))

  pub control_lem :
      (q : ControlCredentialsRequest)
      → validate_control_credentials q ≡ ok tt
      → IsReplied (reply_of (generate_control_credentials cfg ca (some q)))
  unfolding generate_control_credentials sign_certificate
  control_lem q valid = IsOk-IsReplied _ (
      IsOk-bind _ _ tt (map_err-ok _ _ tt valid) (
        IsOk-bind (sign_certificate ca (control_name q))
          (λ cert. ok (record { name = q.name; url = cfg.control_url; certificate = cert }))
          (generate_certificate ca.json (control_name q)) (signed_lem (control_name q)) (_, refl)))

  pub or_old_lem : (new : String) → or_old new "" ≡ new
  or_old_lem new = elim (Bool-cases (new == "")) [
    | inl e ↦ rw e (ground (arith, string_eq.beq_iff new ""))
    | inr e ↦ rw e refl
  ]

  issue_lem :
      (q : ServiceCredentialRequest)
      → validate_service_credential q ≡ ok tt
      → IsOk (issue_service jwt s clock cfg ca q)
  unfolding issue_service
  issue_lem q valid =
      let (t, made) = issue.service_token q.type q.name q.agent_name in
      IsOk-bind _ _ tt (map_err-ok _ _ tt valid) (
        IsOk-bind _ _ t (map_err-ok _ _ t made)
          (IsOk-bind _ _ tt (ensure-ok ca.has_ca_cert 400 issue.has_cert) (_, refl)))

  pub service_lem :
      (q : ServiceCredentialRequest)
      → with_old_fields q ≡ q
      → validate_service_credential q ≡ ok tt
      → IsReplied (reply_of (generate_service_credentials jwt s clock cfg ca (some q)))
  unfolding generate_service_credentials
  service_lem q same valid =
      IsOk-IsReplied _
        (subst (λ z. IsOk (issue_service jwt s clock cfg ca z)) (sym same) (issue_lem q valid))
