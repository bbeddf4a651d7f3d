-- ===== src/GetCreds/Served.antt =====
-- What app/get-creds/main.go sends is what the control API of app/server/cncserver/cnc-server.go takes.
use grpc_datacon.Common.{
  ℕ, String, List, Option, Bool, true, false, ◌==◌, nat_eq, string_eq, ◌≡◌, refl, ◌∙◌, arith,
}
use grpc_datacon.Fwdapi.{
  type_valid, name_present, validate_kube_config, validate_manifest, validate_service_credential,
  validate_control_credentials,
}
use grpc_datacon.JwtUtil.{JwtRegistry, JwtState}
use grpc_datacon.Ca.{Certificate}
use grpc_datacon.CncServer.{
  CncConfig, Authority, CncRequest, Reply, routes, endpoint_of, authenticate,
}
use grpc_datacon.CncServer.Access.{IsControl, authenticate-IsControl}
use grpc_datacon.GetCreds.{
  Flags, Sent, get_creds, get_kubeconfig_creds, get_agent_manifest, get_service, get_control,
  get_statistics,
}
use grpc_datacon.GetCreds.Sending.{
  OnSent, insist-OnSent, if-OnSent, exchange-OnSent, insists-OnSent,
}
use grpc_datacon.GetCreds.Replies.{
  call_of, IsReplied, IsAnswered, CanIssue, kubectl_lem, manifest_lem, control_lem, service_lem,
  or_old_lem,
}

module _ (jwt : JwtRegistry) (s : JwtState jwt) (clock : Option jwt.Clock) (cfg : CncConfig)
    (ca : Authority) (issue : CanIssue jwt s clock ca) {S : Type 0} (now : ℕ) (version : String)
    (agents : S) (certs : List Certificate) (control_certs : IsControl ca.json certs) where
  abbrev peer : Sent → CncRequest
  peer sent = record { method = sent.method; peer_certificates = certs }

  -- The path of the request is its handler's, and the handler replies.
  abbrev pub IsServed : Sent → Type 0
  IsServed sent =
      (endpoint_of (call_of now version agents sent.body) ≡ sent.endpoint)
      × IsAnswered (
          routes jwt s clock cfg ca (record { method = sent.method; peer_certificates = certs })
            (call_of now version agents sent.body))

  let_in :
      {B : Type 0} (method : String) (handled : Reply B)
      → IsReplied handled
      → IsReplied (
          authenticate ca.json method
            (record { method = method; peer_certificates = certs })
            handled)
  let_in method handled (b, e) =
      (b, authenticate-IsControl ca.json method _ handled refl control_certs ∙ e)

  present : (text : String) → (text == "") ≡ false → name_present text ≡ true
  unfolding name_present
  present text e = rw e refl

  kubectl-IsServed :
      (f : Flags)
      → (f.agent_identity == "") ≡ false
      → (f.endpoint_name == "") ≡ false
      → IsServed (get_kubeconfig_creds f)
  unfolding get_kubeconfig_creds routes endpoint_of validate_kube_config
  kubectl-IsServed f a n = (
    refl,
    let_in "POST" _ (
        kubectl_lem jwt s clock cfg ca issue
          (record { agent_name = f.agent_identity; name = f.endpoint_name })
          (rw (present f.agent_identity a) (rw (present f.endpoint_name n) refl))),
  )

  manifest-IsServed :
      (f : Flags) → (f.agent_identity == "") ≡ false → IsServed (get_agent_manifest f)
  unfolding get_agent_manifest routes endpoint_of validate_manifest
  manifest-IsServed f a = (
    refl,
    let_in "POST" _ (
        manifest_lem jwt s clock cfg ca issue (record { agent_name = f.agent_identity })
          (rw (present f.agent_identity a) refl)),
  )

  control-IsServed : (f : Flags) → (f.endpoint_name == "") ≡ false → IsServed (get_control f)
  unfolding get_control routes endpoint_of validate_control_credentials
  control-IsServed f n = (
    refl,
    let_in "POST" _ (
        control_lem jwt s clock cfg ca issue (record { name = f.endpoint_name })
          (rw (present f.endpoint_name n) refl)),
  )

  service-IsServed :
      (f : Flags)
      → (f.agent_identity == "") ≡ false
      → (f.endpoint_name == "") ≡ false
      → type_valid f.endpoint_type ≡ true
      → IsServed (get_service f)
  unfolding get_service routes endpoint_of validate_service_credential
  service-IsServed f a n t = (
    refl,
    let_in "POST" _ (
        service_lem jwt s clock cfg ca issue
          (record {
            agent_name = f.agent_identity;
            type = f.endpoint_type;
            name = f.endpoint_name;
            old_type = "";
            old_name = "";
          })
          (rw (or_old_lem jwt s clock cfg ca issue f.endpoint_type)
            (rw (or_old_lem jwt s clock cfg ca issue f.endpoint_name) refl))
          (rw (present f.agent_identity a) (rw (present f.endpoint_name n) (rw t refl)))),
  )

  statistics-IsServed : IsServed get_statistics
  unfolding get_statistics routes endpoint_of
  statistics-IsServed = (refl, let_in "GET" _ (_, refl))

  -- Whatever the flags of get-creds are, the request that it sends, if it sends one, goes to the
  -- path of the handler that its body is for, and this handler replies: get-creds lets no request
  -- through that the controller's checks refuse, but for the form of a service's type, which is
  -- assumed. The client's certificate is for control, and the controller can sign what it issues.
  pub get_creds-IsServed :
      (has_client : Bool) (answer : Sent → ℕ × String) (f : Flags)
      → (f.action ≡ "service" → type_valid f.endpoint_type ≡ true)
      → OnSent IsServed (get_creds has_client answer f)
  unfolding get_creds
  get_creds-IsServed has_client answer f typed =
      let options = insists-OnSent IsServed f.agent_identity f.endpoint_name f.endpoint_type in
      let sent = exchange-OnSent IsServed has_client answer in
      let branch = if-OnSent IsServed in
      branch (f.action == "kubectl") _ _
        (λ e. options true true false _ (λ a n t. sent _ (kubectl-IsServed f a n)))
        (λ e.
          branch (f.action == "agent-manifest") _ _
            (λ e1. options true false false _ (λ a n t. sent _ (manifest-IsServed f a)))
            (λ e1.
              branch (f.action == "service") _ _
                (λ is_service. options true true true _ (λ a n t. sent _ (
                  service-IsServed f a n
                    (typed (ground (arith, string_eq.beq_iff f.action "service"))))))
                (λ e2.
                  branch (f.action == "control") _ _
                    (λ e3. options false true false _ (λ a n t. sent _ (control-IsServed f n)))
                    (λ e3.
                      branch (f.action == "statistics") _ _
                        (λ e4. insist-OnSent IsServed f.endpoint_name false _ (λ n.
                          insist-OnSent IsServed f.endpoint_type false _
                            (λ t. sent _ statistics-IsServed)))
                        (λ e4. tt)))))
