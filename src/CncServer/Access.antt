-- ===== src/CncServer/Access.antt =====
-- Who may use the control API of app/server/cncserver/cnc-server.go.
use grpc_datacon.Common.{
  String, List, [], ◌∷◌, some, Result, ok, err, ◌≡◌, refl, subst, inl, inr, beq_refl, Bool-cases,
  arith, ◌==◌, string_eq, map_err, OnOk-bind, OnOk-ok,
}
use grpc_datacon.Ca.{
  CertificateName, Certificate, Json, NameError, generate_certificate,
  get_certificate_name_from_cert, purpose_control, purpose_agent,
  get_certificate_name_from_cert-generate_certificate,
}
use grpc_datacon.Fwdapi.{
  ControlCredentialsRequest, ControlCredentialsResponse, validate_control_credentials,
}
use grpc_datacon.CncServer.{
  CncConfig, Authority, CncRequest, Reply, failed, replied, check_purpose, check_first,
  authenticate, sign_certificate, generate_control_credentials,
}

-- The first certificate of the client names the purpose "control".
pub record IsControl (json : Json) (certs : List Certificate) : Type 0 where
  pub cert : Certificate
  pub more : List Certificate
  pub names : CertificateName
  pub shown : certs ≡ cert ∷ more
  pub named : get_certificate_name_from_cert json cert ≡ ok names
  pub for_control : names.purpose ≡ purpose_control

check_purpose-replied :
    {B : Type 0} (json : Json) (cert : Certificate) (more : List Certificate)
    (result : Result NameError CertificateName) (handled : Reply B) {b : B}
    → get_certificate_name_from_cert json cert ≡ result
    → check_purpose result handled ≡ replied b
    → IsControl json (cert ∷ more) × (handled ≡ replied b)
check_purpose-replied json cert more (err e) handled n h = cc
check_purpose-replied json cert more (ok names) handled {b} n h =
    elim (Bool-cases (names.purpose == purpose_control)) [
      | inl control ↦ (
        record {
          cert = cert;
          more = more;
          names = names;
          shown = refl;
          named = n;
          for_control = ground (arith, string_eq.beq_iff names.purpose purpose_control);
        },
        rw control at h,
      )
      | inr other ↦ let refused : failed 403 ≡ replied b = rw other at h in cc
    ]

check_first-replied :
    {B : Type 0} (json : Json) (certs : List Certificate) (handled : Reply B) {b : B}
    → check_first json certs handled ≡ replied b
    → IsControl json certs × (handled ≡ replied b)
unfolding check_first
check_first-replied json [] handled h = cc
check_first-replied json (cert ∷ more) handled h =
    check_purpose-replied json cert more (get_certificate_name_from_cert json cert) handled refl h

-- The control API replies only to a request with the method of its route, from a client whose
-- certificate is for control, and then the reply is its handler's.
pub authenticate-replied :
    {B : Type 0} (json : Json) (method : String) (r : CncRequest) (handled : Reply B) (b : B)
    → authenticate json method r handled ≡ replied b
    → (r.method ≡ method) × IsControl json r.peer_certificates × (handled ≡ replied b)
unfolding authenticate
authenticate-replied json method r handled b h = elim (Bool-cases (r.method == method)) [
  | inl same ↦
      let (control, by_handler) =
        check_first-replied json r.peer_certificates handled (rw same at h) in
      (ground (arith, string_eq.beq_iff r.method method), control, by_handler)
  | inr other ↦ let refused : failed 405 ≡ replied b = rw other at h in cc
]

-- A client that is for control is let in.
pub authenticate-IsControl :
    {B : Type 0} (json : Json) (method : String) (r : CncRequest) (handled : Reply B)
    → r.method ≡ method
    → IsControl json r.peer_certificates
    → authenticate json method r handled ≡ handled
unfolding authenticate check_first
authenticate-IsControl json method r handled same c =
    rw same (rw (beq_refl method) (rw c.shown (rw c.named (rw c.for_control refl))))

pub sign_certificate-eq-ok :
    (ca : Authority) (name : CertificateName) (cert : Certificate)
    → sign_certificate ca name ≡ ok cert
    → generate_certificate ca.json name ≡ cert
unfolding sign_certificate
sign_certificate-eq-ok ca name cert h =
    elim (Bool-cases (ca.signs (generate_certificate ca.json name))) [
      | inl signs ↦
          let h' : ok (generate_certificate ca.json name) ≡ ok cert = rw signs at h in ground arith
      | inr refuses ↦ let h' : err 400 ≡ ok cert = rw refuses at h in cc
    ]

-- The name in the certificate of control credentials.
abbrev pub control_name : ControlCredentialsRequest → CertificateName
control_name req = record { name = req.name; type = ""; agent = ""; purpose = purpose_agent }

module _ {B : Type 0} (cfg : CncConfig) (ca : Authority) (method : String) (handled : Reply B) where
  -- The refusal of a client that shows this certificate.
  abbrev pub IsShutOut : Certificate → Type 0
  IsShutOut cert =
      authenticate ca.json method (record { method = method; peer_certificates = cert ∷ [] })
        handled
      ≡ failed 403

  agent_purpose-IsShutOut :
      (name : CertificateName)
      → name.purpose ≡ purpose_agent
      → ca.json.unmarshal (ca.json.marshal name) ≡ some name
      → IsShutOut (generate_certificate ca.json name)
  unfolding authenticate
  agent_purpose-IsShutOut name purpose law =
      rw (beq_refl method, get_certificate_name_from_cert-generate_certificate ca.json name law)
        (rw purpose)

  -- A certificate that the control API itself issues as control credentials is refused by every
  -- route of the control API: it is issued with the purpose "agent". Its name survives JSON.
  pub authenticate-generate_control_credentials :
      (req : ControlCredentialsRequest) (resp : ControlCredentialsResponse Certificate)
      → generate_control_credentials cfg ca (some req) ≡ ok resp
      → ca.json.unmarshal (ca.json.marshal (control_name req)) ≡ some (control_name req)
      → IsShutOut resp.certificate
  unfolding generate_control_credentials
  authenticate-generate_control_credentials req resp h law =
      OnOk-ok (λ (x : ControlCredentialsResponse Certificate). IsShutOut x.certificate)
        (generate_control_credentials cfg ca (some req))
        (OnOk-bind _ (map_err (λ e. 400) (validate_control_credentials req)) _ (λ t v.
          OnOk-bind _ (sign_certificate ca (control_name req)) _ (λ cert signed.
            subst IsShutOut (sign_certificate-eq-ok ca (control_name req) cert signed)
              (agent_purpose-IsShutOut (control_name req) refl law))))
        h
