-- ===== src/MakeCa/Written.antt =====
-- What app/make-ca/main.go leaves on disk: an authority that loads, and a control certificate with
-- its key that the control API of app/server/cncserver/cnc-server.go takes.
use grpc_datacon.Common.{
  ◌-◌, ◌*◌, ◌≤◌, String, [], ◌∷◌, Option, some, Bool, true, leb, ok, err, if◌then◌else◌, string_eq,
  beq_refl, ◌≡◌, refl, ◌∙◌, arith,
}
use grpc_datacon.Common.Assoc.{get}
use grpc_datacon.Common.Calendar.{Time, second, add_years}
use grpc_datacon.Ca.{Json}
use grpc_datacon.Ca.Authority.{
  X509, KeyPair, Crypto, expired, make_ca_from_data, root_template, make_certificate_authority,
  name_template, get_ca_cert, bytes_to64, Issued, issue_certificate,
}
use grpc_datacon.Ca.Validity.{whole, IsCarried, make_ca_from_data-make_certificate_authority}
use grpc_datacon.CncServer.Access.{IsControl}
use grpc_datacon.MakeCa.{
  Flags, Clock, Files, going, when, control_name, write_manifest, make_agent, make_ca,
}
use grpc_datacon.MakeCa.Steps.{
  IsAble, IsTakenAgent, IsNameTaken, make_total, write_pair_lem, make_ca_from_data-IsSelfSigned,
  manifest_lem, issue_lem, make_agent_lem,
}

module _ (crypto : Crypto) (json : Json) where
  -- The files hold an authority that `MakeCAFromData` takes at the time `now`, and a certificate for
  -- control with its key.
  pub record IsInstalled (now : Time) (files : Files) : Type 0 where
    pub ca_cert : String
    pub ca_key : String
    pub ca : KeyPair crypto.Key
    pub ca_cert_there : get files "ca-cert.pem" ≡ some ca_cert
    pub ca_key_there : get files "ca-key.pem" ≡ some ca_key
    pub ca_taken : make_ca_from_data crypto now ca_cert ca_key ≡ ok ca
    pub cert : String
    pub key : String
    pub pair : KeyPair crypto.Key
    pub x509 : X509
    pub cert_there : get files "control-cert.pem" ≡ some cert
    pub key_there : get files "control-key.pem" ≡ some key
    pub paired : crypto.x509_key_pair cert key ≡ some pair
    pub parsed : crypto.parse_certificate pair.leaf ≡ some x509
    pub for_control : IsControl json (x509.subject ∷ [])

module _ (crypto : Crypto) (decode64 : String → Option String) (json : Json)
    (can_write : String → Bool) {IsTaken : X509 → Type 0}
    (able : IsAble crypto decode64 json can_write IsTaken) where
  current_lem :
      (ca : KeyPair crypto.Key) (b : Bool) → b ≡ true → (if b then ok ca else err expired) ≡ ok ca
  current_lem ca b e = rw e refl

  -- What is on disk before the agent's certificate is made.
  abbrev installed : String → String → String → String → Files → Files
  installed cert_pem key_pem cert key files =
      ("ca-key.pem", key_pem)
      ∷ ("ca-cert.pem", cert_pem)
      ∷ ("control-key.pem", key)
      ∷ ("control-cert.pem", cert)
      ∷ files

  -- The run, by its steps.
  run_lem :
      (flags : Flags) (clock : Clock) (cert_pem key_pem : String) (ca : KeyPair crypto.Key)
      (issued : Issued crypto)
      (c : IsCarried crypto json ca clock.control_at clock.control_at control_name issued)
      (one three : Files)
      → make_certificate_authority crypto clock.made_at ≡ ok (cert_pem, key_pem)
      → make_ca_from_data crypto clock.checked_at cert_pem key_pem ≡ ok ca
      → issue_certificate crypto json ca clock.control_at control_name ≡ ok issued
      → issued.ca64 ≡ crypto.encode64 cert_pem
      → when flags.with_kubernetes
          (write_manifest crypto decode64 json can_write flags
            (crypto.encode64 cert_pem)
            (crypto.encode64 key_pem)
            issued)
          []
        ≡ going tt one
      → make_agent crypto decode64 json can_write flags clock.agent_at ca (
          installed cert_pem key_pem
            (crypto.pem "CERTIFICATE" c.bytes)
            (crypto.pem "RSA PRIVATE KEY" (crypto.marshal_key c.key))
            one)
        ≡ going tt three
      → make_ca crypto decode64 json can_write flags clock [] ≡ going tt three
  unfolding make_ca
  run_lem flags clock cert_pem key_pem ca issued c one three made loads signed same manifest agent =
      rw made (
        rw loads (
          rw signed (
            rw same (
              rw (beq_refl (crypto.encode64 cert_pem)) (
                rw manifest (
                  rw
                    (write_pair_lem crypto decode64 json can_write IsTaken able "control-cert.pem"
                      "control-key.pem" ca clock.control_at control_name issued c one)
                    (rw (able.writes "ca-cert.pem")
                      (rw (able.decodes key_pem) (rw (able.writes "ca-key.pem") agent)))))))))

  -- Where keys of the two sizes are found, the certificates are ones that x509 takes and signs,
  -- files can be written, base64 and the JSON of names read back, what x509 signs parses to what
  -- was signed, times to the whole second, and makes a pair with its key, and where the authority
  -- is not checked before it begins or after it ends, to the second, the program comes to its end,
  -- whatever its flags are: it does not stop at the comparison of the two forms of the authority's
  -- certificate. The files then hold the authority, which loads, and a control certificate with its
  -- key, whose name the control API takes.
  pub make_ca-IsInstalled :
      (flags : Flags) (clock : Clock)
      → IsTaken (root_template clock.made_at)
      → IsNameTaken crypto decode64 json can_write IsTaken control_name clock.control_at
      → IsTakenAgent crypto decode64 json can_write IsTaken flags clock.agent_at
      → whole (clock.made_at - 10 * second) ≤ clock.checked_at
      → clock.checked_at ≤ whole (add_years clock.made_at 10)
      → (files : Files) × (make_ca crypto decode64 json can_write flags clock [] ≡ going tt files)
        × IsInstalled crypto json clock.checked_at files
  unfolding make_ca get get_ca_cert bytes_to64
  make_ca-IsInstalled flags clock takes_root takes_name takes_agent since until =
      let (cert_pem, key_pem, made) =
        make_total crypto decode64 json can_write IsTaken able clock.made_at takes_root in
      let (ca, taken, same64) =
        make_ca_from_data-make_certificate_authority crypto able.lawful clock.made_at
          clock.checked_at cert_pem key_pem made takes_root since in
      let loads : make_ca_from_data crypto clock.checked_at cert_pem key_pem ≡ ok ca =
        taken
        ∙ current_lem ca (leb clock.checked_at (whole (add_years clock.made_at 10)))
            (ground arith) in
      let own =
        make_ca_from_data-IsSelfSigned crypto decode64 json can_write IsTaken able clock.checked_at
          clock.made_at cert_pem key_pem ca made takes_root loads in
      let (issued, signed, c) =
        issue_lem crypto decode64 json can_write IsTaken able ca clock.control_at control_name own
          takes_name in
      let same_ca64 : issued.ca64 ≡ crypto.encode64 cert_pem = c.ca_written ∙ same64 in
      let (one, manifest) =
        manifest_lem crypto decode64 json can_write IsTaken able flags (crypto.encode64 cert_pem)
          (crypto.encode64 key_pem) issued [] in
      let two : Files =
        installed cert_pem key_pem (crypto.pem "CERTIFICATE" c.bytes)
          (crypto.pem "RSA PRIVATE KEY" (crypto.marshal_key c.key)) one in
      let (three, agent, kept) =
        make_agent_lem crypto decode64 json can_write IsTaken able flags clock.agent_at ca two own
          takes_agent in
      (
        three,
        run_lem flags clock cert_pem key_pem ca issued c one three made loads signed same_ca64
            manifest agent,
        record {
          ca_cert = cert_pem;
          ca_key = key_pem;
          ca = ca;
          ca_cert_there = kept.same_ca_cert;
          ca_key_there = kept.same_ca_key;
          ca_taken = loads;
          cert = crypto.pem "CERTIFICATE" c.bytes;
          key = crypto.pem "RSA PRIVATE KEY" (crypto.marshal_key c.key);
          pair = record { leaf = c.bytes; chain = []; private_key = c.key };
          x509 = c.cert;
          cert_there = kept.same_cert;
          key_there = kept.same_key;
          paired =
              able.lawful.pair-create (name_template json clock.control_at control_name) c.parent
                c.key ca.private_key c.bytes takes_name.0 c.signed;
          parsed = c.parsed;
          for_control = record {
            cert = c.cert.subject;
            more = [];
            names = control_name;
            shown = refl;
            named = c.named;
            for_control = refl;
          };
        },
      )
