-- ===== src/Ca/Validity.antt =====
-- What the certificates of internal/ca/ca.go are good for: an authority that was just made, the
-- controller's own certificate, and a certificate that carries a name.
use grpc_datacon.Common.{
  ◌+◌, ◌-◌, ◌/◌, ◌<◌, ◌*◌, ◌≤◌, String, List, [], ◌∷◌, some, true, leb, ok, err, or_fail,
  or_fail-eq-ok, >>=-eq-ok, if◌then◌else◌, ◌≡◌, ◌↔◌, refl, inl, inr, arith, Option-cases, string_eq,
}
use grpc_datacon.Common.Calendar.{Time, second, day, add_years, add_years_later}
use grpc_datacon.Config.{ControllerConfig, load_config}
use grpc_datacon.Config.Names.{IsNamed, load_config-IsLoaded}
use grpc_datacon.Ca.{
  CertificateName, Json, get_certificate_name_from_cert,
  get_certificate_name_from_cert-generate_certificate,
}
use grpc_datacon.Ca.Authority.{
  client_auth, server_auth, X509, KeyPair, Crypto, expired, unparsable, no_key, not_signed,
  bad_key_pair, validate_ca_cert, make_ca_from_data, root_template, make_certificate_authority,
  server_template, make_server_cert, name_template, get_ca_cert, bytes_to64, Issued,
  issue_certificate,
}

-- X.509 keeps times to the second.
abbrev pub whole : Time → Time
whole t = t / second * second

abbrev pub stored : X509 → X509
stored t = record t { not_before = whole t.not_before; not_after = whole t.not_after }

whole_le : (t : Time) → whole t ≤ t
whole_le t = omega arith

le_whole : (t : Time) → t < whole t + second
le_whole t = omega arith

fresh_le :
    (end now later : Time)
    → now + 364 * day ≤ end
    → later + second ≤ now + 364 * day
    → later ≤ whole end
fresh_le end now later far until = omega (arith, le_whole end)

-- A certificate that x509 takes parses to what was signed, its times to the second, and makes a
-- pair with the key that it was made for.
pub record IsLawful (crypto : Crypto) (IsTaken : X509 → Type 0) : Type 0 where
  pub parse-create :
      (t parent : X509) (k signer : crypto.Key) (bytes : String)
      → IsTaken t
      → crypto.create_certificate t parent k signer ≡ some bytes
      → crypto.parse_certificate bytes ≡ some (stored t)
  pub pair-create :
      (t parent : X509) (k signer : crypto.Key) (bytes : String)
      → IsTaken t
      → crypto.create_certificate t parent k signer ≡ some bytes
      → crypto.x509_key_pair
          (crypto.pem "CERTIFICATE" bytes)
          (crypto.pem "RSA PRIVATE KEY" (crypto.marshal_key k))
        ≡ some (record { leaf = bytes; chain = []; private_key = k })

-- The time lies in the period of the certificate, its ends included.
abbrev pub IsCurrent : X509 → Time → Type 0
IsCurrent x now = (x.not_before ≤ now) × (now ≤ x.not_after)

module _ (crypto : Crypto) where
  -- Bytes pass as an authority's certificate exactly when they parse to one that may sign others and
  -- whose period holds the present time.
  pub validate_ca_cert_iff :
      (now : Time) (bytes : String)
      → (validate_ca_cert crypto now bytes ≡ ok tt) ↔ (
          (x : X509) × (crypto.parse_certificate bytes ≡ some x)
          × (x.is_ca ≡ true)
          × IsCurrent x now)
  unfolding validate_ca_cert
  validate_ca_cert_iff now bytes = elim (Option-cases (crypto.parse_certificate bytes)) [
    | inl none' ↦ rw none' (λ h. ground arith, λ h. ground arith)
    | inr (x, parsed) ↦ rw parsed (
      λ h. (x, refl, ground arith, (ground arith, ground arith)),
      λ (y, same, may_sign, h). ground arith,
    )
  ]

  -- What is handed out at the time `at` for a name, as it is at the time `now`.
  pub record IsCarried (json : Json) (ca : KeyPair crypto.Key) (at now : Time)
      (name : CertificateName) (issued : Issued crypto) : Type 0 where
    pub bytes : String
    pub key : crypto.Key
    pub parent : X509
    pub cert : X509
    pub parent_parsed : crypto.parse_certificate ca.leaf ≡ some parent
    pub signed :
        crypto.create_certificate (name_template json at name) parent key ca.private_key
        ≡ some bytes
    pub kept : cert ≡ stored (name_template json at name)
    pub cert_written : issued.cert64 ≡ bytes_to64 crypto "CERTIFICATE" bytes
    pub key_written : issued.key64 ≡ bytes_to64 crypto "RSA PRIVATE KEY" (crypto.marshal_key key)
    pub ca_written : issued.ca64 ≡ get_ca_cert crypto ca
    pub parsed : crypto.parse_certificate bytes ≡ some cert
    pub named : get_certificate_name_from_cert json cert.subject ≡ ok name
    pub current : IsCurrent cert now

  -- An authority's certificate that has begun.
  validate_ca_cert-started :
      (now : Time) (bytes : String) (x : X509)
      → crypto.parse_certificate bytes ≡ some x
      → x.is_ca ≡ true
      → x.not_before ≤ now
      → validate_ca_cert crypto now bytes ≡ (if leb now x.not_after then ok tt else err expired)
  unfolding validate_ca_cert
  validate_ca_cert-started now bytes x parsed may_sign started = rw parsed (ground arith)

  -- The certificate and the key of an authority that was made.
  pub record IsMade (now : Time) (cert_pem key_pem : String) : Type 0 where
    pub priv : crypto.Key
    pub bytes : String
    pub signed :
        crypto.create_certificate (root_template now) (root_template now) priv priv ≡ some bytes
    pub cert_written : cert_pem ≡ crypto.pem "CERTIFICATE" bytes
    pub key_written : key_pem ≡ crypto.pem "RSA PRIVATE KEY" (crypto.marshal_key priv)

  pub make_certificate_authority-IsMade :
      (now : Time) (cert_pem key_pem : String)
      → make_certificate_authority crypto now ≡ ok (cert_pem, key_pem)
      → IsMade now cert_pem key_pem
  unfolding make_certificate_authority
  make_certificate_authority-IsMade now cert_pem key_pem made =
      let root = root_template now in
      let (priv, gen, rest) = >>=-eq-ok (or_fail (crypto.generate_key 4096) no_key) _ made in
      let (bytes, signed, out) =
        >>=-eq-ok (or_fail (crypto.create_certificate root root priv priv) not_signed) _ rest in
      record {
        priv = priv;
        bytes = bytes;
        signed = or_fail-eq-ok _ not_signed signed;
        cert_written = ground (arith, out);
        key_written = ground (arith, out);
      }

  module _ {IsTaken : X509 → Type 0} (lawful : IsLawful crypto IsTaken) where
    -- An authority that has been made is taken from ten seconds before it was made until the same
    -- date ten years later, both to the whole second before, as X.509 keeps times, and is refused
    -- as expired from then on; its certificate in base64 is that of the file that it was read from.
    -- What x509 signs parses to what was signed, times to the second, and makes a pair with its
    -- key.
    pub make_ca_from_data-make_certificate_authority :
        (now later : Time) (cert_pem key_pem : String)
        → make_certificate_authority crypto now ≡ ok (cert_pem, key_pem)
        → IsTaken (root_template now)
        → whole (now - 10 * second) ≤ later
        → (ca : KeyPair crypto.Key) × (make_ca_from_data crypto later cert_pem key_pem
            ≡ (if leb later (whole (add_years now 10)) then ok ca else err expired))
          × (get_ca_cert crypto ca ≡ crypto.encode64 cert_pem)
    unfolding make_certificate_authority make_ca_from_data root_template get_ca_cert bytes_to64
    make_ca_from_data-make_certificate_authority now later cert_pem key_pem made taken since =
        let m = make_certificate_authority-IsMade now cert_pem key_pem made in
        let root = root_template now in
        let paired = lawful.pair-create root root m.priv m.priv m.bytes taken m.signed in
        let parsed = lawful.parse-create root root m.priv m.priv m.bytes taken m.signed in
        (
          record { leaf = m.bytes; chain = []; private_key = m.priv },
          rw (m.cert_written, m.key_written)
              (rw paired (
                rw (validate_ca_cert-started later m.bytes (stored root) parsed refl since)
                  (ground arith))),
          rw m.cert_written refl,
        )

    make_server_cert-IsSigned :
        (ca server : KeyPair crypto.Key) (now : Time) (names : List String)
        → make_server_cert crypto ca now names ≡ ok server
        → IsTaken (server_template now names)
        → crypto.parse_certificate server.leaf ≡ some (stored (server_template now names))
    unfolding make_server_cert
    make_server_cert-IsSigned ca server now names made taken =
        let t = server_template now names in
        let (parent, known, one) =
          >>=-eq-ok (or_fail (crypto.parse_certificate ca.leaf) unparsable) _ made in
        let (priv, gen, two) = >>=-eq-ok (or_fail (crypto.generate_key 2048) no_key) _ one in
        let (bytes, signed, paired) =
          >>=-eq-ok (or_fail (crypto.create_certificate t parent priv ca.private_key) not_signed) _
            two in
        let signed' = or_fail-eq-ok _ not_signed signed in
        let same = lawful.pair-create t parent priv ca.private_key bytes taken signed' in
        let parsed = lawful.parse-create t parent priv ca.private_key bytes taken signed' in
        let made' = or_fail-eq-ok _ bad_key_pair paired in
        let made_of : KeyPair crypto.Key = record {
          leaf = bytes;
          chain = [];
          private_key = priv;
        } in
        let same' : made_of ≡ server = cc in rw⁻¹ same' parsed

    -- The controller's certificate, made for the server names of a configuration that was loaded,
    -- reads back as one for each of the three host names that the controller goes by, for servers
    -- and clients, and is current from ten seconds before it was made until a second before 364
    -- days have passed, at least.
    pub make_server_cert-load_config :
        (c d : ControllerConfig) (ca server : KeyPair crypto.Key) (now later : Time)
        → load_config (some c) ≡ ok d
        → make_server_cert crypto ca now d.server_names ≡ ok server
        → IsTaken (server_template now d.server_names)
        → now ≤ later + 10 * second
        → later + second ≤ now + 364 * day
        → (x : X509) × (crypto.parse_certificate server.leaf ≡ some x)
          × IsNamed x.dns_names d.agent_hostname
          × IsNamed x.dns_names d.control_hostname
          × IsNamed x.dns_names d.service_hostname
          × (x.ext_key_usage ≡ client_auth ∷ server_auth ∷ [])
          × IsCurrent x later
    unfolding server_template
    make_server_cert-load_config c d ca server now later loaded made taken since until =
        let l = load_config-IsLoaded c d loaded in
        (
          stored (server_template now d.server_names),
          make_server_cert-IsSigned ca server now d.server_names made taken,
          l.agent_named,
          l.control_named,
          l.service_named,
          refl,
          (
            omega (arith, whole_le (now - 10 * second)),
            fresh_le (add_years now 1) now later (add_years_later now 0) until,
          ),
        )

    -- A certificate that is issued for a name carries that name, if its JSON reads back; it is
    -- signed with the authority's key under the authority's certificate, which comes with it, it is
    -- for the key that comes with it, and it is current from the moment it is issued until a second
    -- before 364 days have passed, at least. X.509 is taken to keep what is signed, times to the
    -- second.
    pub issue_certificate-IsCarried :
        (json : Json) (ca : KeyPair crypto.Key) (now later : Time) (name : CertificateName)
        (issued : Issued crypto)
        → json.unmarshal (json.marshal name) ≡ some name
        → issue_certificate crypto json ca now name ≡ ok issued
        → IsTaken (name_template json now name)
        → now ≤ later
        → later + second ≤ now + 364 * day
        → IsCarried json ca now later name issued
    unfolding issue_certificate bytes_to64 name_template
    issue_certificate-IsCarried json ca now later name issued law made taken since until =
        let t = name_template json now name in
        let (priv, gen, one) = >>=-eq-ok (or_fail (crypto.generate_key 2048) no_key) _ made in
        let (parent, known, two) =
          >>=-eq-ok (or_fail (crypto.parse_certificate ca.leaf) unparsable) _ one in
        let (bytes, signed, out) =
          >>=-eq-ok (or_fail (crypto.create_certificate t parent priv ca.private_key) not_signed) _
            two in
        let signed' = or_fail-eq-ok _ not_signed signed in
        record {
          bytes = bytes;
          key = priv;
          parent = parent;
          cert = stored t;
          parent_parsed = or_fail-eq-ok _ unparsable known;
          signed = signed';
          kept = refl;
          cert_written = ground (arith, out);
          key_written = ground (arith, out);
          ca_written = ground (arith, out);
          parsed = lawful.parse-create t parent priv ca.private_key bytes taken signed';
          named = get_certificate_name_from_cert-generate_certificate json name law;
          current = (
            omega (arith, whole_le now),
            fresh_le (add_years now 1) now later (add_years_later now 0) until,
          );
        }
