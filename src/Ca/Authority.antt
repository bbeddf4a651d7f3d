-- ===== src/Ca/Authority.antt =====
-- internal/ca/ca.go: the certificate authority. Keys, signatures, DER and PEM are those of Go's
-- crypto packages, the record `Crypto`; bytes are a string. `now` is what `time.Now` returns.
use grpc_datacon.Common.{
  ℕ, ◌-◌, ◌*◌, String, List, [], ◌∷◌, Option, Bool, true, false, not, ltb, Result, ok, ◌>>=◌, ◌>>◌,
  ensure, or_fail, ◌==◌, string_eq, if◌then◌else◌,
}
use grpc_datacon.Common.Calendar.{Time, second, add_years}
use grpc_datacon.Ca.{Certificate, CertificateName, Json, generate_certificate}

pub data KeyUsage : Type 0 where
  cert_sign crl_sign digital_signature : KeyUsage

pub data ExtKeyUsage : Type 0 where
  client_auth server_auth : ExtKeyUsage

-- `x509.Certificate`, as far as it is set or read.
pub record X509 : Type 0 where
  pub serial_number : ℕ
  pub subject : Certificate
  -- `Country` of the subject
  pub country : List String
  pub not_before : Time
  pub not_after : Time
  pub key_usage : List KeyUsage
  pub ext_key_usage : List ExtKeyUsage
  pub is_ca : Bool
  pub max_path_len : ℕ
  pub dns_names : List String

-- `tls.Certificate`: a chain, which is not empty, and the key of its first certificate.
pub record KeyPair (Key : Type 0) : Type 0 where
  pub leaf : String
  pub chain : List String
  pub private_key : Key

pub record Crypto : Type 1 where
  pub Key : Type 0
  -- `rsa.GenerateKey`, with the number of bits
  pub generate_key : ℕ → Option Key
  -- `x509.CreateCertificate`, from the template, the parent, the subject's key and the signer's
  pub create_certificate : X509 → X509 → Key → Key → Option String
  pub parse_certificate : String → Option X509
  pub marshal_key : Key → String
  -- `pem.Encode` of a block with this type and these bytes
  pub pem : String → String → String
  pub x509_key_pair : String → String → Option (KeyPair Key)
  pub encode64 : String → String

pub record CaConfig : Type 0 where
  pub ca_cert_file : String
  pub ca_key_file : String

unfoldable pub apply_defaults : CaConfig → CaConfig
apply_defaults c = record {
  ca_cert_file = if c.ca_cert_file == "" then "/app/secrets/ca/tls.crt" else c.ca_cert_file;
  ca_key_file = if c.ca_key_file == "" then "/app/secrets/ca/tls.key" else c.ca_key_file;
}

pub data CaError : Type 0 where
  bad_key_pair unparsable not_ca expired not_started no_key not_signed : CaError

-- `before a b` is `a.Before(b)`, and `b.After(a)`.
abbrev before : Time → Time → Bool
before = ltb

-- The template that `MakeCertificateAuthority` signs with its own key.
unfoldable pub root_template : Time → X509
root_template now = record {
  serial_number = now;
  subject = record {
    common_name = "";
    organization = "OpsMx API Forwarder CA" ∷ [];
    organizational_unit = [];
  };
  country = "US" ∷ [];
  not_before = now - 10 * second;
  not_after = add_years now 10;
  key_usage = cert_sign ∷ crl_sign ∷ [];
  ext_key_usage = [];
  is_ca = true;
  max_path_len = 2;
  dns_names = [];
}

unfoldable pub server_template : Time → List String → X509
server_template now names = record {
  serial_number = now;
  subject = record {
    common_name = "";
    organization = "OpsMx API Forwarder Server Certificate" ∷ [];
    organizational_unit = [];
  };
  country = "US" ∷ [];
  not_before = now - 10 * second;
  not_after = add_years now 1;
  key_usage = crl_sign ∷ digital_signature ∷ [];
  ext_key_usage = client_auth ∷ server_auth ∷ [];
  is_ca = false;
  max_path_len = 0;
  dns_names = names;
}

-- The template that `GenerateCertificate` signs.
unfoldable pub name_template : Json → Time → CertificateName → X509
unfolding generate_certificate
name_template json now name = record {
  serial_number = now;
  subject = generate_certificate json name;
  country = [];
  not_before = now;
  not_after = add_years now 1;
  key_usage = digital_signature ∷ [];
  ext_key_usage = client_auth ∷ server_auth ∷ [];
  is_ca = false;
  max_path_len = 0;
  dns_names = [];
}

module _ (crypto : Crypto) where
  open crypto use {
    Key, generate_key, create_certificate, parse_certificate, marshal_key, pem, x509_key_pair,
    encode64,
  }

  unfoldable pub validate_ca_cert : Time → String → Result CaError (Unit {0})
  validate_ca_cert now bytes = do
    pc ← or_fail (parse_certificate bytes) unparsable
    ensure pc.is_ca not_ca
    ensure (not (before pc.not_after now)) expired
    ensure (not (before now pc.not_before)) not_started

  -- `LoadCAFromFile`, with what `tls.LoadX509KeyPair` returns for the two files.
  unfoldable pub load_ca_from_file :
      (String → String → Option (KeyPair Key)) → Time → CaConfig → Result CaError (KeyPair Key)
  unfolding apply_defaults validate_ca_cert
  load_ca_from_file load now config = do
    let c = apply_defaults config
    ca ← or_fail (load c.ca_cert_file c.ca_key_file) bad_key_pair
    validate_ca_cert now ca.leaf >> ok ca

  unfoldable pub make_ca_from_data : Time → String → String → Result CaError (KeyPair Key)
  unfolding validate_ca_cert
  make_ca_from_data now cert_pem key_pem = do
    ca ← or_fail (x509_key_pair cert_pem key_pem) bad_key_pair
    validate_ca_cert now ca.leaf >> ok ca

  unfoldable pub get_ca_certificate : KeyPair Key → String
  get_ca_certificate ca = ca.leaf

  unfoldable pub make_certificate_authority : Time → Result CaError (String × String)
  unfolding root_template
  make_certificate_authority now = do
    priv ← or_fail (generate_key 4096) no_key
    bytes ←
        or_fail (create_certificate (root_template now) (root_template now) priv priv) not_signed
    ok (pem "CERTIFICATE" bytes, pem "RSA PRIVATE KEY" (marshal_key priv))

  unfoldable pub make_server_cert : KeyPair Key → Time → List String → Result CaError (KeyPair Key)
  unfolding server_template
  make_server_cert ca now names = do
    parent ← or_fail (parse_certificate ca.leaf) unparsable
    priv ← or_fail (generate_key 2048) no_key
    bytes ←
        or_fail (create_certificate (server_template now names) parent priv ca.private_key)
          not_signed
    or_fail (x509_key_pair (pem "CERTIFICATE" bytes) (pem "RSA PRIVATE KEY" (marshal_key priv)))
        bad_key_pair

  unfoldable pub bytes_to64 : String → String → String
  bytes_to64 prefix bytes = encode64 (pem prefix bytes)

  unfoldable pub get_ca_cert : KeyPair Key → String
  unfolding bytes_to64
  get_ca_cert ca = bytes_to64 "CERTIFICATE" ca.leaf

  pub record Issued : Type 0 where
    pub ca64 : String
    pub cert64 : String
    pub key64 : String

  unfoldable pub issue_certificate :
      Json → KeyPair Key → Time → CertificateName → Result CaError Issued
  unfolding name_template bytes_to64 get_ca_cert
  issue_certificate json ca now name = do
    priv ← or_fail (generate_key 2048) no_key
    parent ← or_fail (parse_certificate ca.leaf) unparsable
    bytes ←
        or_fail (create_certificate (name_template json now name) parent priv ca.private_key)
          not_signed
    ok (record {
      ca64 = get_ca_cert ca;
      cert64 = bytes_to64 "CERTIFICATE" bytes;
      key64 = bytes_to64 "RSA PRIVATE KEY" (marshal_key priv);
    })

  -- The loop of `MakeCertPool`: the certificates of the chain, each parsed.
  unfoldable pub pool_of : List String → Result CaError (List X509)
  pool_of [] = ok []
  pool_of (cert ∷ certs) = do
    x ← or_fail (parse_certificate cert) unparsable
    rest ← pool_of certs
    ok (x ∷ rest)

  unfoldable pub make_cert_pool : KeyPair Key → Result CaError (List X509)
  unfolding pool_of
  make_cert_pool ca = pool_of (ca.leaf ∷ ca.chain)
