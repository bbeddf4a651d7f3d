-- ===== src/MakeCa/Steps.antt =====
-- The steps of app/make-ca/main.go where nothing that it calls fails.
use grpc_datacon.Common.{
  String, ◌∷◌, Option, some, Bool, true, false, ok, or_fail, or_fail-eq-ok, >>=-eq-ok, ◌==◌,
  string_eq, ◌≡◌, refl, subst, [], inl, inr, arith, Bool-cases,
}
use grpc_datacon.Common.Assoc.{get}
use grpc_datacon.Common.Calendar.{Time}
use grpc_datacon.Ca.{CertificateName, Json}
use grpc_datacon.Ca.Authority.{
  X509, KeyPair, Crypto, bad_key_pair, name_template, validate_ca_cert, make_ca_from_data,
  root_template, make_certificate_authority, get_ca_cert, bytes_to64, Issued, issue_certificate,
}
use grpc_datacon.Ca.Validity.{
  IsLawful, IsCarried, stored, issue_certificate-IsCarried, make_certificate_authority-IsMade,
}
use grpc_datacon.MakeCa.{
  Flags, Files, Io, going, when, agent_name, write_file, write_pair, write_manifest, make_agent,
}

-- The four files are the same in both.
pub record Keeps (files more : Files) : Type 0 where
  pub same_ca_cert : get more "ca-cert.pem" ≡ get files "ca-cert.pem"
  pub same_ca_key : get more "ca-key.pem" ≡ get files "ca-key.pem"
  pub same_cert : get more "control-cert.pem" ≡ get files "control-cert.pem"
  pub same_key : get more "control-key.pem" ≡ get files "control-key.pem"

when_lem :
    (b : Bool) (m : Io (Unit {0})) (files : Files)
    → ((more : Files) × (m files ≡ going tt more))
    → (more : Files) × (when b m files ≡ going tt more)
when_lem true m files h = h
when_lem false m files h = (files, refl)

module _ (crypto : Crypto) (decode64 : String → Option String) (json : Json)
    (can_write : String → Bool) (IsTaken : X509 → Type 0) where
  -- Keys are found of the two sizes that the program asks for; a certificate that x509 takes is signed
  -- by itself, and under a parent that was signed by itself with the same key; base64 reads back and
  -- files are written.
  pub record IsAble : Type 0 where
    pub lawful : IsLawful crypto IsTaken
    pub finds_authority_key : (k : crypto.Key) × (crypto.generate_key 4096 ≡ some k)
    pub finds_leaf_key : (k : crypto.Key) × (crypto.generate_key 2048 ≡ some k)
    pub signs_itself :
        (t : X509) (k : crypto.Key)
        → IsTaken t
        → (bytes : String) × (crypto.create_certificate t t k k ≡ some bytes)
    pub signs_under :
        (root t : X509) (k signer : crypto.Key) (root_bytes : String)
        → IsTaken root
        → crypto.create_certificate root root signer signer ≡ some root_bytes
        → IsTaken t
        → (bytes : String) × (crypto.create_certificate t (stored root) k signer ≡ some bytes)
    pub decodes : (s : String) → decode64 (crypto.encode64 s) ≡ some s
    pub writes : (name : String) → can_write name ≡ true

  -- A name's certificate is one that x509 takes, and its JSON reads back.
  abbrev pub IsNameTaken : CertificateName → Time → Type 0
  IsNameTaken name now =
      IsTaken (name_template json now name) × (json.unmarshal (json.marshal name) ≡ some name)

  -- The agent's certificate can be signed, if one is asked for.
  abbrev pub IsTakenAgent : Flags → Time → Type 0
  IsTakenAgent flags now =
      (flags.also_agent_named == "") ≡ false → IsNameTaken (agent_name flags.also_agent_named) now

  -- The pair is an authority that was signed by itself, and parses.
  pub record IsSelfSigned (ca : KeyPair crypto.Key) : Type 0 where
    pub root : X509
    pub takes : IsTaken root
    pub signed : crypto.create_certificate root root ca.private_key ca.private_key ≡ some ca.leaf
    pub known : crypto.parse_certificate ca.leaf ≡ some (stored root)

  module _ (able : IsAble) where
    pub write_file_lem :
        (name text : String) (files : Files)
        → write_file crypto decode64 json can_write name text files
          ≡ going tt ((name, text) ∷ files)
    write_file_lem name text files = rw (able.writes name) refl

    pub make_total :
        (now : Time)
        → IsTaken (root_template now)
        → (cert_pem : String) × (key_pem : String) × (make_certificate_authority crypto now
            ≡ ok (cert_pem, key_pem))
    unfolding make_certificate_authority
    make_total now takes =
        let (priv, found) = able.finds_authority_key in
        let (bytes, signed) = able.signs_itself (root_template now) priv takes in
        (
          crypto.pem "CERTIFICATE" bytes,
          crypto.pem "RSA PRIVATE KEY" (crypto.marshal_key priv),
          rw found (rw signed refl),
        )

    issue_total :
        (ca : KeyPair crypto.Key) (now : Time) (name : CertificateName)
        → IsSelfSigned ca
        → IsTaken (name_template json now name)
        → (issued : Issued crypto) × (issue_certificate crypto json ca now name ≡ ok issued)
    unfolding issue_certificate
    issue_total ca now name own takes =
        let (priv, found) = able.finds_leaf_key in
        let (bytes, signed) =
          able.signs_under own.root (name_template json now name) priv ca.private_key ca.leaf
            own.takes own.signed takes in
        (
          record {
            ca64 = get_ca_cert crypto ca;
            cert64 = bytes_to64 crypto "CERTIFICATE" bytes;
            key64 = bytes_to64 crypto "RSA PRIVATE KEY" (crypto.marshal_key priv);
          },
          rw found (rw own.known (rw signed refl)),
        )

    pub write_pair_lem :
        (cert_file key_file : String) (ca : KeyPair crypto.Key) (now : Time)
        (name : CertificateName) (issued : Issued crypto)
        (c : IsCarried crypto json ca now now name issued) (files : Files)
        → write_pair crypto decode64 json can_write cert_file key_file issued files
          ≡ going tt (
              (key_file, crypto.pem "RSA PRIVATE KEY" (crypto.marshal_key c.key))
              ∷ (cert_file, crypto.pem "CERTIFICATE" c.bytes)
              ∷ files)
    unfolding bytes_to64
    write_pair_lem cert_file key_file ca now name issued c files = rw c.cert_written (
        rw (able.decodes (crypto.pem "CERTIFICATE" c.bytes)) (
          rw (able.writes cert_file) (
            rw c.key_written (
              rw (able.decodes (crypto.pem "RSA PRIVATE KEY" (crypto.marshal_key c.key)))
                (rw (able.writes key_file) refl)))))

    -- What is loaded of an authority that was made is signed by itself.
    pub make_ca_from_data-IsSelfSigned :
        (now at : Time) (cert_pem key_pem : String) (ca : KeyPair crypto.Key)
        → make_certificate_authority crypto at ≡ ok (cert_pem, key_pem)
        → IsTaken (root_template at)
        → make_ca_from_data crypto now cert_pem key_pem ≡ ok ca
        → IsSelfSigned ca
    unfolding make_ca_from_data
    make_ca_from_data-IsSelfSigned now at cert_pem key_pem ca made takes taken =
        let root = root_template at in
        let m = make_certificate_authority-IsMade crypto at cert_pem key_pem made in
        let paired = able.lawful.pair-create root root m.priv m.priv m.bytes takes m.signed in
        let known = able.lawful.parse-create root root m.priv m.priv m.bytes takes m.signed in
        let own : KeyPair crypto.Key = record {
          leaf = m.bytes;
          chain = [];
          private_key = m.priv;
        } in
        let (loaded, read, rest) =
          >>=-eq-ok (or_fail (crypto.x509_key_pair cert_pem key_pem) bad_key_pair) _ taken in
        let (done, valid, out) = >>=-eq-ok (validate_ca_cert crypto now loaded.leaf) _ rest in
        let read' : crypto.x509_key_pair cert_pem key_pem ≡ some loaded =
          or_fail-eq-ok _ bad_key_pair read in
        let paired' : crypto.x509_key_pair cert_pem key_pem ≡ some own =
          rw (m.cert_written, m.key_written) paired in
        let same : own ≡ ca = ground (arith, out, read', paired') in
        let self : IsSelfSigned own = record {
          root = root;
          takes = takes;
          signed = m.signed;
          known = known;
        } in
        subst IsSelfSigned same self

    pub manifest_lem :
        (flags : Flags) (ca64 ca_key64 : String) (issued : Issued crypto) (files : Files)
        → (more : Files) × (when flags.with_kubernetes
              (write_manifest crypto decode64 json can_write flags ca64 ca_key64 issued)
              files
            ≡ going tt more)
    unfolding write_manifest
    manifest_lem flags ca64 ca_key64 issued files =
        when_lem flags.with_kubernetes
          (write_manifest crypto decode64 json can_write flags ca64 ca_key64 issued) files
          (_, write_file_lem "controller-secrets.yaml" _ files)

    -- A certificate that is issued, and is its own witness.
    pub issue_lem :
        (ca : KeyPair crypto.Key) (now : Time) (name : CertificateName)
        → IsSelfSigned ca
        → IsNameTaken name now
        → (issued : Issued crypto) × (issue_certificate crypto json ca now name ≡ ok issued)
          × IsCarried crypto json ca now now name issued
    issue_lem ca now name own takes =
        let (issued, made) = issue_total ca now name own takes.0 in
        (
          issued,
          made,
          issue_certificate-IsCarried crypto able.lawful json ca now now name issued takes.1 made
              takes.0 (omega arith) (omega arith),
        )

    pub make_agent_lem :
        (flags : Flags) (now : Time) (ca : KeyPair crypto.Key) (files : Files)
        → IsSelfSigned ca
        → IsTakenAgent flags now
        → (more : Files) × (make_agent crypto decode64 json can_write flags now ca files
            ≡ going tt more)
          × Keeps files more
    unfolding make_agent get
    make_agent_lem flags now ca files own takes = elim (Bool-cases (flags.also_agent_named == "")) [
      | inl nobody ↦ (
        files,
        rw nobody refl,
        record { same_ca_cert = refl; same_ca_key = refl; same_cert = refl; same_key = refl },
      )
      | inr somebody ↦
          let (issued, made, c) =
            issue_lem ca now (agent_name flags.also_agent_named) own (takes somebody) in
          (
            ("agent-key.pem", crypto.pem "RSA PRIVATE KEY" (crypto.marshal_key c.key))
                ∷ ("agent-cert.pem", crypto.pem "CERTIFICATE" c.bytes)
                ∷ files,
            rw somebody (
                rw made (
                  write_pair_lem "agent-cert.pem" "agent-key.pem" ca now
                    (agent_name flags.also_agent_named) issued c files)),
            record { same_ca_cert = refl; same_ca_key = refl; same_cert = refl; same_key = refl },
          )
    ]
