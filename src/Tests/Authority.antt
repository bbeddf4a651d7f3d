-- ===== src/Tests/Authority.antt =====
-- Runs of the certificate authority and of app/make-ca.
use grpc_datacon.Common.{
  ◌+◌, ◌*◌, String, [], ◌∷◌, Option, some, true, false, ok, err, leb, if◌then◌else◌, ◌==◌,
  string_eq, ◌≡◌, ◌⊎◌, inl, inr, refl, arith,
}
use grpc_datacon.Common.Calendar.{Time, day, add_years, add_years_later}
use grpc_datacon.Ca.{Json}
use grpc_datacon.Ca.Authority.{
  X509, KeyPair, Crypto, expired, root_template, server_template, name_template,
  make_certificate_authority, make_ca_from_data, make_server_cert, issue_certificate, get_ca_cert,
  bytes_to64, Issued,
}
use grpc_datacon.Ca.Validity.{
  IsLawful, IsCarried, whole, stored, make_ca_from_data-make_certificate_authority,
  issue_certificate-IsCarried,
}
use grpc_datacon.MakeCa.{Flags, Clock, Files, going, control_name, make_ca}
use grpc_datacon.MakeCa.Steps.{IsAble}
use grpc_datacon.MakeCa.Written.{IsInstalled, make_ca-IsInstalled}

-- JSON that knows the control name.
abbrev json : Json
json = record { marshal = λ n. "name"; unmarshal = λ s. some control_name }

-- The moment that all is made at.
abbrev pub now : Time
now = 700_000 * day

-- DER that tells one authority from one other certificate.
abbrev pub two_certs : X509 → X509 → Crypto
two_certs root leaf = record {
  Key = Unit {0};
  generate_key = λ bits. some tt;
  create_certificate = λ t parent k signer. some (if t.is_ca then "root" else "leaf");
  parse_certificate = λ bytes. if bytes == "root" then some (stored root) else some (stored leaf);
  marshal_key = λ k. "key";
  pem = λ prefix bytes. bytes;
  x509_key_pair = λ cert key. some (record { leaf = cert; chain = []; private_key = tt });
  encode64 = λ s. s;
}

abbrev pub IsEither : X509 → X509 → X509 → Type 0
IsEither root leaf x = (x ≡ root) ⊎ (x ≡ leaf)

created :
    (root leaf t : X509) (bytes : String)
    → root.is_ca ≡ true
    → leaf.is_ca ≡ false
    → IsEither root leaf t
    → ◌≡◌ {A = Option String} (some (if t.is_ca then "root" else "leaf")) (some bytes)
    → (two_certs root leaf).parse_certificate bytes ≡ some (stored t)
created root leaf t bytes r l (inl e) made =
    let is_root : t.is_ca ≡ true = rw e r in
    let same : bytes ≡ "root" = ground (arith, made) in rw same (rw e refl)
created root leaf t bytes r l (inr e) made =
    let is_leaf : t.is_ca ≡ false = rw e l in
    let same : bytes ≡ "leaf" = ground (arith, made) in rw same (rw e refl)

pub two_certs-IsLawful :
    (root leaf : X509)
    → root.is_ca ≡ true
    → leaf.is_ca ≡ false
    → IsLawful (two_certs root leaf) (IsEither root leaf)
two_certs-IsLawful root leaf r l = record {
  parse-create = λ t parent k signer bytes either made. created root leaf t bytes r l either made;
  pair-create = λ t parent k signer bytes either made. refl;
}

abbrev crypto : Crypto
crypto = two_certs (root_template now) (name_template json now control_name)

pub root_may_sign : (root_template now).is_ca ≡ true
unfolding root_template
root_may_sign = refl

leaf_may_not : (name_template json now control_name).is_ca ≡ false
unfolding name_template
leaf_may_not = refl

crypto-IsLawful :
    IsLawful crypto (IsEither (root_template now) (name_template json now control_name))
crypto-IsLawful = two_certs-IsLawful _ _ root_may_sign leaf_may_not

made : make_certificate_authority crypto now ≡ ok ("root", "key")
unfolding make_certificate_authority root_template
made = refl

make_ca_from_data-make_certificate_authority_example :
    (ca : KeyPair (Unit {0})) × (make_ca_from_data crypto (now + day) "root" "key"
      ≡ (if leb (now + day) (whole (add_years now 10)) then ok ca else err expired))
    × (get_ca_cert crypto ca ≡ "root")
make_ca_from_data-make_certificate_authority_example =
    make_ca_from_data-make_certificate_authority crypto crypto-IsLawful now (now + day) "root" "key"
      made (inl refl) (omega arith)

abbrev pub authority : KeyPair (Unit {0})
authority = record { leaf = "root"; chain = []; private_key = tt }

abbrev issued : Issued crypto
issued = record { ca64 = "root"; cert64 = "leaf"; key64 = "key" }

issues : issue_certificate crypto json authority now control_name ≡ ok issued
unfolding issue_certificate name_template get_ca_cert bytes_to64
issues = refl

issue_certificate-IsCarried_example :
    IsCarried crypto json authority now (now + day) control_name issued
issue_certificate-IsCarried_example =
    issue_certificate-IsCarried crypto crypto-IsLawful json authority now (now + day) control_name
      issued refl issues (inr refl) (omega arith) (omega arith)

abbrev flags : Flags
flags = record {
  namespace = "";
  ca_secret_name = "ca-secret";
  with_kubernetes = true;
  control_secret_name = "oes-control-secret";
  also_agent_named = "";
}

abbrev clock : Clock
clock = record { made_at = now; checked_at = now; control_at = now; agent_at = now }

able :
    IsAble crypto
      (λ s. some s)
      json
      (λ name. true)
      (IsEither (root_template now) (name_template json now control_name))
able = record {
  lawful = crypto-IsLawful;
  finds_authority_key = (tt, refl);
  finds_leaf_key = (tt, refl);
  signs_itself = λ t k either. (_, refl);
  signs_under = λ root t k signer bytes either made either'. (_, refl);
  decodes = λ s. refl;
  writes = λ name. refl;
}

nobody : ¬ ((flags.also_agent_named == "") ≡ false)
nobody e = cc

make_ca-IsInstalled_example :
    (files : Files) × (make_ca crypto (λ s. some s) json (λ name. true) flags clock []
      ≡ going tt files)
    × IsInstalled crypto json now files
make_ca-IsInstalled_example =
    make_ca-IsInstalled crypto (λ s. some s) json (λ name. true) able flags clock (inl refl)
      (inr refl, refl) (λ somebody. absurd (nobody somebody)) (omega arith)
      (omega (arith, add_years_later now 9))

-- A controller's certificate for two names.
abbrev pub server_crypto : Crypto
server_crypto = two_certs (root_template now) (server_template now ("a" ∷ "s" ∷ []))

pub server_may_not : (server_template now ("a" ∷ "s" ∷ [])).is_ca ≡ false
unfolding server_template
server_may_not = refl

abbrev pub server : KeyPair (Unit {0})
server = record { leaf = "leaf"; chain = []; private_key = tt }

pub serves : make_server_cert server_crypto authority now ("a" ∷ "s" ∷ []) ≡ ok server
unfolding make_server_cert server_template
serves = refl
