-- ===== src/Ca.antt =====
-- internal/ca/ca.go: the names that certificates carry. A certificate is what the code sets and reads
-- of it; JSON is the record `Json`, keys and signatures are left out.
pub mod Authority
pub mod Validity
use Prim.Native.String
use grpc_datacon.Common.{String, List, [], ◌∷◌, Option, none, some, Result, ok, ◌>>=◌, or_fail, ◌≡◌}

pub record CertificateName : Type 0 where
  pub name : String
  pub type : String
  pub agent : String
  pub purpose : String

abbrev pub purpose_control : String
purpose_control = "control"

abbrev pub purpose_agent : String
purpose_agent = "agent"

abbrev pub purpose_service : String
purpose_service = "service"

-- `json.Marshal` and `json.Unmarshal` of a name.
pub record Json : Type 0 where
  pub marshal : CertificateName → String
  pub unmarshal : String → Option CertificateName

-- `pkix.Name`, as far as it is set.
pub record Certificate : Type 0 where
  pub common_name : String
  pub organization : List String
  pub organizational_unit : List String

pub data NameError : Type 0 where
  no_unit bad_json : NameError

abbrev first_unit : List String → Option String
first_unit [] = none
first_unit (ou ∷ more) = some ou

unfoldable pub get_certificate_name_from_cert :
    Json → Certificate → Result NameError CertificateName
get_certificate_name_from_cert json cert = do
  ou ← or_fail (first_unit cert.organizational_unit) no_unit
  or_fail (json.unmarshal ou) bad_json

-- The certificate that `GenerateCertificate` signs.
unfoldable pub generate_certificate : Json → CertificateName → Certificate
generate_certificate json name =
    let org_name = String.◌++◌ "OpsMx Tunnel Certificate: " (
      String.◌++◌ name.agent
        (String.◌++◌ "-" (String.◌++◌ name.name (String.◌++◌ "-" name.type)))) in
    record {
      common_name = org_name;
      organization = org_name ∷ [];
      organizational_unit = json.marshal name ∷ [];
    }

-- A name reads back from the certificate that is generated for it, if its JSON does.
pub get_certificate_name_from_cert-generate_certificate :
    (json : Json) (name : CertificateName)
    → json.unmarshal (json.marshal name) ≡ some name
    → get_certificate_name_from_cert json (generate_certificate json name) ≡ ok name
unfolding get_certificate_name_from_cert generate_certificate
get_certificate_name_from_cert-generate_certificate json name e = rw e
