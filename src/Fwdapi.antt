-- ===== src/Fwdapi.antt =====
-- internal/fwdapi: the requests and responses of the control API (cnc.go) and their checks
-- (validate.go).
use Prim.Native.Char.{code}
use grpc_datacon.Common.{
  ℕ, String, Bool, true, ◌&&◌, ◌||◌, not, leb, Result, ◌>>◌, ensure, ◌==◌, string_eq,
}

abbrev pub kubeconfig_endpoint : String
kubeconfig_endpoint = "/api/v1/generateKubectlComponents"

abbrev pub manifest_endpoint : String
manifest_endpoint = "/api/v1/generateAgentManifestComponents"

abbrev pub service_endpoint : String
service_endpoint = "/api/v1/generateServiceCredentials"

abbrev pub statistics_endpoint : String
statistics_endpoint = "/api/v1/getAgentStatistics"

abbrev pub control_endpoint : String
control_endpoint = "/api/v1/generateControlCredentials"

pub record KubeConfigRequest : Type 0 where
  pub agent_name : String
  pub name : String

pub record KubeConfigResponse (Cert : Type 0) : Type 0 where
  pub agent_name : String
  pub name : String
  pub server_url : String
  pub user_certificate : Cert

pub record ManifestRequest : Type 0 where
  pub agent_name : String

pub record ManifestResponse : Type 0 where
  pub agent_name : String
  pub server_hostname : String
  pub server_port : ℕ
  pub agent_version : String
  pub agent_token : String

pub record ServiceCredentialRequest : Type 0 where
  pub agent_name : String
  pub type : String
  pub name : String
  pub old_type : String
  pub old_name : String

-- The two kinds of credential, by the `CredentialType` that goes with them.
pub data Credential : Type 0 where
  aws : String → String → Credential
  basic : String → String → Credential

pub record ServiceCredentialResponse : Type 0 where
  pub agent_name : String
  pub name : String
  pub type : String
  pub credential : Credential
  pub url : String

pub record ControlCredentialsRequest : Type 0 where
  pub name : String

pub record ControlCredentialsResponse (Cert : Type 0) : Type 0 where
  pub name : String
  pub url : String
  pub certificate : Cert

pub record StatisticsResponse (Stats : Type 0) : Type 0 where
  pub server_time : ℕ
  pub version : String
  pub connected_agents : Stats

pub data ValidationError : Type 0 where
  agent_name_invalid name_invalid type_invalid : ValidationError

unfoldable pub name_present : String → Bool
name_present n = not (n == "")

abbrev pub is_type_char : ℕ → Bool
is_type_char n = leb b'a' n && leb n b'z' || leb b'0' n && leb n b'9'

unfoldable pub all_type_chars : String → Bool
all_type_chars String.[] = true
all_type_chars (String.◌∷◌ c s) = is_type_char (code c) && all_type_chars s

-- The expression `^[a-z0-9]+$`.
unfoldable pub type_valid : String → Bool
unfolding all_type_chars
type_valid n = not (n == "") && all_type_chars n

unfoldable pub validate_service_credential :
    ServiceCredentialRequest → Result ValidationError (Unit {0})
unfolding name_present type_valid
validate_service_credential req = do
  ensure (name_present req.agent_name) agent_name_invalid
  ensure (name_present req.name) name_invalid
  ensure (type_valid req.type) type_invalid

unfoldable pub validate_kube_config : KubeConfigRequest → Result ValidationError (Unit {0})
unfolding name_present
validate_kube_config req = do
  ensure (name_present req.agent_name) agent_name_invalid
  ensure (name_present req.name) name_invalid

unfoldable pub validate_manifest : ManifestRequest → Result ValidationError (Unit {0})
unfolding name_present
validate_manifest req = ensure (name_present req.agent_name) agent_name_invalid

unfoldable pub validate_control_credentials :
    ControlCredentialsRequest → Result ValidationError (Unit {0})
unfolding name_present
validate_control_credentials req = ensure (name_present req.name) name_invalid
