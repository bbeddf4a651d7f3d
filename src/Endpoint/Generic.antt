-- ===== src/Endpoint/Generic.antt =====
-- One endpoint of internal/serviceconfig/generic_endpoint.go: its credentials, its secrets and how it
-- is made.
use grpc_datacon.Common.{
  String, Option, none, some, Bool, true, false, ◌||◌, not, Result, ok, err, ◌>>=◌, ◌>>◌, ensure,
  or_fail, ◌==◌, string_eq, if◌then◌else◌,
}
use grpc_datacon.Common.Assoc.{Assoc, get}
use grpc_datacon.Common.Text.{trim_suffix_slash}

pub record Codec : Type 0 where
  pub encode64 : String → String
  pub decode64 : String → Option String

pub record Credentials : Type 0 where
  pub type : String
  pub username : String
  pub password : String
  pub token : String
  pub secret_name : String
  pub raw_username : String
  pub raw_password : String
  pub raw_token : String

pub record EndpointConfig : Type 0 where
  pub url : String
  pub insecure : Bool
  pub credentials : Credentials

pub record GenericEndpoint : Type 0 where
  pub endpoint_type : String
  pub endpoint_name : String
  pub config : EndpointConfig

pub data SecretError : Type 0 where
  missing_credentials no_loader no_secret_wanted unknown_type bad_base64 load_failed
        missing_in_secret :
      SecretError

-- `SecretLoader`; `none` is a nil interface.
abbrev pub SecretLoader : Type 0
SecretLoader = Option (String → Option (Assoc String String))

abbrev pub with_credentials : GenericEndpoint → Credentials → GenericEndpoint
with_credentials ep c = record ep { config = record ep.config { credentials = c } }

abbrev pub is_token_type : String → Bool
is_token_type t = t == "bearer" || t == "token"

module _ (codec : Codec) where
  abbrev pub decode : String → Result SecretError String
  decode s = or_fail (codec.decode64 s) bad_base64

  abbrev pub basic_from_config : GenericEndpoint → Credentials → Result SecretError GenericEndpoint
  basic_from_config ep c = do
    ensure (not (c.username == "" || c.password == "")) missing_credentials
    raw_username ← decode c.username
    raw_password ← decode c.password
    ok (with_credentials ep (record c { raw_username = raw_username; raw_password = raw_password }))

  abbrev pub token_from_config : GenericEndpoint → Credentials → Result SecretError GenericEndpoint
  token_from_config ep c = do
    ensure (not (c.token == "")) missing_credentials
    raw_token ← decode c.token
    ok (with_credentials ep (record c { raw_token = raw_token }))

  unfoldable pub load_base64_secrets : GenericEndpoint → Result SecretError GenericEndpoint
  load_base64_secrets ep =
      let c = ep.config.credentials in
      if c.type == "none" || c.type == ""
      then ok (with_credentials ep (record c { type = "none" }))
      else if c.type == "basic"
      then basic_from_config ep c
      else if is_token_type c.type
      then token_from_config ep c
      else err unknown_type

-- `getItem`: an item that is empty counts as missing.
abbrev pub non_empty : Option String → Option String
non_empty none = none
non_empty (some v) = if v == "" then none else some v

unfoldable pub get_item : Assoc String String → String → Option String
get_item m key = non_empty (get m key)

unfoldable pub basic_from_secret :
    GenericEndpoint → Credentials → Assoc String String → Result SecretError GenericEndpoint
unfolding get_item
basic_from_secret ep c secret = do
  username ← or_fail (get_item secret "username") missing_in_secret
  password ← or_fail (get_item secret "password") missing_in_secret
  ok (with_credentials ep (record c { raw_username = username; raw_password = password }))

unfoldable pub token_from_secret :
    GenericEndpoint → Credentials → Assoc String String → Result SecretError GenericEndpoint
unfolding get_item
token_from_secret ep c secret = do
  token ← or_fail (get_item secret "token") missing_in_secret
  ok (with_credentials ep (record c { raw_token = token }))

unfoldable pub load_kubernetes_secrets :
    GenericEndpoint → SecretLoader → Result SecretError GenericEndpoint
unfolding get_item
load_kubernetes_secrets ep loader = do
  let c = ep.config.credentials
  get_secret ← or_fail loader no_loader
  ensure (not (c.type == "none" || c.type == "")) no_secret_wanted
  secret ← or_fail (get_secret c.secret_name) load_failed
  if c.type == "basic"
      then basic_from_secret ep c secret
      else if is_token_type c.type
      then token_from_secret ep c secret
      else err unknown_type

unfoldable pub load_secrets :
    Codec → GenericEndpoint → SecretLoader → Result SecretError GenericEndpoint
unfolding load_base64_secrets load_kubernetes_secrets
load_secrets codec ep loader =
    if ep.config.credentials.secret_name == ""
    then load_base64_secrets codec ep
    else load_kubernetes_secrets ep loader

abbrev with_url : GenericEndpoint → String → GenericEndpoint
with_url ep url = record ep { config = record ep.config { url = url } }

-- The nil endpoint, not configured.
abbrev not_configured : Option GenericEndpoint × Bool
not_configured = (none, false)

abbrev after_secrets : Result SecretError GenericEndpoint → Option GenericEndpoint × Bool
after_secrets (err e) = not_configured
after_secrets (ok ep) =
    if ep.config.url == ""
    then not_configured
    else (some (with_url ep (trim_suffix_slash ep.config.url)), true)

-- `MakeGenericEndpoint`, where the configuration parses, and no error is returned.
unfoldable pub make_generic_endpoint :
    Codec → String → String → EndpointConfig → SecretLoader → Option GenericEndpoint × Bool
unfolding load_secrets trim_suffix_slash
make_generic_endpoint codec type name config loader = after_secrets (
    load_secrets codec (record { endpoint_type = type; endpoint_name = name; config = config })
      loader)
