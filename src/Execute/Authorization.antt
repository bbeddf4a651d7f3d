-- ===== src/Execute/Authorization.antt =====
-- The credentials that a request of `ExecuteHTTPRequest` carries to the service.
use Prim.Native.String
use grpc_datacon.Common.{
  String, [], ◌∷◌, some, ok, OnOk, OnOk-bind, OnOk-ok, map_err, ensure, ◌==◌, string_eq,
  if◌then◌else◌, ◌≡◌, ◌⊎◌, inl, inr, refl,
}
use grpc_datacon.Common.Assoc.{get, get-put_self}
use grpc_datacon.Common.Text.{trim_space, canonical_header_key}
use grpc_datacon.Tunnel.{TunnelRequest}
use grpc_datacon.HttpWriter.{Header, header_set}
use grpc_datacon.JwtUtil.{JwtRegistry, JwtState}
use grpc_datacon.Headers.{pb_headers_to_http}
use grpc_datacon.Endpoint.{Codec, Credentials, GenericEndpoint, unmutate_uri}
use grpc_datacon.Execute.{
  HttpClient, HttpRequest, bad_uri, bad_request, header_failure, build_request, set_credentials,
  set_agent_name, basic_auth,
}

-- The value of the Authorization header that the credentials of an endpoint stand for.
abbrev pub authorization_of : Codec → Credentials → String
authorization_of codec c =
    if c.type == "basic"
    then basic_auth codec (trim_space c.raw_username) (trim_space c.raw_password)
    else if c.type == "bearer"
    then String.◌++◌ "Bearer " c.raw_token
    else String.◌++◌ "Token " c.raw_token

abbrev pub IsSecretType : String → Type 0
IsSecretType t = (t ≡ "basic") ⊎ (t ≡ "bearer") ⊎ (t ≡ "token")

get-header_set :
    (h : Header) (k v : String) → get (header_set h k v) (canonical_header_key k) ≡ some (v ∷ [])
unfolding header_set
get-header_set h k v = get-put_self h (canonical_header_key k) (v ∷ [])

get-set_credentials :
    (codec : Codec) (c : Credentials) (h : Header)
    → IsSecretType c.type
    → get (set_credentials codec c h) (canonical_header_key "Authorization")
      ≡ some (authorization_of codec c ∷ [])
unfolding set_credentials
get-set_credentials codec c h (inl basic) = rw basic (get-header_set h "Authorization" _)
get-set_credentials codec c h (inr (inl bearer)) = rw bearer (get-header_set h "Authorization" _)
get-set_credentials codec c h (inr (inr token)) = rw token (get-header_set h "Authorization" _)

module _ (codec : Codec) (ep : GenericEndpoint) (req : TunnelRequest) where
  -- The credentials, the method and the body of a request that is built for `req`.
  abbrev pub IsBuilt : HttpRequest → Type 0
  IsBuilt request =
      (get request.header (canonical_header_key "Authorization")
        ≡ some (authorization_of codec ep.config.credentials ∷ []))
      × (request.method ≡ req.method)
      × (request.body ≡ req.body)

  build_request-OnOk :
      (r : JwtRegistry) (s : JwtState r) (client : HttpClient) (agent : String)
      → IsSecretType ep.config.credentials.type
      → OnOk IsBuilt (build_request r s codec client ep agent req)
  unfolding build_request
  build_request-OnOk r s client agent secret =
      OnOk-bind IsBuilt (map_err (λ x. bad_uri) (unmutate_uri r s req.type req.method req.uri)) _
        (λ uri u.
          OnOk-bind IsBuilt
            (ensure (client.accepts req.method (String.◌++◌ ep.config.url uri)) bad_request) _
            (λ t a.
              OnOk-bind IsBuilt (map_err header_failure (pb_headers_to_http r s req.headers [])) _
                (λ header h. (
                  get-set_credentials codec ep.config.credentials (set_agent_name agent header)
                      secret,
                  refl,
                  refl,
                ))))

  -- Whatever headers come with a request through the tunnel, an Authorization header among them, a
  -- request that is built for an endpoint with credentials has exactly one value of Authorization, the
  -- one that these credentials stand for, and the method and the body that came. The user and the
  -- password go trimmed of spaces, a token as it is.
  pub get-build_request :
      (r : JwtRegistry) (s : JwtState r) (client : HttpClient) (agent : String)
      (request : HttpRequest)
      → IsSecretType ep.config.credentials.type
      → build_request r s codec client ep agent req ≡ ok request
      → IsBuilt request
  get-build_request r s client agent request secret e =
      OnOk-ok IsBuilt (build_request r s codec client ep agent req)
        (build_request-OnOk r s client agent secret) e
