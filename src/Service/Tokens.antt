-- ===== src/Service/Tokens.antt =====
-- Credentials that the controller has issued, shown to its HTTPS service.
use grpc_datacon.Common.{
  String, [], ◌∷◌, Option, none, some, ok, ◌≡◌, ◌≢◌, ◌⊎◌, inl, inr, refl, string_eq, arith,
}
use grpc_datacon.Common.Text.{cut, ascii_lower}
use grpc_datacon.JwtUtil.{JwtRegistry, JwtState, make_service_jwt, serviceauth_registry_name}
use grpc_datacon.JwtUtil.RoundTrip.{SignsTruly, validate-make_service_jwt}
use grpc_datacon.HttpWriter.{Header, header_get, header_del}
use grpc_datacon.Ca.{
  Json, generate_certificate, purpose_service, get_certificate_name_from_cert-generate_certificate,
}
use grpc_datacon.Endpoint.{Codec}
use grpc_datacon.Service.{
  IncomingRequest, extract_endpoint_from_cert, extract_endpoint_from_jwt, extract_endpoint,
  token_of,
}

token_of-own :
    (codec : Codec) (header : Header) (token : String)
    → header_get header "X-Opsmx-Token" ≡ token
    → token ≢ ""
    → token_of codec header ≡ some token
unfolding token_of
token_of-own codec header token shown h =
    ground (arith, shown, string_eq.beq_iff (header_get header "X-Opsmx-Token") "")

-- The header has no token of its own, and an Authorization of the scheme Basic whose decoded text is
-- a user, a colon and the token.
pub record IsBasic (codec : Codec) (header : Header) (token : String) : Type 0 where
  pub user : String
  pub encoded : String
  pub text : String
  pub no_own : header_get header "X-Opsmx-Token" ≡ ""
  pub scheme : cut b' ' (header_get header "Authorization") ≡ some ("Basic", encoded)
  pub decoded : codec.decode64 encoded ≡ some text
  pub pair : cut b':' text ≡ some (user, token)

-- The token is shown in its own header, or as the password of Basic authorization.
abbrev pub IsShown : Codec → Header → String → Type 0
IsShown codec header token =
    ((header_get header "X-Opsmx-Token" ≡ token) × (token ≢ "")) ⊎ IsBasic codec header token

token_of-shown :
    (codec : Codec) (header : Header) (token : String)
    → IsShown codec header token
    → token_of codec header ≡ some token
unfolding token_of ascii_lower
token_of-shown codec header token (inl (own, h)) = token_of-own codec header token own h
token_of-shown codec header token (inr b) =
    rw (b.no_own, token_of) (rw b.scheme (rw b.decoded (rw b.pair refl)))

module _ (jwt : JwtRegistry)
    {IsFresh : jwt.State → String → Option jwt.Clock → Option jwt.Clock → Type 0}
    (law : SignsTruly jwt IsFresh) (s : JwtState jwt) (json : Json) (codec : Codec) where
  -- A service token, shown in the header X-Opsmx-Token or as a password by a client without a
  -- certificate, leads to exactly the agent, the type and the name that it was made for, and the
  -- header X-Opsmx-Token does not travel on. The registry keeps its word, and the token is fresh.
  pub extract_endpoint-make_service_jwt :
      (r : IncomingRequest) (ep_type ep_name agent token : String) (signed : Option jwt.Clock)
      → make_service_jwt jwt s ep_type ep_name agent signed ≡ ok token
      → IsFresh s.registry serviceauth_registry_name signed none
      → r.peer_certificates ≡ []
      → IsShown codec r.header token
      → extract_endpoint jwt s json codec r ≡ (
        some (record { agent_id = agent; service_name = ep_name; service_type = ep_type }),
        record r { header = header_del r.header "X-Opsmx-Token" },
      )
  unfolding extract_endpoint extract_endpoint_from_cert extract_endpoint_from_jwt
  extract_endpoint-make_service_jwt r ep_type ep_name agent token signed made fresh bare shown =
      rw (bare, extract_endpoint, extract_endpoint_from_cert)
        (rw (token_of-shown codec r.header token shown, extract_endpoint_from_jwt)
          (rw (
            validate-make_service_jwt jwt law s signed none token ep_type ep_name agent made
              fresh)))

module _ (jwt : JwtRegistry) (s : JwtState jwt) (json : Json) (codec : Codec) where
  -- A certificate that was generated for a service leads to the agent, the type and the name in it,
  -- whatever headers come with the request, if names survive JSON.
  pub extract_endpoint-generate_certificate :
      (r : IncomingRequest) (name type agent : String)
      → json.unmarshal (
          json.marshal
            (record { name = name; type = type; agent = agent; purpose = purpose_service }))
        ≡ some (record { name = name; type = type; agent = agent; purpose = purpose_service })
      → r.peer_certificates
        ≡ generate_certificate json
            (record { name = name; type = type; agent = agent; purpose = purpose_service })
          ∷ []
      → extract_endpoint jwt s json codec r
        ≡ (some (record { agent_id = agent; service_name = name; service_type = type }), r)
  unfolding extract_endpoint extract_endpoint_from_cert
  extract_endpoint-generate_certificate r name type agent law' shown =
      rw (shown, extract_endpoint, extract_endpoint_from_cert)
        (rw (get_certificate_name_from_cert-generate_certificate json _ law'))
