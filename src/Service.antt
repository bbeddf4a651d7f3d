-- ===== src/Service.antt =====
-- app/server/service_server.go: the HTTP service of the controller, from a request to the agent that
-- it is sent to. The rest of a request's life is `receive` of ServerEcho.antt. A response with no
-- body is its status. Logging and the listeners are left out.
pub mod Routing
pub mod Tokens
use grpc_datacon.Common.{
  ℕ, String, List, [], ◌∷◌, Option, none, some, Bool, true, false, Result, ok, err, ◌>>=◌, or_fail,
  map_err, ◌==◌, string_eq, if◌then◌else◌,
}
use grpc_datacon.Common.Text.{cut, ascii_lower}
use grpc_datacon.Tunnel.{TunnelRequest, HttpHeader}
use grpc_datacon.HttpWriter.{Header, header_get, header_del}
use grpc_datacon.JwtUtil.{JwtRegistry, JwtState, JwtError, ServiceClaims, validate_service_jwt}
use grpc_datacon.Ca.{
  CertificateName, Certificate, Json, NameError, get_certificate_name_from_cert, purpose_service,
}
use grpc_datacon.Sessions.{AgentContext, AgentSessions, SessionSearch, find}
use grpc_datacon.Headers.{HeaderError, bad_header, no_first_value, http_headers_to_pb}
use grpc_datacon.Endpoint.{Codec}
use grpc_datacon.ServerEcho.{ServerEcho, make_incoming_echoer}

pub record IncomingServiceConfig : Type 0 where
  pub service_type : String
  pub destination : String
  pub destination_service : String

-- `body` is `none` where reading it fails.
pub record IncomingRequest : Type 0 where
  pub peer_certificates : List Certificate
  pub header : Header
  pub method : String
  pub request_uri : String
  pub body : Option (List ℕ)

abbrev pub named_service : Result NameError CertificateName → Option SessionSearch
named_service (err e) = none
named_service (ok names) =
    if names.purpose == purpose_service
    then some
        (record { agent_id = names.agent; service_name = names.name; service_type = names.type })
    else none

abbrev pub first_cert : Json → List Certificate → Option SessionSearch
unfolding get_certificate_name_from_cert
first_cert json [] = none
first_cert json (cert ∷ more) = named_service (get_certificate_name_from_cert json cert)

unfoldable pub extract_endpoint_from_cert : Json → IncomingRequest → Option SessionSearch
unfolding get_certificate_name_from_cert
extract_endpoint_from_cert json r = first_cert json r.peer_certificates

abbrev bearer_of : Option (String × String) → String
bearer_of none = ""
bearer_of (some (scheme, rest)) = if scheme == "Bearer" then rest else ""

abbrev basic_password : Option (String × String) → Option String
basic_password none = none
basic_password (some (user, password)) = some password

abbrev decoded_password : Option String → Option String
unfolding cut
decoded_password none = none
decoded_password (some text) = basic_password (cut b':' text)

abbrev basic_of : Codec → Option (String × String) → Option String
unfolding cut ascii_lower
basic_of codec none = none
basic_of codec (some (scheme, rest)) =
    if ascii_lower scheme == "basic" then decoded_password (codec.decode64 rest) else none

-- The three places of a token, the next one where the one before gives the empty text. The last is
-- the password of `r.BasicAuth()`.
unfoldable pub token_of : Codec → Header → Option String
unfolding cut ascii_lower header_get
token_of codec header =
    let own = header_get header "X-Opsmx-Token" in
    let bearer = bearer_of (cut b' ' (header_get header "Authorization")) in
    let basic = basic_of codec (cut b' ' (header_get header "Authorization")) in
    if own == "" then (if bearer == "" then basic else some bearer) else some own

module _ (jwt : JwtRegistry) (s : JwtState jwt) where
  abbrev pub named_by : ServiceClaims × Option JwtError → Option SessionSearch
  named_by (c, some e) = none
  named_by (c, none) =
      some (record { agent_id = c.agent; service_name = c.ep_name; service_type = c.ep_type })

  abbrev pub validated : Option String → Option SessionSearch
  unfolding validate_service_jwt
  validated none = none
  validated (some token) = named_by (validate_service_jwt jwt s token none)

  unfoldable pub extract_endpoint_from_jwt : Codec → IncomingRequest → Option SessionSearch
  unfolding token_of validate_service_jwt
  extract_endpoint_from_jwt codec r = validated (token_of codec r.header)

  -- The endpoint, and the request as the search for it leaves it: without our own token's header, if
  -- the certificate did not decide.
  abbrev or_by_jwt :
      Codec → IncomingRequest → Option SessionSearch → Option SessionSearch × IncomingRequest
  unfolding extract_endpoint_from_jwt header_del
  or_by_jwt codec r (some target) = (some target, r)
  or_by_jwt codec r none =
      (extract_endpoint_from_jwt codec r, record r { header = header_del r.header "X-Opsmx-Token" })

  unfoldable pub extract_endpoint :
      Json → Codec → IncomingRequest → Option SessionSearch × IncomingRequest
  unfolding extract_endpoint_from_cert extract_endpoint_from_jwt header_del
  extract_endpoint json codec r = or_by_jwt codec r (extract_endpoint_from_cert json r)

  -- What a handler does with its request: a status is the whole answer, or the request goes to the
  -- channel of an agent's session while the handler runs `runEcho` with the echo.
  pub data Handled : Type 0 where
    answered : ℕ → Handled
    -- the handler panics, and net/http drops the connection
    dropped : Handled
    forwarded : AgentContext → TunnelRequest → ServerEcho → Handled

  abbrev pub with_headers :
      AgentContext
      → SessionSearch
      → String
      → IncomingRequest
      → List ℕ
      → Result HeaderError (List HttpHeader)
      → Handled
  unfolding make_incoming_echoer
  with_headers session ep stream_id r body (err (bad_header e)) = answered 503
  with_headers session ep stream_id r body (err no_first_value) = dropped
  with_headers session ep stream_id r body (ok headers) =
      forwarded session
        (record {
          stream_id = stream_id;
          name = ep.service_name;
          type = ep.service_type;
          method = r.method;
          uri = r.request_uri;
          headers = headers;
          body = body;
        })
        (make_incoming_echoer stream_id)

  abbrev pub with_body :
      AgentContext → SessionSearch → String → IncomingRequest → Option (List ℕ) → Handled
  unfolding with_headers http_headers_to_pb
  with_body session ep stream_id r none = answered 503
  with_body session ep stream_id r (some body) =
      with_headers session ep stream_id r body (http_headers_to_pb jwt s r.header)

  abbrev pub with_session : SessionSearch → String → IncomingRequest → Option AgentContext → Handled
  unfolding with_body
  with_session ep stream_id r none = answered 502
  with_session ep stream_id r (some session) = with_body session ep stream_id r r.body

  -- `runAPIHandler`, up to `runEcho`; `stream_id` is the new ULID.
  unfoldable pub run_api_handler :
      AgentSessions → SessionSearch → String → IncomingRequest → Handled
  unfolding find with_session
  run_api_handler routes ep stream_id r = with_session ep stream_id r (find routes ep)

  unfoldable pub fixed_identity_api_handler :
      AgentSessions → IncomingServiceConfig → String → IncomingRequest → Handled
  unfolding run_api_handler
  fixed_identity_api_handler routes service stream_id r =
      run_api_handler routes
        (record {
          agent_id = service.destination;
          service_name = service.destination_service;
          service_type = service.service_type;
        })
        stream_id r

  abbrev pub with_endpoint :
      AgentSessions → String → Option SessionSearch × IncomingRequest → Handled
  unfolding run_api_handler
  with_endpoint routes stream_id (none, r) = answered 400
  with_endpoint routes stream_id (some ep, r) = run_api_handler routes ep stream_id r

  unfoldable pub secure_api_handler :
      Json → Codec → AgentSessions → String → IncomingRequest → Handled
  unfolding extract_endpoint run_api_handler with_endpoint
  secure_api_handler json codec routes stream_id r =
      with_endpoint routes stream_id (extract_endpoint json codec r)
