-- ===== src/Execute.antt =====
-- `ExecuteHTTPRequest` of internal/serviceconfig/generic_endpoint.go and the goroutine of
-- `waitForRequest` of app/client/main.go that calls it: one HTTP request on the agent's side, over
-- any implementation of `HTTPEcho`. The HTTP client and `http.NewRequest` are parameters; a body is
-- the list of what `Body.Read` returns in turn, with whether the context is done before each read.
-- All reads of a body go to one buffer, and a chunk is sent as a slice of it.
pub mod Authorization
pub mod Body
pub mod Calls
pub mod Ends
pub mod Outcome
pub mod Overtaken
use Prim.Native.String
use grpc_datacon.Common.{
  ℕ, ◌%◌, ◌^◌, String, List, [], ◌∷◌, ◌++◌, Option, none, some, Bool, true, false, Result, ok, err,
  ◌>>=◌, ◌>>◌, ensure, map_err, ◌==◌, string_eq, if◌then◌else◌,
}
use grpc_datacon.Common.Text.{trim_space}
use grpc_datacon.Tunnel.{TunnelRequest, TunnelHeaders}
use grpc_datacon.HttpWriter.{Header, header_set}
use grpc_datacon.JwtUtil.{JwtRegistry, JwtState, JwtError}
use grpc_datacon.Headers.{
  HeaderError, bad_header, no_first_value, pb_headers_to_http, http_headers_to_pb,
}
use grpc_datacon.Echo.{EchoError, EchoCall, returned, stuck, panicked, HttpEcho}
use grpc_datacon.Endpoint.{
  Codec, Credentials, GenericEndpoint, ConfiguredEndpoint, find_endpoint, unmutate_uri,
}

-- The error that comes with a read: none, `io.EOF`, or another.
pub data ReadError : Type 0 where
  no_error at_eof read_failed : ReadError

pub record BodyRead : Type 0 where
  pub ctx_done : Bool
  -- whether it comes before the chunk of the read before it has been marshalled
  pub overtakes : Bool
  pub chunk : List ℕ
  pub error : ReadError

pub record HttpResponse : Type 0 where
  pub status_code : ℕ
  pub header : Header
  pub content_length : ℕ
  pub reads : List BodyRead

pub record HttpRequest : Type 0 where
  pub method : String
  pub url : String
  pub header : Header
  pub body : List ℕ

-- How `client.Do` ends, which has no timeout of its own.
pub data Fetch : Type 0 where
  fetched : HttpResponse → Fetch
  not_fetched : Fetch
  never_fetched : Fetch

-- `client.Do`, and whether `http.NewRequest` takes the method and
-- the URL.
pub record HttpClient : Type 0 where
  pub request : HttpRequest → Fetch
  pub accepts : String → String → Bool

-- How the call stands: it has returned, waits for the next read, waits for ever in `client.Do` or in
-- a call of the echo, or has panicked.
pub data RunEnd (S : Type 0) : Type 0 where
  run_returned : S → RunEnd S
  run_reading : S → RunEnd S
  run_fetching : S → RunEnd S
  run_stuck : S → RunEnd S
  run_panicked : S → RunEnd S

abbrev pub status_bad_gateway : ℕ
status_bad_gateway = 502

abbrev pub status_service_unavailable : ℕ
status_service_unavailable = 503

module _ {S : Type 0} (ops : HttpEcho S) where
  -- What comes after a call of the echo, by its error.
  abbrev pub after : EchoCall S → (S → Option EchoError → RunEnd S) → RunEnd S
  after (returned s e) next = next s e
  after (stuck s) next = run_stuck s
  after (panicked s) next = run_panicked s

  -- `echo.Fail`, whose error is only logged.
  abbrev pub failed : S → ℕ → RunEnd S
  failed s code = after (ops.fail s code) (λ t e. run_returned t)

  -- `if err2 := call; err2 != nil { return }`
  abbrev pub go_on : (S → RunEnd S) → S → Option EchoError → RunEnd S
  go_on next s none = next s
  go_on next s (some e) = run_returned s

  -- The loop returns after a cancel only if the cancel fails.
  abbrev pub check_ctx : Bool → S → (S → RunEnd S) → RunEnd S
  check_ctx false s next = next s
  check_ctx true s next = after (ops.cancel s) (go_on next)

  -- A read into the buffer of the chunk that was sent before it.
  abbrev pub reread : Bool → List ℕ → S → S
  reread false bytes s = s
  reread true bytes s = ops.overwrite s bytes

  abbrev pub send_chunk : List ℕ → S → (S → RunEnd S) → RunEnd S
  send_chunk [] s next = next s
  send_chunk (b ∷ bytes) s next = after (ops.send_data s (b ∷ bytes)) (go_on next)

  abbrev pub after_read : ReadError → S → (S → RunEnd S) → RunEnd S
  after_read no_error s next = next s
  after_read at_eof s next =
      after (ops.done s) (λ t e. after (ops.shutdown t) (λ u f. run_returned u))
  after_read read_failed s next = failed s status_bad_gateway

  -- The loop over the body.
  unfoldable pub send_body : List BodyRead → S → RunEnd S
  send_body [] s = run_reading s
  send_body (r ∷ rs) s = check_ctx r.ctx_done s (λ t.
      send_chunk r.chunk (reread r.overtakes r.chunk t) (λ u. after_read r.error u (send_body rs)))

  abbrev pub after_headers : HttpResponse → S → Option EchoError → RunEnd S
  unfolding send_body
  after_headers response s none = send_body response.reads s
  after_headers response s (some e) = failed s status_service_unavailable

  abbrev pub send_response : HttpResponse → Result HeaderError TunnelHeaders → S → RunEnd S
  unfolding send_body
  send_response response (err (bad_header e)) s = failed s status_bad_gateway
  send_response response (err no_first_value) s = run_panicked s
  send_response response (ok h) s = after (ops.headers s h) (after_headers response)

module _ (r : JwtRegistry) (s : JwtState r) where
  unfoldable pub make_response : String → HttpResponse → Result HeaderError TunnelHeaders
  unfolding http_headers_to_pb
  make_response id response = do
    headers ← http_headers_to_pb r s response.header
    ok (record {
      stream_id = id;
      status_code = response.status_code % 2 ^ 32;
      headers = headers;
      content_length = response.content_length;
    })

  abbrev pub on_response : {S : Type 0} → HttpEcho S → String → Fetch → S → RunEnd S
  unfolding make_response
  on_response ops id not_fetched t = failed ops t status_bad_gateway
  on_response ops id never_fetched t = run_fetching t
  on_response ops id (fetched response) t = send_response ops response (make_response id response) t

  -- `RunHTTPRequest`.
  unfoldable pub run_http_request :
      {S : Type 0} → HttpEcho S → HttpClient → String → HttpRequest → S → RunEnd S
  unfolding make_response
  run_http_request ops client id request t = on_response ops id (client.request request) t

-- `httpRequest.SetBasicAuth(u, p)`
abbrev pub basic_auth : Codec → String → String → String
basic_auth codec u p = String.◌++◌ "Basic " (codec.encode64 (String.◌++◌ u (String.◌++◌ ":" p)))

-- The `switch` over the type of the credentials. Only the name and the password are trimmed: the
-- token goes out as it was loaded, after a warning that says that it is trimmed.
unfoldable pub set_credentials : Codec → Credentials → Header → Header
unfolding header_set trim_space
set_credentials codec c header =
    if c.type == "basic"
    then header_set header "Authorization"
        (basic_auth codec (trim_space c.raw_username) (trim_space c.raw_password))
    else if c.type == "bearer"
    then header_set header "Authorization" (String.◌++◌ "Bearer " c.raw_token)
    else if c.type == "token"
    then header_set header "Authorization" (String.◌++◌ "Token " c.raw_token)
    else header

unfoldable pub set_agent_name : String → Header → Header
unfolding header_set
set_agent_name agent header =
    if agent == "" then header else header_set header "x-opsmx-agent-name" agent

-- `header_panic` is the panic of `header.Values[0]` on an empty list.
pub data BuildError : Type 0 where
  bad_uri bad_request bad_headers header_panic : BuildError

abbrev pub header_failure : HeaderError → BuildError
header_failure (bad_header e) = bad_headers
header_failure no_first_value = header_panic

module _ (r : JwtRegistry) (s : JwtState r) (codec : Codec) (client : HttpClient) where
  -- The request to the service, up to the call of `RunHTTPRequest`.
  unfoldable pub build_request :
      GenericEndpoint → String → TunnelRequest → Result BuildError HttpRequest
  unfolding unmutate_uri pb_headers_to_http set_credentials set_agent_name
  build_request ep agent req = do
    uri ← map_err (λ e. bad_uri) (unmutate_uri r s req.type req.method req.uri)
    let url = String.◌++◌ ep.config.url uri
    ensure (client.accepts req.method url) bad_request
    header ← map_err header_failure (pb_headers_to_http r s req.headers [])
    ok (record {
      method = req.method;
      url = url;
      header = set_credentials codec ep.config.credentials (set_agent_name agent header);
      body = req.body;
    })

  abbrev pub run_built :
      {S : Type 0} → HttpEcho S → String → Result BuildError HttpRequest → S → RunEnd S
  unfolding run_http_request
  run_built ops id (err header_panic) t = run_panicked t
  run_built ops id (err bad_uri) t = failed ops t status_bad_gateway
  run_built ops id (err bad_request) t = failed ops t status_bad_gateway
  run_built ops id (err bad_headers) t = failed ops t status_bad_gateway
  run_built ops id (ok request) t = run_http_request r s ops client id request t

  unfoldable pub execute_http_request :
      {S : Type 0} → HttpEcho S → GenericEndpoint → String → TunnelRequest → S → RunEnd S
  unfolding build_request run_http_request
  execute_http_request ops ep agent req t =
      run_built ops req.stream_id (build_request ep agent req) t

  -- `echo.Shutdown`, after what has returned.
  abbrev pub shut : {S : Type 0} → HttpEcho S → RunEnd S → RunEnd S
  shut ops (run_returned t) = after ops (ops.shutdown t) (λ u e. run_returned u)
  shut ops (run_reading t) = run_reading t
  shut ops (run_fetching t) = run_fetching t
  shut ops (run_stuck t) = run_stuck t
  shut ops (run_panicked t) = run_panicked t

  -- A nil instance is a nil pointer whose configuration is read.
  abbrev pub run_instance :
      {S : Type 0} → HttpEcho S → Option GenericEndpoint → String → TunnelRequest → S → RunEnd S
  unfolding execute_http_request
  run_instance ops none agent req t = run_panicked t
  run_instance ops (some ep) agent req t = shut ops (execute_http_request ops ep agent req t)

  abbrev pub run_found :
      {S : Type 0} → HttpEcho S → Option ConfiguredEndpoint → String → TunnelRequest → S → RunEnd S
  unfolding execute_http_request
  run_found ops none agent req t = shut ops (failed ops t status_bad_gateway)
  run_found ops (some ep) agent req t = run_instance ops ep.instance_of agent req t

  -- What `waitForRequest` does with one request, its goroutine included.
  unfoldable pub serve_request :
      {S : Type 0} → HttpEcho S → List ConfiguredEndpoint → String → TunnelRequest → S → RunEnd S
  unfolding find_endpoint execute_http_request
  serve_request ops endpoints agent req t =
      run_found ops (find_endpoint endpoints req.name req.type) agent req t
