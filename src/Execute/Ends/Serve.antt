-- ===== src/Execute/Ends/Serve.antt =====
-- How one request of `waitForRequest` of app/client/main.go ends, on every path through
-- `ExecuteHTTPRequest` and `RunHTTPRequest`.
use grpc_datacon.Common.{
  String, List, Option, none, some, Result, ok, err, ◌≡◌, ◌≢◌, inl, inr, refl, arith, Option-cases,
}
use grpc_datacon.Tunnel.{TunnelRequest, TunnelHeaders}
use grpc_datacon.Echo.{EchoError}
use grpc_datacon.AgentEcho.{AgentEcho, in_loop, make_echo, agent_echo}
use grpc_datacon.JwtUtil.{JwtRegistry, JwtState}
use grpc_datacon.Headers.{HeaderError, bad_header, no_first_value}
use grpc_datacon.Endpoint.{Codec, GenericEndpoint, ConfiguredEndpoint, find_endpoint}
use grpc_datacon.Execute.{
  HttpResponse, HttpRequest, HttpClient, RunEnd, Fetch, fetched, not_fetched, never_fetched,
  bad_uri, bad_request, bad_headers, header_panic, on_response, run_returned, run_reading,
  run_fetching, run_stuck, run_panicked, after_headers, send_response, send_body, make_response,
  build_request, BuildError, run_built, run_http_request, execute_http_request, shut, run_instance,
  serve_request, status_bad_gateway, status_service_unavailable,
}
use grpc_datacon.Execute.Calls.{IsShut, IsFit, headers_lem}
use grpc_datacon.Execute.Ends.{
  IsLeft, RunEnds, EndsBody, IsInterrupted, returned_lem, shutdown_lem, failed_lem, after_lem,
  send_body_lem,
}

-- What may make the goroutine of a request panic: the endpoint that the request is for has no
-- instance, the request's context is done before a read of the body, or a header that names the user
-- comes without a value.
pub data Cause (r : JwtRegistry) (s : JwtState r) (codec : Codec) (client : HttpClient)
    (eps : List ConfiguredEndpoint) (agent : String) (req : TunnelRequest) : Type 0 where
  empty_request :
      (ep : GenericEndpoint)
      → build_request r s codec client ep agent req ≡ err header_panic
      → Cause r s codec client eps agent req
  empty_response :
      {request : HttpRequest} {response : HttpResponse}
      → client.request request ≡ fetched response
      → make_response r s req.stream_id response ≡ err no_first_value
      → Cause r s codec client eps agent req
  no_instance :
      {found : ConfiguredEndpoint}
      → find_endpoint eps req.name req.type ≡ some found
      → found.instance_of ≡ none
      → Cause r s codec client eps agent req
  interrupted :
      {request : HttpRequest} {response : HttpResponse}
      → client.request request ≡ fetched response
      → IsInterrupted response.reads
      → Cause r s codec client eps agent req

-- The HTTP client always returns, and each response that it brings has a body that ends.
abbrev pub IsAnswering : HttpClient → Type 0
IsAnswering client =
    ((request : HttpRequest) → client.request request ≢ never_fetched)
    × ((request : HttpRequest) (response : HttpResponse)
        → client.request request ≡ fetched response
        → EndsBody response.reads)

module _ (r : JwtRegistry) (s : JwtState r) (codec : Codec) (client : HttpClient)
    (eps : List ConfiguredEndpoint) (agent : String) (req : TunnelRequest) where
  abbrev Why : Type 0
  Why = Cause r s codec client eps agent req

  shut_lem :
      (run : RunEnd AgentEcho)
      → RunEnds Why (IsLeft Why) run
      → RunEnds Why IsShut (shut r s codec client agent_echo run)
  shut_lem (run_returned e) left =
      returned_lem Why IsShut e (shutdown_lem Why e left) (λ f shut_off. shut_off)
  shut_lem (run_reading e) left = absurd left
  shut_lem (run_fetching e) left = absurd left
  shut_lem (run_stuck e) left = absurd left
  shut_lem (run_panicked e) left = left

  after_headers_lem :
      (response : HttpResponse) (e : AgentEcho) (failure : Option EchoError)
      → EndsBody response.reads
      → (IsInterrupted response.reads → Why)
      → IsFit Why e
      → RunEnds Why (IsLeft Why) (after_headers agent_echo response e failure)
  unfolding after_headers send_body
  after_headers_lem response e none ends cause fit =
      send_body_lem Why response.reads e ends cause fit
  after_headers_lem response e (some failure) ends cause fit =
      failed_lem Why e status_service_unavailable fit

  send_response_lem :
      (response : HttpResponse) (m : Result HeaderError TunnelHeaders) (e : AgentEcho)
      → EndsBody response.reads
      → (IsInterrupted response.reads → Why)
      → (m ≡ err no_first_value → Why)
      → IsFit Why e
      → RunEnds Why (IsLeft Why) (send_response agent_echo response m e)
  unfolding send_response agent_echo
  send_response_lem response (err (bad_header failure)) e ends cause empty fit =
      failed_lem Why e status_bad_gateway fit
  send_response_lem response (err no_first_value) e ends cause empty fit = empty refl
  send_response_lem response (ok h) e ends cause empty fit =
      after_lem Why (IsFit Why) (agent_echo.headers e h) (after_headers agent_echo response)
        (IsLeft Why) (headers_lem Why e h fit)
        (λ f failure fit'. after_headers_lem response f failure ends cause fit')

  fetched_lem :
      (request : HttpRequest) (f : Fetch) (e : AgentEcho)
      → client.request request ≡ f
      → IsAnswering client
      → IsFit Why e
      → RunEnds Why (IsLeft Why) (on_response r s agent_echo req.stream_id f e)
  unfolding on_response send_response
  fetched_lem request not_fetched e there finite fit = failed_lem Why e status_bad_gateway fit
  fetched_lem request never_fetched e there finite fit = absurd (finite.0 request there)
  fetched_lem request (fetched response) e there finite fit =
      send_response_lem response (make_response r s req.stream_id response) e
        (finite.1 request response there) (λ over. interrupted there over)
        (λ empty. empty_response there empty) fit

  run_http_request_lem :
      (request : HttpRequest) (e : AgentEcho)
      → IsAnswering client
      → IsFit Why e
      → RunEnds Why (IsLeft Why) (run_http_request r s agent_echo client req.stream_id request e)
  unfolding run_http_request
  run_http_request_lem request e finite fit =
      fetched_lem request (client.request request) e refl finite fit

  built_lem :
      (built : Result BuildError HttpRequest) (e : AgentEcho)
      → (built ≡ err header_panic → Why)
      → IsAnswering client
      → IsFit Why e
      → RunEnds Why (IsLeft Why) (run_built r s codec client agent_echo req.stream_id built e)
  unfolding run_built run_http_request
  built_lem (err header_panic) e empty finite fit = empty refl
  built_lem (err bad_uri) e empty finite fit = failed_lem Why e status_bad_gateway fit
  built_lem (err bad_request) e empty finite fit = failed_lem Why e status_bad_gateway fit
  built_lem (err bad_headers) e empty finite fit = failed_lem Why e status_bad_gateway fit
  built_lem (ok request) e empty finite fit = run_http_request_lem request e finite fit

  execute_lem :
      (ep : GenericEndpoint) (e : AgentEcho)
      → IsAnswering client
      → IsFit Why e
      → RunEnds Why (IsLeft Why) (execute_http_request r s codec client agent_echo ep agent req e)
  unfolding execute_http_request
  execute_lem ep e finite fit =
      built_lem (build_request r s codec client ep agent req) e (λ empty. empty_request ep empty)
        finite fit

  instance_lem :
      (found : ConfiguredEndpoint) (e : AgentEcho)
      → find_endpoint eps req.name req.type ≡ some found
      → IsAnswering client
      → IsFit Why e
      → RunEnds Why IsShut (run_instance r s codec client agent_echo found.instance_of agent req e)
  unfolding run_instance
  instance_lem found e there finite fit = elim (Option-cases found.instance_of) [
    | inl gone ↦ rw gone (no_instance there gone)
    | inr (ep, has) ↦ rw has (shut_lem _ (execute_lem ep e finite fit))
  ]

  fresh-IsFit : IsFit Why (make_echo req.stream_id in_loop)
  unfolding make_echo
  fresh-IsFit = record {
    sound = record { same = refl; heard = refl; roomy = refl };
    cause = λ over. absurd (ground arith);
  }

  -- If the agent's RPC opens, no `Send` of it blocks for ever, `client.Do` always returns, and each
  -- body that it brings comes to its end, with `io.EOF` or with an error, then what the agent does for
  -- a request never waits for ever, whatever the request is, the endpoints are and the service
  -- answers: it returns with the stream ended and `RunDataSender` with it, or it panics, and that only
  -- where the endpoint has no instance, the context is done before a read of a body, or a header of
  -- the request or of the response that names the user has no value.
  pub serve_request-RunEnds :
      IsAnswering client
      → RunEnds (Cause r s codec client eps agent req) IsShut (
          serve_request r s codec client agent_echo eps agent req (make_echo req.stream_id in_loop))
  unfolding serve_request
  serve_request-RunEnds finite = elim (Option-cases (find_endpoint eps req.name req.type)) [
    | inl gone ↦ rw gone (shut_lem _ (failed_lem Why _ status_bad_gateway fresh-IsFit))
    | inr (found, there) ↦ rw there (instance_lem found _ there finite fresh-IsFit)
  ]
