-- ===== src/Execute/Outcome.antt =====
-- What the agent sends to the controller for one request: `serve_request` over the echo of
-- app/client/echo.go.
use grpc_datacon.Common.{
  String, List, [], ◌∷◌, ◌++◌, none, some, Bool, true, false, ok, err, ◌≡◌, ◌≢◌, ◌⊎◌, inl, inr,
  refl, ◌∙◌,
}
use grpc_datacon.Tunnel.{TunnelRequest, TunnelHeaders, StreamFlow, stream_id, headers, done}
use grpc_datacon.AgentEcho.{
  AgentEcho, Start, in_loop, not_opened, id_not_sent, make_echo, agent_echo, bare_headers,
}
use grpc_datacon.JwtUtil.{JwtRegistry, JwtState, JwtError}
use grpc_datacon.Headers.{bad_header}
use grpc_datacon.Endpoint.{Codec, GenericEndpoint, ConfiguredEndpoint, find_endpoint}
use grpc_datacon.Execute.{
  fetched, not_fetched, bad_uri, bad_request, bad_headers, header_panic, HttpResponse, HttpRequest,
  HttpClient, run_returned, run_stuck, make_response, build_request, execute_http_request,
  run_http_request, serve_request, status_bad_gateway, BuildError, failed, send_response, shut,
}
use grpc_datacon.Execute.Body.{
  open_echo, closed_echo, chunks, data_frames, IsWhole, IsCut, headers_lem, send_body_lem,
  send_body-cut,
}

module _ (r : JwtRegistry) (s : JwtState r) (codec : Codec) (client : HttpClient)
    (eps : List ConfiguredEndpoint) (agent : String) (req : TunnelRequest) where
  -- The endpoint that the request is for has the instance `ep`.
  pub record Finds (ep : GenericEndpoint) : Type 0 where
    pub found : ConfiguredEndpoint
    pub is_found : find_endpoint eps req.name req.type ≡ some found
    pub has_instance : found.instance_of ≡ some ep

  -- The request comes to nothing before the headers of a response are sent.
  pub data IsRefused : Type 0 where
    unknown : find_endpoint eps req.name req.type ≡ none → IsRefused
    not_built :
        {ep : GenericEndpoint} {e : BuildError}
        → Finds ep
        → build_request r s codec client ep agent req ≡ err e
        → e ≢ header_panic
        → IsRefused
    not_answered :
        {ep : GenericEndpoint} {request : HttpRequest}
        → Finds ep
        → build_request r s codec client ep agent req ≡ ok request
        → client.request request ≡ not_fetched
        → IsRefused
    not_signed :
        {ep : GenericEndpoint} {request : HttpRequest} {response : HttpResponse} {e : JwtError}
        → Finds ep
        → build_request r s codec client ep agent req ≡ ok request
        → client.request request ≡ fetched response
        → make_response r s req.stream_id response ≡ err (bad_header e)
        → IsRefused

  abbrev pub started : AgentEcho
  started = open_echo req.stream_id false (stream_id req.stream_id ∷ [])

  -- What a request that is refused leaves on the RPC.
  abbrev pub refused : List StreamFlow
  refused =
      stream_id req.stream_id
      ∷ headers (bare_headers req.stream_id status_bad_gateway)
      ∷ done
      ∷ done
      ∷ []

  failed_lem :
      shut r s codec client agent_echo (failed agent_echo started status_bad_gateway)
      ≡ run_returned (closed_echo req.stream_id false refused)
  unfolding agent_echo
  failed_lem = refl

  shut-closed :
      (sent : Bool) (out : List StreamFlow)
      → shut r s codec client agent_echo (run_returned (closed_echo req.stream_id sent out))
        ≡ run_returned (closed_echo req.stream_id sent out)
  unfolding agent_echo
  shut-closed sent out = refl

  executed :
      {ep : GenericEndpoint}
      → Finds ep
      → serve_request r s codec client agent_echo eps agent req started
        ≡ shut r s codec client agent_echo
            (execute_http_request r s codec client agent_echo ep agent req started)
  unfolding serve_request
  executed f = rw (f.is_found, serve_request) (rw (f.has_instance))

  pub serve_request-refused :
      IsRefused
      → serve_request r s codec client agent_echo eps agent req started
        ≡ run_returned (closed_echo req.stream_id false refused)
  unfolding serve_request execute_http_request run_http_request send_response agent_echo
  serve_request-refused (unknown e) = rw (e, serve_request) failed_lem
  serve_request-refused (not_built {e = bad_uri} f e refusal) =
      executed f ∙ rw (e, execute_http_request) failed_lem
  serve_request-refused (not_built {e = bad_request} f e refusal) =
      executed f ∙ rw (e, execute_http_request) failed_lem
  serve_request-refused (not_built {e = bad_headers} f e refusal) =
      executed f ∙ rw (e, execute_http_request) failed_lem
  serve_request-refused (not_built {e = header_panic} f e refusal) = absurd (refusal refl)
  serve_request-refused (not_answered f b e) =
      executed f ∙ rw (b, execute_http_request) (rw (e, run_http_request) failed_lem)
  serve_request-refused (not_signed f b a e) =
      executed f ∙ rw (b, execute_http_request) (rw (a, run_http_request) (rw e failed_lem))

  pub serve_request-whole :
      {ep : GenericEndpoint} {request : HttpRequest} {response : HttpResponse} {h : TunnelHeaders}
      → Finds ep
      → build_request r s codec client ep agent req ≡ ok request
      → client.request request ≡ fetched response
      → make_response r s req.stream_id response ≡ ok h
      → IsWhole response.reads
      → serve_request r s codec client agent_echo eps agent req started
        ≡ run_returned (
            closed_echo req.stream_id true (
              (stream_id req.stream_id ∷ headers h ∷ [])
              ++ data_frames (chunks response.reads)
              ++ done ∷ []))
  unfolding execute_http_request run_http_request send_response
  serve_request-whole {response = response} {h = h} f b a e w =
      executed f
      ∙ rw (b, execute_http_request)
          (rw (a, run_http_request)
            (rw (e, send_response)
              (rw (headers_lem req.stream_id h (stream_id req.stream_id ∷ [])) (
                rw
                  (send_body_lem req.stream_id response.reads
                    (stream_id req.stream_id ∷ headers h ∷ []) w)
                  (shut-closed true _)))))

  shut-open :
      (out : List StreamFlow)
      → shut r s codec client agent_echo (run_returned (open_echo req.stream_id true out))
        ≡ run_returned (closed_echo req.stream_id true (out ++ done ∷ []))
  unfolding agent_echo
  shut-open out = refl

  pub serve_request-cut :
      {ep : GenericEndpoint} {request : HttpRequest} {response : HttpResponse} {h : TunnelHeaders}
      → Finds ep
      → build_request r s codec client ep agent req ≡ ok request
      → client.request request ≡ fetched response
      → make_response r s req.stream_id response ≡ ok h
      → IsCut response.reads
      → serve_request r s codec client agent_echo eps agent req started
        ≡ run_returned (
            closed_echo req.stream_id true (
              (stream_id req.stream_id ∷ headers h ∷ [])
              ++ data_frames (chunks response.reads)
              ++ done ∷ []
              ++ done ∷ []))
  unfolding execute_http_request run_http_request send_response
  serve_request-cut {response = response} {h = h} f b a e w =
      executed f
      ∙ rw (b, execute_http_request)
          (rw (a, run_http_request)
            (rw (e, send_response)
              (rw (headers_lem req.stream_id h (stream_id req.stream_id ∷ [])) (
                rw
                  (send_body-cut req.stream_id response.reads
                    (stream_id req.stream_id ∷ headers h ∷ []) w)
                  (shut-open _)))))

  -- The echo of a request as `MakeEcho` returns it, if its RPC opens.
  pub started_lem : make_echo req.stream_id in_loop ≡ started
  unfolding make_echo
  started_lem = refl

  -- Where the RPC of an echo cannot be opened, or the stream's id not sent, no goroutine takes what
  -- the echo sends: the answer to a request for a service that the agent does not have then waits for
  -- ever in its call of `Fail`.
  pub serve_request-not_opened :
      (start : Start)
      → (start ≡ not_opened) ⊎ (start ≡ id_not_sent)
      → find_endpoint eps req.name req.type ≡ none
      → serve_request r s codec client agent_echo eps agent req (make_echo req.stream_id start)
        ≡ run_stuck (make_echo req.stream_id start)
  unfolding serve_request make_echo agent_echo
  serve_request-not_opened start (inl which) e = rw which (rw (e, serve_request))
  serve_request-not_opened start (inr which) e = rw which (rw (e, serve_request))
