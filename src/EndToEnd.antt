-- ===== src/EndToEnd.antt =====
-- One HTTP request through both programs: what the agent's side of it (app/client/main.go,
-- app/client/echo.go, internal/serviceconfig/generic_endpoint.go) sends is what the controller's side
-- (app/server/server.go, app/server/echo.go, app/server/service_server.go) receives, in order.
use mathlib.Core.List.{map-append, append_assoc}
use grpc_datacon.Common.{
  ℕ, String, List, [], ◌∷◌, ◌++◌, map, some, true, false, ok, flatten, string_eq, ◌≡◌, inl, refl,
  ap, ◌∙◌,
}
use grpc_datacon.Common.Assoc.{get}
use grpc_datacon.Tunnel.{TunnelRequest, TunnelHeaders, stream_id, headers, done}
use grpc_datacon.HttpWriter.{ResponseWriter, WriteResult}
use grpc_datacon.ServerEcho.{ServerEcho, EchoPair, add_headers, server_echo}
use grpc_datacon.ServerEcho.Delivery.{IsOpen, IsFinal, delivering, fresh_pair, finished}
use grpc_datacon.Streams.{Stream, StreamManager, Echoes, unregister, update}
use grpc_datacon.Controller.{RecvEvent, message, flow_ok, flow_returned, data_flow}
use grpc_datacon.Controller.Flow.{frames, data_flow-response}
use grpc_datacon.AgentEcho.{AgentEcho, in_loop, make_echo, agent_echo, bare_headers}
use grpc_datacon.JwtUtil.{JwtRegistry, JwtState}
use grpc_datacon.Endpoint.{Codec, GenericEndpoint, ConfiguredEndpoint}
use grpc_datacon.Execute.{
  BodyRead, fetched, HttpResponse, HttpRequest, HttpClient, run_returned, make_response,
  build_request, serve_request, status_bad_gateway,
}
use grpc_datacon.Execute.Body.{chunks, unless_empty, data_frames, IsWhole, IsCut, closed_echo}
use grpc_datacon.Execute.Outcome.{
  serve_request-cut, Finds, IsRefused, refused, started_lem, serve_request-whole,
  serve_request-refused,
}

-- All that the reads of a body bring, in order.
abbrev pub body_of : List BodyRead → List ℕ
body_of [] = []
body_of (r ∷ rs) = r.chunk ++ body_of rs

flatten-append :
    (chunk : List ℕ) (cs : List (List ℕ)) → flatten (unless_empty chunk ++ cs) ≡ chunk ++ flatten cs
flatten-append [] cs = refl
flatten-append (b ∷ bytes) cs = refl

flatten-chunks : (rs : List BodyRead) → flatten (chunks rs) ≡ body_of rs
flatten-chunks [] = refl
flatten-chunks (r ∷ rs) =
    flatten-append r.chunk (chunks rs) ∙ ap (λ l. r.chunk ++ l) (flatten-chunks rs)

-- The agent's messages as the controller's `Recv` returns them.
abbrev pub received : AgentEcho → List RecvEvent
received e = map message e.out

message-data_frames : (cs : List (List ℕ)) → map message (data_frames cs) ≡ frames cs
message-data_frames [] = refl
message-data_frames (c ∷ cs) = ap (λ l. frames (c ∷ []) ++ l) (message-data_frames cs)

received-whole :
    (id : String) (h : TunnelHeaders) (cs : List (List ℕ))
    → map message ((stream_id id ∷ headers h ∷ []) ++ data_frames cs ++ done ∷ [])
      ≡ message (stream_id id) ∷ message (headers h) ∷ frames cs ++ message done ∷ []
received-whole id h cs = rw (map-append, message-data_frames)

received-cut :
    (id : String) (h : TunnelHeaders) (cs : List (List ℕ))
    → map message ((stream_id id ∷ headers h ∷ []) ++ data_frames cs ++ done ∷ [] ++ done ∷ [])
      ≡ message (stream_id id) ∷ message (headers h) ∷ frames cs ++ message done ∷ message done ∷ []
received-cut id h cs =
    map-append message ((stream_id id ∷ headers h ∷ []) ++ data_frames cs ++ done ∷ []) (done ∷ [])
    ∙ ap (λ l. l ++ message done ∷ []) (received-whole id h cs)
    ∙ append_assoc (message (stream_id id) ∷ message (headers h) ∷ frames cs) (message done ∷ [])
        (message done ∷ [])

module _ (net : ResponseWriter → List ℕ → WriteResult) (sm : StreamManager)
    (echoes : Echoes EchoPair) (st : Stream) (echo : ServerEcho) (r : JwtRegistry) (s : JwtState r)
    (codec : Codec) (client : HttpClient) (eps : List ConfiguredEndpoint) (agent : String)
    (req : TunnelRequest) where
  -- A request that the agent's service answers whole: the agent ends its stream, and the controller,
  -- given what the agent sent, writes to its HTTP client the status and the headers that the agent
  -- made of the service's answer and exactly the bytes of the service's body, and takes the stream
  -- from its table. The stream is in flight, the HTTP client takes what is written, the status is
  -- a final one, the agent's RPC opens, no Send of it blocks for ever, and each chunk is marshalled
  -- before the next read into the buffer that it shares.
  pub data_flow-serve_request :
      {ep : GenericEndpoint} {request : HttpRequest} {response : HttpResponse} {h : TunnelHeaders}
      → get sm.streams req.stream_id ≡ some st
      → echoes st.echo ≡ fresh_pair echo
      → IsOpen net
      → Finds r s codec client eps agent req ep
      → build_request r s codec client ep agent req ≡ ok request
      → client.request request ≡ fetched response
      → make_response r s req.stream_id response ≡ ok h
      → IsWhole response.reads
      → IsFinal h.status_code
      → (e : AgentEcho) × (serve_request r s codec client agent_echo eps agent req
            (make_echo req.stream_id in_loop)
          ≡ run_returned e)
        × (data_flow (server_echo net) sm echoes (received e)
            ≡ flow_returned flow_ok (
              unregister sm req.stream_id,
              update echoes st.echo (
                  finished (
                    delivering echo h.status_code
                      (add_headers h.headers [])
                      (body_of response.reads))),
            ))
  data_flow-serve_request {response = response} {h = h} there fresh open_net f b a m w final = (
    closed_echo req.stream_id true (
        (stream_id req.stream_id ∷ headers h ∷ [])
        ++ data_frames (chunks response.reads)
        ++ done ∷ []),
    rw (started_lem r s codec client eps agent req)
        (serve_request-whole r s codec client eps agent req f b a m w),
    rw (received-whole req.stream_id h (chunks response.reads)) (
        rw⁻¹ (flatten-chunks response.reads) (
          data_flow-response net sm echoes req.stream_id st echo h (chunks response.reads)
            (message done) [] there fresh open_net final (inl refl))),
  )

  -- A request that the agent refuses before a response begins, because it has no such service,
  -- cannot build the request, gets an error in the place of an answer or cannot sign the answer's
  -- headers: the controller's HTTP client gets the status 502 and an empty body, its handler
  -- returns, and the stream leaves the table. The stream is in flight, the HTTP client takes what
  -- is written, the agent's RPC opens and no Send of it blocks for ever.
  pub data_flow-serve_request_refused :
      get sm.streams req.stream_id ≡ some st
      → echoes st.echo ≡ fresh_pair echo
      → IsOpen net
      → IsRefused r s codec client eps agent req
      → (e : AgentEcho) × (serve_request r s codec client agent_echo eps agent req
            (make_echo req.stream_id in_loop)
          ≡ run_returned e)
        × (data_flow (server_echo net) sm echoes (received e)
            ≡ flow_returned flow_ok (
              unregister sm req.stream_id,
              update echoes st.echo (finished (delivering echo status_bad_gateway [] [])),
            ))
  unfolding add_headers
  data_flow-serve_request_refused there fresh open_net why = (
    closed_echo req.stream_id false (refused r s codec client eps agent req),
    rw (started_lem r s codec client eps agent req)
        (serve_request-refused r s codec client eps agent req why),
    data_flow-response net sm echoes req.stream_id st echo
        (bare_headers req.stream_id status_bad_gateway) [] (message done) (message done ∷ []) there
        fresh open_net (refl, refl) (inl refl),
  )

  -- A read of the service's body that fails after the headers were sent: the agent ends its stream
  -- as if the body were whole, and the controller's HTTP client gets the service's status and a
  -- part of the body, its handler returning as after a whole response. The stream is in flight, the
  -- HTTP client takes what is written, the status is a final one, the agent's RPC opens, no Send of
  -- it blocks for ever, and each chunk is marshalled before the next read into the buffer that it
  -- shares.
  pub data_flow-serve_request_cut :
      {ep : GenericEndpoint} {request : HttpRequest} {response : HttpResponse} {h : TunnelHeaders}
      → get sm.streams req.stream_id ≡ some st
      → echoes st.echo ≡ fresh_pair echo
      → IsOpen net
      → Finds r s codec client eps agent req ep
      → build_request r s codec client ep agent req ≡ ok request
      → client.request request ≡ fetched response
      → make_response r s req.stream_id response ≡ ok h
      → IsCut response.reads
      → IsFinal h.status_code
      → (e : AgentEcho) × (serve_request r s codec client agent_echo eps agent req
            (make_echo req.stream_id in_loop)
          ≡ run_returned e)
        × (data_flow (server_echo net) sm echoes (received e)
            ≡ flow_returned flow_ok (
              unregister sm req.stream_id,
              update echoes st.echo (
                  finished (
                    delivering echo h.status_code
                      (add_headers h.headers [])
                      (body_of response.reads))),
            ))
  data_flow-serve_request_cut {response = response} {h = h} there fresh open_net f b a m w final = (
    closed_echo req.stream_id true (
        (stream_id req.stream_id ∷ headers h ∷ [])
        ++ data_frames (chunks response.reads)
        ++ done ∷ []
        ++ done ∷ []),
    rw (started_lem r s codec client eps agent req)
        (serve_request-cut r s codec client eps agent req f b a m w),
    rw (received-cut req.stream_id h (chunks response.reads)) (
        rw⁻¹ (flatten-chunks response.reads) (
          data_flow-response net sm echoes req.stream_id st echo h (chunks response.reads)
            (message done) (message done ∷ []) there fresh open_net final (inl refl))),
  )
