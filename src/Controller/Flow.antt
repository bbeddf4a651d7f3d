-- ===== src/Controller/Flow.antt =====
-- `DataFlowAgentToController` of app/server/server.go against the echo of app/server/echo.go: from the
-- messages of the agent to the response that the HTTP client gets.
use grpc_datacon.Common.{
  ℕ, String, List, [], ◌∷◌, ◌++◌, map, some, flatten, string_eq, ◌≡◌, ◌∙◌, ◌⊎◌, inl, inr, refl,
}
use mathlib.Core.List.{append-nil, append_assoc}
use grpc_datacon.Common.Assoc.{get}
use grpc_datacon.Tunnel.{TunnelHeaders, stream_id, headers, data_frame, done}
use grpc_datacon.HttpWriter.{ResponseWriter, WriteResult, Header}
use grpc_datacon.ServerEcho.{ServerEcho, EchoPair, add_headers, server_echo}
use grpc_datacon.ServerEcho.Delivery.{
  IsOpen, IsFinal, delivering, fresh_pair, finished, headers-fresh, send_data-delivering,
  done-delivering,
}
use grpc_datacon.Streams.{Stream, StreamManager, Echoes, unregister, update}
use grpc_datacon.Controller.{RecvEvent, message, eof, flow_ok, flow_returned, flow_loop, data_flow}

-- The messages that carry the chunks of a body.
abbrev pub frames : List (List ℕ) → List RecvEvent
frames = map (λ d. message (data_frame d))

-- The agent has ended its stream: it says so, or it closes the call.
abbrev pub IsEnd : RecvEvent → Type 0
IsEnd e = (e ≡ message done) ⊎ (e ≡ eof)

module _ (net : ResponseWriter → List ℕ → WriteResult) where
  flow_loop-frames :
      (ds : List (List ℕ)) (es : List RecvEvent) (echo : ServerEcho) (code : ℕ) (header : Header)
      (body : List ℕ)
      → IsOpen net
      → flow_loop (server_echo net) (frames ds ++ es) (delivering echo code header body)
        ≡ flow_loop (server_echo net) es (delivering echo code header (body ++ flatten ds))
  unfolding flow_loop
  flow_loop-frames [] es echo code header body open_net = rw append-nil
  flow_loop-frames (d ∷ ds) es echo code header body open_net =
      rw (send_data-delivering net echo code header body d open_net, flow_loop)
        (flow_loop-frames ds es echo code header (body ++ d) open_net ∙ rw append_assoc)

  flow_loop-end :
      (e : RecvEvent) (es : List RecvEvent) (echo : ServerEcho) (code : ℕ) (header : Header)
      (body : List ℕ)
      → IsEnd e
      → flow_loop (server_echo net) (e ∷ es) (delivering echo code header body)
        ≡ flow_returned flow_ok (finished (delivering echo code header body))
  unfolding flow_loop
  flow_loop-end e es echo code header body (inl e_done) =
      rw e_done (rw (done-delivering net echo code header body, flow_loop))
  flow_loop-end e es echo code header body (inr e_eof) =
      rw e_eof (rw (done-delivering net echo code header body, flow_loop))

  flow_loop-response :
      (echo : ServerEcho) (h : TunnelHeaders) (ds : List (List ℕ)) (e : RecvEvent)
      (es : List RecvEvent)
      → IsOpen net
      → IsFinal h.status_code
      → IsEnd e
      → flow_loop (server_echo net) (message (headers h) ∷ frames ds ++ e ∷ es) (fresh_pair echo)
        ≡ flow_returned flow_ok
            (finished (delivering echo h.status_code (add_headers h.headers []) (flatten ds)))
  unfolding flow_loop
  flow_loop-response echo h ds e es open_net final end =
      first
      ∙ flow_loop-frames ds (e ∷ es) echo _ _ [] open_net
      ∙ flow_loop-end e es echo _ _ (flatten ds) end
    where
      first :
          flow_loop (server_echo net) (message (headers h) ∷ frames ds ++ e ∷ es) (fresh_pair echo)
          ≡ flow_loop
              (server_echo net)
              (frames ds ++ e ∷ es)
              (delivering echo h.status_code (add_headers h.headers []) [])
      first = rw (headers-fresh net echo h final, flow_loop)

  flow_loop-no_headers :
      (echo : ServerEcho) (ds : List (List ℕ)) (es : List RecvEvent)
      → flow_loop (server_echo net) (frames ds ++ message done ∷ es) (fresh_pair echo)
        ≡ flow_returned flow_ok (fresh_pair echo)
  unfolding flow_loop server_echo
  flow_loop-no_headers echo [] es = refl
  flow_loop-no_headers echo (d ∷ ds) es = flow_loop-no_headers echo ds es

  -- A whole response of an agent: if the stream is in flight and its HTTP client takes all that is
  -- written, then the client gets the status, the headers and the body that the agent sent, in one
  -- piece, its handler returns, and the stream leaves the table; no other echo is touched.
  pub data_flow-response :
      (sm : StreamManager) (echoes : Echoes EchoPair) (id : String) (st : Stream)
      (echo : ServerEcho) (h : TunnelHeaders) (ds : List (List ℕ)) (e : RecvEvent)
      (es : List RecvEvent)
      → get sm.streams id ≡ some st
      → echoes st.echo ≡ fresh_pair echo
      → IsOpen net
      → IsFinal h.status_code
      → IsEnd e
      → data_flow
          (server_echo net)
          sm
          echoes
          (message (stream_id id) ∷ message (headers h) ∷ frames ds ++ e ∷ es)
        ≡ flow_returned flow_ok (
          unregister sm id,
          update echoes st.echo
              (finished (delivering echo h.status_code (add_headers h.headers []) (flatten ds))),
        )
  unfolding data_flow
  data_flow-response sm echoes id st echo h ds e es there fresh open_net final end =
      rw (there, data_flow)
        (rw fresh (rw (flow_loop-response echo h ds e es open_net final end, data_flow)))

  -- An agent that says it is done before it has sent headers is told that all went well, and the
  -- stream leaves the table, while the HTTP client is left without any answer, its handler waiting.
  pub data_flow-no_headers :
      (sm : StreamManager) (echoes : Echoes EchoPair) (id : String) (st : Stream)
      (echo : ServerEcho) (ds : List (List ℕ)) (es : List RecvEvent)
      → get sm.streams id ≡ some st
      → echoes st.echo ≡ fresh_pair echo
      → data_flow
          (server_echo net)
          sm
          echoes
          (message (stream_id id) ∷ frames ds ++ message done ∷ es)
        ≡ flow_returned flow_ok (unregister sm id, update echoes st.echo (fresh_pair echo))
  unfolding data_flow
  data_flow-no_headers sm echoes id st echo ds es there fresh =
      rw (there, data_flow) (rw fresh (rw (flow_loop-no_headers echo ds es, data_flow)))
