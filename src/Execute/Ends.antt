-- ===== src/Execute/Ends.antt =====
-- How the loop of `RunHTTPRequest` of internal/serviceconfig/generic_endpoint.go ends over the echo of
-- app/client/echo.go, on every path.
pub mod Serve
use grpc_datacon.Common.{
  ℕ, String, List, [], ◌∷◌, ◌++◌, Option, none, some, Bool, true, false, not, Result, ok, err, ◌≡◌,
  ◌≢◌, ◌⊎◌, inl, inr, refl, arith, if◌then◌else◌, Option-cases,
}
use grpc_datacon.Tunnel.{
  TunnelRequest, TunnelHeaders, StreamFlow, streamflow_wrap_data_msg, streamflow_wrap_header_msg,
  streamflow_wrap_done_msg, streamflow_wrap_cancel_msg,
}
use grpc_datacon.Echo.{EchoError, EchoCall, returned, stuck, panicked}
use grpc_datacon.AgentEcho.{
  AgentEcho, in_loop, make_echo, bare_headers, send, close_with, agent_echo,
}
use grpc_datacon.JwtUtil.{JwtRegistry, JwtState}
use grpc_datacon.Headers.{HeaderError}
use grpc_datacon.Endpoint.{Codec, GenericEndpoint, ConfiguredEndpoint, find_endpoint}
use grpc_datacon.Execute.{
  ReadError, no_error, at_eof, read_failed, BodyRead, HttpResponse, HttpRequest, HttpClient, RunEnd,
  run_returned, run_fetching, run_reading, run_stuck, run_panicked, after, go_on, failed, check_ctx,
  send_chunk, reread, after_read, after_headers, send_response, send_body, make_response,
  on_response, build_request, BuildError, run_built, run_http_request, execute_http_request, shut,
  run_instance, run_found, serve_request, status_bad_gateway, status_service_unavailable,
}
use grpc_datacon.Execute.Calls.{
  IsSound, IsShut, IsFit, CallEnds, if_lem, send_data_lem, fail_lem, close_with_lem, CallEnds-map,
  headers_lem,
}

-- The same of a whole run.
abbrev pub RunEnds : Type 0 → (AgentEcho → Type 0) → RunEnd AgentEcho → Type 0
RunEnds C P (run_returned e) = P e
RunEnds C P (run_reading e) = ⊥
RunEnds C P (run_fetching e) = ⊥
RunEnds C P (run_stuck e) = ⊥
RunEnds C P (run_panicked e) = C

-- The body comes to its end, with `io.EOF` or with another error.
abbrev pub EndsBody : List BodyRead → Type 0
EndsBody [] = ⊥
EndsBody (r ∷ rs) = (r.error ≢ no_error) ⊎ EndsBody rs

-- The context is done before one of the reads.
abbrev pub IsInterrupted : List BodyRead → Type 0
IsInterrupted [] = ⊥
IsInterrupted (r ∷ rs) = (r.ctx_done ≡ true) ⊎ IsInterrupted rs

more_lem :
    (r : BodyRead) (rs : List BodyRead) → r.error ≡ no_error → EndsBody (r ∷ rs) → EndsBody rs
more_lem r rs more (inl over) = absurd (over more)
more_lem r rs more (inr ends) = ends

module _ (C : Type 0) where
  pub after_lem :
      (P : AgentEcho → Type 0) (call : EchoCall AgentEcho)
      (next : AgentEcho → Option EchoError → RunEnd AgentEcho) (Q : AgentEcho → Type 0)
      → CallEnds C P call
      → ((f : AgentEcho) (failure : Option EchoError) → P f → RunEnds C Q (next f failure))
      → RunEnds C Q (after agent_echo call next)
  after_lem P (returned e failure) next Q ends h = h e failure ends
  after_lem P (stuck e) next Q ends h = absurd ends
  after_lem P (panicked e) next Q ends h = ends

  -- What a call of `ExecuteHTTPRequest` leaves.
  abbrev pub IsLeft : AgentEcho → Type 0
  IsLeft e = IsFit C e ⊎ IsShut e

  pub shutdown_lem : (e : AgentEcho) → IsLeft e → CallEnds C IsShut (agent_echo.shutdown e)
  unfolding agent_echo close_with
  shutdown_lem e (inl fit) = close_with_lem C e streamflow_wrap_done_msg fit
  shutdown_lem e (inr shut_off) =
      if_lem C IsShut e.closed _ _ (λ over. shut_off) (λ live. ground arith)

  pub returned_lem :
      (Q : AgentEcho → Type 0) (e : AgentEcho)
      → CallEnds C IsShut (agent_echo.shutdown e)
      → ((f : AgentEcho) → IsShut f → Q f)
      → RunEnds C Q (after agent_echo (agent_echo.shutdown e) (λ f failure. run_returned f))
  returned_lem Q e ends h =
      after_lem IsShut (agent_echo.shutdown e) (λ f failure. run_returned f) Q ends
        (λ f failure. h f)

  pub failed_lem :
      (e : AgentEcho) (code : ℕ) → IsFit C e → RunEnds C IsLeft (failed agent_echo e code)
  failed_lem e code fit =
      after_lem (IsFit C) (agent_echo.fail e code) (λ f failure. run_returned f) IsLeft
        (fail_lem C e code fit) (λ f failure fit'. inl fit')

  go_on_lem :
      (next : AgentEcho → RunEnd AgentEcho) (e : AgentEcho) (failure : Option EchoError)
      → ((f : AgentEcho) → IsFit C f → RunEnds C IsLeft (next f))
      → IsFit C e
      → RunEnds C IsLeft (go_on agent_echo next e failure)
  go_on_lem next e none h fit = h e fit
  go_on_lem next e (some failure) h fit = inl fit

  cancel_lem : (e : AgentEcho) → C → IsFit C e → CallEnds C (IsFit C) (agent_echo.cancel e)
  unfolding agent_echo
  cancel_lem e cause fit =
      CallEnds-map C IsShut (IsFit C) (agent_echo.cancel e)
        (λ f shut_off. record {
          sound = record {
            same = ground (arith, shut_off.ended, shut_off.chan_shut);
            heard = ground (arith, shut_off.ended, shut_off.unheard);
            roomy = shut_off.roomy;
          };
          cause = λ over. cause;
        })
        (close_with_lem C e streamflow_wrap_cancel_msg fit)

  check_ctx_lem :
      (b : Bool) (e : AgentEcho) (next : AgentEcho → RunEnd AgentEcho)
      → (b ≡ true → C)
      → ((f : AgentEcho) → IsFit C f → RunEnds C IsLeft (next f))
      → IsFit C e
      → RunEnds C IsLeft (check_ctx agent_echo b e next)
  check_ctx_lem false e next cause h fit = h e fit
  check_ctx_lem true e next cause h fit =
      after_lem (IsFit C) (agent_echo.cancel e) (go_on agent_echo next) IsLeft
        (cancel_lem e (cause refl) fit) (λ f failure fit'. go_on_lem next f failure h fit')

  send_chunk_lem :
      (bytes : List ℕ) (e : AgentEcho) (next : AgentEcho → RunEnd AgentEcho)
      → ((f : AgentEcho) → IsFit C f → RunEnds C IsLeft (next f))
      → IsFit C e
      → RunEnds C IsLeft (send_chunk agent_echo bytes e next)
  send_chunk_lem [] e next h fit = h e fit
  send_chunk_lem (b ∷ bytes) e next h fit =
      after_lem (IsFit C) (agent_echo.send_data e (b ∷ bytes)) (go_on agent_echo next) IsLeft
        (send_data_lem C e (b ∷ bytes) fit) (λ f failure fit'. go_on_lem next f failure h fit')

  after_read_lem :
      (error : ReadError) (e : AgentEcho) (next : AgentEcho → RunEnd AgentEcho)
      → (error ≡ no_error → (f : AgentEcho) → IsFit C f → RunEnds C IsLeft (next f))
      → IsFit C e
      → RunEnds C IsLeft (after_read agent_echo error e next)
  unfolding agent_echo
  after_read_lem no_error e next h fit = h refl e fit
  after_read_lem at_eof e next h fit =
      after_lem IsShut (agent_echo.done e)
        (λ f failure. after agent_echo (agent_echo.shutdown f) (λ g failure'. run_returned g))
        IsLeft (close_with_lem C e streamflow_wrap_done_msg fit)
        (λ f failure shut_off.
          returned_lem IsLeft f (shutdown_lem f (inr shut_off)) (λ g shut_off'. inr shut_off'))
  after_read_lem read_failed e next h fit = failed_lem e status_bad_gateway fit

  reread_lem :
      (b : Bool) (bytes : List ℕ) (e : AgentEcho)
      → IsFit C e
      → IsFit C (reread agent_echo b bytes e)
  unfolding agent_echo
  reread_lem false bytes e fit = fit
  reread_lem true bytes e fit = record {
    sound = record { same = fit.sound.same; heard = fit.sound.heard; roomy = fit.sound.roomy };
    cause = fit.cause;
  }

  pub send_body_lem :
      (rs : List BodyRead) (e : AgentEcho)
      → EndsBody rs
      → (IsInterrupted rs → C)
      → IsFit C e
      → RunEnds C IsLeft (send_body agent_echo rs e)
  unfolding send_body
  send_body_lem [] e ends cause fit = absurd ends
  send_body_lem (r ∷ rs) e ends cause fit =
      let rest = λ (g : AgentEcho). send_body agent_echo rs g in
      check_ctx_lem r.ctx_done e
        (λ f.
          send_chunk agent_echo r.chunk (reread agent_echo r.overtakes r.chunk f)
            (λ g. after_read agent_echo r.error g rest))
        (λ over. cause (inl over))
        (λ f. λ fit'.
          send_chunk_lem r.chunk (reread agent_echo r.overtakes r.chunk f)
            (λ g. after_read agent_echo r.error g rest)
            (λ g.
              after_read_lem r.error g rest
                (λ more h. send_body_lem rs h (more_lem r rs more ends) (λ over. cause (inr over))))
            (reread_lem r.overtakes r.chunk f fit'))
        fit
