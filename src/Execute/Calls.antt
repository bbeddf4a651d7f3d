-- ===== src/Execute/Calls.antt =====
-- How the calls of the echo of app/client/echo.go end: while somebody receives, none waits for ever,
-- and a send panics only after the stream has been ended.
use grpc_datacon.Common.{
  ℕ, List, [], ◌∷◌, ◌++◌, none, Bool, true, false, not, ◌≡◌, refl, sym, ap, subst, arith,
  if◌then◌else◌,
}
use grpc_datacon.Tunnel.{
  TunnelHeaders, StreamFlow, streamflow_wrap_data_msg, streamflow_wrap_header_msg,
  streamflow_wrap_done_msg,
}
use grpc_datacon.Echo.{EchoCall, returned, stuck, panicked}
use grpc_datacon.AgentEcho.{AgentEcho, bare_headers, posted, send, close_with, agent_echo}

-- The channel is open as long as the stream is, as long as it is open somebody receives, and no `Send`
-- of the RPC blocks for ever.
pub record IsSound (e : AgentEcho) : Type 0 where
  pub same : e.chan_closed ≡ e.closed
  pub heard : e.sending ≡ not e.closed
  pub roomy : e.room ≡ none

-- The stream is ended: nothing more can be sent, and `RunDataSender` has returned.
pub record IsShut (e : AgentEcho) : Type 0 where
  pub ended : e.closed ≡ true
  pub chan_shut : e.chan_closed ≡ true
  pub unheard : e.sending ≡ false
  pub roomy : e.room ≡ none

-- A call returns and leaves `P`, or panics because of `C`.
abbrev pub CallEnds : Type 0 → (AgentEcho → Type 0) → EchoCall AgentEcho → Type 0
CallEnds C P (returned e failure) = P e
CallEnds C P (stuck e) = ⊥
CallEnds C P (panicked e) = C

module _ (C : Type 0) where
  -- The stream is only ended if something went wrong.
  pub record IsFit (e : AgentEcho) : Type 0 where
    pub sound : IsSound e
    pub cause : e.closed ≡ true → C

  pub if_lem :
      (P : AgentEcho → Type 0) (b : Bool) (x y : EchoCall AgentEcho)
      → (b ≡ true → CallEnds C P x)
      → (b ≡ false → CallEnds C P y)
      → CallEnds C P (if b then x else y)
  if_lem P true x y h k = h refl
  if_lem P false x y h k = k refl

  -- A send goes through while the channel is open.
  send_lem :
      (P : AgentEcho → Type 0) (e : AgentEcho) (msg : StreamFlow)
      (rest : AgentEcho → EchoCall AgentEcho)
      → (e.chan_closed ≡ true → C)
      → e.sending ≡ not e.chan_closed
      → e.room ≡ none
      → (e.chan_closed ≡ false → CallEnds C P (rest (record e { out = e.out ++ msg ∷ [] })))
      → CallEnds C P (send e msg rest)
  unfolding send
  send_lem P e msg rest cause heard roomy h = if_lem P e.chan_closed _ _ cause (λ open_chan.
      if_lem P e.sending _ _
        (λ yes'. subst (λ f. CallEnds C P (rest f)) (sym (ap (posted e msg) roomy)) (h open_chan))
        (λ no'. ground arith))

  pub CallEnds-map :
      (P Q : AgentEcho → Type 0) (call : EchoCall AgentEcho)
      → ((f : AgentEcho) → P f → Q f)
      → CallEnds C P call
      → CallEnds C Q call
  CallEnds-map P Q (returned e failure) h ends = h e ends
  CallEnds-map P Q (stuck e) h ends = absurd ends
  CallEnds-map P Q (panicked e) h ends = ends

  fit_send :
      (P : AgentEcho → Type 0) (e : AgentEcho) (msg : StreamFlow)
      (rest : AgentEcho → EchoCall AgentEcho)
      → IsFit e
      → ((f : AgentEcho) → IsFit f → CallEnds C P (rest f))
      → CallEnds C P (send e msg rest)
  fit_send P e msg rest fit h =
      send_lem P e msg rest (λ shut. fit.cause (ground arith)) (ground arith) fit.sound.roomy
        (λ open_chan.
          h (record e { out = e.out ++ msg ∷ [] })
            (record {
              sound = record {
                same = fit.sound.same;
                heard = fit.sound.heard;
                roomy = fit.sound.roomy;
              };
              cause = fit.cause;
            }))

  pub headers_lem :
      (e : AgentEcho) (h : TunnelHeaders) → IsFit e → CallEnds C IsFit (agent_echo.headers e h)
  unfolding agent_echo
  headers_lem e h fit =
      fit_send IsFit e (streamflow_wrap_header_msg h)
        (λ f. returned (record f { headers_sent = true }) none) fit
        (λ f fit'. record {
          sound = record {
            same = fit'.sound.same;
            heard = fit'.sound.heard;
            roomy = fit'.sound.roomy;
          };
          cause = fit'.cause;
        })

  pub send_data_lem :
      (e : AgentEcho) (bytes : List ℕ) → IsFit e → CallEnds C IsFit (agent_echo.send_data e bytes)
  unfolding agent_echo
  send_data_lem e bytes fit =
      fit_send IsFit e (streamflow_wrap_data_msg bytes) (λ f. returned f none) fit (λ f fit'. fit')

  finish_lem :
      (e : AgentEcho)
      → IsFit e
      → CallEnds C IsFit (send e streamflow_wrap_done_msg (λ f. returned f none))
  finish_lem e fit =
      fit_send IsFit e streamflow_wrap_done_msg (λ f. returned f none) fit (λ f fit'. fit')

  pub fail_lem : (e : AgentEcho) (code : ℕ) → IsFit e → CallEnds C IsFit (agent_echo.fail e code)
  unfolding agent_echo
  fail_lem e code fit =
      if_lem IsFit e.headers_sent _ _ (λ sent. finish_lem e fit)
        (λ unsent.
          fit_send IsFit e (streamflow_wrap_header_msg (bare_headers e.stream_id code))
            (λ f. send f streamflow_wrap_done_msg (λ g. returned g none)) fit finish_lem)

  -- The stream is ended, and the goroutine that sends with it.
  pub close_with_lem :
      (e : AgentEcho) (msg : StreamFlow) → IsFit e → CallEnds C IsShut (close_with e msg)
  unfolding close_with
  close_with_lem e msg fit =
      if_lem IsShut e.closed _ _
        (λ over. record {
          ended = over;
          chan_shut = ground arith;
          unheard = ground arith;
          roomy = fit.sound.roomy;
        })
        (λ live.
          send_lem IsShut (record e { closed = true }) msg
            (λ f. returned (record f { chan_closed = true; sending = false }) none)
            (λ shut_chan. fit.cause (ground arith)) (ground arith) fit.sound.roomy
            (λ open_chan. record {
              ended = refl;
              chan_shut = refl;
              unheard = refl;
              roomy = fit.sound.roomy;
            }))
