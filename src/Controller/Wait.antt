-- ===== src/Controller/Wait.antt =====
-- `WaitForRequest` of app/server/server.go: what it forwards, and what it leaves behind.
use mathlib.Core.List.{append-nil, append_assoc}
use grpc_datacon.Common.{
  ℕ, String, List, [], ◌∷◌, ◌++◌, map, Option, none, true, false, ok, ◌==◌, string_eq,
  if◌then◌else◌, ◌≡◌, refl, ◌∙◌, inl, inr, Bool-cases, arith,
}
use grpc_datacon.Common.Assoc.{get}
use grpc_datacon.Tunnel.{TunnelRequest}
use grpc_datacon.HttpWriter.{ResponseWriter, WriteResult}
use grpc_datacon.JwtAuth.{Context}
use grpc_datacon.ServerEcho.{EchoPair, server_echo}
use grpc_datacon.Sessions.{
  AgentKey, agent_key_eq, AgentContext, AgentSessions, find_session, remove_session,
  remove_session_unlocked,
}
use grpc_datacon.Streams.{Stream, StreamManager, Echoes, flushed, register, flush_agent}
use grpc_datacon.Sessions.Expiry.{get-remove_session_unlocked}
use grpc_datacon.Streams.Flush
use grpc_datacon.Streams.Flush.{IsServed, belongs, remaining, register-IsValid, flush_agent-flushed}
use grpc_datacon.Controller.{
  Controller, ServiceRequest, WaitEvent, ctx_done, request, wait_canceled, wait_loop,
  wait_for_request, close_agent_session,
}

-- Requests that are sent to the agent without an error.
abbrev pub sent_all : List ServiceRequest → List WaitEvent
sent_all = map (λ sr. request sr true)

abbrev pub requests : List ServiceRequest → List TunnelRequest
requests = map (λ (sr : ServiceRequest). sr.req)

-- The table of streams with these requests in it.
unfoldable pub register_all : AgentContext → List ServiceRequest → StreamManager → StreamManager
register_all session [] sm = sm
register_all session (sr ∷ srs) sm =
    register_all session srs (register sm session sr.req.stream_id sr.echo)

-- Every request comes with the echo that was made for it.
abbrev pub OwnEchoes : List ServiceRequest → Type 0
OwnEchoes [] = Unit
OwnEchoes (sr ∷ srs) = (sr.echo ≡ sr.req.stream_id) × OwnEchoes srs

register_all-IsValid :
    (session : AgentContext) (srs : List ServiceRequest) (sm : StreamManager)
    → OwnEchoes srs
    → Flush.IsValid sm
    → Flush.IsValid (register_all session srs sm)
unfolding register_all
register_all-IsValid session [] sm own v = v
register_all-IsValid session (sr ∷ srs) sm (e, own) v =
    register_all-IsValid session srs (register sm session sr.req.stream_id sr.echo) own
      (rw e (register-IsValid sm session sr.req.stream_id v))

belongs-remaining :
    (session_id : String) (found : Option Stream)
    → belongs session_id (remaining session_id found) ≡ false
belongs-remaining session_id found = elim (Bool-cases (belongs session_id found)) [
  | inl e ↦ rw e
  | inr e ↦ ground (arith, e)
]

module _ (net : ResponseWriter → List ℕ → WriteResult) (session : AgentContext) where
  wait_loop-sent_all :
      (srs : List ServiceRequest) (es : List WaitEvent) (c : Controller)
      → wait_loop net session (sent_all srs ++ es) c
        ≡ wait_loop net session es (record c {
          streams = register_all session srs c.streams;
          sent = c.sent ++ requests srs;
        })
  unfolding wait_loop register_all
  wait_loop-sent_all [] es c = rw append-nil
  wait_loop-sent_all (sr ∷ srs) es c = wait_loop-sent_all srs es _ ∙ rw append_assoc

  get-remove_twice :
      (a : AgentSessions) (k : AgentKey)
      → get (remove_session (remove_session a session) session).agents k
        ≡ (if session.key == k then none else get a.agents k)
  unfolding remove_session
  get-remove_twice a k = ground (
    arith,
    get-remove_session_unlocked (remove_session_unlocked a session) session k,
    get-remove_session_unlocked a session k,
  )

  closed :
      (c : Controller) (es : List WaitEvent) (sm' : StreamManager) (echoes' : Echoes EchoPair)
      → flush_agent (server_echo net) c.streams session c.echoes ≡ flushed sm' echoes'
      → wait_loop net session (ctx_done ∷ es) c
        ≡ wait_canceled (record c {
          sessions = remove_session (remove_session c.sessions session) session;
          streams = sm';
          echoes = echoes';
        })
  unfolding wait_loop close_agent_session
  closed c es sm' echoes' ends = rw (ends, wait_loop, close_agent_session)

  -- A session waits for requests and its agent disconnects: every request that came before was sent
  -- to the agent, in order, the session leaves the table of sessions and no other one does, and no
  -- stream of the session is left in the table of streams. The session is in the table, each request
  -- has its own echo, and the HTTP clients of the session's streams are still there.
  pub wait_for_request-canceled :
      (c : Controller) (ctx : Context) (srs : List ServiceRequest) (es : List WaitEvent)
      → find_session c.sessions ctx ≡ ok session
      → OwnEchoes srs
      → Flush.IsValid c.streams
      → ((k : String)
          → belongs session.session_id (get (register_all session srs c.streams).streams k) ≡ true
          → IsServed (c.echoes k))
      → (d : Controller) × (wait_for_request net c ctx (sent_all srs ++ ctx_done ∷ es)
          ≡ wait_canceled d)
        × (d.sent ≡ c.sent ++ requests srs)
        × ((k : AgentKey)
            → get d.sessions.agents k
              ≡ (if session.key == k then none else get c.sessions.agents k))
        × ((k : String) → belongs session.session_id (get d.streams.streams k) ≡ false)
  unfolding wait_for_request
  wait_for_request-canceled c ctx srs es found own v served =
      let (sm', echoes', ends, left, states) =
        flush_agent-flushed net (register_all session srs c.streams) session c.echoes
          (register_all-IsValid session srs c.streams own v) served in
      (
        record {
          sessions = remove_session (remove_session c.sessions session) session;
          streams = sm';
          echoes = echoes';
          sent = c.sent ++ requests srs;
        },
        rw (found, wait_for_request)
            (wait_loop-sent_all srs (ctx_done ∷ es) c
              ∙ closed
                  (record c {
                    streams = register_all session srs c.streams;
                    sent = c.sent ++ requests srs;
                  })
                  es sm' echoes' ends),
        refl,
        get-remove_twice c.sessions,
        λ k. rw (left k) (belongs-remaining session.session_id _),
      )
