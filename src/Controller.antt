-- ===== src/Controller.antt =====
-- app/server/server.go: the RPCs that the controller serves to its agents. Each method of the tables
-- of sessions and of streams is one step, as they take a lock; between two steps of one RPC the others
-- may run.
pub mod Ping
pub mod Pinged
pub mod Alive
pub mod Wait
pub mod Flow
use grpc_datacon.Common.{
  ℕ, String, List, [], ◌∷◌, ◌++◌, Option, none, some, Bool, true, false, Result, ok, err, ◌>>=◌,
  or_fail, ◌==◌, string_eq, if◌then◌else◌,
}
use grpc_datacon.Common.Int64.{Int64}
use grpc_datacon.Tunnel.{
  AgentInfo, HelloRequest, HelloResponse, PingResponse, TunnelRequest, StreamFlow, stream_id,
  headers, data_frame, cancel, done, unset,
}
use grpc_datacon.HttpWriter.{ResponseWriter, WriteResult}
use grpc_datacon.Echo.{EchoError, EchoCall, returned, stuck, panicked, HttpEcho}
use grpc_datacon.ServerEcho.{EchoPair, server_echo}
use grpc_datacon.JwtAuth.{Context, identity_from_context}
use grpc_datacon.Sessions.{
  AgentContext, AgentSessions, find_session, register_session, remove_session, touch_session,
}
use grpc_datacon.Sessions
use grpc_datacon.Streams.{
  Stream, StreamManager, Echoes, flushed, flush_stuck, flush_panicked, FlushCall, register,
  unregister, flush_agent, update,
}
use grpc_datacon.Streams

-- `Hello` of a message with AgentInfo. `session_id` is the new ULID, `now` the time and `version`
-- the program's.
unfoldable pub hello :
    AgentSessions → Context → HelloRequest → String → String → Int64 → AgentSessions × HelloResponse
unfolding register_session identity_from_context
hello a ctx request session_id version now =
    let (agent_id, _) = identity_from_context ctx in
    let (a', session) =
      register_session a agent_id session_id request.hostname request.version request.agent_info
        request.endpoints now in
    (a', record { instance_id = session.session_id; agent_id = agent_id; version = version })

pub data HelloCall : Type 0 where
  hello_panicked : AgentSessions → HelloCall
  greeted : AgentSessions → HelloResponse → HelloCall

abbrev greeting : AgentSessions × HelloResponse → HelloCall
greeting (a, response) = greeted a response

-- `Hello`, whose log line reads the annotations of the AgentInfo: a message without one is a nil
-- pointer, and the controller panics.
unfoldable hello_call :
    AgentSessions → Context → HelloRequest → Option AgentInfo → String → String → Int64 → HelloCall
unfolding hello
hello_call a ctx request none session_id version now = hello_panicked a
hello_call a ctx request (some info) session_id version now =
    greeting (hello a ctx (record request { agent_info = info }) session_id version now)

pub data PingCall : Type 0 where
  hello_first : AgentSessions → PingCall
  ping_panicked : AgentSessions → PingCall
  replied : AgentSessions → PingResponse → PingCall

abbrev pinged : AgentSessions → Int64 → ℕ → Option AgentSessions → PingCall
pinged a now echoed none = ping_panicked a
pinged a now echoed (some b) = replied b (record { ts = now; echoed_ts = echoed })

-- `others` is what the other goroutines do to the table between the two calls that lock it.
unfoldable pub ping :
    (AgentSessions → AgentSessions) → AgentSessions → Context → ℕ → Int64 → PingCall
ping others a ctx ts now = elim (find_session a ctx) [
  | err e ↦ hello_first a
  | ok session ↦ pinged (others a) now ts (touch_session (others a) session now)
]

pub record ServiceRequest : Type 0 where
  pub req : TunnelRequest
  pub echo : String

pub record Controller : Type 0 where
  pub sessions : AgentSessions
  pub streams : StreamManager
  pub echoes : Echoes EchoPair
  pub sent : List TunnelRequest

pub data WaitEvent : Type 0 where
  ctx_done : WaitEvent
  -- whether `stream.Send` succeeds
  request : ServiceRequest → Bool → WaitEvent

pub data WaitEnd : Type 0 where
  wait_refused : WaitEnd
  waiting : Controller → WaitEnd
  wait_canceled : Controller → WaitEnd
  wait_stuck : Controller → WaitEnd
  wait_panicked : Controller → WaitEnd

module _ (net : ResponseWriter → List ℕ → WriteResult) where
  -- The return of `WaitForRequest`, with its deferred `removeSession`.
  abbrev pub leave : Controller → AgentContext → FlushCall EchoPair → WaitEnd
  leave c session (flushed sm echoes) =
      wait_canceled
        (record c { sessions = remove_session c.sessions session; streams = sm; echoes = echoes })
  leave c session (flush_stuck sm echoes) = wait_stuck (record c { streams = sm; echoes = echoes })
  leave c session (flush_panicked sm echoes) =
      wait_panicked (record c { streams = sm; echoes = echoes })

  -- `closeAgentSession`, then the return.
  unfoldable pub close_agent_session : Controller → AgentContext → WaitEnd
  unfolding remove_session flush_agent server_echo
  close_agent_session c session =
      let c' = record c { sessions = remove_session c.sessions session } in
      leave c' session (flush_agent (server_echo net) c.streams session c.echoes)

  -- The loop of `WaitForRequest`, over what its `select` receives in turn.
  unfoldable pub wait_loop : AgentContext → List WaitEvent → Controller → WaitEnd
  unfolding close_agent_session register
  wait_loop session [] c = waiting c
  wait_loop session (ctx_done ∷ events) c = close_agent_session c session
  wait_loop session (request sr true ∷ events) c = wait_loop session events (record c {
    streams = register c.streams session sr.req.stream_id sr.echo;
    sent = c.sent ++ sr.req ∷ [];
  })
  wait_loop session (request sr false ∷ events) c =
      close_agent_session
        (record c { streams = register c.streams session sr.req.stream_id sr.echo }) session

  unfoldable pub wait_for_request : Controller → Context → List WaitEvent → WaitEnd
  unfolding find_session wait_loop
  wait_for_request c ctx events = elim (find_session c.sessions ctx) [
    | err e ↦ wait_refused
    | ok session ↦ wait_loop session events c
  ]

-- What `rpcstream.Recv()` returns.
pub data RecvEvent : Type 0 where
  message : StreamFlow → RecvEvent
  eof : RecvEvent
  rpc_canceled : RecvEvent
  rpc_failed : RecvEvent

pub data FlowStatus : Type 0 where
  flow_ok no_stream_id no_such_stream unreadable stream_error : FlowStatus

-- How the RPC stands: it has returned, waits for the next event, waits for ever in a call of the
-- echo, or has panicked.
pub data FlowEnd (S : Type 0) : Type 0 where
  flow_returned : FlowStatus → S → FlowEnd S
  flow_waiting : S → FlowEnd S
  flow_stuck : S → FlowEnd S
  flow_panicked : S → FlowEnd S

abbrev pub status_teapot : ℕ
status_teapot = 418

module _ {S : Type 0} (ops : HttpEcho S) where
  -- `_ = call`: the error is dropped.
  abbrev pub then_drop : EchoCall S → (S → FlowEnd S) → FlowEnd S
  then_drop (returned s e) next = next s
  then_drop (stuck s) next = flow_stuck s
  then_drop (panicked s) next = flow_panicked s

  abbrev or_else : EchoCall S → (S → EchoCall S) → EchoCall S
  or_else (returned s none) handler = returned s none
  or_else (returned s (some e)) handler = handler s
  or_else (stuck s) handler = stuck s
  or_else (panicked s) handler = panicked s

  -- `done`: a failure of `Done` becomes a `Fail`.
  unfoldable pub done_or_fail : S → EchoCall S
  done_or_fail s = or_else (ops.done s) (λ t. ops.fail t status_teapot)

  -- The loop of `DataFlowAgentToController`, over what `Recv` returns in turn.
  unfoldable pub flow_loop : List RecvEvent → S → FlowEnd S
  unfolding done_or_fail
  flow_loop [] s = flow_waiting s
  flow_loop (eof ∷ es) s = then_drop (done_or_fail s) (flow_returned flow_ok)
  flow_loop (rpc_canceled ∷ es) s = flow_returned flow_ok s
  flow_loop (rpc_failed ∷ es) s = then_drop (ops.fail s status_teapot) (flow_returned stream_error)
  flow_loop (message cancel ∷ es) s = then_drop (ops.cancel s) (flow_returned flow_ok)
  flow_loop (message done ∷ es) s = then_drop (ops.done s) (flow_returned flow_ok)
  flow_loop (message (headers h) ∷ es) s = then_drop (ops.headers s h) (flow_loop es)
  flow_loop (message (data_frame d) ∷ es) s = then_drop (ops.send_data s d) (flow_loop es)
  flow_loop (message (stream_id id) ∷ es) s = flow_loop es s
  flow_loop (message unset ∷ es) s = flow_loop es s

  unfoldable pub get_stream_and_id :
      StreamManager → StreamFlow → Result FlowStatus (String × Stream)
  unfolding Streams.find
  get_stream_and_id sm (stream_id id) = do
    stream ← or_fail (Streams.find sm id) no_such_stream
    ok (id, stream)
  get_stream_and_id sm (headers h) = err no_stream_id
  get_stream_and_id sm (data_frame d) = err no_stream_id
  get_stream_and_id sm cancel = err no_stream_id
  get_stream_and_id sm done = err no_stream_id
  get_stream_and_id sm unset = err no_stream_id

  -- The deferred `Unregister`, and the echo's new state in the heap.
  abbrev settle :
      StreamManager → Echoes S → String → String → FlowEnd S → FlowEnd (StreamManager × Echoes S)
  settle sm echoes id echo (flow_returned status s) =
      flow_returned status (unregister sm id, update echoes echo s)
  settle sm echoes id echo (flow_waiting s) = flow_waiting (sm, update echoes echo s)
  settle sm echoes id echo (flow_stuck s) = flow_stuck (sm, update echoes echo s)
  settle sm echoes id echo (flow_panicked s) = flow_panicked (sm, update echoes echo s)

  abbrev after_first :
      StreamManager
      → Echoes S
      → List RecvEvent
      → Result FlowStatus (String × Stream)
      → FlowEnd (StreamManager × Echoes S)
  unfolding flow_loop
  after_first sm echoes es (err status) = flow_returned status (sm, echoes)
  after_first sm echoes es (ok (id, stream)) =
      settle sm echoes id stream.echo (flow_loop es (echoes stream.echo))

  -- `DataFlowAgentToController`.
  unfoldable pub data_flow :
      StreamManager → Echoes S → List RecvEvent → FlowEnd (StreamManager × Echoes S)
  unfolding flow_loop get_stream_and_id unregister update
  data_flow sm echoes [] = flow_waiting (sm, echoes)
  data_flow sm echoes (message event ∷ es) = after_first sm echoes es (get_stream_and_id sm event)
  data_flow sm echoes (eof ∷ es) = flow_returned unreadable (sm, echoes)
  data_flow sm echoes (rpc_canceled ∷ es) = flow_returned unreadable (sm, echoes)
  data_flow sm echoes (rpc_failed ∷ es) = flow_returned unreadable (sm, echoes)
