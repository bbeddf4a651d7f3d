-- ===== src/System.antt =====
-- The controller of app/server as its goroutines make it, in any order: the RPCs of server.go, the
-- handlers of service_server.go up to the send on `session.out`, and the cleaner of sessions.go. A
-- body that holds a lock is one step, and so is a send on an unbuffered channel with its receipt.
mod Members
pub mod Tended
pub mod Abandoned
use mathlib.Core.List.{Memᴰ}
use grpc_datacon.Common.{
  ℕ, String, List, [], ◌∷◌, ◌++◌, Option, none, some, ok, Result, ◌≡◌, Bool, true, false, not,
}
use grpc_datacon.Common.Int64.{Int64}
use grpc_datacon.Tunnel.{HelloRequest, TunnelRequest}
use grpc_datacon.HttpWriter.{ResponseWriter, WriteResult}
use grpc_datacon.JwtAuth.{Context}
use grpc_datacon.ServerEcho.{EchoPair, server_echo}
use grpc_datacon.Sessions.{
  AgentContext, AgentSessions, SessionSearch, make_agent_sessions, find_session, remove_session,
  touch_session, expire_old_sessions,
}
use grpc_datacon.Sessions
use grpc_datacon.Streams.{
  StreamManager, Echoes, new_stream_manager, register, unregister, flush_agent, flushed,
}
use grpc_datacon.Controller.{ServiceRequest, hello}
use grpc_datacon.Controller.Ping.{as_session}

-- An HTTP handler that sends its request on the channel of a session.
pub record Offer : Type 0 where
  pub session : AgentContext
  pub wanted : ServiceRequest

-- The tables, the session ids that were given out, and the goroutines by where they are: handlers
-- that send, RPCs `WaitForRequest` in their loop, after the removal of their session, and after the
-- flush of its streams.
pub record System : Type 0 where
  pub sessions : AgentSessions
  pub streams : StreamManager
  pub echoes : Echoes EchoPair
  pub issued : List String
  pub offering : List Offer
  pub waiting : List AgentContext
  pub closing : List AgentContext
  pub returning : List AgentContext

unfoldable pub started : Echoes EchoPair → System
unfolding make_agent_sessions new_stream_manager
started echoes = record {
  sessions = make_agent_sessions;
  streams = new_stream_manager;
  echoes = echoes;
  issued = [];
  offering = [];
  waiting = [];
  closing = [];
  returning = [];
}

module _ (net : ResponseWriter → List ℕ → WriteResult) where
  pub data Step (s : System) : System → Type 0 where
    -- `Hello`, with a new ULID
    greet :
        (agent old : String) (request : HelloRequest) (session_id version : String) (now : Int64)
        → ¬ Memᴰ session_id s.issued
        → Step s (record s {
          sessions = (hello s.sessions (as_session agent old) request session_id version now).0;
          issued = session_id ∷ s.issued;
        })
    -- the second half of `Ping`
    touch :
        (c : AgentContext) (now : Int64) (a : AgentSessions)
        → touch_session s.sessions c now ≡ some a
        → Step s (record s { sessions = a })
    -- the cleaner's tick
    clean :
        (now idle_timeout : Int64)
        → Step s (record s { sessions = expire_old_sessions s.sessions now idle_timeout })
    -- a handler has found a session, and begins to send
    offer :
        (target : SessionSearch) (c : AgentContext) (sr : ServiceRequest)
        → Sessions.find s.sessions target ≡ some c
        → Step s (record s { offering = (record { session = c; wanted = sr }) ∷ s.offering })
    -- `WaitForRequest` begins
    open_wait :
        (ctx : Context) (c : AgentContext)
        → find_session s.sessions ctx ≡ ok c
        → Step s (record s { waiting = c ∷ s.waiting })
    -- a request goes from a handler to an RPC that waits on the same channel, which registers it; an
    -- echo is named after its stream
    take :
        (before after : List Offer) (o : Offer) (w : AgentContext)
        → s.offering ≡ before ++ o ∷ after
        → Memᴰ w s.waiting
        → w.key ≡ o.session.key
        → o.wanted.echo ≡ o.wanted.req.stream_id
        → Step s (record s {
          offering = before ++ after;
          streams = register s.streams w o.wanted.req.stream_id o.wanted.echo;
        })
    -- an RPC leaves its loop: `removeSession`, `FlushAgent`, and the deferred `removeSession`
    drop :
        (before after : List AgentContext) (w : AgentContext)
        → s.waiting ≡ before ++ w ∷ after
        → Step s (record s {
          sessions = remove_session s.sessions w;
          waiting = before ++ after;
          closing = w ∷ s.closing;
        })
    flush :
        (before after : List AgentContext) (w : AgentContext) (sm : StreamManager)
        (echoes : Echoes EchoPair)
        → s.closing ≡ before ++ w ∷ after
        → flush_agent (server_echo net) s.streams w s.echoes ≡ flushed sm echoes
        → Step s (record s {
          streams = sm;
          echoes = echoes;
          closing = before ++ after;
          returning = w ∷ s.returning;
        })
    return_wait :
        (before after : List AgentContext) (w : AgentContext)
        → s.returning ≡ before ++ w ∷ after
        → Step s (record s { sessions = remove_session s.sessions w; returning = before ++ after })
    -- an RPC of a stream returns
    end_flow : (id : String) → Step s (record s { streams = unregister s.streams id })
    -- what RPCs and HTTP clients do to the echoes
    stir : (echoes : Echoes EchoPair) → Step s (record s { echoes = echoes })

  pub data Steps (s : System) : System → Type 0 where
    here : Steps s s
    next : {t u : System} → Steps s t → Step t u → Steps s u
