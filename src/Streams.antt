-- ===== src/Streams.antt =====
-- app/server/stream.go: the table of HTTP requests in flight. An echo is shared by the table, the
-- RPC that feeds it and the HTTP handler, so the table holds a reference into `Echoes`.
pub mod Flush
use grpc_datacon.Common.{
  String, List, [], ◌∷◌, Option, none, some, Bool, true, false, ◌==◌, string_eq, if◌then◌else◌,
}
use grpc_datacon.Common.Assoc.{Assoc, get, put, delete}
use grpc_datacon.Echo.{EchoError, EchoCall, returned, stuck, panicked, HttpEcho}
use grpc_datacon.Sessions.{AgentContext}

-- `echo` names the echo; `closechan` is never used.
pub record Stream : Type 0 where
  pub agent_id : String
  pub session_id : String
  pub echo : String

pub record StreamManager : Type 0 where
  pub streams : Assoc String Stream

unfoldable pub new_stream_manager : StreamManager
new_stream_manager = record { streams = [] }

unfoldable pub register : StreamManager → AgentContext → String → String → StreamManager
register sm session stream_id echo = record sm {
  streams =
      put sm.streams stream_id
        (record { agent_id = session.agent_id; session_id = session.session_id; echo = echo });
}

unfoldable pub unregister : StreamManager → String → StreamManager
unregister sm stream_id = record sm { streams = delete sm.streams stream_id }

unfoldable pub find : StreamManager → String → Option Stream
find sm stream_id = get sm.streams stream_id

-- The state of each echo, by its reference.
abbrev pub Echoes : Type 0 → Type 0
Echoes S = String → S

unfoldable pub update {ℓ} : {S : Type ℓ} → (String → S) → String → S → String → S
update f k v j = if k == j then v else f j

-- The first loop of `flushUnlocked`.
unfoldable pub targets_of : String → List (String × Stream) → List String
targets_of session_id [] = []
targets_of session_id ((k, v) ∷ rest) =
    let more = targets_of session_id rest in if v.session_id == session_id then k ∷ more else more

-- How `FlushAgent` ends. In the other cases the lock of the manager stays held: for ever, or until
-- the panic ends the process.
pub data FlushCall (S : Type 0) : Type 0 where
  flushed : StreamManager → Echoes S → FlushCall S
  flush_stuck : StreamManager → Echoes S → FlushCall S
  flush_panicked : StreamManager → Echoes S → FlushCall S

module _ {S : Type 0} (ops : HttpEcho S) where
  -- One round of the second loop: `stream.echo.Cancel(ctx)`, whose error is dropped, then `delete`.
  abbrev pub after_cancel :
      StreamManager
      → Echoes S
      → String
      → Stream
      → EchoCall S
      → (StreamManager → Echoes S → FlushCall S)
      → FlushCall S
  after_cancel sm echoes target stream (returned s e) next =
      next (unregister sm target) (update echoes stream.echo s)
  after_cancel sm echoes target stream (stuck s) next = flush_stuck sm (update echoes stream.echo s)
  after_cancel sm echoes target stream (panicked s) next =
      flush_panicked sm (update echoes stream.echo s)

  abbrev pub cancel_found :
      StreamManager
      → Echoes S
      → String
      → Option Stream
      → (StreamManager → Echoes S → FlushCall S)
      → FlushCall S
  cancel_found sm echoes target none next = flush_panicked sm echoes
  cancel_found sm echoes target (some stream) next =
      after_cancel sm echoes target stream (ops.cancel (echoes stream.echo)) next

  -- The second loop. A target that is gone is a nil pointer, whose field is read.
  unfoldable pub cancel_each : List String → StreamManager → Echoes S → FlushCall S
  unfolding unregister update
  cancel_each [] sm echoes = flushed sm echoes
  cancel_each (target ∷ rest) sm echoes =
      cancel_found sm echoes target (get sm.streams target) (cancel_each rest)

  unfoldable pub flush_agent : StreamManager → AgentContext → Echoes S → FlushCall S
  unfolding cancel_each targets_of
  flush_agent sm session echoes = cancel_each (targets_of session.session_id sm.streams) sm echoes
