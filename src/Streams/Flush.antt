-- ===== src/Streams/Flush.antt =====
-- `FlushAgent` of app/server/stream.go over the echoes of app/server/echo.go: what it removes, and
-- when it returns at all.
mod Targets
mod Rounds
pub mod Left
pub use Targets.{IsValid, belongs, make-IsValid, register-IsValid, unregister-IsValid}
pub use Rounds.{IsServed, canceled}
use Targets.{contains-targets_of, targets_of-IsReady}
use Rounds.{AllServed-each, cancel_each-flushed, cancel_each-flush_stuck}
use grpc_datacon.Common.{
  ℕ, String, List, Option, none, some, true, false, ◌==◌, string_eq, if◌then◌else◌, ◌≡◌, arith,
}
use grpc_datacon.Common.Assoc.{get}
use grpc_datacon.HttpWriter.{ResponseWriter, WriteResult}
use grpc_datacon.ServerEcho.{EchoPair, server_echo}
use grpc_datacon.Sessions.{AgentContext}
use grpc_datacon.Streams.{
  Stream, StreamManager, Echoes, flushed, flush_stuck, flush_agent, targets_of,
}

-- A stream of the session is dropped.
abbrev pub remaining : String → Option Stream → Option Stream
remaining session_id found = if belongs session_id found then none else found

-- An echo whose stream is of the session has been cancelled.
abbrev pub settled : String → Option Stream → EchoPair → EchoPair
settled session_id found p = if belongs session_id found then canceled p else p

module _ (net : ResponseWriter → List ℕ → WriteResult) (sm : StreamManager) (session : AgentContext)
    (echoes : Echoes EchoPair) where
  -- If every HTTP request of the session still has its handler, a flush returns: the streams of the
  -- session leave the table and all others stay, and exactly the echoes of the session's streams are
  -- cancelled, their handlers ended.
  pub flush_agent-flushed :
      IsValid sm
      → ((k : String) → belongs session.session_id (get sm.streams k) ≡ true → IsServed (echoes k))
      → (sm' : StreamManager) × (echoes' : Echoes EchoPair) × (flush_agent
            (server_echo net)
            sm
            session
            echoes
          ≡ flushed sm' echoes')
        × ((k : String) → get sm'.streams k ≡ remaining session.session_id (get sm.streams k))
        × ((k : String) → echoes' k ≡ settled session.session_id (get sm.streams k) (echoes k))
  unfolding flush_agent
  flush_agent-flushed v served =
      let picked = λ (k : String). contains-targets_of session.session_id k sm.streams v.distinct in
      let (sm', echoes', ends, left, states) =
        cancel_each-flushed net (targets_of session.session_id sm.streams) sm echoes
          (targets_of-IsReady session.session_id sm.streams v.distinct v.owns)
          (AllServed-each echoes _ (λ k e. served k (ground (arith, picked k)))) in
      (
        sm',
        echoes',
        ends,
        λ k. ground (arith, left k, picked k),
        λ k. ground (arith, states k, picked k),
      )

  -- If the handler of one HTTP request of the session has returned, because its client has gone or
  -- a write to it failed, a flush never returns, and the lock of the table stays held.
  pub flush_agent-flush_stuck :
      (k : String)
      → IsValid sm
      → belongs session.session_id (get sm.streams k) ≡ true
      → (echoes k).client.running ≡ false
      → (sm' : StreamManager) × (echoes' : Echoes EchoPair) × (flush_agent
            (server_echo net)
            sm
            session
            echoes
          ≡ flush_stuck sm' echoes')
  unfolding flush_agent
  flush_agent-flush_stuck k v ours gone =
      cancel_each-flush_stuck net (targets_of session.session_id sm.streams) sm echoes k
        (targets_of-IsReady session.session_id sm.streams v.distinct v.owns)
        (ground (arith, contains-targets_of session.session_id k sm.streams v.distinct)) gone
