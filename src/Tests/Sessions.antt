-- ===== src/Tests/Sessions.antt =====
-- Runs of the session table.
use grpc_datacon.Common.{
  ℕ, List, none, ◌≢◌, ap, Bool, false, [], ◌∷◌, some, true, ok, ◌==◌, string_eq, ◌≡◌, ◌↔◌, ◌≤◌,
  refl, arith,
}
use grpc_datacon.Common.Assoc.{get}
use grpc_datacon.Sessions.{
  SessionSearch, AgentKey, agent_key_eq, AgentContext, AgentSessions, find, find_session,
  expire_old_sessions, is_idle, new_session_context,
}
use grpc_datacon.Sessions.Valid.{IsValid}
use grpc_datacon.Sessions.Lookup.{Matches, IsAnswer, find-IsAnswer}
use grpc_datacon.Sessions.Order.{Same, Alike, Same-Alike}
use grpc_datacon.Sessions.Expiry.{expire_old_sessions_iff}
use grpc_datacon.Controller.{ping, ping_panicked}
use grpc_datacon.Controller.Alive.{
  Event, pings, ticks, greets, run, IsTimely, at_end, own_ping, in_time, other_greets, run-alive,
}
use grpc_datacon.Controller.Ping.{as_session, ping_expired}
use grpc_datacon.Common.Int64.{add64, lt64}
use grpc_datacon.Tests.Fixtures.{health, hello_request, session, sessions}

pub sessions-IsValid : IsValid sessions
unfolding get
sessions-IsValid = record { distinct = (refl, tt); keyed = (refl, tt) }

abbrev key : AgentKey
key = record { agent_id = "smith"; session_id = "s1" }

there : get sessions.agents key ≡ some session
unfolding get agent_key_eq
there = refl

pub found : find_session sessions (as_session "smith" "s1") ≡ ok session
unfolding find_session get agent_key_eq
found = refl

idle_at_400 : is_idle 400 200 session ≡ true
unfolding is_idle lt64 add64
idle_at_400 = refl

find-IsAnswer_example :
    IsAnswer sessions
      (record { agent_id = "smith"; service_name = "ci"; service_type = "jenkins" })
      (find sessions (record { agent_id = "smith"; service_name = "ci"; service_type = "jenkins" }))
find-IsAnswer_example =
    find-IsAnswer sessions
      (record { agent_id = "smith"; service_name = "ci"; service_type = "jenkins" })
      sessions-IsValid

expire_old_sessions_iff_example :
    (get (expire_old_sessions sessions 400 200).agents key ≡ some session) ↔ (400 ≤ 300)
expire_old_sessions_iff_example =
    expire_old_sessions_iff sessions 400 200 key session sessions-IsValid there (omega arith)
      (omega arith)

abbrev greeted : AgentContext
unfolding new_session_context
greeted = new_session_context "neo" "s2" "host" "v1" (record { annotations = [] }) (health ∷ []) 500

-- The two agents in either order.
abbrev smith_first : AgentSessions
unfolding greeted new_session_context
smith_first = record { agents = (key, session) ∷ (greeted.key, greeted) ∷ [] }

abbrev neo_first : AgentSessions
unfolding greeted new_session_context
neo_first = record { agents = (greeted.key, greeted) ∷ (key, session) ∷ [] }

two_agents : ◌≡◌ {A = Bool} (key == greeted.key) false
unfolding agent_key_eq greeted new_session_context
two_agents = refl

smith_first-IsValid : IsValid smith_first
unfolding get smith_first agent_key_eq greeted new_session_context
smith_first-IsValid = record { distinct = (refl, (refl, tt)); keyed = (refl, (refl, tt)) }

neo_first-IsValid : IsValid neo_first
unfolding get neo_first agent_key_eq greeted new_session_context
neo_first-IsValid = record { distinct = (refl, (refl, tt)); keyed = (refl, (refl, tt)) }

either_order : Same smith_first neo_first
unfolding get smith_first neo_first
either_order k = ground (
  arith,
  two_agents,
  agent_key_eq.beq_iff key k,
  agent_key_eq.beq_iff greeted.key k,
  agent_key_eq.beq_iff key greeted.key,
)

Same-Alike_example : Alike smith_first neo_first
Same-Alike_example =
    Same-Alike smith_first neo_first smith_first-IsValid neo_first-IsValid either_order

ping_expired_example :
    ping (λ x. expire_old_sessions x 400 200) sessions (as_session "smith" "s1") 7 400
    ≡ ping_panicked (expire_old_sessions sessions 400 200)
ping_expired_example =
    ping_expired sessions (as_session "smith" "s1") 7 400 400 200 session sessions-IsValid found
      idle_at_400

-- The agent pings at 155 and 200; the cleaner ticks at 150 and 210; another agent greets.
abbrev events : List Event
events =
    ticks 150
    ∷ pings key 7 155
    ∷ greets (record { agent_id = "neo"; session_id = "s2" }) hello_request "v2" 160
    ∷ pings key 8 200
    ∷ ticks 210
    ∷ []

another : ◌≢◌ {A = AgentKey} (record { agent_id = "neo"; session_id = "s2" }) key
another e = ground (arith, ap (λ (k : AgentKey). k.agent_id) e, string_eq.beq_iff "neo" "smith")

events-IsTimely : IsTimely 60 key 100 events
events-IsTimely = in_time 150 (omega arith) (omega arith) (omega arith) (
    own_ping 7 155 (
      other_greets (record { agent_id = "neo"; session_id = "s2" }) hello_request "v2" 160 another
        (own_ping 8 200 (in_time 210 (omega arith) (omega arith) (omega arith) at_end))))

run-alive_example :
    ((last : ℕ) × (find_session (run 60 sessions events) (as_session "smith" "s1")
        ≡ ok (record session { last_use = last })))
    × ((target : SessionSearch)
        → Matches target session
        → ¬ (find (run 60 sessions events) target ≡ none))
run-alive_example = run-alive 60 session sessions events sessions-IsValid there events-IsTimely
