-- ===== src/Controller/Alive.antt =====
-- How long a session of app/server/sessions.go stays, under the pings of the agent (`Ping` of
-- app/server/server.go, the loop `pinger` of app/client/main.go) and the ticks of the cleaner.
use grpc_datacon.Common.{
  ℕ, ◌+◌, ◌≤◌, ◌<◌, ◌^◌, String, List, [], ◌∷◌, map, none, some, false, ok, or_fail, ◌≡◌, ◌≢◌, refl,
  ap, ◌∙◌, arith, subst,
}
use grpc_datacon.Common.Assoc.{get}
use grpc_datacon.Common.Int64.{Int64, lt64-add64}
use grpc_datacon.Tunnel.{HelloRequest}
use grpc_datacon.Sessions.{
  AgentKey, agent_key_eq, AgentContext, AgentSessions, SessionSearch, ticked, find, find_session,
  no_such_session, remove_session, is_idle, expire_old_sessions, check_session_timeouts,
}
use grpc_datacon.Sessions.Expiry.{get-remove_session_unlocked, get-expire_old_sessions, survivor}
use grpc_datacon.Sessions.Lookup.{IsAnswer, Matches, find-IsAnswer}
use grpc_datacon.Sessions.Valid.{IsValid, remove_session-IsValid, expire_old_sessions-IsValid}
use grpc_datacon.Controller.{hello, ping}
use grpc_datacon.Controller.Pinged.{sessions_of, ping-IsPinged}
use grpc_datacon.Controller.Ping.{as_session, find_session-hello, hello-IsValid}

-- What changes the table of sessions.
pub data Event : Type 0 where
  pings : AgentKey → ℕ → Int64 → Event
  ticks : Int64 → Event
  greets : AgentKey → HelloRequest → String → Int64 → Event
  leaves : AgentContext → Event

module _ (idle_timeout : Int64) where
  abbrev pub apply : AgentSessions → Event → AgentSessions
  apply a (pings k ts now) =
      sessions_of (ping (λ x. x) a (as_session k.agent_id k.session_id) ts now)
  apply a (ticks now) = expire_old_sessions a now idle_timeout
  apply a (greets k request version now) =
      (hello a (as_session k.agent_id "") request k.session_id version now).0
  apply a (leaves c) = remove_session a c

  abbrev pub run : AgentSessions → List Event → AgentSessions
  run a [] = a
  run a (e ∷ es) = run (apply a e) es

  -- At each tick the session `k`, last used at the index, was used within the timeout; nothing else
  -- removes it or takes its id, and the times stay in the range of `int64`.
  pub data IsTimely (k : AgentKey) : Int64 → List Event → Type 0 where
    at_end : {u : Int64} → IsTimely k u []
    own_ping :
        {u : Int64} (ts : ℕ) (now : Int64) {es : List Event}
        → IsTimely k now es
        → IsTimely k u (pings k ts now ∷ es)
    other_ping :
        {u : Int64} (j : AgentKey) (ts : ℕ) (now : Int64) {es : List Event}
        → j ≢ k
        → IsTimely k u es
        → IsTimely k u (pings j ts now ∷ es)
    in_time :
        {u : Int64} (now : Int64) {es : List Event}
        → now ≤ u + idle_timeout
        → u + idle_timeout < 2 ^ 63
        → now < 2 ^ 63
        → IsTimely k u es
        → IsTimely k u (ticks now ∷ es)
    other_greets :
        {u : Int64} (j : AgentKey) (request : HelloRequest) (version : String) (now : Int64)
        {es : List Event}
        → j ≢ k
        → IsTimely k u es
        → IsTimely k u (greets j request version now ∷ es)
    other_leaves :
        {u : Int64} (d : AgentContext) {es : List Event}
        → d.key ≢ k
        → IsTimely k u es
        → IsTimely k u (leaves d ∷ es)

-- The session is in the table, as it was but for the time of its last use.
pub record IsUsed (c : AgentContext) (u : Int64) (a : AgentSessions) : Type 0 where
  pub valid : IsValid a
  pub there : get a.agents c.key ≡ some (record c { last_use = u })

module _ (c : AgentContext) (u : Int64) (a : AgentSessions) (h : IsUsed c u a) where
  pub own_ping-IsUsed :
      (ts now : ℕ)
      → IsUsed c now (sessions_of (ping (λ x. x) a (as_session c.agent_id c.session_id) ts now))
  own_ping-IsUsed ts now =
      let p = ping-IsPinged a c.key ts now h.valid in
      record {
        valid = p.valid;
        there = ground (arith, p.entries c.key, h.there, agent_key_eq.beq_iff c.key c.key);
      }

  other_ping-IsUsed :
      (j : AgentKey) (ts now : ℕ)
      → j ≢ c.key
      → IsUsed c u (sessions_of (ping (λ x. x) a (as_session j.agent_id j.session_id) ts now))
  other_ping-IsUsed j ts now apart =
      let p = ping-IsPinged a j ts now h.valid in
      record {
        valid = p.valid;
        there = ground (arith, p.entries c.key, h.there, agent_key_eq.beq_iff j c.key);
      }

  tick-IsUsed :
      (now idle_timeout : ℕ)
      → now ≤ u + idle_timeout
      → u + idle_timeout < 2 ^ 63
      → now < 2 ^ 63
      → IsUsed c u (expire_old_sessions a now idle_timeout)
  unfolding is_idle
  tick-IsUsed now idle_timeout soon small small_now = record {
    valid = expire_old_sessions-IsValid a now idle_timeout h.valid;
    there =
        get-expire_old_sessions a now idle_timeout c.key h.valid
        ∙ ap (survivor now idle_timeout) h.there
        ∙ ground (arith, lt64-add64 u idle_timeout now small small_now);
  }

  greets-IsUsed :
      (j : AgentKey) (request : HelloRequest) (version : String) (now : ℕ)
      → j ≢ c.key
      → IsUsed c u (hello a (as_session j.agent_id "") request j.session_id version now).0
  greets-IsUsed j request version now apart = record {
    valid = hello-IsValid a j.agent_id "" request j.session_id version now h.valid;
    there = ground (
      arith,
      (find_session-hello a j.agent_id "" request j.session_id version now).1 c.key,
      h.there,
      agent_key_eq.beq_iff j c.key,
    );
  }

  leaves-IsUsed : (d : AgentContext) → d.key ≢ c.key → IsUsed c u (remove_session a d)
  unfolding remove_session
  leaves-IsUsed d apart = record {
    valid = remove_session-IsValid a d h.valid;
    there =
        ground
          (arith, get-remove_session_unlocked a d c.key, h.there, agent_key_eq.beq_iff d.key c.key);
  }

run-IsUsed :
    (idle_timeout : ℕ) (c : AgentContext) (u : Int64) (a : AgentSessions) (es : List Event)
    → IsTimely idle_timeout c.key u es
    → IsUsed c u a
    → (last : Int64) × IsUsed c last (run idle_timeout a es)
run-IsUsed idle_timeout c u a es at_end h = (u, h)
run-IsUsed idle_timeout c u a es (own_ping ts now {es = rest} t) h =
    run-IsUsed idle_timeout c now _ rest t (own_ping-IsUsed c u a h ts now)
run-IsUsed idle_timeout c u a es (other_ping j ts now {es = rest} apart t) h =
    run-IsUsed idle_timeout c u _ rest t (other_ping-IsUsed c u a h j ts now apart)
run-IsUsed idle_timeout c u a es (in_time now {es = rest} soon small small_now t) h =
    run-IsUsed idle_timeout c u _ rest t (tick-IsUsed c u a h now idle_timeout soon small small_now)
run-IsUsed idle_timeout c u a es (other_greets j request version now {es = rest} apart t) h =
    run-IsUsed idle_timeout c u _ rest t (greets-IsUsed c u a h j request version now apart)
run-IsUsed idle_timeout c u a es (other_leaves d {es = rest} apart t) h =
    run-IsUsed idle_timeout c u _ rest t (leaves-IsUsed c u a h d apart)

-- A session that is in the table stays there, as it was but for the time of its last use, and a
-- search for a service that it offers finds an agent. This holds after any run of pings, ticks of the
-- cleaner, greetings and departures in which, at each tick, the last ping of the session, or its Hello
-- where it has not pinged, is no older than the idle timeout, the session itself neither leaves nor is
-- its key greeted again, the times at the ticks are within int64, and nothing happens between the two
-- halves of a ping.
pub run-alive :
    (idle_timeout : ℕ) (c : AgentContext) (a : AgentSessions) (es : List Event)
    → IsValid a
    → get a.agents c.key ≡ some c
    → IsTimely idle_timeout c.key c.last_use es
    → ((last : Int64) × (find_session (run idle_timeout a es) (as_session c.agent_id c.session_id)
          ≡ ok (record c { last_use = last })))
      × ((target : SessionSearch)
          → Matches target c
          → ¬ (find (run idle_timeout a es) target ≡ none))
unfolding find_session
run-alive idle_timeout c a es v there timely =
    let (last, used) =
      run-IsUsed idle_timeout c c.last_use a es timely (record { valid = v; there = there }) in
    let b : AgentSessions = run idle_timeout a es in
    (
      (last, ap (λ x. or_fail x (no_such_session c.key)) used.there),
      λ target matches miss.
          let answer : IsAnswer b target none =
            subst (IsAnswer b target) miss (find-IsAnswer b target used.valid) in
          answer c.key (record c { last_use = last }) (used.there, matches),
    )

-- The cleaner alone: its loop is a run of ticks.
pub check_session_timeouts-run :
    (idle_timeout : ℕ) (a : AgentSessions) (times : List ℕ)
    → check_session_timeouts a idle_timeout (map ticked times)
      ≡ (run idle_timeout a (map ticks times), false)
unfolding check_session_timeouts
check_session_timeouts-run idle_timeout a [] = refl
check_session_timeouts-run idle_timeout a (now ∷ times) =
    check_session_timeouts-run idle_timeout (expire_old_sessions a now idle_timeout) times
