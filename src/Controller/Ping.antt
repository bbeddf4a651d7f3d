-- ===== src/Controller/Ping.antt =====
-- `Hello` and `Ping` of app/server/server.go against the table of sessions.
use mathlib.Core.List.{Memᴰ}
use grpc_datacon.Common.{
  ℕ, String, List, ◌∷◌, map, none, some, true, ok, ◌==◌, string_eq, if◌then◌else◌, ◌≡◌, refl, inl,
  inr, arith, Option-cases, subst,
}
use grpc_datacon.Common.Assoc.{get, put, get-put, get-put_self}
use grpc_datacon.Common.Int64.{Int64}
use grpc_datacon.Tunnel.{EndpointHealth, HelloRequest}
use grpc_datacon.JwtAuth.{Context}
use grpc_datacon.Sessions.{
  AgentKey, agent_key_eq, AgentContext, AgentSessions, SessionSearch, new_session_context,
  endpoint_of, find, find_session, touch_session, is_idle, expire_old_sessions,
}
use grpc_datacon.Sessions.Valid.{IsValid, get-find_session, register_session-IsValid}
use grpc_datacon.Sessions.Lookup.{Offers, Offers-cons, IsAnswer, find-IsAnswer}
use grpc_datacon.Sessions.Expiry.{get-expire_old_sessions}
use grpc_datacon.Controller.{hello, ping, ping_panicked, replied}

Offers-map :
    (target : SessionSearch) (e : EndpointHealth) (es : List EndpointHealth)
    → Memᴰ e es
    → e.configured ≡ true
    → e.name ≡ target.service_name
    → e.type ≡ target.service_type
    → Offers target (map endpoint_of es)
unfolding endpoint_of
Offers-map target e es (Memᴰ.head {x = x} {xs = xs} same) c n t =
    subst (λ y. Offers target (map endpoint_of (y ∷ xs))) same
      (record {
        ep = endpoint_of e;
        listed = Memᴰ.head refl;
        configured = c;
        same_name = n;
        same_type = t;
      })
Offers-map target e es (Memᴰ.tail {x = x} {xs = xs} m) c n t =
    Offers-cons target (endpoint_of x) (map endpoint_of xs) (Offers-map target e xs m c n t)

-- The context that the interceptor makes for an agent and a session.
abbrev pub as_session : String → String → Context
as_session agent_id session_id = record { agent_id = some agent_id; session_id = some session_id }

module _ (a : AgentSessions) (agent_id old : String) (request : HelloRequest)
    (session_id version : String) (now : Int64) where
  abbrev session_key : AgentKey
  session_key = record { agent_id = agent_id; session_id = session_id }

  abbrev session : AgentContext
  session =
      new_session_context agent_id session_id request.hostname request.version request.agent_info
        request.endpoints now

  -- After `Hello`, a later RPC of the agent under the session id that it was given finds the session
  -- with what the agent sent, and a session under any other key is what it was.
  pub find_session-hello :
      (find_session
          (hello a (as_session agent_id old) request session_id version now).0
          (as_session agent_id session_id)
        ≡ ok session)
      × ((k : AgentKey)
          → get (hello a (as_session agent_id old) request session_id version now).0.agents k
            ≡ (if session_key == k then some session else get a.agents k))
  unfolding hello find_session new_session_context
  find_session-hello = (
    ground (arith, get-put_self a.agents session_key session),
    λ k. get-put a.agents session_key k session,
  )

  get-hello :
      get (hello a (as_session agent_id old) request session_id version now).0.agents session_key
      ≡ some session
  unfolding hello
  get-hello = ground (arith, get-put_self a.agents session_key session)

  pub hello-IsValid :
      IsValid a → IsValid (hello a (as_session agent_id old) request session_id version now).0
  unfolding hello
  hello-IsValid v =
      register_session-IsValid a agent_id session_id request.hostname request.version
        request.agent_info request.endpoints now v

  -- After `Hello`, a service request for a configured endpoint that the agent announced is routed to
  -- a session of that agent.
  pub find-hello :
      (e : EndpointHealth)
      → IsValid a
      → Memᴰ e request.endpoints
      → e.configured ≡ true
      → (c : AgentContext) × (find
            (hello a (as_session agent_id old) request session_id version now).0
            (record { agent_id = agent_id; service_name = e.name; service_type = e.type })
          ≡ some c)
        × (c.agent_id ≡ agent_id)
  unfolding new_session_context
  find-hello e v m h = elim (Option-cases (find greeted target)) [
    | inl miss ↦
        let none_matches : IsAnswer greeted target none = rw miss at answer in
        absurd (none_matches session_key session (get-hello, (refl, offers)))
    | inr (c, hit) ↦
        let found : IsAnswer greeted target (some c) = rw hit at answer in (c, hit, found.1.0)
  ]
    where
      greeted : AgentSessions
      greeted = (hello a (as_session agent_id old) request session_id version now).0

      target : SessionSearch
      target = record { agent_id = agent_id; service_name = e.name; service_type = e.type }

      answer : IsAnswer greeted target (find greeted target)
      answer = find-IsAnswer greeted target (hello-IsValid v)

      offers : Offers target session.endpoints
      offers = Offers-map target e request.endpoints m h refl refl

-- A `Ping` during which no other call changes the table is answered with the agent's own timestamp,
-- and sets the time of last use of its session, and nothing else.
pub ping_alone :
    (a : AgentSessions) (ctx : Context) (ts now : ℕ) (c : AgentContext)
    → IsValid a
    → find_session a ctx ≡ ok c
    → (b : AgentSessions) × (ping (λ x. x) a ctx ts now
        ≡ replied b (record { ts = now; echoed_ts = ts }))
      × ((k : AgentKey)
          → get b.agents k
            ≡ (if c.key == k then some (record c { last_use = now }) else get a.agents k))
unfolding ping touch_session
ping_alone a ctx ts now c v found =
    let there = get-find_session a ctx c v.keyed found in
    (
      record a { agents = put a.agents c.key (record c { last_use = now }) },
      rw (found, ping) (rw (there, touch_session)),
      λ k. get-put a.agents c.key k (record c { last_use = now }),
    )

-- If the cleaner runs between the two steps of a `Ping` and finds the session idle, the `Ping` writes
-- through a nil pointer: it panics.
pub ping_expired :
    (a : AgentSessions) (ctx : Context) (ts now clock idle_timeout : ℕ) (c : AgentContext)
    → IsValid a
    → find_session a ctx ≡ ok c
    → is_idle clock idle_timeout c ≡ true
    → ping (λ x. expire_old_sessions x clock idle_timeout) a ctx ts now
      ≡ ping_panicked (expire_old_sessions a clock idle_timeout)
unfolding ping touch_session
ping_expired a ctx ts now clock idle_timeout c v found idle =
    let there = get-find_session a ctx c v.keyed found in
    let gone : get (expire_old_sessions a clock idle_timeout).agents c.key ≡ none =
      ground (arith, get-expire_old_sessions a clock idle_timeout c.key v) in
    rw (found, ping) (rw (gone, touch_session))
