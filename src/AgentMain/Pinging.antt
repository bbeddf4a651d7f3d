-- ===== src/AgentMain/Pinging.antt =====
-- The loop `pinger` of app/client/main.go against `Ping` of app/server/server.go, through the
-- interceptor of app/server/jwtauth.go.
use grpc_datacon.Common.{ℕ, List, [], ◌∷◌, Option, none, some, false, ok, ◌≡◌, refl, ap, ◌∙◌, subst}
use grpc_datacon.Common.Assoc.{put}
use grpc_datacon.Common.Int64.{Int64}
use grpc_datacon.Tunnel.{PingResponse}
use grpc_datacon.JwtUtil.{JwtRegistry, JwtState, validate_agent_jwt}
use grpc_datacon.JwtAuth.{Metadata, authorize, intercept}
use grpc_datacon.Sessions.{agent_key_eq, AgentContext, AgentSessions}
use grpc_datacon.Controller.{PingCall, hello_first, ping_panicked, replied, ping}
use grpc_datacon.Controller.Pinged.{answered_ping, sessions_of}
use grpc_datacon.Controller.Alive.{IsUsed, own_ping-IsUsed}
use grpc_datacon.AgentMain.{AgentSession, get_header_context, pinger}
use grpc_datacon.AgentMain.Greeted.{authorize-get_header_context, no_context, on_ok}

-- The reply to a ping, if there is one.
abbrev pub reply_of : Option PingCall → Option (AgentSessions × PingResponse)
reply_of none = none
reply_of (some (hello_first a)) = none
reply_of (some (ping_panicked a)) = none
reply_of (some (replied a response)) = some (a, response)

-- The time of the last ping.
abbrev pub last_of : Int64 → List Int64 → Int64
last_of u [] = u
last_of u (ts ∷ times) = last_of ts times

module _ (jwt : JwtRegistry) (s : JwtState jwt) where
  -- `Ping` at the controller, whose clock is the agent's; no other call comes in between.
  abbrev pub controller_ping : AgentSessions → Metadata → ℕ → Option (AgentSessions × PingResponse)
  controller_ping a md ts =
      reply_of
        (on_ok jwt s (intercept jwt s (some md) no_context (λ ctx. ping (λ x. x) a ctx ts ts)))

  module _ (session : AgentSession) (c : AgentContext)
      (valid : validate_agent_jwt jwt s session.authorization none ≡ ok c.agent_id)
      (own : session.session_id ≡ c.session_id) where
    replied_lem :
        (u ts : ℕ) (a : AgentSessions)
        → IsUsed c u a
        → (b : AgentSessions) × (controller_ping a (get_header_context session) ts
            ≡ some (b, record { ts = ts; echoed_ts = ts }))
          × IsUsed c ts b
    unfolding intercept
    replied_lem u ts a h =
        let k = c.key in
        let identity : authorize jwt s (some (get_header_context session))
            ≡ ok (c.agent_id, c.session_id) =
          authorize-get_header_context jwt s session c.agent_id valid
          ∙ ap (λ x. ok (c.agent_id, x)) own in
        let d : AgentContext = record c { last_use = u } in
        let answer = answered_ping a c.key ts ts d h.there h.there in
        let b : AgentSessions = record a {
          agents = put a.agents c.key (record c { last_use = ts });
        } in
        (
          b,
          rw identity (rw answer refl),
          subst (IsUsed c ts) (ap sessions_of answer) (own_ping-IsUsed c u a h ts ts),
        )

    -- Where only the pings of one agent, whose token is good, touch the table of sessions, and each of
    -- them is delivered and answered at the time that it is sent, by the clock of the agent, all of
    -- them are answered and the loop goes on; the agent's session is left as it was, but for the time
    -- of its last use, which is that of the last ping.
    pub pinger-sleeps :
        (u : Int64) (a : AgentSessions) (times : List ℕ)
        → IsUsed c u a
        → (b : AgentSessions) × (pinger session controller_ping a times ≡ (b, false))
          × IsUsed c (last_of u times) b
    unfolding pinger
    pinger-sleeps u a [] h = (a, refl, h)
    pinger-sleeps u a (ts ∷ times) h =
        let (b, answered, used) = replied_lem u ts a h in
        let (e, sleeps, last) = pinger-sleeps ts b times used in
        (e, rw (answered, pinger) sleeps, last)
