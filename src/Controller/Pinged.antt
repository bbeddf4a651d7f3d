-- ===== src/Controller/Pinged.antt =====
-- What `Ping` of app/server/server.go makes of the table of sessions.
use grpc_datacon.Common.{
  ℕ, Option, none, some, ◌==◌, if◌then◌else◌, ok, err, or_fail, ◌≡◌, refl, sym, ap, ◌∙◌, inl, inr,
  arith, Option-cases, subst,
}
use grpc_datacon.Common.Assoc.{get, put, get-put}
use grpc_datacon.Common.Int64.{Int64}
use grpc_datacon.Sessions.{
  AgentKey, agent_key_eq, AgentContext, AgentSessions, find_session, no_such_session, touch_session,
}
use grpc_datacon.Sessions.Valid.{IsValid, key-get, touch_session-IsValid}
use grpc_datacon.Controller.{PingCall, hello_first, ping_panicked, replied, ping}
use grpc_datacon.Controller.Ping.{as_session}

abbrev pub sessions_of : PingCall → AgentSessions
sessions_of (hello_first a) = a
sessions_of (ping_panicked a) = a
sessions_of (replied a response) = a

-- An entry after a ping.
abbrev pub touched : Int64 → Option AgentContext → Option AgentContext
touched now none = none
touched now (some c) = some (record c { last_use = now })

pub record IsPinged (k : AgentKey) (now : Int64) (a b : AgentSessions) : Type 0 where
  pub valid : IsValid b
  pub entries :
      (j : AgentKey)
      → get b.agents j ≡ (if k == j then touched now (get a.agents j) else get a.agents j)

module _ (a : AgentSessions) (k : AgentKey) (ts : ℕ) (now : Int64) where
  pub missed_ping :
      get a.agents k ≡ none
      → ping (λ x. x) a (as_session k.agent_id k.session_id) ts now ≡ hello_first a
  unfolding ping find_session
  missed_ping e =
      let found : find_session a (as_session k.agent_id k.session_id) ≡ err (no_such_session k) =
        ap (λ x. or_fail x (no_such_session k)) e in
      rw (found, ping) refl

  touch_lem :
      (c : AgentContext)
      → get a.agents c.key ≡ some c
      → touch_session a c now
        ≡ some (record a { agents = put a.agents c.key (record c { last_use = now }) })
  unfolding touch_session
  touch_lem c e = rw (e, touch_session) refl

  pub answered_ping :
      (c : AgentContext)
      → get a.agents k ≡ some c
      → get a.agents c.key ≡ some c
      → ping (λ x. x) a (as_session k.agent_id k.session_id) ts now
        ≡ replied
            (record a { agents = put a.agents c.key (record c { last_use = now }) })
            (record { ts = now; echoed_ts = ts })
  unfolding ping find_session
  answered_ping c e there =
      let found : find_session a (as_session k.agent_id k.session_id) ≡ ok c =
        ap (λ x. or_fail x (no_such_session k)) e in
      rw (found, ping) (rw (touch_lem c there) refl)

  pub ping-IsPinged :
      IsValid a
      → IsPinged k now a (sessions_of (ping (λ x. x) a (as_session k.agent_id k.session_id) ts now))
  ping-IsPinged v = elim (Option-cases (get a.agents k)) [
    | inl e ↦
        subst (IsPinged k now a) (sym (ap sessions_of (missed_ping e)))
          (record { valid = v; entries = λ j. ground (arith, e, agent_key_eq.beq_iff k j) })
    | inr (c, e) ↦
        let same : c.key ≡ k = key-get a.agents k c v.keyed e in
        let there : get a.agents c.key ≡ some c = ap (get a.agents) same ∙ e in
        let fresh : AgentContext = record c { last_use = now } in
        let b : AgentSessions = record a { agents = put a.agents c.key fresh } in
        subst (IsPinged k now a) (sym (ap sessions_of (answered_ping c e there))) (record {
          valid = touch_session-IsValid a b c now v (touch_lem c there);
          entries = λ j. ground (
            arith,
            same,
            e,
            get-put a.agents c.key j fresh,
            agent_key_eq.beq_iff k j,
            agent_key_eq.beq_iff c.key j,
          );
        })
  ]
