-- ===== src/Sessions/Valid.antt =====
-- The invariant of the session table of app/server/sessions.go, and that every method keeps it.
use grpc_datacon.Common.{
  String, List, [], ◌∷◌, some, ◌==◌, ◌≡◌, refl, inl, inr, arith, Bool-cases, Option-cases, subst,
  sym, ok,
}
use grpc_datacon.Common.Assoc.{Assoc, get, put, delete, IsMap, put-IsMap, delete-IsMap}
use grpc_datacon.Common.Int64.{Int64}
use grpc_datacon.Tunnel.{AgentInfo, EndpointHealth}
use grpc_datacon.Sessions.{
  AgentKey, agent_key_eq, AgentContext, AgentSessions, make_agent_sessions, new_session_context,
  register_session, remove_session, touch_session, is_idle, expire_each, expire_old_sessions,
  find_session,
}
use grpc_datacon.JwtAuth.{Context, identity_from_context}

-- Every session stands under its own key.
abbrev pub IsKeyed : Assoc AgentKey AgentContext → Type 0
IsKeyed [] = Unit
IsKeyed ((k, c) ∷ m) = (c.key ≡ k) × IsKeyed m

pub record IsValid (a : AgentSessions) : Type 0 where
  pub distinct : IsMap a.agents
  pub keyed : IsKeyed a.agents

pub key-get :
    (m : Assoc AgentKey AgentContext) (k : AgentKey) (c : AgentContext)
    → IsKeyed m
    → get m k ≡ some c
    → c.key ≡ k
unfolding get
key-get [] k c h e = cc
key-get ((j, d) ∷ m) k c (here, h) e = elim (Bool-cases (j == k)) [
  | inl same ↦ ground (arith, agent_key_eq.beq_iff j k)
  | inr other ↦ key-get m k c h (ground arith)
]

-- The session that a context names.
pub get-find_session :
    (a : AgentSessions) (ctx : Context) (c : AgentContext)
    → IsKeyed a.agents
    → find_session a ctx ≡ ok c
    → get a.agents c.key ≡ some c
unfolding find_session
get-find_session a ctx c h found =
    let (agent_id, session_id) = identity_from_context ctx in
    let key : AgentKey = record { agent_id = agent_id; session_id = session_id } in
    let there : get a.agents key ≡ some c = ground arith in
    subst (λ k. get a.agents k ≡ some c) (sym (key-get a.agents key c h there)) there

delete-IsKeyed : (m : Assoc AgentKey AgentContext) (k : AgentKey) → IsKeyed m → IsKeyed (delete m k)
unfolding delete
delete-IsKeyed [] k h = h
delete-IsKeyed ((j, d) ∷ m) k (here, h) = ground (arith, delete-IsKeyed m k h)

put-IsKeyed :
    (m : Assoc AgentKey AgentContext) (k : AgentKey) (c : AgentContext)
    → c.key ≡ k
    → IsKeyed m
    → IsKeyed (put m k c)
unfolding put
put-IsKeyed m k c e h = (e, delete-IsKeyed m k h)

pub put-IsValid :
    (a : AgentSessions) (k : AgentKey) (c : AgentContext)
    → c.key ≡ k
    → IsValid a
    → IsValid (record a { agents = put a.agents k c })
put-IsValid a k c e v = record {
  distinct = put-IsMap a.agents k c v.distinct;
  keyed = put-IsKeyed a.agents k c e v.keyed;
}

pub make_agent_sessions-IsValid : IsValid make_agent_sessions
unfolding make_agent_sessions
make_agent_sessions-IsValid = record { distinct = tt; keyed = tt }

pub register_session-IsValid :
    (a : AgentSessions) (agent_id session_id hostname version : String) (info : AgentInfo)
    (eps : List EndpointHealth) (now : Int64)
    → IsValid a
    → IsValid (register_session a agent_id session_id hostname version info eps now).0
unfolding register_session
register_session-IsValid a agent_id session_id hostname version info eps now v =
    put-IsValid a _ (new_session_context agent_id session_id hostname version info eps now) refl v

pub remove_session-IsValid :
    (a : AgentSessions) (c : AgentContext) → IsValid a → IsValid (remove_session a c)
unfolding remove_session
remove_session-IsValid a c v = record {
  distinct = delete-IsMap a.agents c.key v.distinct;
  keyed = delete-IsKeyed a.agents c.key v.keyed;
}

pub touch_session-IsValid :
    (a b : AgentSessions) (c : AgentContext) (t : Int64)
    → IsValid a
    → touch_session a c t ≡ some b
    → IsValid b
unfolding touch_session
touch_session-IsValid a b c t v e = elim (Option-cases (get a.agents c.key)) [
  | inl gone ↦ ground arith
  | inr (d, there) ↦
      let written : AgentSessions = record a {
        agents = put a.agents c.key (record d { last_use = t });
      } in
      let same : written ≡ b = ground arith in
      subst IsValid same
        (put-IsValid a c.key (record d { last_use = t }) (key-get a.agents c.key d v.keyed there) v)
]

expire_each-IsValid :
    (now idle_timeout : Int64) (l : List (AgentKey × AgentContext)) (a : AgentSessions)
    → IsValid a
    → IsValid (expire_each now idle_timeout l a)
unfolding expire_each remove_session
expire_each-IsValid now idle_timeout [] a v = v
expire_each-IsValid now idle_timeout ((k, c) ∷ l) a v =
    elim (Bool-cases (is_idle now idle_timeout c)) [
      | inl idle ↦
          rw (idle, expire_each)
            (expire_each-IsValid now idle_timeout l _ (remove_session-IsValid a c v))
      | inr busy ↦ rw (busy, expire_each) (expire_each-IsValid now idle_timeout l a v)
    ]

pub expire_old_sessions-IsValid :
    (a : AgentSessions) (now idle_timeout : Int64)
    → IsValid a
    → IsValid (expire_old_sessions a now idle_timeout)
unfolding expire_old_sessions
expire_old_sessions-IsValid a now idle_timeout v = expire_each-IsValid now idle_timeout a.agents a v

-- A table that the methods make, from the empty one on.
pub data Reachable : AgentSessions → Type 0 where
  made : Reachable make_agent_sessions
  registered :
      {a : AgentSessions}
      → Reachable a
      → (agent_id session_id hostname version : String) (info : AgentInfo)
        (eps : List EndpointHealth) (now : Int64)
      → Reachable (register_session a agent_id session_id hostname version info eps now).0
  removed : {a : AgentSessions} → Reachable a → (c : AgentContext) → Reachable (remove_session a c)
  touched :
      {a b : AgentSessions}
      → Reachable a
      → (c : AgentContext) (t : Int64) → touch_session a c t ≡ some b
      → Reachable b
  expired :
      {a : AgentSessions}
      → Reachable a
      → (now idle_timeout : Int64) → Reachable (expire_old_sessions a now idle_timeout)

-- In every table that the methods make, in whatever order they are called, each session stands under
-- its own key, and each key once.
pub Reachable-IsValid : (a : AgentSessions) → Reachable a → IsValid a
Reachable-IsValid a made = make_agent_sessions-IsValid
Reachable-IsValid b (registered {a = a} h agent_id session_id hostname version info eps now) =
    register_session-IsValid a agent_id session_id hostname version info eps now
      (Reachable-IsValid a h)
Reachable-IsValid b (removed {a = a} h c) = remove_session-IsValid a c (Reachable-IsValid a h)
Reachable-IsValid b (touched {a = a} h c t e) =
    touch_session-IsValid a b c t (Reachable-IsValid a h) e
Reachable-IsValid b (expired {a = a} h now idle_timeout) =
    expire_old_sessions-IsValid a now idle_timeout (Reachable-IsValid a h)
