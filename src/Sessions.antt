-- ===== src/Sessions.antt =====
-- app/server/sessions.go: the controller's table of connected agents. Each method takes the lock for
-- its whole body, so it is one step. A `*AgentContext` that is handed out is only read in fields that
-- never change after registration, so it is the value; `touch_session` writes through the table, as
-- the code does. Logging is left out.
pub mod Lookup
pub mod Valid
pub mod Expiry
pub mod Order
use grpc_datacon.Common.{
  ℕ, String, List, [], ◌∷◌, ◌++◌, map, Option, none, some, Bool, true, false, ◌&&◌, ◌||◌, ◌==◌, Eq,
  string_eq, if◌then◌else◌, Result, ok, err, or_fail, ◌≡◌, ◌↔◌, refl, ap, arith,
}
use grpc_datacon.Common.Assoc.{Assoc, get, put, delete}
use grpc_datacon.Common.Int64.{Int64, add64, lt64}
use grpc_datacon.Tunnel.{Annotation, AgentInfo, EndpointHealth}
use grpc_datacon.JwtAuth.{Context, identity_from_context}

pub record Endpoint : Type 0 where
  pub name : String
  pub type : String
  pub configured : Bool
  pub annotations : Assoc String String

pub record AgentKey : Type 0 where
  pub agent_id : String
  pub session_id : String

pub AgentKey-beq_iff :
    (a b : AgentKey) → ((a.agent_id == b.agent_id && a.session_id == b.session_id) ≡ true) ↔ (a ≡ b)
AgentKey-beq_iff a b =
    ground
      (arith, string_eq.beq_iff a.agent_id b.agent_id, string_eq.beq_iff a.session_id b.session_id)

instance unfoldable pub agent_key_eq : Eq AgentKey
agent_key_eq = record {
  beq = λ a b. a.agent_id == b.agent_id && a.session_id == b.session_id;
  beq_iff = AgentKey-beq_iff;
}

pub record AgentContext : Type 0 where
  pub key : AgentKey
  pub open key use *
  pub endpoints : List Endpoint
  pub agent_info : AgentInfo
  pub version : String
  pub hostname : String
  pub connected_at : Int64
  pub last_ping : Int64
  pub last_use : Int64

pub record AgentSessions : Type 0 where
  pub agents : Assoc AgentKey AgentContext

unfoldable pub make_agent_sessions : AgentSessions
make_agent_sessions = record { agents = [] }

-- `annotations[a.Name] = a.Value` for each annotation in turn.
unfoldable pub fill_annotations : Assoc String String → List Annotation → Assoc String String
fill_annotations m [] = m
fill_annotations m (a ∷ as') = fill_annotations (put m a.name a.value) as'

unfoldable pub endpoint_of : EndpointHealth → Endpoint
unfolding fill_annotations
endpoint_of ep = record {
  name = ep.name;
  type = ep.type;
  configured = ep.configured;
  annotations = fill_annotations [] ep.annotations;
}

-- `now` is `time.Now().UnixNano()`.
unfoldable pub new_session_context :
    String → String → String → String → AgentInfo → List EndpointHealth → Int64 → AgentContext
unfolding endpoint_of
new_session_context agent_id session_id hostname version agent_info endpoints now = record {
  key = record { agent_id = agent_id; session_id = session_id };
  endpoints = map endpoint_of endpoints;
  agent_info = agent_info;
  version = version;
  hostname = hostname;
  connected_at = now;
  last_ping = 0;
  last_use = now;
}

pub record SessionSearch : Type 0 where
  pub agent_id : String
  pub service_name : String
  pub service_type : String

-- The inner loop of `find`.
unfoldable pub serves : SessionSearch → List Endpoint → Bool
serves target [] = false
serves target (ep ∷ eps) =
    ep.configured && ep.name == target.service_name && ep.type == target.service_type
    || serves target eps

-- The outer loop of `find`.
unfoldable pub find_in : SessionSearch → List (AgentKey × AgentContext) → Option AgentContext
unfolding serves
find_in target [] = none
find_in target ((k, agent) ∷ rest) =
    if agent.agent_id == target.agent_id && serves target agent.endpoints
    then some agent
    else find_in target rest

unfoldable pub find : AgentSessions → SessionSearch → Option AgentContext
unfolding find_in
find a target = find_in target a.agents

pub data SessionError : Type 0 where
  no_such_session : AgentKey → SessionError

unfoldable pub find_session : AgentSessions → Context → Result SessionError AgentContext
unfolding identity_from_context
find_session a ctx =
    let (agent_id, session_id) = identity_from_context ctx in
    let key : AgentKey = record { agent_id = agent_id; session_id = session_id } in
    or_fail (get a.agents key) (no_such_session key)

unfoldable pub register_session :
    AgentSessions
    → String
    → String
    → String
    → String
    → AgentInfo
    → List EndpointHealth
    → Int64
    → AgentSessions × AgentContext
unfolding new_session_context
register_session a agent_id session_id hostname version agent_info endpoints now =
    let session =
      new_session_context agent_id session_id hostname version agent_info endpoints now in
    (record a { agents = put a.agents session.key session }, session)

unfoldable pub remove_session_unlocked : AgentSessions → AgentContext → AgentSessions
remove_session_unlocked a session =
    let key : AgentKey = record { agent_id = session.agent_id; session_id = session.session_id } in
    record a { agents = delete a.agents key }

unfoldable pub remove_session : AgentSessions → AgentContext → AgentSessions
unfolding remove_session_unlocked
remove_session a session = remove_session_unlocked a session

-- `none` is the panic: the entry of a missing key is a nil pointer, and its field is written.
unfoldable pub touch_session : AgentSessions → AgentContext → Int64 → Option AgentSessions
touch_session a session t = elim (get a.agents session.key) [
  | none ↦ none
  | some c ↦ some (record a { agents = put a.agents session.key (record c { last_use = t }) })
]

unfoldable pub is_idle : Int64 → Int64 → AgentContext → Bool
is_idle now idle_timeout session = lt64 (add64 session.last_use idle_timeout) now

-- The loop of `expireOldSessions`, over the entries that the map had when the loop began. An entry
-- is only removed in its own round, so none of them is skipped.
unfoldable pub expire_each :
    Int64 → Int64 → List (AgentKey × AgentContext) → AgentSessions → AgentSessions
unfolding is_idle remove_session_unlocked
expire_each now idle_timeout [] a = a
expire_each now idle_timeout ((k, session) ∷ rest) a =
    expire_each now idle_timeout rest
      (if is_idle now idle_timeout session then remove_session_unlocked a session else a)

unfoldable pub expire_old_sessions : AgentSessions → Int64 → Int64 → AgentSessions
unfolding expire_each
expire_old_sessions a now idle_timeout = expire_each now idle_timeout a.agents a

-- What the `select` of `checkSessionTimeouts` gives: a tick, with the time at it, or the end of the
-- context.
pub data CleanerEvent : Type 0 where
  ticked : Int64 → CleanerEvent
  cleaner_done : CleanerEvent

-- With whether the cleaner has returned; when the list ends it waits.
unfoldable pub check_session_timeouts :
    AgentSessions → Int64 → List CleanerEvent → AgentSessions × Bool
unfolding expire_old_sessions
check_session_timeouts a idle_timeout [] = (a, false)
check_session_timeouts a idle_timeout (cleaner_done ∷ es) = (a, true)
check_session_timeouts a idle_timeout (ticked now ∷ es) =
    check_session_timeouts (expire_old_sessions a now idle_timeout) idle_timeout es

pub record AgentContextStatistics : Type 0 where
  pub agent_id : String
  pub session_id : String
  pub name : String
  pub session : String
  pub connection_type : String
  pub endpoints : List Endpoint
  pub version : String
  pub hostname : String
  pub connected_at : ℕ
  pub last_ping : ℕ
  pub last_use : ℕ
  pub agent_info : AgentInfo

unfoldable pub statistics_of : AgentContext → AgentContextStatistics
statistics_of ac = record {
  agent_id = ac.agent_id;
  session_id = ac.session_id;
  name = ac.agent_id;
  session = ac.session_id;
  connection_type = "direct";
  endpoints = ac.endpoints;
  version = ac.version;
  hostname = ac.hostname;
  connected_at = ac.connected_at;
  last_ping = ac.last_ping;
  last_use = ac.last_use;
  agent_info = ac.agent_info;
}

unfoldable pub get_statistics : AgentSessions → List AgentContextStatistics
unfolding statistics_of
get_statistics a = map (λ e. statistics_of e.1) a.agents
