-- ===== src/Sessions/Order.antt =====
-- The order in which Go visits the map of app/server/sessions.go: two tables that hold the same
-- sessions, in whatever order, cannot be told apart.
use mathlib.Core.Path.{subst₂}
use grpc_datacon.Common.{
  String, List, Option, none, some, ◌≡◌, ◌↔◌, refl, sym, ◌∙◌, inl, inr, arith, Option-cases, ap,
  subst,
}
use grpc_datacon.Common.Assoc.{get, put, get-put}
use grpc_datacon.Common.Int64.{Int64}
use grpc_datacon.Tunnel.{AgentInfo, EndpointHealth}
use grpc_datacon.JwtAuth.{Context}
use grpc_datacon.Sessions.{
  AgentKey, agent_key_eq, AgentContext, AgentSessions, SessionSearch, find, find_session,
  new_session_context, register_session, remove_session, touch_session, expire_old_sessions,
}
use grpc_datacon.Sessions.Expiry.{get-remove_session_unlocked, get-expire_old_sessions, survivor}
use grpc_datacon.Sessions.Lookup.{IsAnswer, find-IsAnswer}
use grpc_datacon.Sessions.Valid.{IsValid}

-- The tables hold the same sessions.
abbrev pub Same : AgentSessions → AgentSessions → Type 0
Same a b = (k : AgentKey) → get a.agents k ≡ get b.agents k

abbrev pub SameTouched : Option AgentSessions → Option AgentSessions → Type 0
SameTouched none none = Unit
SameTouched (some a) (some b) = Same a b
SameTouched none (some b) = ⊥
SameTouched (some a) none = ⊥

-- No call tells the tables apart, up to which of several agents `find` picks.
pub record Alike (a b : AgentSessions) : Type 0 where
  pub found : (ctx : Context) → find_session a ctx ≡ find_session b ctx
  pub picked : (target : SessionSearch) → (find a target ≡ none) ↔ (find b target ≡ none)
  pub registered :
      (agent_id session_id hostname version : String) (info : AgentInfo)
      (endpoints : List EndpointHealth) (now : Int64)
      → Same
          (register_session a agent_id session_id hostname version info endpoints now).0
          (register_session b agent_id session_id hostname version info endpoints now).0
  pub removed : (c : AgentContext) → Same (remove_session a c) (remove_session b c)
  pub touched :
      (c : AgentContext) (now : Int64) → SameTouched (touch_session a c now) (touch_session b c now)
  pub expired :
      (now idle_timeout : Int64)
      → Same (expire_old_sessions a now idle_timeout) (expire_old_sessions b now idle_timeout)

module _ (a b : AgentSessions) (same : Same a b) where
  Same-remove_session : (c : AgentContext) → Same (remove_session a c) (remove_session b c)
  unfolding remove_session
  Same-remove_session c k =
      ground (arith, same k, get-remove_session_unlocked a c k, get-remove_session_unlocked b c k)

  Same-put :
      (key : AgentKey) (c : AgentContext)
      → Same (record { agents = put a.agents key c }) (record { agents = put b.agents key c })
  Same-put key c k = ground (arith, same k, get-put a.agents key k c, get-put b.agents key k c)

  Same-touch_session :
      (c : AgentContext) (now : Int64) → SameTouched (touch_session a c now) (touch_session b c now)
  unfolding touch_session
  Same-touch_session c now = elim (Option-cases (get a.agents c.key)) [
    | inl gone ↦
        let gone_b : get b.agents c.key ≡ none = sym (same c.key) ∙ gone in
        let missed_a : touch_session a c now ≡ none = ground arith in
        let missed_b : touch_session b c now ≡ none = ground arith in rw (missed_a, missed_b) tt
    | inr (found, there) ↦
        let there_b : get b.agents c.key ≡ some found = sym (same c.key) ∙ there in
        let fresh : AgentContext = record found { last_use = now } in
        let hit_a : touch_session a c now ≡ some (record a { agents = put a.agents c.key fresh }) =
          ground arith in
        let hit_b : touch_session b c now ≡ some (record b { agents = put b.agents c.key fresh }) =
          ground arith in
        subst₂ SameTouched (sym hit_a) (sym hit_b) (Same-put c.key fresh)
  ]

  none-find :
      (target : SessionSearch) → IsValid a → IsValid b → find a target ≡ none → find b target ≡ none
  none-find target v w miss = elim (Option-cases (find b target)) [
    | inl gone ↦ gone
    | inr (c, hit) ↦
        let (there, matches) = subst (IsAnswer b target) hit (find-IsAnswer b target w) in
        absurd (
          subst (IsAnswer a target) miss (find-IsAnswer a target v) c.key c
            (same c.key ∙ there, matches))
  ]

-- The order in which the map is visited does not matter: between two well-formed tables that hold
-- the same sessions, a lookup by context gives the same session or the same error, a search finds a
-- session in one exactly if it finds one in the other, and registering, removing and touching a
-- session and a run of the cleaner give tables that hold the same sessions again, a touch being a
-- panic in both or in neither.
pub Same-Alike : (a b : AgentSessions) → IsValid a → IsValid b → Same a b → Alike a b
unfolding find_session register_session
Same-Alike a b v w same = record {
  found = λ ctx. rw (same _) refl;
  picked = λ target. (none-find a b same target v w, none-find b a (λ k. sym (same k)) target w v);
  registered = λ agent_id session_id hostname version info endpoints now.
      Same-put a b same (record { agent_id = agent_id; session_id = session_id })
        (new_session_context agent_id session_id hostname version info endpoints now);
  removed = Same-remove_session a b same;
  touched = Same-touch_session a b same;
  expired = λ now idle_timeout k.
      get-expire_old_sessions a now idle_timeout k v
      ∙ ap (survivor now idle_timeout) (same k)
      ∙ sym (get-expire_old_sessions b now idle_timeout k w);
}
