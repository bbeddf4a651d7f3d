-- ===== src/Sessions/Expiry.antt =====
-- What `expireOldSessions` of app/server/sessions.go keeps.
use grpc_datacon.Common.{
  ◌+◌, ◌≤◌, ◌<◌, ◌^◌, [], ◌∷◌, Option, none, some, ◌==◌, if◌then◌else◌, ◌≡◌, ◌↔◌, refl, inl, inr,
  arith, Bool-cases, Option-cases,
}
use grpc_datacon.Common.Assoc.{Assoc, get, get-delete, IsMap}
use grpc_datacon.Common.Int64.{Int64, lt64-add64}
use grpc_datacon.Sessions.{
  AgentKey, agent_key_eq, AgentContext, AgentSessions, is_idle, remove_session_unlocked,
  expire_each, expire_old_sessions,
}
use grpc_datacon.Sessions.Valid.{IsValid, IsKeyed}

-- What is left of an entry.
abbrev pub survivor : Int64 → Int64 → Option AgentContext → Option AgentContext
survivor now idle_timeout none = none
survivor now idle_timeout (some c) = if is_idle now idle_timeout c then none else some c

-- What the loop over `l` leaves of the entry `found` that the table holds, `visited` being what `l`
-- holds under the same key.
abbrev after_loop : Int64 → Int64 → Option AgentContext → Option AgentContext → Option AgentContext
after_loop now idle_timeout none found = found
after_loop now idle_timeout (some c) found = if is_idle now idle_timeout c then none else found

pub get-remove_session_unlocked :
    (a : AgentSessions) (c : AgentContext) (k : AgentKey)
    → get (remove_session_unlocked a c).agents k ≡ (if c.key == k then none else get a.agents k)
unfolding remove_session_unlocked
get-remove_session_unlocked a c k = get-delete a.agents c.key k

get-expire_each :
    (now idle_timeout : Int64) (l : Assoc AgentKey AgentContext) (a : AgentSessions) (k : AgentKey)
    → IsMap l
    → IsKeyed l
    → get (expire_each now idle_timeout l a).agents k
      ≡ after_loop now idle_timeout (get l k) (get a.agents k)
unfolding expire_each get
get-expire_each now idle_timeout [] a k d h = refl
get-expire_each now idle_timeout ((j, c) ∷ l) a k (fresh, d) (here, h) =
    elim (Bool-cases (is_idle now idle_timeout c)) [
      | inl idle ↦
          let ih = get-expire_each now idle_timeout l (remove_session_unlocked a c) k d h in
          ground (
            arith,
            ih,
            get-remove_session_unlocked a c k,
            agent_key_eq.beq_iff j k,
            agent_key_eq.beq_iff c.key k,
          )
      | inr busy ↦
          let ih = get-expire_each now idle_timeout l a k d h in
          ground (arith, ih, agent_key_eq.beq_iff j k)
    ]

-- A run of the cleaner leaves exactly the sessions that are not idle, each as it was.
pub get-expire_old_sessions :
    (a : AgentSessions) (now idle_timeout : Int64) (k : AgentKey)
    → IsValid a
    → get (expire_old_sessions a now idle_timeout).agents k
      ≡ survivor now idle_timeout (get a.agents k)
unfolding expire_old_sessions
get-expire_old_sessions a now idle_timeout k v = elim (Option-cases (get a.agents k)) [
  | inl e ↦ ground (arith, get-expire_each now idle_timeout a.agents a k v.distinct v.keyed)
  | inr (c, e) ↦ ground (arith, get-expire_each now idle_timeout a.agents a k v.distinct v.keyed)
]

-- While the times stay in the range of `int64`, a session stays exactly if it was used within the
-- idle timeout before `now`.
pub expire_old_sessions_iff :
    (a : AgentSessions) (now idle_timeout : Int64) (k : AgentKey) (c : AgentContext)
    → IsValid a
    → get a.agents k ≡ some c
    → c.last_use + idle_timeout < 2 ^ 63
    → now < 2 ^ 63
    → (get (expire_old_sessions a now idle_timeout).agents k ≡ some c)
      ↔ (now ≤ c.last_use + idle_timeout)
unfolding is_idle
expire_old_sessions_iff a now idle_timeout k c v e h t =
    let kept = get-expire_old_sessions a now idle_timeout k v in
    let test = lt64-add64 c.last_use idle_timeout now h t in
    (λ p. ground (arith, kept, test), λ p. ground (arith, kept, test))
