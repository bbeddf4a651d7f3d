-- ===== src/Sessions/Lookup.antt =====
-- What `find` of app/server/sessions.go returns, whatever order the map is visited in.
use mathlib.Core.List.{Memᴰ}
use grpc_datacon.Common.{
  List, [], ◌∷◌, Option, none, some, true, ◌&&◌, ◌==◌, subst, ◌≡◌, ◌↔◌, refl, inl, inr, arith, ap,
  Bool-cases, Option-cases, string_eq,
}
use grpc_datacon.Common.Assoc.{Assoc, get, IsMap}
use grpc_datacon.Sessions.{
  AgentKey, agent_key_eq, AgentContext, AgentSessions, Endpoint, SessionSearch, serves, find_in,
  find,
}
use grpc_datacon.Sessions.Valid.{IsValid, IsKeyed}

-- One of the endpoints is configured and has the name and the type that are looked for.
pub record Offers (target : SessionSearch) (eps : List Endpoint) : Type 0 where
  pub ep : Endpoint
  pub listed : Memᴰ ep eps
  pub configured : ep.configured ≡ true
  pub same_name : ep.name ≡ target.service_name
  pub same_type : ep.type ≡ target.service_type

abbrev pub Matches : SessionSearch → AgentContext → Type 0
Matches target c = (c.agent_id ≡ target.agent_id) × Offers target c.endpoints

pub Offers-cons :
    (target : SessionSearch) (ep : Endpoint) (eps : List Endpoint)
    → Offers target eps
    → Offers target (ep ∷ eps)
Offers-cons target ep eps o = record {
  ep = o.ep;
  listed = Memᴰ.tail o.listed;
  configured = o.configured;
  same_name = o.same_name;
  same_type = o.same_type;
}

Offers-serves :
    (target : SessionSearch) (eps : List Endpoint) → serves target eps ≡ true → Offers target eps
unfolding serves
Offers-serves target [] h = cc
Offers-serves target (ep ∷ eps) h =
    elim (Bool-cases
      (ep.configured && ep.name == target.service_name && ep.type == target.service_type)) [
        | inl here ↦ record {
          ep = ep;
          listed = Memᴰ.head refl;
          configured = ground arith;
          same_name = ground (arith, string_eq.beq_iff ep.name target.service_name);
          same_type = ground (arith, string_eq.beq_iff ep.type target.service_type);
        }
        | inr other ↦ Offers-cons target ep eps (Offers-serves target eps (ground arith))
      ]

serves-Offers :
    (target : SessionSearch) {ep : Endpoint} {eps : List Endpoint}
    → Memᴰ ep eps
    → ep.configured ≡ true
    → ep.name ≡ target.service_name
    → ep.type ≡ target.service_type
    → serves target eps ≡ true
unfolding serves
serves-Offers target {ep} (Memᴰ.head {x = x} e) c n t = ground (
  arith,
  string_eq.beq_iff x.name target.service_name,
  string_eq.beq_iff x.type target.service_type,
  ap (λ (d : Endpoint). d.configured) e,
  ap (λ (d : Endpoint). d.name) e,
  ap (λ (d : Endpoint). d.type) e,
)
serves-Offers target (Memᴰ.tail m) c n t = ground (arith, serves-Offers target m c n t)

-- The session that `find` returns is in the table under its own key, and matches.
abbrev pub IsAnswer : AgentSessions → SessionSearch → Option AgentContext → Type 0
IsAnswer a target none =
    (k : AgentKey) (c : AgentContext) → ¬ ((get a.agents k ≡ some c) × Matches target c)
IsAnswer a target (some c) = (get a.agents c.key ≡ some c) × Matches target c

Matches-iff :
    (target : SessionSearch) (c : AgentContext)
    → ((c.agent_id == target.agent_id && serves target c.endpoints) ≡ true) ↔ Matches target c
Matches-iff target c = (
  λ h. (
    ground (arith, string_eq.beq_iff c.agent_id target.agent_id),
    Offers-serves target c.endpoints (ground arith),
  ),
  λ (e, o). ground (
    arith,
    string_eq.beq_iff c.agent_id target.agent_id,
    serves-Offers target o.listed o.configured o.same_name o.same_type,
  ),
)

find_in_miss :
    (target : SessionSearch) (m : Assoc AgentKey AgentContext)
    → find_in target m ≡ none
    → (k : AgentKey) (c : AgentContext) → get m k ≡ some c
    → ¬ Matches target c
unfolding find_in get
find_in_miss target [] e k c g y = cc
find_in_miss target ((j, d) ∷ m) e k c g y = elim (Bool-cases (j == k)) [
  | inl same ↦ ground (arith, (Matches-iff target c).1 y)
  | inr other ↦ find_in_miss target m (ground arith) k c (ground arith) y
]

find_in_hit :
    (target : SessionSearch) (m : Assoc AgentKey AgentContext) (c : AgentContext)
    → IsMap m
    → IsKeyed m
    → find_in target m ≡ some c
    → (get m c.key ≡ some c) × Matches target c
unfolding find_in get
find_in_hit target [] c d k e = cc
find_in_hit target ((j, x) ∷ m) c (fresh, d) (here, k) e =
    elim (Bool-cases (x.agent_id == target.agent_id && serves target x.endpoints)) [
      | inl hit ↦
          let same : x ≡ c = ground arith in
          subst (λ z. (get ((j, x) ∷ m) z.key ≡ some z) × Matches target z) same
            (ground (arith, agent_key_eq.beq_iff j x.key), (Matches-iff target x).0 hit)
      | inr miss ↦
          let (there, matches) = find_in_hit target m c d k (ground arith) in
          (ground (arith, agent_key_eq.beq_iff j c.key), matches)
    ]

-- `find` returns a session of the table that matches the agent, the service's name and its type by a
-- configured endpoint, and returns none only where no session of the table does.
pub find-IsAnswer :
    (a : AgentSessions) (target : SessionSearch) → IsValid a → IsAnswer a target (find a target)
unfolding find
find-IsAnswer a target v = elim (Option-cases (find_in target a.agents)) [
  | inl miss ↦ rw miss (λ k c (e, y). find_in_miss target a.agents miss k c e y)
  | inr (c, hit) ↦ rw hit (find_in_hit target a.agents c v.distinct v.keyed hit)
]
