-- ===== src/System/Abandoned.antt =====
-- A request that was sent on the channel of a session that has gone: what becomes of the handler of
-- `runAPIHandler` of app/server/service_server.go.
use mathlib.Core.List.{Memᴰ}
use grpc_datacon.Common.{
  ℕ, String, List, ◌∷◌, ◌++◌, none, some, false, ◌==◌, ◌≡◌, ◌≢◌, inl, inr, refl, sym, ap, ◌∙◌,
  subst, arith, Bool-cases, Option-cases, string_eq,
}
use grpc_datacon.Common.Assoc.{get, get-put}
use grpc_datacon.Tunnel.{HelloRequest}
use grpc_datacon.HttpWriter.{ResponseWriter, WriteResult}
use grpc_datacon.Sessions.{
  AgentKey, agent_key_eq, AgentContext, AgentSessions, remove_session, touch_session,
  expire_old_sessions,
}
use grpc_datacon.Sessions.Valid.{
  IsValid, get-find_session, register_session-IsValid, remove_session-IsValid,
  touch_session-IsValid, expire_old_sessions-IsValid,
}
use grpc_datacon.Sessions.Expiry.{get-remove_session_unlocked, get-expire_old_sessions}
use grpc_datacon.Controller.{hello}
use grpc_datacon.Controller.Ping.{as_session, find_session-hello}
use grpc_datacon.System.Members.{Memᴰ-remove, Memᴰ-restore}
use grpc_datacon.System.{
  Offer, System, Step, greet, touch, clean, offer, open_wait, take, drop, flush, return_wait,
  end_flow, stir, Steps, here, next,
}

-- The session is not in the table, its id is not to be given out again, and no RPC takes requests
-- for it.
pub record GoneFrom (c : AgentContext) (sessions : AgentSessions) (issued : List String)
    (waiting : List AgentContext) : Type 0 where
  pub valid : IsValid sessions
  pub absent : get sessions.agents c.key ≡ none
  pub used : Memᴰ c.session_id issued
  pub unattended : (w : AgentContext) → Memᴰ w waiting → w.key ≢ c.key

abbrev pub IsGone : AgentContext → System → Type 0
IsGone c s = GoneFrom c s.sessions s.issued s.waiting

-- A handler that sends to a session that has gone.
pub record IsAbandoned (o : Offer) (s : System) : Type 0 where
  pub gone : IsGone o.session s
  pub sends : Memᴰ o s.offering

module _ (c : AgentContext) where
  absent-remove_session :
      (a : AgentSessions) (w : AgentContext)
      → get a.agents c.key ≡ none
      → get (remove_session a w).agents c.key ≡ none
  unfolding remove_session
  absent-remove_session a w e = ground (arith, get-remove_session_unlocked a w c.key)

  absent-expire :
      (a : AgentSessions) (now idle_timeout : ℕ)
      → IsValid a
      → get a.agents c.key ≡ none
      → get (expire_old_sessions a now idle_timeout).agents c.key ≡ none
  absent-expire a now idle_timeout v e =
      get-expire_old_sessions a now idle_timeout c.key v ∙ rw e refl

  absent-touch_session :
      (a b : AgentSessions) (d : AgentContext) (now : ℕ)
      → touch_session a d now ≡ some b
      → get a.agents c.key ≡ none
      → get b.agents c.key ≡ none
  unfolding touch_session
  absent-touch_session a b d now e gone = elim (Option-cases (get a.agents d.key)) [
    | inl miss ↦ ground arith
    | inr (found, hit) ↦ ground (
      arith,
      get-put a.agents d.key c.key (record found { last_use = now }),
      agent_key_eq.beq_iff d.key c.key,
    )
  ]

  absent-hello :
      (a : AgentSessions) (agent old : String) (request : HelloRequest)
      (session_id version : String) (now : ℕ)
      → session_id ≢ c.session_id
      → get a.agents c.key ≡ none
      → get (hello a (as_session agent old) request session_id version now).0.agents c.key ≡ none
  absent-hello a agent old request session_id version now other gone =
      let k : AgentKey = record { agent_id = agent; session_id = session_id } in
      let apart : (k == c.key) ≡ false = elim (Bool-cases (k == c.key)) [
        | inl same ↦
            absurd
              (other (ap (λ (j : AgentKey). j.session_id) ((agent_key_eq.beq_iff k c.key).0 same)))
        | inr differ ↦ differ
      ] in
      (find_session-hello a agent old request session_id version now).1 c.key ∙ rw apart gone

  unattended_cons :
      (s : System) (d : AgentContext)
      → get s.sessions.agents d.key ≡ some d
      → IsGone c s
      → (w : AgentContext) → Memᴰ w (d ∷ s.waiting)
      → w.key ≢ c.key
  unattended_cons s d there g w (Memᴰ.head e) same =
      let found : get s.sessions.agents c.key ≡ some d =
        subst (λ k. get s.sessions.agents k ≡ some d)
          (ap (λ (x : AgentContext). x.key) (sym e) ∙ same) there in
      cc (g.absent)
  unattended_cons s d there g w (Memᴰ.tail m) same = g.unattended w m same

  module _ (net : ResponseWriter → List ℕ → WriteResult) where
    Step-IsGone : {s t : System} → Step net s t → IsGone c s → IsGone c t
    unfolding hello
    Step-IsGone {s} (greet agent old request session_id version now fresh) g = record {
      valid =
          register_session-IsValid s.sessions agent session_id request.hostname request.version
            request.agent_info request.endpoints now g.valid;
      absent =
          absent-hello s.sessions agent old request session_id version now
            (λ same. fresh (subst (λ x. Memᴰ x s.issued) (sym same) g.used)) g.absent;
      used = Memᴰ.tail g.used;
      unattended = g.unattended;
    }
    Step-IsGone {s} (touch d now a e) g = record {
      valid = touch_session-IsValid s.sessions a d now g.valid e;
      absent = absent-touch_session s.sessions a d now e g.absent;
      used = g.used;
      unattended = g.unattended;
    }
    Step-IsGone {s} (clean now idle_timeout) g = record {
      valid = expire_old_sessions-IsValid s.sessions now idle_timeout g.valid;
      absent = absent-expire s.sessions now idle_timeout g.valid g.absent;
      used = g.used;
      unattended = g.unattended;
    }
    Step-IsGone {s} (offer target d sr found) g = g
    Step-IsGone {s} (open_wait ctx d found) g = record {
      valid = g.valid;
      absent = g.absent;
      used = g.used;
      unattended = unattended_cons s d (get-find_session s.sessions ctx d g.valid.keyed found) g;
    }
    Step-IsGone {s} (take before after o w e m k own) g = g
    Step-IsGone {s} (drop before after w e) g = record {
      valid = remove_session-IsValid s.sessions w g.valid;
      absent = absent-remove_session s.sessions w g.absent;
      used = g.used;
      unattended = λ v m. g.unattended v (rw e (Memᴰ-restore before after w v m));
    }
    Step-IsGone {s} (flush before after w sm echoes e f) g = g
    Step-IsGone {s} (return_wait before after w e) g = record {
      valid = remove_session-IsValid s.sessions w g.valid;
      absent = absent-remove_session s.sessions w g.absent;
      used = g.used;
      unattended = g.unattended;
    }
    Step-IsGone {s} (end_flow id) g = g
    Step-IsGone {s} (stir echoes) g = g

-- The offer stays, unless its session is waited for.
Memᴰ-take :
    (before after : List Offer) (o taken : Offer)
    → (taken ≡ o → ⊥)
    → Memᴰ o (before ++ taken ∷ after)
    → Memᴰ o (before ++ after)
Memᴰ-take before after o taken apart m = elim (Memᴰ-remove before after taken o m) [
  | inl same ↦ absurd (apart (sym same))
  | inr kept ↦ kept
]

module _ (net : ResponseWriter → List ℕ → WriteResult) (o : Offer) where
  Step-sends : {s t : System} → Step net s t → IsAbandoned o s → Memᴰ o t.offering
  Step-sends (greet agent old request session_id version now fresh) a = a.sends
  Step-sends (touch d now b e) a = a.sends
  Step-sends (clean now idle_timeout) a = a.sends
  Step-sends (offer target d sr found) a = Memᴰ.tail a.sends
  Step-sends (open_wait ctx d found) a = a.sends
  Step-sends {s} (take before after taken w e m k own) a =
      Memᴰ-take before after o taken
        (λ same. a.gone.unattended w m (k ∙ ap (λ (x : Offer). x.session.key) same))
        (subst (λ l. Memᴰ o l) e a.sends)
  Step-sends (drop before after w e) a = a.sends
  Step-sends (flush before after w sm echoes e f) a = a.sends
  Step-sends (return_wait before after w e) a = a.sends
  Step-sends (end_flow id) a = a.sends
  Step-sends (stir echoes) a = a.sends

  -- A handler of the HTTP service that sends its request to an agent's session which has gone, and
  -- for which no RPC takes requests, never gets rid of it: whatever the controller, its agents, its
  -- clients and its cleaner do from then on, in any order, the handler is still sending.
  pub Steps-IsAbandoned : {s t : System} → Steps net s t → IsAbandoned o s → IsAbandoned o t
  Steps-IsAbandoned here a = a
  Steps-IsAbandoned (next steps step) a =
      let b = Steps-IsAbandoned steps a in
      record { gone = Step-IsGone o.session net step b.gone; sends = Step-sends step b }
