-- ===== src/System/Tended.antt =====
-- The streams of app/server/stream.go while the controller of app/server runs: who serves them.
use mathlib.Core.List.{Memᴰ}
use grpc_datacon.Common.{
  ℕ, String, List, ◌∷◌, ◌++◌, none, some, ◌==◌, string_eq, if◌then◌else◌, ◌≡◌, ◌≢◌, ◌⊎◌, inl, inr,
  sym, ap, ◌∙◌, subst, arith, Bool-cases,
}
use grpc_datacon.Common.Assoc.{get, get-put, get-delete}
use grpc_datacon.HttpWriter.{ResponseWriter, WriteResult}
use grpc_datacon.ServerEcho.{EchoPair, server_echo}
use grpc_datacon.Sessions.{AgentContext}
use grpc_datacon.Streams.{Stream, StreamManager, Echoes, new_stream_manager, register, unregister}
use grpc_datacon.Streams.Flush.{
  IsValid, belongs, make-IsValid, register-IsValid, unregister-IsValid,
}
use grpc_datacon.Streams.Flush.Left.{flush_agent-left}
use grpc_datacon.System.Members.{Memᴰ-remove}
use grpc_datacon.System.{
  System, started, Step, greet, touch, clean, offer, open_wait, take, drop, flush, return_wait,
  end_flow, stir, Steps, here, next,
}

-- An RPC `WaitForRequest` of the session is in its loop, or has left it and has yet to flush.
abbrev pub HasTender : String → List AgentContext → List AgentContext → Type 0
HasTender session_id waiting closing =
    (w : AgentContext) × (w.session_id ≡ session_id) × (Memᴰ w waiting ⊎ Memᴰ w closing)

pub record AllTended (streams : StreamManager) (waiting closing : List AgentContext) : Type 0 where
  pub valid : IsValid streams
  pub tended :
      (k : String) (st : Stream)
      → get streams.streams k ≡ some st
      → HasTender st.session_id waiting closing

abbrev pub IsTended : System → Type 0
IsTended s = AllTended s.streams s.waiting s.closing

register-tended :
    (sm : StreamManager) (w : AgentContext) (id : String) (waiting closing : List AgentContext)
    → Memᴰ w waiting
    → AllTended sm waiting closing
    → AllTended (register sm w id id) waiting closing
unfolding register
register-tended sm w id waiting closing m a =
    let st : Stream = record { agent_id = w.agent_id; session_id = w.session_id; echo = id } in
    record {
      valid = register-IsValid sm w id a.valid;
      tended = λ k t e. elim (Bool-cases (id == k)) [
        | inl same ↦ (w, ground (arith, e, get-put sm.streams id k st), inl m)
        | inr differ ↦ a.tended k t (ground (arith, e, get-put sm.streams id k st))
      ];
    }

unregister-tended :
    (sm : StreamManager) (id : String) (waiting closing : List AgentContext)
    → AllTended sm waiting closing
    → AllTended (unregister sm id) waiting closing
unfolding unregister
unregister-tended sm id waiting closing a = record {
  valid = unregister-IsValid sm id a.valid;
  tended = λ k st e. a.tended k st (ground (arith, e, get-delete sm.streams id k));
}

still_tended :
    (w : AgentContext) (session_id : String) (waiting before after : List AgentContext)
    → session_id ≢ w.session_id
    → HasTender session_id waiting (before ++ w ∷ after)
    → HasTender session_id waiting (before ++ after)
still_tended w session_id waiting before after others (u, same, inl m) = (u, same, inl m)
still_tended w session_id waiting before after others (u, same, inr m) =
    elim (Memᴰ-remove before after w u m) [
      | inl e ↦ absurd (others (sym same ∙ ap (λ (x : AgentContext). x.session_id) e))
      | inr kept ↦ (u, same, inr kept)
    ]

-- The flush of an RPC leaves no stream that only this RPC serves.
flush-tended :
    (sm sm' : StreamManager) (w : AgentContext) (waiting before after : List AgentContext)
    → IsValid sm'
    → ((k : String)
        → get sm'.streams k
          ≡ (if belongs w.session_id (get sm.streams k) then none else get sm.streams k))
    → AllTended sm waiting (before ++ w ∷ after)
    → AllTended sm' waiting (before ++ after)
flush-tended sm sm' w waiting before after v left a = record {
  valid = v;
  tended = λ k st e.
      let others : st.session_id ≢ w.session_id =
        ground (arith, e, left k, string_eq.beq_iff st.session_id w.session_id) in
      still_tended w st.session_id waiting before after others
        (a.tended k st (ground (arith, e, left k)));
}

drop-tended :
    (w : AgentContext) (session_id : String) (before after closing : List AgentContext)
    → HasTender session_id (before ++ w ∷ after) closing
    → HasTender session_id (before ++ after) (w ∷ closing)
drop-tended w session_id before after closing (u, same, inr m) = (u, same, inr (Memᴰ.tail m))
drop-tended w session_id before after closing (u, same, inl m) =
    elim (Memᴰ-remove before after w u m) [
      | inl e ↦ (u, same, inr (Memᴰ.head e))
      | inr kept ↦ (u, same, inl kept)
    ]

attend-tended :
    (w : AgentContext) (session_id : String) (waiting closing : List AgentContext)
    → HasTender session_id waiting closing
    → HasTender session_id (w ∷ waiting) closing
attend-tended w session_id waiting closing (u, same, inl m) = (u, same, inl (Memᴰ.tail m))
attend-tended w session_id waiting closing (u, same, inr m) = (u, same, inr m)

module _ (net : ResponseWriter → List ℕ → WriteResult) where
  Step-IsTended : {s t : System} → Step net s t → IsTended s → IsTended t
  Step-IsTended (greet agent old request session_id version now fresh) a = a
  Step-IsTended (touch d now b e) a = a
  Step-IsTended (clean now idle_timeout) a = a
  Step-IsTended (offer target d sr found) a = a
  Step-IsTended {s} (open_wait ctx d found) a = record {
    valid = a.valid;
    tended = λ k st e. attend-tended d st.session_id s.waiting s.closing (a.tended k st e);
  }
  Step-IsTended {s} (take before after o w e m same own) a =
      subst (λ x. AllTended (register s.streams w o.wanted.req.stream_id x) s.waiting s.closing)
        (sym own) (register-tended s.streams w o.wanted.req.stream_id s.waiting s.closing m a)
  Step-IsTended {s} (drop before after w e) a = record {
    valid = a.valid;
    tended = λ k st found.
        drop-tended w st.session_id before after s.closing
          (subst (λ l. HasTender st.session_id l s.closing) e (a.tended k st found));
  }
  Step-IsTended {s} (flush before after w sm echoes e ends) a =
      let (v, left) =
        flush_agent-left (server_echo net) s.streams sm w s.echoes echoes a.valid ends in
      flush-tended s.streams sm w s.waiting before after v left
        (subst (λ l. AllTended s.streams s.waiting l) e a)
  Step-IsTended (return_wait before after w e) a = a
  Step-IsTended {s} (end_flow id) a = unregister-tended s.streams id s.waiting s.closing a
  Step-IsTended (stir echoes) a = a

  -- However the RPCs, the HTTP handlers and the cleaner of the controller interleave from its start
  -- on, the table of streams is well-formed, and each stream in it belongs to a session for which an
  -- RPC `WaitForRequest` is in its loop, or has left it and is about to flush the session: no stream
  -- outlives the RPCs of its session.
  pub Steps-IsTended :
      (echoes : Echoes EchoPair) {t : System} → Steps net (started echoes) t → IsTended t
  unfolding started new_stream_manager get
  Steps-IsTended echoes here = record {
    valid = make-IsValid;
    tended = λ k st e. absurd (ground (arith, e));
  }
  Steps-IsTended echoes (next steps step) = Step-IsTended step (Steps-IsTended echoes steps)
