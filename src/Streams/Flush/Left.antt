-- ===== src/Streams/Flush/Left.antt =====
-- What `FlushAgent` of app/server/stream.go leaves of the table whenever it returns, over any echoes.
use grpc_datacon.Common.{
  String, List, [], ◌∷◌, none, string_eq, if◌then◌else◌, ◌≡◌, refl, inl, inr, arith, Option-cases,
  subst,
}
use grpc_datacon.Common.Assoc.{get, get-delete}
use grpc_datacon.Echo.{EchoCall, returned, stuck, panicked, HttpEcho}
use grpc_datacon.Sessions.{AgentContext}
use grpc_datacon.Streams.{
  Stream, StreamManager, Echoes, FlushCall, flushed, flush_stuck, flush_panicked, after_cancel,
  cancel_each, flush_agent, targets_of, unregister, update,
}
use grpc_datacon.Streams.Flush.Targets.{
  IsValid, belongs, contains, contains-targets_of, unregister-IsValid,
}

-- The streams that are listed are gone, and the others are what they were.
record IsLeft (ts : List String) (sm sm' : StreamManager) : Type 0 where
  pub left : (k : String) → get sm'.streams k ≡ (if contains ts k then none else get sm.streams k)
  pub valid : IsValid sm → IsValid sm'

abbrev OnFlushed : {S : Type 0} → (StreamManager → Type 0) → FlushCall S → Type 0
OnFlushed P (flushed sm echoes) = P sm
OnFlushed P (flush_stuck sm echoes) = Unit
OnFlushed P (flush_panicked sm echoes) = Unit

OnFlushed-map :
    {S : Type 0} {P Q : StreamManager → Type 0}
    → ((sm : StreamManager) → P sm → Q sm)
    → (c : FlushCall S) → OnFlushed P c
    → OnFlushed Q c
OnFlushed-map f (flushed sm echoes) p = f sm p
OnFlushed-map f (flush_stuck sm echoes) p = tt
OnFlushed-map f (flush_panicked sm echoes) p = tt

module _ {S : Type 0} (ops : HttpEcho S) where
  IsLeft-cons :
      (t : String) (ts : List String) (sm sm' : StreamManager)
      → IsLeft ts (unregister sm t) sm'
      → IsLeft (t ∷ ts) sm sm'
  unfolding unregister
  IsLeft-cons t ts sm sm' l = record {
    left = λ k. ground (arith, l.left k, get-delete sm.streams t k);
    valid = λ v. l.valid (unregister-IsValid sm t v);
  }

  -- One round, when the rounds after it leave what they should.
  after_cancel-IsLeft :
      (t : String) (ts : List String) (sm : StreamManager) (echoes : Echoes S) (st : Stream)
      (call : EchoCall S)
      → ((e : Echoes S)
          → OnFlushed (IsLeft ts (unregister sm t)) (cancel_each ops ts (unregister sm t) e))
      → OnFlushed (IsLeft (t ∷ ts) sm) (after_cancel ops sm echoes t st call (cancel_each ops ts))
  after_cancel-IsLeft t ts sm echoes st (returned s e) rest =
      OnFlushed-map (IsLeft-cons t ts sm) _ (rest (update echoes st.echo s))
  after_cancel-IsLeft t ts sm echoes st (stuck s) rest = tt
  after_cancel-IsLeft t ts sm echoes st (panicked s) rest = tt

  cancel_each-IsLeft :
      (ts : List String) (sm : StreamManager) (echoes : Echoes S)
      → OnFlushed (IsLeft ts sm) (cancel_each ops ts sm echoes)
  unfolding cancel_each
  cancel_each-IsLeft [] sm echoes = record { left = λ k. refl; valid = λ v. v }
  cancel_each-IsLeft (t ∷ ts) sm echoes = elim (Option-cases (get sm.streams t)) [
    | inl gone ↦ rw gone tt
    | inr (st, there) ↦ rw there (
        after_cancel-IsLeft t ts sm echoes st (ops.cancel (echoes st.echo))
          (cancel_each-IsLeft ts (unregister sm t)))
  ]

  -- Whenever a flush returns, the streams of the session are gone and the others stay.
  pub flush_agent-left :
      (sm sm' : StreamManager) (session : AgentContext) (echoes echoes' : Echoes S)
      → IsValid sm
      → flush_agent ops sm session echoes ≡ flushed sm' echoes'
      → IsValid sm'
        × ((k : String)
            → get sm'.streams k
              ≡ (if belongs session.session_id (get sm.streams k) then none else get sm.streams k))
  unfolding flush_agent
  flush_agent-left sm sm' session echoes echoes' v ends =
      let l : IsLeft (targets_of session.session_id sm.streams) sm sm' =
        subst (OnFlushed (IsLeft (targets_of session.session_id sm.streams) sm)) ends
          (cancel_each-IsLeft (targets_of session.session_id sm.streams) sm echoes) in
      (
        l.valid v,
        λ k.
            ground
              (arith, l.left k, contains-targets_of session.session_id k sm.streams v.distinct),
      )
