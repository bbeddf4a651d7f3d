-- ===== src/Streams/Flush/Targets.antt =====
-- The streams that a flush picks, in a well-formed table of app/server/stream.go.
use grpc_datacon.Common.{
  String, List, [], ◌∷◌, Option, none, some, Bool, true, false, ◌==◌, string_eq, ◌||◌, ◌≡◌, refl,
  inl, inr, arith, Bool-cases,
}
use grpc_datacon.Common.Assoc.{Assoc, get, put, delete, IsMap, put-IsMap, delete-IsMap}
use grpc_datacon.Sessions.{AgentContext}
use grpc_datacon.Streams.{
  Stream, StreamManager, new_stream_manager, register, unregister, targets_of,
}

-- Every stream has the echo that was made for its own id.
abbrev pub OwnsEchoes : Assoc String Stream → Type 0
OwnsEchoes [] = Unit
OwnsEchoes ((k, st) ∷ m) = (st.echo ≡ k) × OwnsEchoes m

pub record IsValid (sm : StreamManager) : Type 0 where
  pub distinct : IsMap sm.streams
  pub owns : OwnsEchoes sm.streams

delete-OwnsEchoes : (m : Assoc String Stream) (k : String) → OwnsEchoes m → OwnsEchoes (delete m k)
unfolding delete
delete-OwnsEchoes [] k h = h
delete-OwnsEchoes ((j, d) ∷ m) k (here, h) = ground (arith, delete-OwnsEchoes m k h)

pub make-IsValid : IsValid new_stream_manager
unfolding new_stream_manager
make-IsValid = record { distinct = tt; owns = tt }

pub register-IsValid :
    (sm : StreamManager) (session : AgentContext) (id : String)
    → IsValid sm
    → IsValid (register sm session id id)
unfolding register put
register-IsValid sm session id v = record {
  distinct =
      put-IsMap sm.streams id
        (record { agent_id = session.agent_id; session_id = session.session_id; echo = id })
        v.distinct;
  owns = (refl, delete-OwnsEchoes sm.streams id v.owns);
}

pub unregister-IsValid :
    (sm : StreamManager) (id : String) → IsValid sm → IsValid (unregister sm id)
unfolding unregister
unregister-IsValid sm id v = record {
  distinct = delete-IsMap sm.streams id v.distinct;
  owns = delete-OwnsEchoes sm.streams id v.owns;
}

abbrev pub contains : List String → String → Bool
contains [] k = false
contains (t ∷ ts) k = t == k || contains ts k

-- Whether a stream belongs to the session.
abbrev pub belongs : String → Option Stream → Bool
belongs session_id none = false
belongs session_id (some st) = st.session_id == session_id

pub contains-targets_of :
    (session_id k : String) (m : Assoc String Stream)
    → IsMap m
    → contains (targets_of session_id m) k ≡ belongs session_id (get m k)
unfolding targets_of get
contains-targets_of session_id k [] d = refl
contains-targets_of session_id k ((j, st) ∷ m) (fresh, d) = ground (
  arith,
  contains-targets_of session_id k m d,
  contains-targets_of session_id j m d,
  string_eq.beq_iff j k,
)

-- The streams of the list are in the table with their own echoes, and none is listed twice.
abbrev pub IsReady : Assoc String Stream → List String → Type 0
IsReady m [] = Unit
IsReady m (t ∷ ts) =
    (contains ts t ≡ false) × ((st : Stream) × (get m t ≡ some st) × (st.echo ≡ t)) × IsReady m ts

-- The rest of the table does not matter.
pub IsReady-mono :
    (m n : Assoc String Stream) (ts : List String)
    → ((k : String) → contains ts k ≡ true → get n k ≡ get m k)
    → IsReady m ts
    → IsReady n ts
IsReady-mono m n [] same h = tt
IsReady-mono m n (t ∷ ts) same (once, (st, there, own), h) = (
  once,
  (st, ground (arith, same t, string_eq.beq_iff t t), own),
  IsReady-mono m n ts (λ k e. ground (arith, same k)) h,
)

pub targets_of-IsReady :
    (session_id : String) (m : Assoc String Stream)
    → IsMap m
    → OwnsEchoes m
    → IsReady m (targets_of session_id m)
unfolding targets_of
targets_of-IsReady session_id [] d h = tt
targets_of-IsReady session_id ((j, st) ∷ m) (fresh, d) (own, h) =
    let rest =
      IsReady-mono m ((j, st) ∷ m) (targets_of session_id m)
        (λ k e.
          unfold get in ground (arith, contains-targets_of session_id k m d, string_eq.beq_iff j k))
        (targets_of-IsReady session_id m d h) in
    elim (Bool-cases (st.session_id == session_id)) [
      | inl ours ↦
          rw (ours, targets_of)
            (
              ground (arith, contains-targets_of session_id j m d),
              (st, unfold get in ground (arith, string_eq.beq_iff j j), own),
              rest,
            )
      | inr other ↦ rw (other, targets_of) rest
    ]
