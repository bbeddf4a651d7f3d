-- ===== src/Streams/Flush/Rounds.antt =====
-- The second loop of `flushUnlocked` of app/server/stream.go, round by round.
use grpc_datacon.Common.{
  ℕ, String, List, [], ◌∷◌, Option, none, some, true, false, ◌==◌, string_eq, if◌then◌else◌, ◌≡◌,
  refl, inl, inr, arith, Bool-cases, ◌∙◌, ap,
}
use grpc_datacon.Common.Assoc.{get, get-delete}
use grpc_datacon.HttpWriter.{ResponseWriter, WriteResult}
use grpc_datacon.Echo.{returned, stuck}
use grpc_datacon.ServerEcho.{EchoPair, state_canceled, server_echo}
use grpc_datacon.Streams.{
  Stream, StreamManager, Echoes, flushed, flush_stuck, cancel_each, unregister, update,
}
use grpc_datacon.Streams.Flush.Targets.{contains, IsReady, IsReady-mono}

-- Whether the handler of the HTTP request still takes what its echo sends.
abbrev pub IsServed : EchoPair → Type 0
IsServed p = p.client.running ≡ true

abbrev pub AllServed : Echoes EchoPair → List String → Type 0
AllServed echoes [] = Unit
AllServed echoes (t ∷ ts) = IsServed (echoes t) × AllServed echoes ts

update_lem :
    (echoes : Echoes EchoPair) (t k : String) (p : EchoPair)
    → update echoes t p k ≡ (if t == k then p else echoes k)
unfolding update
update_lem echoes t k p = refl

AllServed-update :
    (echoes : Echoes EchoPair) (t : String) (p : EchoPair) (ts : List String)
    → contains ts t ≡ false
    → AllServed echoes ts
    → AllServed (update echoes t p) ts
unfolding update
AllServed-update echoes t p [] e h = tt
AllServed-update echoes t p (x ∷ ts) e (here, h) = (
  ground (arith, string_eq.beq_iff x t, string_eq.beq_iff t x),
  AllServed-update echoes t p ts (ground arith) h,
)

-- What `Cancel` leaves: the handler has returned, the echo is in its last state.
abbrev pub canceled : EchoPair → EchoPair
canceled p = record {
  echo = record p.echo { state = state_canceled };
  client = record p.client { running = false };
}

-- The streams that are not listed stay.
abbrev pub unlisted : List String → String → Option Stream → Option Stream
unlisted ts k found = if contains ts k then none else found

pub AllServed-each :
    (echoes : Echoes EchoPair) (ts : List String)
    → ((k : String) → contains ts k ≡ true → IsServed (echoes k))
    → AllServed echoes ts
AllServed-each echoes [] h = tt
AllServed-each echoes (t ∷ ts) h = (
  h t (ground (arith, string_eq.beq_iff t t)),
  AllServed-each echoes ts (λ k e. h k (ground arith)),
)

module _ (net : ResponseWriter → List ℕ → WriteResult) where
  cancel_served :
      (p : EchoPair) → IsServed p → (server_echo net).cancel p ≡ returned (canceled p) none
  unfolding server_echo
  cancel_served p h = ground arith

  cancel_unserved : (p : EchoPair) → p.client.running ≡ false → (server_echo net).cancel p ≡ stuck p
  unfolding server_echo
  cancel_unserved p h = ground arith

  -- One round, for a stream that is in the table.
  cancel_each-cons :
      (t : String) (ts : List String) (sm : StreamManager) (echoes : Echoes EchoPair) (st : Stream)
      → get sm.streams t ≡ some st
      → st.echo ≡ t
      → IsServed (echoes t)
      → cancel_each (server_echo net) (t ∷ ts) sm echoes
        ≡ cancel_each (server_echo net) ts (unregister sm t) (update echoes t (canceled (echoes t)))
  unfolding cancel_each
  cancel_each-cons t ts sm echoes st there own served =
      rw (there, cancel_each) (rw own (rw (cancel_served (echoes t) served, cancel_each)))

  cancel_each-stuck :
      (t : String) (ts : List String) (sm : StreamManager) (echoes : Echoes EchoPair) (st : Stream)
      → get sm.streams t ≡ some st
      → st.echo ≡ t
      → (echoes t).client.running ≡ false
      → cancel_each (server_echo net) (t ∷ ts) sm echoes
        ≡ flush_stuck sm (update echoes t (echoes t))
  unfolding cancel_each
  cancel_each-stuck t ts sm echoes st there own unserved =
      rw (there, cancel_each) (rw own (rw (cancel_unserved (echoes t) unserved, cancel_each)))

  get-unregister :
      (sm : StreamManager) (t k : String)
      → get (unregister sm t).streams k ≡ (if t == k then none else get sm.streams k)
  unfolding unregister
  get-unregister sm t k = get-delete sm.streams t k

  IsReady-unregister :
      (sm : StreamManager) (t : String) (ts : List String)
      → contains ts t ≡ false
      → IsReady sm.streams ts
      → IsReady (unregister sm t).streams ts
  IsReady-unregister sm t ts once =
      IsReady-mono sm.streams (unregister sm t).streams ts
        (λ k e. ground (arith, get-unregister sm t k, string_eq.beq_iff t k))

  -- Where every listed request is served, the loop ends, and the listed streams are gone.
  pub cancel_each-flushed :
      (ts : List String) (sm : StreamManager) (echoes : Echoes EchoPair)
      → IsReady sm.streams ts
      → AllServed echoes ts
      → (sm' : StreamManager) × (echoes' : Echoes EchoPair) × (cancel_each
            (server_echo net)
            ts
            sm
            echoes
          ≡ flushed sm' echoes')
        × ((k : String) → get sm'.streams k ≡ unlisted ts k (get sm.streams k))
        × ((k : String) → echoes' k ≡ (if contains ts k then canceled (echoes k) else echoes k))
  cancel_each-flushed [] sm echoes ready served =
      (sm, echoes, unfold cancel_each in refl, λ k. refl, λ k. refl)
  cancel_each-flushed (t ∷ ts) sm echoes (once, (st, there, own), ready) (here, served) =
      let (sm', echoes', ends, left, states) =
        cancel_each-flushed ts (unregister sm t) (update echoes t (canceled (echoes t)))
          (IsReady-unregister sm t ts once ready) (AllServed-update echoes t _ ts once served) in
      (
        sm',
        echoes',
        cancel_each-cons t ts sm echoes st there own here ∙ ends,
        λ k. ground (arith, left k, get-unregister sm t k, string_eq.beq_iff t k),
        λ k. ground (
          arith,
          states k,
          update_lem echoes t k (canceled (echoes t)),
          string_eq.beq_iff t k,
          ap echoes {x = t} {y = k},
        ),
      )

  -- Where one listed request is not, the loop never ends.
  pub cancel_each-flush_stuck :
      (ts : List String) (sm : StreamManager) (echoes : Echoes EchoPair) (k : String)
      → IsReady sm.streams ts
      → contains ts k ≡ true
      → (echoes k).client.running ≡ false
      → (sm' : StreamManager) × (echoes' : Echoes EchoPair) × (cancel_each
            (server_echo net)
            ts
            sm
            echoes
          ≡ flush_stuck sm' echoes')
  cancel_each-flush_stuck [] sm echoes k ready e h = cc
  cancel_each-flush_stuck (t ∷ ts) sm echoes k (once, (st, there, own), ready) e h =
      elim (Bool-cases (echoes t).client.running) [
        | inl here ↦
            let (sm', echoes', ends) =
              cancel_each-flush_stuck ts (unregister sm t) (update echoes t (canceled (echoes t))) k
                (IsReady-unregister sm t ts once ready) (other here)
                (unfold update in ground (arith, string_eq.beq_iff t k)) in
            (sm', echoes', cancel_each-cons t ts sm echoes st there own here ∙ ends)
        | inr gone ↦
            (sm, update echoes t (echoes t), cancel_each-stuck t ts sm echoes st there own gone)
      ]
    where
      other : IsServed (echoes t) → contains ts k ≡ true
      other here = ground (arith, string_eq.beq_iff t k, ap (λ x. (echoes x).client.running))
