-- ===== src/Execute/Overtaken.antt =====
-- The loop of `RunHTTPRequest` of internal/serviceconfig/generic_endpoint.go where it reads faster than
-- `RunDataSender` of app/client/echo.go sends: all reads of a body share one buffer.
use grpc_datacon.Common.{ℕ, String, List, [], ◌∷◌, ◌++◌, true, false, ◌≡◌, refl, ap, ◌∙◌}
use grpc_datacon.Tunnel.{StreamFlow, data_frame, done}
use grpc_datacon.AgentEcho.{AgentEcho, agent_echo, overlay, overwrite_last}
use grpc_datacon.Execute.{
  no_error, at_eof, BodyRead, run_returned, send_body, send_chunk, reread, after_read,
}
use grpc_datacon.Execute.Body.{open_echo, closed_echo, send_body_step, send_chunk_lem, at_eof_lem}

-- As many bytes.
abbrev pub IsAsLong : List ℕ → List ℕ → Type 0
IsAsLong [] [] = Unit
IsAsLong [] (o ∷ old) = ⊥
IsAsLong (b ∷ new) [] = ⊥
IsAsLong (b ∷ new) (o ∷ old) = IsAsLong new old

overlay_full : (new old : List ℕ) → IsAsLong new old → overlay new old ≡ new
unfolding overlay
overlay_full [] [] e = refl
overlay_full [] (o ∷ old) e = absurd e
overlay_full (b ∷ new) [] e = absurd e
overlay_full (b ∷ new) (o ∷ old) e = ap (λ l. b ∷ l) (overlay_full new old e)

overwrite_last-append :
    (bytes old : List ℕ) (out : List StreamFlow)
    → overwrite_last bytes (out ++ data_frame old ∷ []) ≡ out ++ data_frame (overlay bytes old) ∷ []
unfolding overwrite_last
overwrite_last-append bytes old [] = refl
overwrite_last-append bytes old (m ∷ []) = refl
overwrite_last-append bytes old (m ∷ n ∷ out) =
    ap (λ l. m ∷ l) (overwrite_last-append bytes old (n ∷ out))

reread_lem :
    (id : String) (out : List StreamFlow) (bytes old : List ℕ)
    → IsAsLong bytes old
    → reread agent_echo true bytes (open_echo id true (out ++ data_frame old ∷ []))
      ≡ open_echo id true (out ++ data_frame bytes ∷ [])
unfolding agent_echo
reread_lem id out bytes old same = ap (open_echo id true) (
    overwrite_last-append bytes old out
    ∙ ap (λ l. out ++ data_frame l ∷ []) (overlay_full bytes old same))

quick_step :
    (q : BodyRead) (c : ℕ) (second : List ℕ) (e : AgentEcho)
    → q.ctx_done ≡ false
    → q.overtakes ≡ true
    → q.chunk ≡ c ∷ second
    → send_body agent_echo (q ∷ []) e
      ≡ send_chunk agent_echo
          (c ∷ second)
          (reread agent_echo true (c ∷ second) e)
          (λ u. after_read agent_echo q.error u (send_body agent_echo []))
unfolding send_body
quick_step q c second e live quick two = rw (live, send_body) (rw quick (rw two refl))

-- All reads of a body go to one buffer, which a chunk that has been sent still shares: if a body
-- comes in two reads, and the second one comes before the chunk of the first has been marshalled,
-- and brings as many bytes, the agent sends the bytes of the second chunk twice and those of the
-- first never, and ends the stream as after a whole body. The context is not done before the reads.
pub send_body-overtaken :
    (id : String) (out : List StreamFlow) (r q : BodyRead) (b c : ℕ) (first second : List ℕ)
    → (r.ctx_done ≡ false) × (r.overtakes ≡ false) × (r.error ≡ no_error)
    → (q.ctx_done ≡ false) × (q.overtakes ≡ true) × (q.error ≡ at_eof)
    → r.chunk ≡ b ∷ first
    → q.chunk ≡ c ∷ second
    → IsAsLong second first
    → send_body agent_echo (r ∷ q ∷ []) (open_echo id true out)
      ≡ run_returned (
          closed_echo id true
            (((out ++ data_frame (c ∷ second) ∷ []) ++ data_frame (c ∷ second) ∷ []) ++ done ∷ []))
send_body-overtaken id out r q b c first second (live, slow, more) (live', quick, eof) one two
      same =
    send_body_step id r (q ∷ []) out live slow
    ∙ rw (more, one)
        (quick_step q c second (open_echo id true (out ++ data_frame (b ∷ first) ∷ [])) live' quick
            two
          ∙ ap
              (λ e.
                send_chunk agent_echo (c ∷ second) e
                  (λ u. after_read agent_echo q.error u (send_body agent_echo [])))
              (reread_lem id out (c ∷ second) (b ∷ first) same)
          ∙ send_chunk_lem id (c ∷ second) (out ++ data_frame (c ∷ second) ∷ [])
              (λ u. after_read agent_echo q.error u (send_body agent_echo []))
          ∙ rw eof (at_eof_lem id true _ (send_body agent_echo [])))
