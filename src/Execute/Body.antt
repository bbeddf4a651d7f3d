-- ===== src/Execute/Body.antt =====
-- The loop of `RunHTTPRequest` of internal/serviceconfig/generic_endpoint.go over the echo of
-- app/client/echo.go: how a body goes out.
use mathlib.Core.List.{append-nil, append_assoc, map-append}
use grpc_datacon.Common.{
  ℕ, String, List, [], ◌∷◌, ◌++◌, map, none, Bool, true, false, ◌≡◌, ◌⊎◌, inl, inr, refl, sym, ap,
  ◌∙◌,
}
use grpc_datacon.Tunnel.{TunnelHeaders, StreamFlow, headers, data_frame, cancel, done}
use grpc_datacon.Echo.{returned}
use grpc_datacon.AgentEcho.{AgentEcho, agent_echo, bare_headers, overwrite_last}
use grpc_datacon.Execute.{
  no_error, at_eof, read_failed, BodyRead, RunEnd, run_returned, run_panicked, send_body,
  send_chunk, reread, after_read, status_bad_gateway,
}

-- An echo whose sender runs, and one that has ended its stream.
abbrev pub open_echo : String → Bool → List StreamFlow → AgentEcho
open_echo id headers_sent out = record {
  stream_id = id;
  headers_sent = headers_sent;
  closed = false;
  chan_closed = false;
  sending = true;
  room = none;
  out = out;
}

abbrev pub closed_echo : String → Bool → List StreamFlow → AgentEcho
closed_echo id headers_sent out = record {
  stream_id = id;
  headers_sent = headers_sent;
  closed = true;
  chan_closed = true;
  sending = false;
  room = none;
  out = out;
}

-- The chunks that a body's reads bring, without the empty ones.
abbrev pub unless_empty : List ℕ → List (List ℕ)
unless_empty [] = []
unless_empty (b ∷ bytes) = (b ∷ bytes) ∷ []

abbrev pub chunks : List BodyRead → List (List ℕ)
chunks [] = []
chunks (r ∷ rs) = unless_empty r.chunk ++ chunks rs

-- The context is not done, each chunk is marshalled before the next read, and the body ends with
-- `io.EOF` and not before.
abbrev pub IsWhole : List BodyRead → Type 0
IsWhole [] = ⊥
IsWhole (r ∷ []) = (r.ctx_done ≡ false) × (r.overtakes ≡ false) × (r.error ≡ at_eof)
IsWhole (r ∷ q ∷ rs) =
    (r.ctx_done ≡ false) × (r.overtakes ≡ false) × (r.error ≡ no_error) × IsWhole (q ∷ rs)

-- The context is not done, each chunk is marshalled before the next read, and a read of the body
-- fails after some that did not.
abbrev pub IsCut : List BodyRead → Type 0
IsCut [] = ⊥
IsCut (r ∷ []) = (r.ctx_done ≡ false) × (r.overtakes ≡ false) × (r.error ≡ read_failed)
IsCut (r ∷ q ∷ rs) =
    (r.ctx_done ≡ false) × (r.overtakes ≡ false) × (r.error ≡ no_error) × IsCut (q ∷ rs)

abbrev pub data_frames : List (List ℕ) → List StreamFlow
data_frames = map data_frame

module _ (id : String) where
  pub headers_lem :
      (h : TunnelHeaders) (out : List StreamFlow)
      → agent_echo.headers (open_echo id false out) h
        ≡ returned (open_echo id true (out ++ headers h ∷ [])) none
  unfolding agent_echo
  headers_lem h out = refl

  pub send_data_lem :
      (sent : Bool) (bytes : List ℕ) (out : List StreamFlow)
      → agent_echo.send_data (open_echo id sent out) bytes
        ≡ returned (open_echo id sent (out ++ data_frame bytes ∷ [])) none
  unfolding agent_echo
  send_data_lem sent bytes out = refl

  pub done_lem :
      (sent : Bool) (out : List StreamFlow)
      → agent_echo.done (open_echo id sent out)
        ≡ returned (closed_echo id sent (out ++ done ∷ [])) none
  unfolding agent_echo
  done_lem sent out = refl

  pub shutdown_lem :
      (sent : Bool) (out : List StreamFlow)
      → agent_echo.shutdown (open_echo id sent out)
        ≡ returned (closed_echo id sent (out ++ done ∷ [])) none
  unfolding agent_echo
  shutdown_lem sent out = refl

  pub shutdown-closed :
      (sent : Bool) (out : List StreamFlow)
      → agent_echo.shutdown (closed_echo id sent out) ≡ returned (closed_echo id sent out) none
  unfolding agent_echo
  shutdown-closed sent out = refl

  pub fail_lem :
      (code : ℕ) (out : List StreamFlow)
      → agent_echo.fail (open_echo id false out) code
        ≡ returned
            (open_echo id false ((out ++ headers (bare_headers id code) ∷ []) ++ done ∷ []))
            none
  unfolding agent_echo
  fail_lem code out = refl

  pub send_chunk_lem :
      (chunk : List ℕ) (out : List StreamFlow) (next : AgentEcho → RunEnd AgentEcho)
      → send_chunk agent_echo chunk (open_echo id true out) next
        ≡ next (open_echo id true (out ++ data_frames (unless_empty chunk)))
  send_chunk_lem [] out next = rw append-nil
  send_chunk_lem (b ∷ bytes) out next = rw (send_data_lem true (b ∷ bytes) out)

  pub send_body_step :
      (r : BodyRead) (rs : List BodyRead) (out : List StreamFlow)
      → r.ctx_done ≡ false
      → r.overtakes ≡ false
      → send_body agent_echo (r ∷ rs) (open_echo id true out)
        ≡ after_read agent_echo r.error
            (open_echo id true (out ++ data_frames (unless_empty r.chunk)))
            (send_body agent_echo rs)
  unfolding send_body
  send_body_step r rs out live slow = rw (live, send_body) (rw slow (send_chunk_lem r.chunk out _))

  pub at_eof_lem :
      (sent : Bool) (out : List StreamFlow) (next : AgentEcho → RunEnd AgentEcho)
      → after_read agent_echo at_eof (open_echo id sent out) next
        ≡ run_returned (closed_echo id sent (out ++ done ∷ []))
  at_eof_lem sent out next = rw (done_lem sent out) (rw (shutdown-closed sent (out ++ done ∷ [])))

  append-data_frames :
      (out : List StreamFlow) (cs ds : List (List ℕ))
      → (out ++ data_frames cs) ++ data_frames ds ≡ out ++ data_frames (cs ++ ds)
  append-data_frames out cs ds = rw (map-append, append_assoc)

  abbrev ended : List StreamFlow → RunEnd AgentEcho
  ended out = run_returned (closed_echo id true (out ++ done ∷ []))

  pub send_body_lem :
      (rs : List BodyRead) (out : List StreamFlow)
      → IsWhole rs
      → send_body agent_echo rs (open_echo id true out)
        ≡ run_returned (closed_echo id true (out ++ data_frames (chunks rs) ++ done ∷ []))
  send_body_lem [] out w = absurd w
  send_body_lem (r ∷ []) out (live, slow, eof) =
      send_body_step r [] out live slow
      ∙ rw eof
          (at_eof_lem true (out ++ data_frames (unless_empty r.chunk)) (send_body agent_echo []))
      ∙ ap (λ cs. ended (out ++ data_frames cs)) (sym (append-nil (unless_empty r.chunk)))
  send_body_lem (r ∷ q ∷ rs) out (live, slow, more, w) =
      send_body_step r (q ∷ rs) out live slow
      ∙ rw more (send_body_lem (q ∷ rs) (out ++ data_frames (unless_empty r.chunk)) w)
      ∙ ap ended (append-data_frames out (unless_empty r.chunk) (chunks (q ∷ rs)))

  pub fail-sent :
      (code : ℕ) (out : List StreamFlow)
      → agent_echo.fail (open_echo id true out) code
        ≡ returned (open_echo id true (out ++ done ∷ [])) none
  unfolding agent_echo
  fail-sent code out = refl

  abbrev cut_off : List StreamFlow → RunEnd AgentEcho
  cut_off out = run_returned (open_echo id true (out ++ done ∷ []))

  read_failed_lem :
      (out : List StreamFlow) (next : AgentEcho → RunEnd AgentEcho)
      → after_read agent_echo read_failed (open_echo id true out) next ≡ cut_off out
  read_failed_lem out next = rw (fail-sent status_bad_gateway out)

  pub send_body-cut :
      (rs : List BodyRead) (out : List StreamFlow)
      → IsCut rs
      → send_body agent_echo rs (open_echo id true out) ≡ cut_off (out ++ data_frames (chunks rs))
  send_body-cut [] out w = absurd w
  send_body-cut (r ∷ []) out (live, slow, failed_read) =
      send_body_step r [] out live slow
      ∙ rw failed_read
          (read_failed_lem (out ++ data_frames (unless_empty r.chunk)) (send_body agent_echo []))
      ∙ ap (λ cs. cut_off (out ++ data_frames cs)) (sym (append-nil (unless_empty r.chunk)))
  send_body-cut (r ∷ q ∷ rs) out (live, slow, more, w) =
      send_body_step r (q ∷ rs) out live slow
      ∙ rw more (send_body-cut (q ∷ rs) (out ++ data_frames (unless_empty r.chunk)) w)
      ∙ ap cut_off (append-data_frames out (unless_empty r.chunk) (chunks (q ∷ rs)))

overwrite_last-cancel :
    (bytes : List ℕ) (out : List StreamFlow)
    → overwrite_last bytes (out ++ cancel ∷ []) ≡ out ++ cancel ∷ []
unfolding overwrite_last
overwrite_last-cancel bytes [] = refl
overwrite_last-cancel bytes (m ∷ []) = refl
overwrite_last-cancel bytes (m ∷ n ∷ out) = ap (λ l. m ∷ l) (overwrite_last-cancel bytes (n ∷ out))

-- After a cancel nothing waits to be marshalled.
reread-canceled :
    (id : String) (out : List StreamFlow) (b : Bool) (bytes : List ℕ)
    → reread agent_echo b bytes (closed_echo id true (out ++ cancel ∷ []))
      ≡ closed_echo id true (out ++ cancel ∷ [])
unfolding agent_echo
reread-canceled id out false bytes = refl
reread-canceled id out true bytes = ap (closed_echo id true) (overwrite_last-cancel bytes out)

-- If the request's context is done while a body is read, the loop cancels the stream and goes on:
-- the next chunk, or the failure of the next read, is sent on the channel that the cancel has
-- closed, which panics.
pub send_body-canceled :
    (id : String) (out : List StreamFlow) (r : BodyRead) (rs : List BodyRead) (b : ℕ)
    (bytes : List ℕ)
    → r.ctx_done ≡ true
    → (r.chunk ≡ b ∷ bytes) ⊎ ((r.chunk ≡ []) × (r.error ≡ read_failed))
    → send_body agent_echo (r ∷ rs) (open_echo id true out)
      ≡ run_panicked (closed_echo id true (out ++ cancel ∷ []))
unfolding send_body agent_echo
send_body-canceled id out r rs b bytes over (inl chunk) =
    rw (over, send_body) (rw chunk (rw (reread-canceled id out r.overtakes (b ∷ bytes)) refl))
send_body-canceled id out r rs b bytes over (inr (nothing, failed_read)) =
    rw (over, send_body)
      (rw nothing (rw failed_read (rw (reread-canceled id out r.overtakes []) refl)))
