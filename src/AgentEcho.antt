-- ===== src/AgentEcho.antt =====
-- app/client/echo.go: the agent's side of one HTTP request. Its methods send on an unbuffered channel
-- to the goroutine of `RunDataSender`, which passes each message on to the controller: a send and its
-- receipt are one step. `out` is what has been sent on the RPC, the first message first. A message is
-- marshalled after its receipt, so the last one may still share its bytes with the buffer that they
-- were read into. A `Send` of the RPC may block for ever: then nobody receives any more. A send on a
-- closed channel panics; one that nobody receives waits for ever.
use grpc_datacon.Common.{
  zero, suc, Option, some, ℕ, ◌%◌, ◌^◌, String, List, [], ◌∷◌, ◌++◌, none, Bool, true, false,
  if◌then◌else◌,
}
use grpc_datacon.Tunnel.{
  TunnelHeaders, StreamFlow, streamflow_wrap_data_msg, streamflow_wrap_header_msg,
  streamflow_wrap_done_msg, streamflow_wrap_cancel_msg, streamflow_wrap_stream_id,
}
use grpc_datacon.Echo.{EchoCall, returned, stuck, panicked, HttpEcho}

pub record AgentEcho : Type 0 where
  pub stream_id : String
  pub headers_sent : Bool
  pub closed : Bool
  -- the channel, and whether `RunDataSender` is in its loop
  pub chan_closed : Bool
  pub sending : Bool
  -- how many more messages the RPC takes before a `Send` blocks for ever, if one does
  pub room : Option ℕ
  pub out : List StreamFlow

-- How the start of `RunDataSender` goes: the RPC is not opened, the stream's id cannot be sent, or
-- the loop is reached, either for good or until a `Send` blocks for ever after so many messages.
pub data Start : Type 0 where
  not_opened id_not_sent in_loop : Start
  blocks_after : ℕ → Start

abbrev is_in_loop : Start → Bool
is_in_loop in_loop = true
is_in_loop (blocks_after n) = true
is_in_loop not_opened = false
is_in_loop id_not_sent = false

abbrev first_out : Start → String → List StreamFlow
unfolding streamflow_wrap_stream_id
first_out in_loop id = streamflow_wrap_stream_id id ∷ []
first_out (blocks_after n) id = streamflow_wrap_stream_id id ∷ []
first_out not_opened id = []
first_out id_not_sent id = []

abbrev room_of : Start → Option ℕ
room_of (blocks_after n) = some n
room_of in_loop = none
room_of not_opened = none
room_of id_not_sent = none

-- `MakeEcho`, with the start of the goroutine that it spawns.
unfoldable pub make_echo : String → Start → AgentEcho
unfolding streamflow_wrap_stream_id
make_echo stream_id start = record {
  stream_id = stream_id;
  headers_sent = false;
  closed = false;
  chan_closed = false;
  sending = is_in_loop start;
  room = room_of start;
  out = first_out start stream_id;
}

-- `RunDataSender` has received a message, and passes it to `Send`.
abbrev pub posted : AgentEcho → StreamFlow → Option ℕ → AgentEcho
posted e msg none = record e { out = e.out ++ msg ∷ [] }
posted e msg (some zero) = record e { sending = false }
posted e msg (some (suc n)) = record e { room = some n; out = e.out ++ msg ∷ [] }

-- `e.msgChan <- msg`, then the rest of the method. A send of the RPC that fails is logged, and the
-- loop goes on.
unfoldable pub send : AgentEcho → StreamFlow → (AgentEcho → EchoCall AgentEcho) → EchoCall AgentEcho
send e msg rest =
    let sent = rest (posted e msg e.room) in
    if e.chan_closed then panicked e else if e.sending then sent else stuck e

-- `close(e.msgChan)`, at which the goroutine of `RunDataSender` returns.
abbrev close : AgentEcho → EchoCall AgentEcho
close e = returned (record e { chan_closed = true; sending = false }) none

-- The common body of `Shutdown`, `Done` and `Cancel`.
unfoldable pub close_with : AgentEcho → StreamFlow → EchoCall AgentEcho
unfolding send
close_with e msg = if e.closed then returned e none else send (record e { closed = true }) msg close

unfoldable pub shutdown : AgentEcho → EchoCall AgentEcho
unfolding close_with streamflow_wrap_done_msg
shutdown e = close_with e streamflow_wrap_done_msg

unfoldable pub headers : AgentEcho → TunnelHeaders → EchoCall AgentEcho
unfolding send streamflow_wrap_header_msg
headers e h =
    send e (streamflow_wrap_header_msg h) (λ f. returned (record f { headers_sent = true }) none)

unfoldable pub send_data : AgentEcho → List ℕ → EchoCall AgentEcho
unfolding send streamflow_wrap_data_msg
send_data e bytes = send e (streamflow_wrap_data_msg bytes) (λ f. returned f none)

-- The message that stands for a status without a response.
abbrev pub bare_headers : String → ℕ → TunnelHeaders
bare_headers stream_id code = record {
  stream_id = stream_id;
  status_code = code % 2 ^ 32;
  headers = [];
  content_length = 0;
}

unfoldable pub fail : AgentEcho → ℕ → EchoCall AgentEcho
unfolding send streamflow_wrap_header_msg streamflow_wrap_done_msg
fail e code =
    let finish = λ (f : AgentEcho). send f streamflow_wrap_done_msg (λ g. returned g none) in
    if e.headers_sent
    then finish e
    else send e (streamflow_wrap_header_msg (bare_headers e.stream_id code)) finish

unfoldable pub done : AgentEcho → EchoCall AgentEcho
unfolding close_with streamflow_wrap_done_msg
done e = close_with e streamflow_wrap_done_msg

unfoldable pub cancel : AgentEcho → EchoCall AgentEcho
unfolding close_with streamflow_wrap_cancel_msg
cancel e = close_with e streamflow_wrap_cancel_msg

-- The bytes of a chunk in whose buffer others have been written from its beginning on.
unfoldable pub overlay : List ℕ → List ℕ → List ℕ
overlay [] old = old
overlay (b ∷ bytes) [] = []
overlay (b ∷ bytes) (o ∷ old) = b ∷ overlay bytes old

abbrev overwrite : List ℕ → StreamFlow → StreamFlow
unfolding overlay
overwrite bytes (StreamFlow.data_frame old) = StreamFlow.data_frame (overlay bytes old)
overwrite bytes (StreamFlow.stream_id id) = StreamFlow.stream_id id
overwrite bytes (StreamFlow.headers h) = StreamFlow.headers h
overwrite bytes StreamFlow.cancel = StreamFlow.cancel
overwrite bytes StreamFlow.done = StreamFlow.done
overwrite bytes StreamFlow.unset = StreamFlow.unset

-- The last message is the one that may not be marshalled yet.
unfoldable pub overwrite_last : List ℕ → List StreamFlow → List StreamFlow
unfolding overlay
overwrite_last bytes [] = []
overwrite_last bytes (m ∷ []) = overwrite bytes m ∷ []
overwrite_last bytes (m ∷ n ∷ rest) = m ∷ overwrite_last bytes (n ∷ rest)

unfoldable pub agent_echo : HttpEcho AgentEcho
unfolding headers send_data fail done cancel shutdown overwrite_last
agent_echo = record {
  headers = headers;
  send_data = send_data;
  fail = fail;
  done = done;
  cancel = cancel;
  shutdown = shutdown;
  overwrite = λ e bytes. record e { out = overwrite_last bytes e.out };
}
