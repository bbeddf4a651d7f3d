-- ===== src/ServerEcho.antt =====
-- app/server/echo.go and `runEcho` of app/server/service_server.go: the controller's side of one
-- HTTP request. `ServerEcho` hands what the agent sends to the goroutine that runs `runEcho`, over
-- unbuffered channels: a send and its receipt are one step, and once `runEcho` has returned a send
-- waits for ever. `client` below is the state of that goroutine.
pub mod Delivery
use grpc_datacon.Common.{
  ℕ, String, List, [], ◌∷◌, Option, none, some, Bool, true, false, length, ◌==◌, nat_eq,
  if◌then◌else◌,
}
use grpc_datacon.Common.Assoc.{Assoc}
use grpc_datacon.Tunnel.{TunnelHeaders, HttpHeader}
use grpc_datacon.HttpWriter.{
  Header, ResponseWriter, WriteResult, wrote, write_failed, header_add, header_del, write_header,
  write, new_writer,
}
use grpc_datacon.Echo.{EchoError, wrong_state, EchoCall, returned, stuck, HttpEcho}

pub data EchoState : Type 0 where
  state_headers state_data state_done state_canceled : EchoState

pub record ServerEcho : Type 0 where
  pub stream_id : String
  pub state : EchoState

unfoldable pub make_incoming_echoer : String → ServerEcho
make_incoming_echoer stream_id = record { stream_id = stream_id; state = state_headers }

-- A value on one of the four channels.
pub data EchoMsg : Type 0 where
  msg_headers : TunnelHeaders → EchoMsg
  msg_data : List ℕ → EchoMsg
  msg_done : EchoMsg
  msg_fail : ℕ → EchoMsg

-- `runEcho`: whether it still runs, its variable `headersSent`, and the response.
pub record EchoClient : Type 0 where
  pub running : Bool
  pub headers_sent : Bool
  pub writer : ResponseWriter

abbrev pub new_client : EchoClient
new_client = record { running = true; headers_sent = false; writer = new_writer }

-- `for name := range w.Header() { w.Header().Del(name) }`
unfoldable pub del_each : List (String × List String) → Header → Header
del_each [] h = h
del_each ((name, values) ∷ rest) h = del_each rest (header_del h name)

unfoldable pub add_values : String → List String → Header → Header
add_values name [] h = h
add_values name (v ∷ vs) h = add_values name vs (header_add h name v)

-- The two loops over `headers.Headers`.
unfoldable pub add_headers : List HttpHeader → Header → Header
unfolding add_values
add_headers [] h = h
add_headers (x ∷ xs) h = add_headers xs (add_values x.name x.values h)

abbrev pub stop : EchoClient → EchoClient
stop c = record c { running = false }

-- A status that panics ends the handler.
abbrev pub with_status : EchoClient → Option ResponseWriter → EchoClient
with_status c none = stop c
with_status c (some w) = record c { writer = w }

abbrev pub is_short : WriteResult → List ℕ → Bool
is_short (wrote n) bytes = if n == length bytes then false else true
is_short (write_failed n) bytes = true

abbrev pub on_headers : EchoClient → TunnelHeaders → EchoClient
on_headers c h =
    let header = add_headers h.headers (del_each c.writer.header c.writer.header) in
    with_status (record c { headers_sent = true })
      (write_header (record c.writer { header = header }) h.status_code)

-- One round of the loop of `runEcho`, for a value that it receives. `net` says what a write to the
-- HTTP client comes to.
unfoldable pub receive : (ResponseWriter → List ℕ → WriteResult) → EchoClient → EchoMsg → EchoClient
unfolding del_each add_headers
receive net c msg_done = stop c
receive net c (msg_fail code) =
    if c.headers_sent then stop c else stop (with_status c (write_header c.writer code))
receive net c (msg_data bytes) =
    let result = net c.writer bytes in
    let c' = record c { writer = write c.writer bytes result } in
    if is_short result bytes then stop c' else c'
receive net c (msg_headers h) = on_headers c h

-- The other case of the `select`: the HTTP client has gone.
unfoldable pub client_closed : EchoClient → EchoClient
client_closed c = record c { running = false }

-- The two ends of the channels.
pub record EchoPair : Type 0 where
  pub echo : ServerEcho
  pub client : EchoClient

module _ (net : ResponseWriter → List ℕ → WriteResult) where
  abbrev pub in_state : EchoPair → EchoState → EchoPair
  in_state p s = record p { echo = record p.echo { state = s } }

  -- `channel <- msg`, then the rest of the method.
  unfoldable pub send : EchoPair → EchoMsg → (EchoPair → EchoPair) → EchoCall EchoPair
  unfolding receive
  send p msg rest =
      if p.client.running
      then returned (rest (record p { client = receive net p.client msg })) none
      else stuck p

  abbrev pub refuse : EchoPair → EchoCall EchoPair
  refuse p = returned p (some wrong_state)

  -- `e.state != stateData`
  abbrev pub only_data : EchoState → EchoCall EchoPair → EchoPair → EchoCall EchoPair
  only_data state_data call p = call
  only_data state_headers call p = refuse p
  only_data state_done call p = refuse p
  only_data state_canceled call p = refuse p

  abbrev pub only_headers : EchoState → EchoCall EchoPair → EchoPair → EchoCall EchoPair
  only_headers state_headers call p = call
  only_headers state_data call p = refuse p
  only_headers state_done call p = refuse p
  only_headers state_canceled call p = refuse p

  unfoldable pub headers : EchoPair → TunnelHeaders → EchoCall EchoPair
  unfolding send
  headers p h = only_headers p.echo.state (send (in_state p state_data) (msg_headers h) (λ q. q)) p

  unfoldable pub send_data : EchoPair → List ℕ → EchoCall EchoPair
  unfolding send
  send_data p bytes = only_data p.echo.state (send p (msg_data bytes) (λ q. q)) p

  unfoldable pub fail : EchoPair → ℕ → EchoCall EchoPair
  unfolding send
  fail p code = send (in_state p state_done) (msg_fail code) (λ q. q)

  unfoldable pub done : EchoPair → EchoCall EchoPair
  unfolding send
  done p = only_data p.echo.state (send p msg_done (λ q. q)) p

  unfoldable pub cancel : EchoPair → EchoCall EchoPair
  unfolding send
  cancel p = send p msg_done (λ q. in_state q state_canceled)

  unfoldable pub shutdown : EchoPair → EchoCall EchoPair
  shutdown p = returned p none

  unfoldable pub server_echo : HttpEcho EchoPair
  unfolding headers send_data fail done cancel shutdown
  server_echo = record {
    headers = headers;
    send_data = send_data;
    fail = fail;
    done = done;
    cancel = cancel;
    shutdown = shutdown;
    overwrite = λ p bytes. p;
  }
