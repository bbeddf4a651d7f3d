-- ===== src/Echo.antt =====
-- internal/serviceconfig/http_echo.go: the interface `HTTPEcho`, over the state that a call may
-- change. The error that is passed to `Fail` is not kept: both implementations ignore it.
use grpc_datacon.Common.{ℕ, List, Option}
use grpc_datacon.Tunnel.{TunnelHeaders}

pub data EchoError : Type 0 where
  wrong_state : EchoError

-- How a call ends: it returns an error or nil, it waits for ever on a channel that nobody reads, or
-- it panics.
pub data EchoCall (S : Type 0) : Type 0 where
  returned : S → Option EchoError → EchoCall S
  stuck : S → EchoCall S
  panicked : S → EchoCall S

pub record HttpEcho (S : Type 0) : Type 0 where
  pub headers : S → TunnelHeaders → EchoCall S
  pub send_data : S → List ℕ → EchoCall S
  pub fail : S → ℕ → EchoCall S
  pub done : S → EchoCall S
  pub cancel : S → EchoCall S
  pub shutdown : S → EchoCall S
  -- Not in the interface: what becomes of a chunk that the echo still holds when the buffer that it
  -- shares with its sender is read into again.
  pub overwrite : S → List ℕ → S
