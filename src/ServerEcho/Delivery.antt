-- ===== src/ServerEcho/Delivery.antt =====
-- What the HTTP client of the controller gets: `runEcho` of app/server/service_server.go at the
-- calls of one echo, one call at a time.
use grpc_datacon.Common.{
  ℕ, List, [], ◌++◌, none, some, true, false, length, take-length, nat_eq, ◌≡◌, refl, arith,
}
use grpc_datacon.Tunnel.{TunnelHeaders}
use grpc_datacon.HttpWriter.{
  Header, ResponseWriter, WriteResult, wrote, write, write_header, is_status, is_informational,
}
use grpc_datacon.Echo.{returned}
use grpc_datacon.ServerEcho.{
  ServerEcho, state_headers, state_data, EchoPair, new_client, add_headers, server_echo,
}

-- Every write to the HTTP client goes through whole.
abbrev pub IsOpen : (ResponseWriter → List ℕ → WriteResult) → Type 0
IsOpen net = (w : ResponseWriter) (bytes : List ℕ) → net w bytes ≡ wrote (length bytes)

-- A final status that net/http accepts.
abbrev pub IsFinal : ℕ → Type 0
IsFinal code = (is_status code ≡ true) × (is_informational code ≡ false)

-- The echo of `stream_id` between two calls, when `state` is its state and this has been written.
abbrev pub delivering : ServerEcho → ℕ → Header → List ℕ → EchoPair
delivering echo code header body = record {
  echo = record echo { state = state_data };
  client = record {
    running = true;
    headers_sent = true;
    writer = record { header = header; sent = some (code, header); body = body };
  };
}

abbrev pub fresh_pair : ServerEcho → EchoPair
fresh_pair echo = record { echo = record echo { state = state_headers }; client = new_client }

-- The handler has returned.
abbrev pub finished : EchoPair → EchoPair
finished p = record p { client = record p.client { running = false } }

module _ (net : ResponseWriter → List ℕ → WriteResult) where
  pub headers-fresh :
      (echo : ServerEcho) (h : TunnelHeaders)
      → IsFinal h.status_code
      → (server_echo net).headers (fresh_pair echo) h
        ≡ returned (delivering echo h.status_code (add_headers h.headers []) []) none
  unfolding server_echo write_header
  headers-fresh echo h (status, final) = ground arith

  pub send_data-delivering :
      (echo : ServerEcho) (code : ℕ) (header : Header) (body bytes : List ℕ)
      → IsOpen net
      → (server_echo net).send_data (delivering echo code header body) bytes
        ≡ returned (delivering echo code header (body ++ bytes)) none
  unfolding server_echo write
  send_data-delivering echo code header body bytes open_net =
      let w : ResponseWriter = record {
        header = header;
        sent = some (code, header);
        body = body;
      } in
      ground (arith, open_net w bytes, take-length bytes)

  pub done-delivering :
      (echo : ServerEcho) (code : ℕ) (header : Header) (body : List ℕ)
      → (server_echo net).done (delivering echo code header body)
        ≡ returned (finished (delivering echo code header body)) none
  unfolding server_echo
  done-delivering echo code header body = refl
