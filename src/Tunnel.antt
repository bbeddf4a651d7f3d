-- ===== src/Tunnel.antt =====
-- internal/tunnel: the messages of the gRPC service between agent and controller, and the wrappers
-- of streamflow.go. A message pointer that is never nil is the message.
use grpc_datacon.Common.{ℕ, String, List, Bool}

pub record Annotation : Type 0 where
  pub name : String
  pub value : String

pub record AgentInfo : Type 0 where
  pub annotations : List Annotation

pub record EndpointHealth : Type 0 where
  pub name : String
  pub type : String
  pub configured : Bool
  pub namespaces : List String
  pub annotations : List Annotation

pub record HelloRequest : Type 0 where
  pub endpoints : List EndpointHealth
  pub version : String
  pub agent_info : AgentInfo
  pub hostname : String

-- The fields that the controller sets.
pub record HelloResponse : Type 0 where
  pub agent_id : String
  pub instance_id : String
  pub version : String

pub record PingResponse : Type 0 where
  pub ts : ℕ
  pub echoed_ts : ℕ

pub record HttpHeader : Type 0 where
  pub name : String
  pub values : List String

pub record TunnelHeaders : Type 0 where
  pub stream_id : String
  pub status_code : ℕ  -- int32
  pub headers : List HttpHeader
  pub content_length : ℕ  -- int64

pub record TunnelRequest : Type 0 where
  pub stream_id : String
  pub name : String
  pub type : String
  pub method : String
  pub uri : String
  pub headers : List HttpHeader
  pub body : List ℕ

-- The `oneof event`, which may be unset; the `Data` message has one field that is set.
pub data StreamFlow : Type 0 where
  stream_id : String → StreamFlow
  headers : TunnelHeaders → StreamFlow
  data_frame : List ℕ → StreamFlow
  cancel : StreamFlow
  done : StreamFlow
  unset : StreamFlow

unfoldable pub streamflow_wrap_data_msg : List ℕ → StreamFlow
streamflow_wrap_data_msg d = data_frame d

unfoldable pub streamflow_wrap_header_msg : TunnelHeaders → StreamFlow
streamflow_wrap_header_msg h = headers h

unfoldable pub streamflow_wrap_done_msg : StreamFlow
streamflow_wrap_done_msg = done

unfoldable pub streamflow_wrap_cancel_msg : StreamFlow
streamflow_wrap_cancel_msg = cancel

unfoldable pub streamflow_wrap_stream_id : String → StreamFlow
streamflow_wrap_stream_id id = stream_id id
