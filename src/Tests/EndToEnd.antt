-- ===== src/Tests/EndToEnd.antt =====
-- Runs of one request through the agent and the controller.
use grpc_datacon.Common.{
  String, List, [], ◌∷◌, subst, ap, arith, none, some, true, false, ok, ◌≡◌, refl, inl, inr,
  string_eq,
}
use grpc_datacon.Common.Assoc.{put}
use grpc_datacon.Common.Text.{canonical_header_key}
use grpc_datacon.Tunnel.{TunnelRequest, TunnelHeaders, stream_id, cancel, data_frame, done}
use grpc_datacon.AgentEcho.{AgentEcho, in_loop, not_opened, make_echo, agent_echo}
use grpc_datacon.ServerEcho.{add_headers, server_echo}
use grpc_datacon.ServerEcho.Delivery.{delivering, finished}
use grpc_datacon.Streams.{unregister, update}
use grpc_datacon.Controller.{flow_ok, flow_returned, data_flow}
use grpc_datacon.Endpoint.{
  Codec, Credentials, GenericEndpoint, ConfiguredEndpoint, find_endpoint, unmutate_uri,
}
use grpc_datacon.Headers.{pb_headers_to_http, http_headers_to_pb}
use grpc_datacon.Execute.{
  BodyRead, Fetch, fetched, not_fetched, never_fetched, at_eof, no_error, read_failed, HttpResponse,
  HttpRequest, HttpClient, run_returned, run_stuck, run_panicked, send_body, make_response,
  build_request, set_credentials, set_agent_name, serve_request,
}
use grpc_datacon.Execute.Body.{open_echo, closed_echo, send_body-canceled}
use grpc_datacon.Execute.Overtaken.{send_body-overtaken}
use grpc_datacon.Execute.Outcome.{Finds, unknown, serve_request-not_opened}
use grpc_datacon.Execute.Calls.{IsShut}
use grpc_datacon.Execute.Ends.{RunEnds, EndsBody}
use grpc_datacon.Execute.Ends.Serve.{Cause, IsAnswering, serve_request-RunEnds}
use grpc_datacon.Execute.Authorization.{IsBuilt, get-build_request}
use grpc_datacon.EndToEnd.{
  received, data_flow-serve_request, data_flow-serve_request_refused, data_flow-serve_request_cut,
}
use grpc_datacon.Tests.Registry.{vault}
use grpc_datacon.Tests.Tokens.{user_vault}
use grpc_datacon.Tests.Fixtures.{stream, streams, echo, echoes, open_net}
use grpc_datacon.Tests.Flow.{open_net-IsOpen, in_flight}

abbrev plain : Codec
plain = record { encode64 = λ s. s; decode64 = λ s. some s }

abbrev no_credentials : Credentials
no_credentials = record {
  type = "none";
  username = "";
  password = "";
  token = "";
  secret_name = "";
  raw_username = "";
  raw_password = "";
  raw_token = "";
}

abbrev with_token : Credentials
with_token = record no_credentials { type = "bearer"; raw_token = "abc" }

abbrev instance_with : Credentials → GenericEndpoint
instance_with c = record {
  endpoint_type = "jenkins";
  endpoint_name = "ci";
  config = record { url = "http://h"; insecure = false; credentials = c };
}

abbrev configured : ConfiguredEndpoint
configured = record {
  name = "ci";
  type = "jenkins";
  configured = true;
  annotations = [];
  namespace = [];
  instance_of = some (instance_with no_credentials);
}

abbrev request_for : String → TunnelRequest
request_for name = record {
  stream_id = "e1";
  name = name;
  type = "jenkins";
  method = "GET";
  uri = "/x";
  headers = [];
  body = [];
}

-- The answer "hi" in two reads.
abbrev answer : HttpResponse
answer = record {
  status_code = 200;
  header = [];
  content_length = 2;
  reads =
      (record { ctx_done = false; overtakes = false; chunk = 104 ∷ []; error = no_error })
      ∷ (record { ctx_done = false; overtakes = false; chunk = 105 ∷ []; error = at_eof })
      ∷ [];
}

abbrev client : HttpClient
client = record { request = λ r. fetched answer; accepts = λ m u. true }

abbrev reads_or_none : Fetch → List BodyRead
reads_or_none not_fetched = []
reads_or_none never_fetched = []
reads_or_none (fetched response) = response.reads

abbrev sent_request : HttpRequest
sent_request = record { method = "GET"; url = "http://h/x"; header = []; body = [] }

abbrev response_headers : TunnelHeaders
response_headers = record { stream_id = "e1"; status_code = 200; headers = []; content_length = 2 }

finds :
    Finds vault user_vault plain client
      (configured ∷ [])
      ""
      (request_for "ci")
      (instance_with no_credentials)
unfolding find_endpoint
finds = record { found = configured; is_found = refl; has_instance = refl }

built :
    build_request vault user_vault plain client (instance_with no_credentials) "" (request_for "ci")
    ≡ ok sent_request
unfolding build_request unmutate_uri pb_headers_to_http set_credentials set_agent_name
built = refl

made : make_response vault user_vault "e1" answer ≡ ok response_headers
unfolding make_response http_headers_to_pb
made = refl

data_flow-serve_request_example :
    (e : AgentEcho) × (serve_request vault user_vault plain client agent_echo
        (configured ∷ [])
        ""
        (request_for "ci")
        (make_echo "e1" in_loop)
      ≡ run_returned e)
    × (data_flow (server_echo open_net) streams echoes (received e)
        ≡ flow_returned flow_ok (
          unregister streams "e1",
          update echoes "e1" (finished (delivering echo 200 (add_headers [] []) (104 ∷ 105 ∷ []))),
        ))
data_flow-serve_request_example =
    data_flow-serve_request open_net streams echoes stream echo vault user_vault plain client
      (configured ∷ []) "" (request_for "ci") in_flight refl open_net-IsOpen finds built refl made
      (refl, refl, refl, (refl, refl, refl)) (refl, refl)

not_found : find_endpoint (configured ∷ []) "other" "jenkins" ≡ none
unfolding find_endpoint
not_found = refl

data_flow-serve_request_refused_example :
    (e : AgentEcho) × (serve_request vault user_vault plain client agent_echo
        (configured ∷ [])
        ""
        (request_for "other")
        (make_echo "e1" in_loop)
      ≡ run_returned e)
    × (data_flow (server_echo open_net) streams echoes (received e)
        ≡ flow_returned flow_ok
            (unregister streams "e1", update echoes "e1" (finished (delivering echo 502 [] []))))
data_flow-serve_request_refused_example =
    data_flow-serve_request_refused open_net streams echoes stream echo vault user_vault plain
      client (configured ∷ []) "" (request_for "other") in_flight refl open_net-IsOpen
      (unknown not_found)

client-IsAnswering : IsAnswering client
client-IsAnswering = (
  λ request e. ground arith,
  λ request response there. subst EndsBody (ap reads_or_none there) (inr (inl (λ e. ground arith))),
)

serve_request-RunEnds_example :
    RunEnds (Cause vault user_vault plain client (configured ∷ []) "" (request_for "ci")) IsShut (
      serve_request vault user_vault plain client agent_echo
        (configured ∷ [])
        ""
        (request_for "ci")
        (make_echo "e1" in_loop))
serve_request-RunEnds_example =
    serve_request-RunEnds vault user_vault plain client (configured ∷ []) "" (request_for "ci")
      client-IsAnswering

serve_request-not_opened_example :
    serve_request vault user_vault plain client agent_echo
      (configured ∷ [])
      ""
      (request_for "other")
      (make_echo "e1" not_opened)
    ≡ run_stuck (make_echo "e1" not_opened)
serve_request-not_opened_example =
    serve_request-not_opened vault user_vault plain client (configured ∷ []) ""
      (request_for "other") not_opened (inl refl) not_found

send_body-canceled_example :
    send_body agent_echo
      ((record { ctx_done = true; overtakes = false; chunk = 104 ∷ []; error = no_error }) ∷ [])
      (open_echo "e1" true (stream_id "e1" ∷ []))
    ≡ run_panicked (closed_echo "e1" true (stream_id "e1" ∷ cancel ∷ []))
send_body-canceled_example =
    send_body-canceled "e1" (stream_id "e1" ∷ [])
      (record { ctx_done = true; overtakes = false; chunk = 104 ∷ []; error = no_error }) [] 104 []
      refl (inl refl)

send_body-overtaken_example :
    send_body agent_echo
      ((record { ctx_done = false; overtakes = false; chunk = 104 ∷ []; error = no_error })
        ∷ (record { ctx_done = false; overtakes = true; chunk = 105 ∷ []; error = at_eof })
        ∷ [])
      (open_echo "e1" true (stream_id "e1" ∷ []))
    ≡ run_returned (
        closed_echo "e1" true
          (stream_id "e1" ∷ data_frame (105 ∷ []) ∷ data_frame (105 ∷ []) ∷ done ∷ []))
send_body-overtaken_example =
    send_body-overtaken "e1" (stream_id "e1" ∷ [])
      (record { ctx_done = false; overtakes = false; chunk = 104 ∷ []; error = no_error })
      (record { ctx_done = false; overtakes = true; chunk = 105 ∷ []; error = at_eof }) 104 105 []
      [] (refl, refl, refl) (refl, refl, refl) refl refl tt

abbrev bearer_request : HttpRequest
bearer_request = record {
  method = "GET";
  url = "http://h/x";
  header = ("Authorization", "Bearer abc" ∷ []) ∷ [];
  body = [];
}

built_with_token :
    build_request vault user_vault plain client (instance_with with_token) "" (request_for "ci")
    ≡ ok bearer_request
unfolding build_request unmutate_uri pb_headers_to_http set_credentials set_agent_name put
    canonical_header_key
built_with_token = refl

get-build_request_example :
    IsBuilt plain (instance_with with_token) (request_for "ci") bearer_request
get-build_request_example =
    get-build_request plain (instance_with with_token) (request_for "ci") vault user_vault client ""
      bearer_request (inr (inl refl)) built_with_token

-- The answer breaks off after its first read.
abbrev broken : HttpResponse
broken = record answer {
  reads =
      (record { ctx_done = false; overtakes = false; chunk = 104 ∷ []; error = no_error })
      ∷ (record { ctx_done = false; overtakes = false; chunk = []; error = read_failed })
      ∷ [];
}

abbrev breaking : HttpClient
breaking = record { request = λ r. fetched broken; accepts = λ m u. true }

built_to_break :
    build_request vault user_vault plain breaking
      (instance_with no_credentials)
      ""
      (request_for "ci")
    ≡ ok sent_request
unfolding build_request unmutate_uri pb_headers_to_http set_credentials set_agent_name
built_to_break = refl

made_to_break : make_response vault user_vault "e1" broken ≡ ok response_headers
unfolding make_response http_headers_to_pb
made_to_break = refl

broken_service :
    Finds vault user_vault plain breaking
      (configured ∷ [])
      ""
      (request_for "ci")
      (instance_with no_credentials)
unfolding find_endpoint
broken_service = record { found = configured; is_found = refl; has_instance = refl }

data_flow-serve_request_cut_example :
    (e : AgentEcho) × (serve_request vault user_vault plain breaking agent_echo
        (configured ∷ [])
        ""
        (request_for "ci")
        (make_echo "e1" in_loop)
      ≡ run_returned e)
    × (data_flow (server_echo open_net) streams echoes (received e)
        ≡ flow_returned flow_ok (
          unregister streams "e1",
          update echoes "e1" (finished (delivering echo 200 (add_headers [] []) (104 ∷ []))),
        ))
data_flow-serve_request_cut_example =
    data_flow-serve_request_cut open_net streams echoes stream echo vault user_vault plain breaking
      (configured ∷ []) "" (request_for "ci") in_flight refl open_net-IsOpen broken_service
      built_to_break refl made_to_break (refl, refl, refl, (refl, refl, refl)) (refl, refl)
