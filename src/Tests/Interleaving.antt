-- ===== src/Tests/Interleaving.antt =====
-- Runs of the controller's goroutines.
use mathlib.Core.List.{Memᴰ}
use grpc_datacon.Common.{String, [], ◌∷◌, ◌≢◌, refl, string_eq, arith}
use grpc_datacon.Common.Assoc.{get, put, delete}
use grpc_datacon.Sessions.{
  agent_key_eq, find, find_session, make_agent_sessions, new_session_context, remove_session,
}
use grpc_datacon.Streams.{new_stream_manager, register}
use grpc_datacon.Controller.{ServiceRequest, hello}
use grpc_datacon.Controller.Ping.{as_session}
use grpc_datacon.System.{System, Steps, started, greet, offer, open_wait, take, drop, here, next}
use grpc_datacon.System.Tended.{IsTended, Steps-IsTended}
use grpc_datacon.System.Abandoned.{IsAbandoned, Steps-IsAbandoned}
use grpc_datacon.Tests.Fixtures.{hello_request, session, sessions, echoes, open_net}

abbrev wanted : ServiceRequest
wanted = record {
  req = record {
    stream_id = "e1";
    name = "ci";
    type = "jenkins";
    method = "GET";
    uri = "/";
    headers = [];
    body = [];
  };
  echo = "e1";
}

-- One agent, that waits; and one handler, that sends to it.
abbrev waits : System
waits = record {
  sessions = sessions;
  streams = record { streams = [] };
  echoes = echoes;
  issued = "s1" ∷ [];
  offering = (record { session = session; wanted = wanted }) ∷ [];
  waiting = session ∷ [];
  closing = [];
  returning = [];
}

waits-reached : Steps open_net (started echoes) waits
unfolding started hello find_session find get put make_agent_sessions new_stream_manager
    new_session_context agent_key_eq
waits-reached =
    next
      (next (next here (greet "smith" "" hello_request "s1" "v2" 100 (λ m. elim m [ ])))
        (open_wait (as_session "smith" "s1") session refl))
      (offer (record { agent_id = "smith"; service_name = "ci"; service_type = "jenkins" }) session
        wanted refl)

-- The request is taken, and the RPC leaves its loop.
abbrev leaves : System
leaves = record waits {
  sessions = record { agents = [] };
  streams = register (record { streams = [] }) session "e1" "e1";
  offering = [];
  waiting = [];
  closing = session ∷ [];
}

leaves-reached : Steps open_net (started echoes) leaves
unfolding remove_session agent_key_eq delete
leaves-reached =
    next
      (next waits-reached (
        take [] [] (record { session = session; wanted = wanted }) session refl (Memᴰ.head refl)
          refl refl))
      (drop [] [] session refl)

Steps-IsTended_example : IsTended leaves
Steps-IsTended_example = Steps-IsTended open_net echoes leaves-reached

-- The session of the handler's request has gone, and the agent connects again.
abbrev gone : System
gone = record waits { sessions = record { agents = [] }; waiting = [] }

gone-IsAbandoned : IsAbandoned (record { session = session; wanted = wanted }) gone
unfolding get
gone-IsAbandoned = record {
  gone = record {
    valid = record { distinct = tt; keyed = tt };
    absent = refl;
    used = Memᴰ.head refl;
    unattended = λ w m. elim m [ ];
  };
  sends = Memᴰ.head refl;
}

abbrev back : System
back = record gone {
  sessions = (hello gone.sessions (as_session "smith" "") hello_request "s2" "v2" 500).0;
  issued = "s2" ∷ "s1" ∷ [];
}

new_id : ◌≢◌ {A = String} "s2" "s1"
new_id e = ground (arith, e, string_eq.beq_iff "s2" "s1")

back-reached : Steps open_net gone back
back-reached = next here (
    greet "smith" "" hello_request "s2" "v2" 500
      (λ m. elim m [ Memᴰ.head e ↦ new_id e | Memᴰ.tail n ↦ elim n [ ] ]))

Steps-IsAbandoned_example : IsAbandoned (record { session = session; wanted = wanted }) back
Steps-IsAbandoned_example =
    Steps-IsAbandoned open_net (record { session = session; wanted = wanted }) back-reached
      gone-IsAbandoned
