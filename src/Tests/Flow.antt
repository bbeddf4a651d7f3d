-- ===== src/Tests/Flow.antt =====
-- Runs of the controller's streams and echoes.
use grpc_datacon.Common.{String, [], some, true, string_eq, ◌≡◌, refl}
use grpc_datacon.Common.Assoc.{get}
use grpc_datacon.ServerEcho.{EchoPair, server_echo, add_headers}
use grpc_datacon.ServerEcho.Delivery.{IsOpen, delivering, finished}
use grpc_datacon.Streams.{StreamManager, Echoes, flushed, flush_stuck, flush_agent}
use grpc_datacon.Streams.Flush.{
  IsValid, belongs, remaining, settled, flush_agent-flushed, flush_agent-flush_stuck,
}
use grpc_datacon.Tests.Fixtures.{session, stream, streams, echo, echoes, open_net}

pub open_net-IsOpen : IsOpen open_net
open_net-IsOpen w bytes = refl

pub streams-IsValid : IsValid streams
unfolding get
streams-IsValid = record { distinct = (refl, tt); owns = (refl, tt) }

pub in_flight : get streams.streams "e1" ≡ some stream
unfolding get
in_flight = refl

ours : belongs session.session_id (get streams.streams "e1") ≡ true
unfolding get
ours = refl

-- The client left after the headers.
abbrev gone : EchoPair
unfolding add_headers
gone = finished (delivering echo 200 [] [])

abbrev left : Echoes EchoPair
left k = gone

flush_agent-flushed_example :
    (sm' : StreamManager) × (echoes' : Echoes EchoPair) × (flush_agent
        (server_echo open_net)
        streams
        session
        echoes
      ≡ flushed sm' echoes')
    × ((k : String) → get sm'.streams k ≡ remaining "s1" (get streams.streams k))
    × ((k : String) → echoes' k ≡ settled "s1" (get streams.streams k) (echoes k))
flush_agent-flushed_example =
    flush_agent-flushed open_net streams session echoes streams-IsValid (λ k h. refl)

flush_agent-flush_stuck_example :
    (sm' : StreamManager) × (echoes' : Echoes EchoPair) × (flush_agent
        (server_echo open_net)
        streams
        session
        left
      ≡ flush_stuck sm' echoes')
unfolding gone
flush_agent-flush_stuck_example =
    flush_agent-flush_stuck open_net streams session left "e1" streams-IsValid ours refl
