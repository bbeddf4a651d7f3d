-- ===== src/ServerMain/Listening.antt =====
-- The listeners that app/server/main.go starts.
use grpc_datacon.Common.{List, [], ◌∷◌, map, if◌then◌else◌, ◌≡◌, refl, ap}
use grpc_datacon.ServerMain.{Incoming, Listener, service_https, service_http, service_listeners}

-- The listener that a service of the configuration is for.
abbrev pub listener_of : Incoming → Listener
listener_of s = if s.use_http then service_http s else service_https s

pub service_listeners-map :
    (services : List Incoming) → service_listeners services ≡ map listener_of services
unfolding service_listeners
service_listeners-map [] = refl
service_listeners-map (s ∷ services) =
    ap (λ rest. listener_of s ∷ rest) (service_listeners-map services)
