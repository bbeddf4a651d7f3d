-- ===== src/Tests/Started.antt =====
-- A start of the controller.
use grpc_datacon.Common.{
  String, List, [], ◌∷◌, Option, none, some, Bool, true, false, ◌||◌, ok, ◌≡◌, refl, inr, arith,
  ◌==◌, string_eq,
}
use grpc_datacon.Common.Calendar.{add_years}
use grpc_datacon.JwtUtil.{
  JwtRegistry, JwtState, make_agent_jwt, sign_claims, register_service_keyset,
  register_mutation_keyset, register_agent_keyset,
}
use grpc_datacon.Ca.Authority.{
  CaConfig, root_template, server_template, load_ca_from_file, apply_defaults, validate_ca_cert,
  make_server_cert,
}
use grpc_datacon.Config.{load_config, add_all_hostnames, add_if_missing, has_server_name}
use grpc_datacon.ServerMain.{
  KeyOps, WalkEntry, AuthConfig, Incoming, World, Running, listeners, load_keys,
  load_agent_auth_keyset, load_service_auth_keyset, register_all, start,
}
use grpc_datacon.ServerMain.Keys
use grpc_datacon.ServerMain.Ready.{IsReady, start-IsReady}
use grpc_datacon.Sessions.{agent_key_eq}
use grpc_datacon.Tests.Channels.{file, loaded}
use grpc_datacon.Tests.Authority.{
  now, two_certs-IsLawful, root_may_sign, server_may_not, server_crypto, authority, server,
}

-- A registry whose key sets are the lists of their keys' names.
abbrev named_keys : JwtRegistry
named_keys = record {
  State = Unit {0};
  Keyset = List String;
  Clock = Unit {0};
  register = λ s name iss keys key period. ok tt;
  remove = λ s name. tt;
  sign = λ s name claims clock. ok "t0";
  validate = λ s name token clock. ok [];
}

unfoldable mem : List String → String → Bool
mem [] name = false
mem (x ∷ xs) name = x == name || mem xs name

abbrev key_ops : KeyOps (List String)
key_ops = record {
  Key = String;
  no_keys = [];
  from_raw = λ s. some s;
  add_key = λ ks key name. some (name ∷ ks);
  has_key = mem;
}

added-mem :
    (ks more : List String) (name : String)
    → ◌≡◌ {A = Option (List String)} (some (name ∷ ks)) (some more)
    → (mem more name ≡ true) × ((other : String) → mem ks other ≡ true → mem more other ≡ true)
unfolding mem
added-mem ks more name e =
    let same : more ≡ name ∷ ks = ground (arith, e) in
    rw same (ground (arith, string_eq.beq_iff name name), λ other there. ground (arith, there))

key_ops-IsLawful : Keys.IsLawful named_keys key_ops
key_ops-IsLawful = record {
  finds_added = λ ks more key name e. (added-mem ks more name e).0;
  keeps = λ ks more key name other e. (added-mem ks more name e).1 other;
}

abbrev fresh : JwtState named_keys
fresh = record { registry = tt; mutation_registered = false }

abbrev entry : WalkEntry
entry = record { failed = false; is_regular = true; name = "k1"; content = some "secret" }

abbrev directory : WalkEntry
directory = record { failed = false; is_regular = false; name = "serviceAuth"; content = none }

abbrev world : World named_keys key_ops server_crypto
world = record {
  config_file = some file;
  walk = λ path. directory ∷ entry ∷ [];
  load_pair = λ cert key. some authority;
  loaded_at = now;
  cert_at = now;
}

abbrev auth : AuthConfig
auth = record { secrets_path = ""; current_key_name = "k1"; header_mutation_key_name = "k1" }

abbrev jenkins : Incoming
jenkins = record { name = "jenkins"; port = 8080; use_http = true }

abbrev running : Running named_keys key_ops server_crypto
unfolding listeners
running = record {
  config = loaded;
  service_keys = "k1" ∷ [];
  agent_keys = "k1" ∷ [];
  state = record { registry = tt; mutation_registered = true };
  authority = authority;
  server_cert = server;
  started = listeners loaded (jenkins ∷ []);
  sample_token = "t0";
}

abbrev ca_config : CaConfig
ca_config = record { ca_cert_file = ""; ca_key_file = "" }

starts :
    start named_keys key_ops server_crypto world fresh auth auth ca_config (jenkins ∷ [])
    ≡ ok running
unfolding start load_config add_all_hostnames add_if_missing has_server_name load_keys
    load_service_auth_keyset load_agent_auth_keyset mem register_all register_service_keyset
    register_mutation_keyset register_agent_keyset load_ca_from_file apply_defaults validate_ca_cert
    make_server_cert server_template root_template make_agent_jwt sign_claims running add_years
starts = refl

start-IsReady_example :
    IsReady named_keys key_ops key_ops-IsLawful server_crypto world auth auth (jenkins ∷ []) running
unfolding server_template running
start-IsReady_example =
    start-IsReady named_keys key_ops key_ops-IsLawful server_crypto
      (two_certs-IsLawful _ _ root_may_sign server_may_not) world fresh auth auth ca_config
      (jenkins ∷ []) running starts (inr refl)
