-- ===== src/Tests/Programs.antt =====
-- Runs of the programs for operators.
use grpc_datacon.Common.{ℕ, String, [], none, true, ok, ◌≡◌, refl, string_eq}
use grpc_datacon.JwtUtil.{JwtRegistry, JwtState, make_agent_jwt, make_service_jwt, sign_claims}
use grpc_datacon.Ca.{generate_certificate, get_certificate_name_from_cert}
use grpc_datacon.Fwdapi.{type_valid, all_type_chars}
use grpc_datacon.CncServer.Access.{IsControl}
use grpc_datacon.GetCreds.{Flags, Sent, get_creds}
use grpc_datacon.GetCreds.Sending.{OnSent}
use grpc_datacon.GetCreds.Replies.{CanIssue}
use grpc_datacon.GetCreds.Served.{IsServed, get_creds-IsServed}
use grpc_datacon.Tests.Cnc.{json_of, authority, cfg, controller_name, admin}

-- A registry that signs whatever it is given.
abbrev signer : JwtRegistry
signer = record {
  State = Unit {0};
  Keyset = Unit {0};
  Clock = Unit {0};
  register = λ s name iss keys key period. ok tt;
  remove = λ s name. tt;
  sign = λ s name claims clock. ok "t0";
  validate = λ s name token clock. ok [];
}

abbrev signing : JwtState signer
signing = record { registry = tt; mutation_registered = true }

can_issue : CanIssue signer signing none (authority controller_name)
unfolding make_agent_jwt make_service_jwt sign_claims
can_issue = record {
  signs = λ cert. refl;
  has_cert = refl;
  agent_token = λ agent. ("t0", refl);
  service_token = λ type name agent. ("t0", refl);
}

abbrev flags : Flags
flags = record {
  endpoint_name = "ci";
  agent_identity = "smith";
  endpoint_type = "jenkins";
  action = "service";
}

abbrev no_agents : String
no_agents = "none"

abbrev answer : Sent → ℕ × String
answer sent = (200, "{}")

control_admin : IsControl (json_of controller_name) admin.peer_certificates
unfolding admin get_certificate_name_from_cert generate_certificate
control_admin = record {
  cert = generate_certificate (json_of controller_name) controller_name;
  more = [];
  names = controller_name;
  shown = refl;
  named = refl;
  for_control = refl;
}

jenkins : type_valid "jenkins" ≡ true
unfolding type_valid all_type_chars
jenkins = refl

get_creds-IsServed_example :
    OnSent
      (IsServed signer signing none cfg
        (authority controller_name)
        can_issue
        7
        "v"
        no_agents
        admin.peer_certificates
        control_admin)
      (get_creds true answer flags)
get_creds-IsServed_example =
    get_creds-IsServed signer signing none cfg (authority controller_name) can_issue 7 "v" no_agents
      admin.peer_certificates control_admin true answer flags (λ e. jenkins)
