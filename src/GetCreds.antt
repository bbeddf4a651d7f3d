-- ===== src/GetCreds.antt =====
-- app/get-creds/main.go: the client of the control API. Its flags are `Flags`; the TLS client is a
-- Boolean, whether its certificate and key load, and what a request is answered with is a parameter,
-- with the status 0 where no answer came. The version is left out, and that `--version` ends the run.
pub mod Sending
pub mod Replies
pub mod Served
use grpc_datacon.Common.{
  ℕ, String, Bool, true, false, some, not, ◌==◌, nat_eq, string_eq, if◌then◌else◌,
}
use grpc_datacon.Fwdapi.{
  KubeConfigRequest, ManifestRequest, ServiceCredentialRequest, ControlCredentialsRequest,
  kubeconfig_endpoint, manifest_endpoint, service_endpoint, control_endpoint, statistics_endpoint,
}

pub record Flags : Type 0 where
  pub endpoint_name : String
  pub agent_identity : String
  pub endpoint_type : String
  pub action : String

-- The body that goes with a request.
pub data Body : Type 0 where
  kubeconfig : KubeConfigRequest → Body
  manifest : ManifestRequest → Body
  service : ServiceCredentialRequest → Body
  control : ControlCredentialsRequest → Body
  no_body : Body

pub record Sent : Type 0 where
  pub method : String
  pub endpoint : String
  pub body : Body

-- How the program ends: with its usage, by a panic, with "Request failed" and the status, or having
-- printed the answer.
pub data CredsEnd : Type 0 where
  usage panicked : CredsEnd
  request_failed : Sent → ℕ → CredsEnd
  printed : Sent → String → CredsEnd

unfoldable pub get_kubeconfig_creds : Flags → Sent
get_kubeconfig_creds f = record {
  method = "POST";
  endpoint = kubeconfig_endpoint;
  body = kubeconfig (record { agent_name = f.agent_identity; name = f.endpoint_name });
}

unfoldable pub get_agent_manifest : Flags → Sent
get_agent_manifest f = record {
  method = "POST";
  endpoint = manifest_endpoint;
  body = manifest (record { agent_name = f.agent_identity });
}

unfoldable pub get_service : Flags → Sent
get_service f = record {
  method = "POST";
  endpoint = service_endpoint;
  body = service (record {
    agent_name = f.agent_identity;
    type = f.endpoint_type;
    name = f.endpoint_name;
    old_type = "";
    old_name = "";
  });
}

unfoldable pub get_control : Flags → Sent
get_control f = record {
  method = "POST";
  endpoint = control_endpoint;
  body = control (record { name = f.endpoint_name });
}

unfoldable pub get_statistics : Sent
get_statistics = record { method = "GET"; endpoint = statistics_endpoint; body = no_body }

-- `insist`: an option that is required, or one that is not allowed.
unfoldable pub insist : String → Bool → CredsEnd → CredsEnd
insist text true next = if text == "" then usage else next
insist text false next = if text == "" then next else panicked

module _ (has_client : Bool) (answer : Sent → ℕ × String) where
  -- `makeClient`, the request, and what is printed.
  unfoldable pub exchange : Sent → CredsEnd
  exchange sent =
      if has_client
      then if (answer sent).0 == 200
        then printed sent (answer sent).1
        else request_failed sent (answer sent).0
      else panicked

  -- `main`
  unfoldable pub get_creds : Flags → CredsEnd
  unfolding insist exchange get_kubeconfig_creds get_agent_manifest get_service get_control
      get_statistics
  get_creds f =
      if f.action == "kubectl"
      then insist f.agent_identity true (
          insist f.endpoint_name true
            (insist f.endpoint_type false (exchange (get_kubeconfig_creds f))))
      else if f.action == "agent-manifest"
      then insist f.agent_identity true (
          insist f.endpoint_name false
            (insist f.endpoint_type false (exchange (get_agent_manifest f))))
      else if f.action == "service"
      then insist f.agent_identity true
          (insist f.endpoint_name true (insist f.endpoint_type true (exchange (get_service f))))
      else if f.action == "control"
      then insist f.agent_identity false
          (insist f.endpoint_name true (insist f.endpoint_type false (exchange (get_control f))))
      else if f.action == "statistics"
      then insist f.endpoint_name false (insist f.endpoint_type false (exchange get_statistics))
      else usage
