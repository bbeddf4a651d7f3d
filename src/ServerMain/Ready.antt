-- ===== src/ServerMain/Ready.antt =====
-- What holds of the controller once app/server/main.go has started it.
use grpc_datacon.Common.{
  String, List, [], ◌∷◌, ◌++◌, map, Option, none, some, true, false, Result, ok, err, map_err,
  map_err-eq-ok, >>=-eq-ok, string_eq, ◌≡◌, ◌∙◌, OnOk-bind, OnOk-ok, refl, subst, arith,
}
use grpc_datacon.JwtUtil.{
  JwtRegistry, JwtState, JwtError, register_service_keyset, register_mutation_keyset,
  register_agent_keyset, registered, mutation_is_registered, make_agent_jwt,
}
use grpc_datacon.Ca.Authority.{
  X509, Crypto, KeyPair, CaConfig, load_ca_from_file, make_server_cert, server_template,
}
use grpc_datacon.Ca.Validity
use grpc_datacon.Ca.Validity.{IsCurrent, make_server_cert-load_config}
use grpc_datacon.Config.{ControllerConfig, load_config}
use grpc_datacon.Config.Names.{IsNamed}
use grpc_datacon.Common.Text.{equal_fold}
use grpc_datacon.Headers.{is_mutated}
use grpc_datacon.ServerMain.{
  KeyOps, AuthConfig, Incoming, control, agents, service_https, prometheus, listeners,
  load_service_auth_keyset, load_agent_auth_keyset, or_fatal, register_all, World, Running, start,
  bad_config, bad_ca, no_sample_token,
}
use grpc_datacon.ServerMain.Listening.{listener_of, service_listeners-map}
use grpc_datacon.ServerMain.Keys
use grpc_datacon.ServerMain.Keys.{
  load_agent_auth_keyset-IsLoaded, load_service_auth_keyset-IsLoaded,
}

load_config-some :
    (file : Option ControllerConfig) (config : ControllerConfig)
    → load_config file ≡ ok config
    → (c : ControllerConfig) × (file ≡ some c)
unfolding load_config
load_config-some none config h = cc
load_config-some (some c) config h = (c, refl)

module _ (jwt : JwtRegistry) where
  or_fatal-eq-ok :
      (keys : KeyOps jwt.Keyset) (r : JwtState jwt × Option JwtError) (s : JwtState jwt)
      → or_fatal jwt keys r ≡ ok s
      → r.0 ≡ s
  or_fatal-eq-ok keys (t, none) s h = cc
  or_fatal-eq-ok keys (t, some e) s h = cc

  -- A registration leaves the flag of the mutation alone.
  registered-flag :
      (s : JwtState jwt) (r : Result String jwt.State)
      → (registered jwt s r).0.mutation_registered ≡ s.mutation_registered
  registered-flag s (ok state) = refl
  registered-flag s (err e) = refl

  is_mutated-user :
      (s : JwtState jwt)
      → mutation_is_registered jwt s ≡ true
      → is_mutated jwt s "X-Spinnaker-User" ≡ true
  unfolding is_mutated equal_fold
  is_mutated-user s on = rw (on, is_mutated) refl

  module _ (keys : KeyOps jwt.Keyset) where
    register_all-registered :
        (s t : JwtState jwt) (service agent : AuthConfig) (service_keys agent_keys : jwt.Keyset)
        → register_all jwt keys s service agent service_keys agent_keys ≡ ok t
        → mutation_is_registered jwt t ≡ true
    unfolding register_all mutation_is_registered register_mutation_keyset register_agent_keyset
    register_all-registered s t service agent service_keys agent_keys h =
        let (s1, one, h1) =
          >>=-eq-ok
            (or_fatal jwt keys
              (register_service_keyset jwt s service_keys service.current_key_name))
            _ h in
        let (s2, two, h2) =
          >>=-eq-ok
            (or_fatal jwt keys
              (register_mutation_keyset jwt s1 service_keys service.header_mutation_key_name))
            _ h1 in
        let flag2 : s2.mutation_registered ≡ true =
          subst (λ (x : JwtState jwt). x.mutation_registered ≡ true) (or_fatal-eq-ok keys _ s2 two)
            (registered-flag (record s1 { mutation_registered = true }) _) in
        subst (λ (x : JwtState jwt). x.mutation_registered ≡ true) (or_fatal-eq-ok keys _ t h2)
          (registered-flag s2 _ ∙ flag2)

  -- A controller that runs.
  pub record IsReady (keys : KeyOps jwt.Keyset) (lawful : Keys.IsLawful jwt keys) (crypto : Crypto)
      (world : World jwt keys crypto) (service agent : AuthConfig) (services : List Incoming)
      (run : Running jwt keys crypto) : Type 0 where
    -- its keys are those of the files
    pub service_loaded :
        Keys.IsLoaded jwt keys lawful
          (record service { secrets_path = run.config.service_auth_secrets_path })
          world.walk
          run.service_keys
    pub agent_loaded :
        Keys.IsLoaded jwt keys lawful
          (record agent { secrets_path = run.config.agent_auth_secrets_path })
          world.walk
          run.agent_keys
    -- the user's name is protected on its way through the tunnel
    pub mutates : is_mutated jwt run.state "X-Spinnaker-User" ≡ true
    -- its certificate goes by its three names
    pub cert : X509
    pub cert_read : crypto.parse_certificate run.server_cert.leaf ≡ some cert
    pub agent_named : IsNamed cert.dns_names run.config.agent_hostname
    pub control_named : IsNamed cert.dns_names run.config.control_hostname
    pub service_named : IsNamed cert.dns_names run.config.service_hostname
    pub current : IsCurrent cert world.cert_at
    -- exactly these listeners run, each once
    pub listens :
        run.started
        ≡ control run.config.control_listen_port
          ∷ agents run.config.agent_listen_port
          ∷ service_https (record {
            name = "_services";
            port = run.config.service_listen_port;
            use_http = false;
          })
          ∷ (map listener_of services ++ prometheus run.config.prometheus_listen_port ∷ [])

  module _ (keys : KeyOps jwt.Keyset) (lawful : Keys.IsLawful jwt keys) (crypto : Crypto)
      {IsTaken : X509 → Type 0} (signs : Validity.IsLawful crypto IsTaken)
      (world : World jwt keys crypto) (s : JwtState jwt) (service agent : AuthConfig)
      (ca : CaConfig) (services : List Incoming) where
    abbrev service_auth : ControllerConfig → AuthConfig
    service_auth config = record service { secrets_path = config.service_auth_secrets_path }

    abbrev agent_auth : ControllerConfig → AuthConfig
    agent_auth config = record agent { secrets_path = config.agent_auth_secrets_path }

    -- What each step of the start is good for.
    ready :
        (config : ControllerConfig) (service_keys agent_keys : jwt.Keyset) (state : JwtState jwt)
        (authority server_cert : KeyPair crypto.Key) (token : String)
        → load_config world.config_file ≡ ok config
        → load_service_auth_keyset jwt keys (service_auth config) world.walk ≡ ok service_keys
        → load_agent_auth_keyset jwt keys (agent_auth config) world.walk ≡ ok agent_keys
        → register_all jwt keys s service agent service_keys agent_keys ≡ ok state
        → make_server_cert crypto authority world.cert_at config.server_names ≡ ok server_cert
        → IsTaken (server_template world.cert_at config.server_names)
        → IsReady keys lawful crypto world service agent services (record {
          config = config;
          service_keys = service_keys;
          agent_keys = agent_keys;
          state = state;
          authority = authority;
          server_cert = server_cert;
          started = listeners config services;
          sample_token = token;
        })
    unfolding listeners
    ready config service_keys agent_keys state authority server_cert token loaded one two three five
          taken =
        let (file, there) = load_config-some world.config_file config loaded in
        let (cert, read, a, c, v, uses, current) =
          make_server_cert-load_config crypto signs file config authority server_cert world.cert_at
            world.cert_at (rw there at loaded) five taken (omega arith) (omega arith) in
        record {
          service_loaded =
              load_service_auth_keyset-IsLoaded jwt keys lawful _ world.walk service_keys one;
          agent_loaded =
              load_agent_auth_keyset-IsLoaded jwt keys lawful _ world.walk agent_keys two;
          mutates =
              is_mutated-user state
                (register_all-registered keys s state service agent service_keys agent_keys three);
          cert = cert;
          cert_read = read;
          agent_named = a;
          control_named = c;
          service_named = v;
          current = current;
          listens = rw (service_listeners-map services) refl;
        }

    -- A controller that has started has loaded a key for every file of its two key directories, the
    -- current ones among them, has switched on that the header X-Spinnaker-User is signed, has a
    -- certificate for each of its three host names that is current, and runs exactly these listeners:
    -- one for the control API, one for agents, one over HTTPS on its own service port, one for each
    -- service of its configuration, over HTTP if the service says so and else over HTTPS, and one for
    -- Prometheus. A key set keeps the keys that are added to it, and the certificate is one that x509
    -- takes and that parses to what was signed, its times to the second.
    pub start-IsReady :
        (run : Running jwt keys crypto)
        → start jwt keys crypto world s service agent ca services ≡ ok run
        → IsTaken (server_template world.cert_at run.config.server_names)
        → IsReady keys lawful crypto world service agent services run
    unfolding start
    start-IsReady run h taken =
        OnOk-ok
          (λ (r : Running jwt keys crypto).
            IsTaken (server_template world.cert_at r.config.server_names)
            → IsReady keys lawful crypto world service agent services r)
          (start jwt keys crypto world s service agent ca services)
          (OnOk-bind _ (map_err bad_config (load_config world.config_file)) _ (λ config loaded.
            OnOk-bind _ (load_service_auth_keyset jwt keys (service_auth config) world.walk) _
              (λ service_keys one.
                OnOk-bind _ (load_agent_auth_keyset jwt keys (agent_auth config) world.walk) _
                  (λ agent_keys two.
                    OnOk-bind _ (register_all jwt keys s service agent service_keys agent_keys) _
                      (λ state three.
                        OnOk-bind _
                          (map_err bad_ca
                            (load_ca_from_file crypto world.load_pair world.loaded_at ca))
                          _
                          (λ authority four.
                            OnOk-bind _
                              (map_err bad_ca (
                                make_server_cert crypto authority world.cert_at
                                  config.server_names))
                              _
                              (λ server_cert five.
                                OnOk-bind _
                                  (map_err no_sample_token (make_agent_jwt jwt state "smith" none))
                                  _
                                  (λ token six taken'.
                                    ready config service_keys agent_keys state authority server_cert
                                      token (map_err-eq-ok bad_config _ loaded) one two three
                                      (map_err-eq-ok bad_ca _ five) taken'))))))))
          h taken
