-- ===== src/AgentMain/Greeted.antt =====
-- An agent of app/client/main.go that has said Hello to the controller of app/server/server.go, through
-- the interceptor of app/server/jwtauth.go.
use grpc_datacon.Common.{
  String, List, map, Option, none, some, Result, ok, err, or_fail, or_fail-eq-ok, ensure, OnOk-bind,
  OnOk-ok, ◌==◌, string_eq, ◌≡◌, refl, ap, inl, inr, arith, Bool-cases, subst,
}
use grpc_datacon.Common.Assoc.{get}
use grpc_datacon.Common.Int64.{Int64}
use grpc_datacon.Tunnel.{AgentInfo, HelloRequest, HelloResponse}
use grpc_datacon.JwtUtil.{JwtRegistry, JwtState, validate_agent_jwt}
use grpc_datacon.JwtAuth.{Context, Metadata, AuthError, authorize, intercept}
use grpc_datacon.Sessions.{
  AgentContext, AgentSessions, endpoint_of, find_session, new_session_context,
}
use grpc_datacon.Controller.{hello}
use grpc_datacon.Controller.Ping.{as_session, find_session-hello}
use grpc_datacon.Endpoint.{Codec, ConfiguredEndpoint, endpoints_to_pb, agent_endpoints}
use grpc_datacon.AgentMain.{
  AgentSession, with_token, World, Joined, no_config, no_services, bad_endpoint, no_token,
  no_agent_info, no_loader, bad_ca_pool, not_connected, no_hello, get_header_context, hello_request,
  get_auth_token, load_agent_info, load_ca_cert, load_ca_cert_pem, get_hostname, start,
}

abbrev pub no_context : Context
no_context = record { session_id = none; agent_id = none }

module _ (jwt : JwtRegistry) (s : JwtState jwt) where
  -- An agent is let in under the session id that it was given.
  pub authorize-get_header_context :
      (session : AgentSession) (agent : String)
      → validate_agent_jwt jwt s session.authorization none ≡ ok agent
      → authorize jwt s (some (get_header_context session)) ≡ ok (agent, session.session_id)
  unfolding authorize get_header_context get
  authorize-get_header_context session agent valid = elim (Bool-cases (session.session_id == "")) [
    | inl e ↦ rw e (rw valid (ground (arith, string_eq.beq_iff session.session_id "")))
    | inr e ↦ rw e (rw valid refl)
  ]

  abbrev pub on_ok : {A : Type 0} → Result AuthError A → Option A
  on_ok (ok x) = some x
  on_ok (err e) = none

  module _ (a : AgentSessions) (session_id version : String) (now : Int64) where
    -- `Hello` at the controller, through the interceptor.
    abbrev pub controller_hello : Metadata → HelloRequest → Option (AgentSessions × HelloResponse)
    unfolding hello
    controller_hello md request =
        on_ok
          (intercept jwt s (some md) no_context (λ ctx. hello a ctx request session_id version now))

    -- The agent goes by its token's name and by the session id that it was given, and its next RPC is
    -- let in and finds the session with the endpoints that it has.
    pub record IsGreeted (agent : String) (j : Joined AgentSessions) : Type 0 where
      pub named : j.session.agent_id ≡ agent
      pub given : j.session.session_id ≡ session_id
      pub context : AgentContext
      pub let_in :
          intercept jwt s (some (get_header_context j.session)) no_context (find_session j.remote)
          ≡ ok (ok context)
      pub offers : context.endpoints ≡ map endpoint_of (endpoints_to_pb j.endpoints)
      pub keyed : (context.agent_id ≡ agent) × (context.session_id ≡ session_id)

    -- The agent, given what the controller made of its Hello.
    abbrev joined_by :
        String
        → String
        → List ConfiguredEndpoint
        → AgentSessions × HelloResponse
        → Joined AgentSessions
    joined_by token dialed eps answer = record {
      remote = answer.0;
      session = record {
        agent_id = answer.1.agent_id;
        session_id = answer.1.instance_id;
        authorization = token;
      };
      endpoints = eps;
      dialed = dialed;
    }

    module _ (token agent dialed : String) (info : AgentInfo) (eps : List ConfiguredEndpoint)
        (hostname own_version : String)
        (valid : validate_agent_jwt jwt s token none ≡ ok agent) where
      abbrev request : HelloRequest
      unfolding hello_request
      request = hello_request info eps hostname own_version

      abbrev greeted : AgentSessions × HelloResponse
      unfolding hello
      greeted = hello a (as_session agent "") request session_id version now

      greeted-IsGreeted : IsGreeted agent (joined_by token dialed eps greeted)
      unfolding hello intercept new_session_context hello_request request greeted
      greeted-IsGreeted = record {
        named = refl;
        given = refl;
        context =
            new_session_context agent session_id hostname own_version info (endpoints_to_pb eps)
              now;
        let_in =
            rw
              (authorize-get_header_context
                (record { agent_id = agent; session_id = session_id; authorization = token }) agent
                valid)
              (ap ok (find_session-hello a agent "" request session_id version now).0);
        offers = refl;
        keyed = (refl, refl);
      }

      said_lem :
          (answer : AgentSessions × HelloResponse)
          → controller_hello (get_header_context (with_token token)) request ≡ some answer
          → greeted ≡ answer
      unfolding intercept request greeted controller_hello
      said_lem answer said =
          let identity = authorize-get_header_context (with_token token) agent valid in
          let said' : some greeted ≡ some answer = rw identity at said in cc

      answered-IsGreeted :
          (answer : AgentSessions × HelloResponse)
          → controller_hello (get_header_context (with_token token)) request ≡ some answer
          → IsGreeted agent (joined_by token dialed eps answer)
      answered-IsGreeted answer said =
          subst (λ x. IsGreeted agent (joined_by token dialed eps x)) (said_lem answer said)
            greeted-IsGreeted

  -- An agent that has started with a token that the controller takes, and whose Hello went through
  -- the controller's interceptor, goes by the token's name and by the session id that the controller
  -- gave it; its next RPC is let in under both, and finds the session that Hello made, with the
  -- endpoints that the agent has.
  pub start-IsGreeted :
      (a : AgentSessions) (session_id version : String) (now : Int64) (codec : Codec)
      (world : World) (agent : String) (j : Joined AgentSessions)
      → start codec world (controller_hello a session_id version now) ≡ ok j
      → validate_agent_jwt jwt s j.session.authorization none ≡ ok agent
      → IsGreeted a session_id version now agent j
  unfolding start
  start-IsGreeted a session_id version now codec world agent j started valid =
      OnOk-ok
        (λ (k : Joined AgentSessions).
          validate_agent_jwt jwt s k.session.authorization none ≡ ok agent
          → IsGreeted a session_id version now agent k)
        (start codec world (controller_hello a session_id version now))
        (OnOk-bind _ (or_fail world.config_file no_config) _ (λ file one.
          OnOk-bind _ (or_fail world.services_file no_services) _ (λ services two.
            OnOk-bind _ (or_fail (agent_endpoints codec world.later_loader services) bad_endpoint) _
              (λ eps three.
                OnOk-bind _ (or_fail (get_auth_token world.env_token world.token_file) no_token) _
                  (λ token four.
                    OnOk-bind _ (or_fail (load_agent_info world.info_file) no_agent_info) _
                      (λ info five.
                        OnOk-bind _ (ensure world.loader_made no_loader) _ (λ made some_loader.
                          OnOk-bind _
                            (load_ca_cert world.crypto world.pem_decode world.now
                              (load_ca_cert_pem world.decode64 world.ca_file world.ca_text))
                            _
                            (λ cert six.
                              OnOk-bind _ (ensure (world.takes_pem cert) bad_ca_pool) _
                                (λ taken in_pool.
                                  OnOk-bind _ (ensure (world.dials "localhost:8003") not_connected)
                                    _
                                    (λ dialed seven.
                                      OnOk-bind _
                                        (or_fail
                                          (controller_hello a session_id version now
                                            (get_header_context (with_token token))
                                            (hello_request info eps (get_hostname world.os_hostname)
                                              world.version))
                                          no_hello)
                                        _
                                        (λ answer eight valid'.
                                          answered-IsGreeted a session_id version now token agent
                                            "localhost:8003" info eps
                                            (get_hostname world.os_hostname) world.version valid'
                                            answer (or_fail-eq-ok _ no_hello eight))))))))))))
        started valid
