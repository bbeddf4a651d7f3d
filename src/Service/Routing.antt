-- ===== src/Service/Routing.antt =====
-- Where the handlers of app/server/service_server.go send a request.
use mathlib.Core.List.{Memᴰ}
use grpc_datacon.Common.{
  ℕ, ◌∷◌, [], false, ◌≢◌, sym, ap, ◌∙◌, arith, Bool-cases, ◌==◌, string_eq, String, List, Option,
  none, some, Result, ok, err, ◌≡◌, ◌⊎◌, inl, inr, refl, subst, Option-cases,
}
use grpc_datacon.Common.Assoc.{get}
use grpc_datacon.Tunnel.{TunnelRequest, HttpHeader}
use grpc_datacon.JwtUtil.{JwtRegistry, JwtState, JwtError, ServiceClaims, validate_service_jwt}
use grpc_datacon.Ca.{
  Json, NameError, Certificate, CertificateName, get_certificate_name_from_cert, purpose_service,
}
use grpc_datacon.Endpoint.{Codec}
use grpc_datacon.Sessions.{agent_key_eq, AgentContext, AgentSessions, SessionSearch, find}
use grpc_datacon.Sessions.Valid.{IsValid}
use grpc_datacon.Sessions.Lookup.{Matches, IsAnswer, find-IsAnswer}
use grpc_datacon.HttpWriter.{header_del}
use grpc_datacon.Headers.{
  HeaderError, bad_header, no_first_value, is_mutated, contains_folded, stripped_outgoing_headers,
  http_headers_to_pb,
}
use grpc_datacon.Headers.Stripped.{
  All, IsUnauthorized, http_headers_to_pb-IsUnauthorized, http_headers_to_pb-kept,
}
use grpc_datacon.Service.{
  IncomingRequest, extract_endpoint_from_cert, extract_endpoint_from_jwt, extract_endpoint, Handled,
  token_of, first_cert, named_service, named_by, validated, dropped, answered, forwarded,
  with_headers, with_body, with_session, with_endpoint, run_api_handler, secure_api_handler,
}

-- A request as it is put on an agent's channel for the service `ep`: nothing of it is lost but the
-- headers named Authorization, and a header that names the user is signed.
pub record IsRequestFor (jwt : JwtRegistry) (s : JwtState jwt) (ep : SessionSearch)
    (stream_id : String) (r : IncomingRequest) (t : TunnelRequest) : Type 0 where
  pub same_stream : t.stream_id ≡ stream_id
  pub same_name : t.name ≡ ep.service_name
  pub same_type : t.type ≡ ep.service_type
  pub same_method : t.method ≡ r.method
  pub same_uri : t.uri ≡ r.request_uri
  pub same_body : r.body ≡ some t.body
  pub unauthorized : All IsUnauthorized t.headers
  pub kept :
      (name : String) (values : List String)
      → Memᴰ (name, values) r.header
      → is_mutated jwt s name ≡ false
      → contains_folded stripped_outgoing_headers name ≡ false
      → Memᴰ (record { name = name; values = values }) t.headers

module _ (jwt : JwtRegistry) (s : JwtState jwt) where
  -- The body cannot be read, or a header that names the user not be signed.
  abbrev pub IsUnusable : IncomingRequest → Type 0
  IsUnusable r =
      (r.body ≡ none) ⊎ ((e : JwtError) × (http_headers_to_pb jwt s r.header ≡ err (bad_header e)))

  -- Where the request for `ep` has gone, in a table of sessions.
  abbrev pub IsRouted :
      AgentSessions → SessionSearch → String → IncomingRequest → Handled jwt s → Type 0
  IsRouted routes ep stream_id r (answered code) =
      ((find routes ep ≡ none) × (code ≡ 502)) ⊎ (IsUnusable r × (code ≡ 503))
  IsRouted routes ep stream_id r dropped = http_headers_to_pb jwt s r.header ≡ err no_first_value
  IsRouted routes ep stream_id r (forwarded session t echo) =
      (get routes.agents session.key ≡ some session)
      × Matches ep session
      × IsRequestFor jwt s ep stream_id r t

  with_headers-IsRouted :
      (routes : AgentSessions) (ep : SessionSearch) (stream_id : String) (r : IncomingRequest)
      (session : AgentContext) (body : List ℕ) (result : Result HeaderError (List HttpHeader))
      → get routes.agents session.key ≡ some session
      → Matches ep session
      → r.body ≡ some body
      → http_headers_to_pb jwt s r.header ≡ result
      → IsRouted routes ep stream_id r (with_headers jwt s session ep stream_id r body result)
  unfolding with_headers
  with_headers-IsRouted routes ep stream_id r session body (err (bad_header e)) there m b h =
      inr (inr (e, h), refl)
  with_headers-IsRouted routes ep stream_id r session body (err no_first_value) there m b h = h
  with_headers-IsRouted routes ep stream_id r session body (ok headers) there m b h = (
    there,
    m,
    record {
      same_stream = refl;
      same_name = refl;
      same_type = refl;
      same_method = refl;
      same_uri = refl;
      same_body = b;
      unauthorized = http_headers_to_pb-IsUnauthorized jwt s r.header h;
      kept = λ name values listed. http_headers_to_pb-kept jwt s r.header h name values listed;
    },
  )

  with_body-IsRouted :
      (routes : AgentSessions) (ep : SessionSearch) (stream_id : String) (r : IncomingRequest)
      (session : AgentContext) (body : Option (List ℕ))
      → get routes.agents session.key ≡ some session
      → Matches ep session
      → r.body ≡ body
      → IsRouted routes ep stream_id r (with_body jwt s session ep stream_id r body)
  unfolding with_body
  with_body-IsRouted routes ep stream_id r session none there m b = inr (inl b, refl)
  with_body-IsRouted routes ep stream_id r session (some body) there m b =
      with_headers-IsRouted routes ep stream_id r session body (http_headers_to_pb jwt s r.header)
        there m b refl

  pub run_api_handler-IsRouted :
      (routes : AgentSessions) (ep : SessionSearch) (stream_id : String) (r : IncomingRequest)
      → IsValid routes
      → IsRouted routes ep stream_id r (run_api_handler jwt s routes ep stream_id r)
  unfolding run_api_handler with_session
  run_api_handler-IsRouted routes ep stream_id r v = elim (Option-cases (find routes ep)) [
    | inl miss ↦ rw (miss, run_api_handler) (inl (miss, refl))
    | inr (session, hit) ↦
        let (there, m) : IsAnswer routes ep (some session) =
          subst (IsAnswer routes ep) hit (find-IsAnswer routes ep v) in
        rw (hit, run_api_handler)
          (with_body-IsRouted routes ep stream_id r session r.body there m refl)
  ]

  -- The client's first certificate carries a name with the purpose of services, for `ep`.
  pub record ShowsCert (json : Json) (r : IncomingRequest) (ep : SessionSearch) : Type 0 where
    pub cert : Certificate
    pub more : List Certificate
    pub name : CertificateName
    pub shown : r.peer_certificates ≡ cert ∷ more
    pub carried : get_certificate_name_from_cert json cert ≡ ok name
    pub for_services : name.purpose ≡ purpose_service
    pub same_agent : ep.agent_id ≡ name.agent
    pub same_name : ep.service_name ≡ name.name
    pub same_type : ep.service_type ≡ name.type

  -- The request's token is valid, and its claims are for `ep`.
  pub record ShowsToken (codec : Codec) (r : IncomingRequest) (ep : SessionSearch) : Type 0 where
    pub token : String
    pub claims : ServiceClaims
    pub shown : token_of codec r.header ≡ some token
    pub valid : validate_service_jwt jwt s token none ≡ (claims, none)
    pub same_agent : ep.agent_id ≡ claims.agent
    pub same_name : ep.service_name ≡ claims.ep_name
    pub same_type : ep.service_type ≡ claims.ep_type

  named-ShowsCert :
      (json : Json) (r : IncomingRequest) (ep : SessionSearch) (cert : Certificate)
      (more : List Certificate) (x : Result NameError CertificateName)
      → r.peer_certificates ≡ cert ∷ more
      → get_certificate_name_from_cert json cert ≡ x
      → named_service x ≡ some ep
      → ShowsCert json r ep
  named-ShowsCert json r ep cert more (err e) shown carried named = absurd (ground (arith, named))
  named-ShowsCert json r ep cert more (ok name) shown carried named =
      elim (Bool-cases (name.purpose == purpose_service)) [
        | inl right ↦ record {
          cert = cert;
          more = more;
          name = name;
          shown = shown;
          carried = carried;
          for_services = (string_eq.beq_iff name.purpose purpose_service).0 right;
          same_agent = ground (arith, named, right);
          same_name = ground (arith, named, right);
          same_type = ground (arith, named, right);
        }
        | inr wrong ↦ absurd (ground (arith, named, wrong))
      ]

  cert-ShowsCert :
      (json : Json) (r : IncomingRequest) (ep : SessionSearch) (certs : List Certificate)
      → r.peer_certificates ≡ certs
      → first_cert json certs ≡ some ep
      → ShowsCert json r ep
  unfolding first_cert
  cert-ShowsCert json r ep [] shown e = absurd (ground (arith, e))
  cert-ShowsCert json r ep (cert ∷ more) shown e =
      named-ShowsCert json r ep cert more (get_certificate_name_from_cert json cert) shown refl e

  ShowsCert-cert :
      (json : Json) (r : IncomingRequest) (ep : SessionSearch)
      → ShowsCert json r ep
      → extract_endpoint_from_cert json r ≢ none
  unfolding extract_endpoint_from_cert
  ShowsCert-cert json r ep c e = ground (
    arith,
    e,
    c.shown,
    c.carried,
    (string_eq.beq_iff c.name.purpose purpose_service).1 c.for_services,
  )

  named-ShowsToken :
      (codec : Codec) (r : IncomingRequest) (ep : SessionSearch) (token : String)
      (x : ServiceClaims × Option JwtError)
      → token_of codec r.header ≡ some token
      → validate_service_jwt jwt s token none ≡ x
      → named_by jwt s x ≡ some ep
      → ShowsToken codec r ep
  named-ShowsToken codec r ep token (claims, some e) shown valid named =
      absurd (ground (arith, named))
  named-ShowsToken codec r ep token (claims, none) shown valid named = record {
    token = token;
    claims = claims;
    shown = shown;
    valid = valid;
    same_agent = ground (arith, named);
    same_name = ground (arith, named);
    same_type = ground (arith, named);
  }

  token-ShowsToken :
      (codec : Codec) (r : IncomingRequest) (ep : SessionSearch) (found : Option String)
      → token_of codec r.header ≡ found
      → validated jwt s found ≡ some ep
      → ShowsToken codec r ep
  unfolding validated
  token-ShowsToken codec r ep none shown e = absurd (ground (arith, e))
  token-ShowsToken codec r ep (some token) shown e =
      named-ShowsToken codec r ep token (validate_service_jwt jwt s token none) shown refl e

  ShowsToken-token :
      (codec : Codec) (r : IncomingRequest) (ep : SessionSearch)
      → ShowsToken codec r ep
      → extract_endpoint_from_jwt jwt s codec r ≢ none
  unfolding extract_endpoint_from_jwt
  ShowsToken-token codec r ep t e =
      let one : validated jwt s (token_of codec r.header) ≡ named_by jwt s (t.claims, none) =
        ap (validated jwt s) t.shown ∙ ap (named_by jwt s) t.valid in
      absurd (ground (arith, sym one ∙ e))

  -- What the HTTPS handler does: it refuses with 400 a request without credentials, and routes any
  -- other one to a service that its certificate names, or else its token; in this case without the
  -- header X-Opsmx-Token.
  abbrev pub IsSecured :
      Json → Codec → AgentSessions → String → IncomingRequest → Handled jwt s → Type 0
  IsSecured json codec routes stream_id r handled =
      (((ep : SessionSearch) → ¬ ShowsCert json r ep)
        × ((ep : SessionSearch) → ¬ ShowsToken codec r ep)
        × (handled ≡ answered 400))
      ⊎ ((ep : SessionSearch) × ShowsCert json r ep × IsRouted routes ep stream_id r handled)
      ⊎ ((ep : SessionSearch) × ((other : SessionSearch) → ¬ ShowsCert json r other)
          × ShowsToken codec r ep
          × IsRouted routes ep stream_id (record r { header = header_del r.header "X-Opsmx-Token" })
              handled)

  -- A request passes the HTTPS handler exactly if its first certificate carries a name with the
  -- purpose of services or its token is valid, the certificate deciding where there is one, and it
  -- then goes where requests for the service that is named go, to no other agent and no other
  -- service; by a token it goes without the header X-Opsmx-Token. Without either it is answered with
  -- 400. The table is well-formed.
  pub secure_api_handler-IsSecured :
      (json : Json) (codec : Codec) (routes : AgentSessions) (stream_id : String)
      (r : IncomingRequest)
      → IsValid routes
      → IsSecured json codec routes stream_id r
          (secure_api_handler jwt s json codec routes stream_id r)
  unfolding secure_api_handler extract_endpoint with_endpoint extract_endpoint_from_cert
      extract_endpoint_from_jwt
  secure_api_handler-IsSecured json codec routes stream_id r v =
      elim (Option-cases (extract_endpoint_from_cert json r)) [
        | inr (ep, cert) ↦
            rw (cert, secure_api_handler)
              (inr (
                inl (
                  ep,
                  cert-ShowsCert json r ep r.peer_certificates refl cert,
                  run_api_handler-IsRouted routes ep stream_id r v,
                )))
        | inl no_cert ↦ elim (Option-cases (extract_endpoint_from_jwt jwt s codec r)) [
          | inl no_token ↦
              rw (no_cert, secure_api_handler)
                (rw no_token (
                  inl (
                    λ ep c. ShowsCert-cert json r ep c no_cert,
                    λ ep t. ShowsToken-token codec r ep t no_token,
                    refl,
                  )))
          | inr (ep, token) ↦
              rw (no_cert, secure_api_handler)
                (rw token (
                  inr (
                    inr (
                      ep,
                      λ other c. ShowsCert-cert json r other c no_cert,
                      token-ShowsToken codec r ep (token_of codec r.header) refl token,
                      run_api_handler-IsRouted routes ep stream_id
                          (record r { header = header_del r.header "X-Opsmx-Token" }) v,
                    ))))
        ]
      ]
