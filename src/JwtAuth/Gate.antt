-- ===== src/JwtAuth/Gate.antt =====
-- The interceptor of app/server/jwtauth.go as the gate of the agents' RPCs.
use grpc_datacon.Common.{
  String, Option, none, some, Result, ok, ◌≡◌, refl, >>=-eq-ok, map_err, map_err-eq-ok, or_fail,
  or_fail-eq-ok, arith, string_eq, OnOk, OnOk-bind, OnOk-ok,
}
use grpc_datacon.Common.Assoc.{get}
use grpc_datacon.JwtUtil.{JwtRegistry, JwtState, validate_agent_jwt}
use grpc_datacon.JwtAuth.{
  Context, Metadata, AuthError, no_metadata, no_authorization, bad_jwt, first_value, or_empty,
  authorize, intercept, identity_from_context,
}

ok_inj : {A : Type 0} {x y : A} (m : Result AuthError A) → m ≡ ok x → m ≡ ok y → x ≡ y
ok_inj m h k = ground (arith, h, k)

module _ (r : JwtRegistry) (s : JwtState r) where
  -- The metadata of the RPC holds a valid token of this agent, and this session's id.
  pub record IsIdentified (metadata : Option Metadata) (agent session : String) : Type 0 where
    pub md : Metadata
    pub token : String
    pub has_metadata : metadata ≡ some md
    pub has_token : first_value (get md "authorization") ≡ some token
    pub valid : validate_agent_jwt r s token none ≡ ok agent
    pub has_session : or_empty (first_value (get md "x-session-id")) ≡ session

  authorize-OnOk :
      (metadata : Option Metadata)
      → OnOk (λ (id : String × String). IsIdentified metadata id.0 id.1) (authorize r s metadata)
  unfolding authorize
  authorize-OnOk metadata = OnOk-bind _ (or_fail metadata no_metadata) _ (λ md m.
      OnOk-bind _ (or_fail (first_value (get md "authorization")) no_authorization) _ (λ token t.
        OnOk-bind _ (map_err (λ e. bad_jwt) (validate_agent_jwt r s token none)) _ (λ agent v.
          record {
            md = md;
            token = token;
            has_metadata = or_fail-eq-ok metadata no_metadata m;
            has_token = or_fail-eq-ok (first_value (get md "authorization")) no_authorization t;
            valid = map_err-eq-ok _ (validate_agent_jwt r s token none) v;
            has_session = refl;
          })))

  -- The handler of an RPC runs only if the metadata of the RPC holds a valid agent token, and then in
  -- a context whose identity is the agent of this token and the session id of the metadata, whatever
  -- the context held before.
  pub intercept-ok :
      {A : Type 0} (metadata : Option Metadata) (ctx : Context) (handler : Context → A) (a : A)
      → intercept r s metadata ctx handler ≡ ok a
      → (agent : String) × (session : String) × (ctx' : Context) × IsIdentified metadata agent
          session
        × (identity_from_context ctx' ≡ (agent, session))
        × (a ≡ handler ctx')
  unfolding intercept identity_from_context
  intercept-ok metadata ctx handler a h =
      let (id, found, ran) = >>=-eq-ok (authorize r s metadata) _ h in
      (
        id.0,
        id.1,
        record { agent_id = some id.0; session_id = some id.1 },
        OnOk-ok _ (authorize r s metadata) (authorize-OnOk metadata) found,
        refl,
        ok_inj _ ran refl,
      )
