-- ===== src/JwtAuth.antt =====
-- app/server/jwtauth.go: the interceptor that every agent RPC passes, and the identity that it
-- leaves in the context. `validate` is the package internal/jwtutil's `ValidateAgentJWT` at a nil
-- clock. The metadata of an RPC is `none` where `metadata.FromIncomingContext` finds none.
pub mod Gate
use grpc_datacon.Common.{
  String, List, [], ◌∷◌, Option, none, some, Result, ok, ◌>>=◌, or_fail, map_err, string_eq,
}
use grpc_datacon.Common.Assoc.{Assoc, get}
use grpc_datacon.JwtUtil.{JwtRegistry, JwtState, validate_agent_jwt}

-- The two values that the code keeps in a `context.Context`.
pub record Context : Type 0 where
  pub session_id : Option String
  pub agent_id : Option String

pub data AuthError : Type 0 where
  no_metadata no_authorization bad_jwt : AuthError

abbrev pub or_empty : Option String → String
or_empty none = ""
or_empty (some v) = v

-- The agent's id and the session's.
unfoldable pub identity_from_context : Context → String × String
identity_from_context ctx = (or_empty ctx.agent_id, or_empty ctx.session_id)

abbrev pub Metadata : Type 0
Metadata = Assoc String (List String)

-- `md[key]`, which is the empty list where the key is missing; then its first value, if any.
abbrev pub first_value : Option (List String) → Option String
first_value none = none
first_value (some []) = none
first_value (some (v ∷ vs)) = some v

module _ (r : JwtRegistry) where
  unfoldable pub authorize : JwtState r → Option Metadata → Result AuthError (String × String)
  authorize s metadata = do
    md ← or_fail metadata no_metadata
    token ← or_fail (first_value (get md "authorization")) no_authorization
    agent ← map_err (λ e. bad_jwt) (validate_agent_jwt r s token none)
    ok (agent, or_empty (first_value (get md "x-session-id")))

  -- `Unary` and `Stream`: the handler runs with the identity in its context, or not at all.
  unfoldable pub intercept {ℓ} :
      {A : Type ℓ} → JwtState r → Option Metadata → Context → (Context → A) → Result AuthError A
  unfolding authorize
  intercept s metadata ctx handler = do
    identity ← authorize s metadata
    ok (handler (record { agent_id = some identity.0; session_id = some identity.1 }))
