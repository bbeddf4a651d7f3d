-- ===== src/Headers.antt =====
-- internal/serviceconfig/headers.go: the headers of HTTP requests and responses on their way through
-- the tunnel. Where keys for the mutation are registered, which is in the controller, a header that
-- names the user is signed on its way out and read back on its way in; Authorization is not passed on.
pub mod Stripped
pub mod Users
use grpc_datacon.Common.{
  ℕ, String, List, [], ◌∷◌, ◌++◌, Option, none, some, Bool, true, false, ◌&&◌, ◌||◌, not, Result,
  ok, err, ◌>>=◌, map_err, if◌then◌else◌,
}
use grpc_datacon.Common.Text.{equal_fold}
use grpc_datacon.Tunnel.{HttpHeader}
use grpc_datacon.HttpWriter.{Header, header_add}
use grpc_datacon.JwtUtil.{
  JwtRegistry, JwtState, JwtError, mutation_is_registered, mutate_header, unmutate_header,
}

abbrev pub mutated_headers : List String
mutated_headers = "X-Spinnaker-User" ∷ []

abbrev pub stripped_outgoing_headers : List String
stripped_outgoing_headers = "Authorization" ∷ []

unfoldable pub contains_folded : List String → String → Bool
contains_folded [] t = false
contains_folded (x ∷ l) t = equal_fold x t || contains_folded l t

-- `no_first_value` is the panic of `values[0]` on an empty list.
pub data HeaderError : Type 0 where
  bad_header : JwtError → HeaderError
  no_first_value : HeaderError

unfoldable pub add_each : String → List String → Header → Header
add_each name [] out = out
add_each name (v ∷ vs) out = add_each name vs (header_add out name v)

module _ (r : JwtRegistry) (s : JwtState r) where
  unfoldable pub is_mutated : String → Bool
  unfolding contains_folded
  is_mutated name = mutation_is_registered r s && contains_folded mutated_headers name

  abbrev unmutated_first : HttpHeader → List String → Header → Result HeaderError Header
  unmutated_first h [] out = err no_first_value
  unmutated_first h (value ∷ vs) out = do
    user ← map_err bad_header (unmutate_header r s value none)
    ok (header_add out h.name user)

  -- One round of the loop of `PBHEadersToHTTP`.
  unfoldable pub pb_header_to_http : HttpHeader → Header → Result HeaderError Header
  unfolding is_mutated add_each
  pb_header_to_http h out =
      if is_mutated h.name
      then unmutated_first h h.values out
      else ok (add_each h.name h.values out)

  unfoldable pub pb_headers_to_http : List HttpHeader → Header → Result HeaderError Header
  unfolding pb_header_to_http
  pb_headers_to_http [] out = ok out
  pb_headers_to_http (h ∷ hs) out = do out' ← pb_header_to_http h out; pb_headers_to_http hs out'

  abbrev mutated_first : String → List String → Result HeaderError (List HttpHeader)
  mutated_first name [] = err no_first_value
  mutated_first name (value ∷ vs) = do
    token ← map_err bad_header (mutate_header r s value none)
    ok (record { name = name; values = token ∷ [] } ∷ [])

  -- One round of the loop of `HTTPHeadersToPB`: what it appends.
  unfoldable pub http_header_to_pb : String → List String → Result HeaderError (List HttpHeader)
  unfolding is_mutated contains_folded
  http_header_to_pb name values =
      if is_mutated name
      then mutated_first name values
      else if contains_folded stripped_outgoing_headers name
      then ok []
      else ok (record { name = name; values = values } ∷ [])

  unfoldable pub http_headers_to_pb : Header → Result HeaderError (List HttpHeader)
  unfolding http_header_to_pb
  http_headers_to_pb [] = ok []
  http_headers_to_pb ((name, values) ∷ headers) = do
    first ← http_header_to_pb name values
    rest ← http_headers_to_pb headers
    ok (first ++ rest)
