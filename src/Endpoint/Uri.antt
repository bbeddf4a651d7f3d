-- ===== src/Endpoint/Uri.antt =====
-- `unmutateURI` of internal/serviceconfig/generic_endpoint.go: the user's name in the path of a request
-- to fiat.
use grpc_datacon.Common.{String, List, ◌∷◌, Option, none, true, ok, ◌≡◌, string_eq}
use grpc_datacon.Common.Slash.{split_slash, join_slash}
use grpc_datacon.JwtUtil.{
  JwtRegistry, JwtState, mutate_header, mutation_is_registered, mutate_registry_name,
}
use grpc_datacon.JwtUtil.RoundTrip.{SignsTruly, unmutate-mutate_header}
use grpc_datacon.Endpoint.{unmutate_uri}

module _ (r : JwtRegistry) {IsFresh : r.State → String → Option r.Clock → Option r.Clock → Type 0}
    (law : SignsTruly r IsFresh) (s : JwtState r) where
  -- A GET request to fiat for `…/authorize/<token>/…`, where the token is a mutated user name, goes to
  -- the same path with the user's name in the place of the token. Mutation is registered, the
  -- registry keeps its word and the token is fresh.
  pub unmutate_uri-mutate_header :
      (uri host token user : String) (rest : List String)
      → mutation_is_registered r s ≡ true
      → split_slash uri ≡ host ∷ "authorize" ∷ token ∷ rest
      → mutate_header r s user none ≡ ok token
      → IsFresh s.registry mutate_registry_name none none
      → unmutate_uri r s "fiat" "GET" uri ≡ ok (join_slash (host ∷ "authorize" ∷ user ∷ rest))
  unfolding unmutate_uri
  unmutate_uri-mutate_header uri host token user rest registered parts signed fresh =
      rw (registered, unmutate_uri)
        (rw parts (rw (unmutate-mutate_header r law s none none token user signed fresh)))
