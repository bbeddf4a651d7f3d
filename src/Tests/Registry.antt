-- ===== src/Tests/Registry.antt =====
-- A token registry with one token, for the runs of the token functions: `sign` hands the token out for
-- the claims that it stands for, and `validate` reads them back.
use grpc_datacon.Common.{
  ℕ, String, [], ◌∷◌, Option, some, Bool, true, false, ◌&&◌, ◌==◌, string_eq, Result, ok, err,
  if◌then◌else◌, ◌≡◌, inl, inr, arith, Bool-cases,
}
use grpc_datacon.Common.Assoc.{Assoc, get}
use grpc_datacon.JwtUtil.{JwtRegistry, JwtState}
use grpc_datacon.JwtUtil.RoundTrip.{SignsTruly}

pub record Vault : Type 0 where
  pub token : String
  pub claims : Assoc String String

unfoldable pub same_claims : Assoc String String → Assoc String String → Bool
same_claims [] [] = true
same_claims [] (x ∷ ys) = false
same_claims (x ∷ xs) [] = false
same_claims ((k, v) ∷ xs) ((j, w) ∷ ys) = k == j && v == w && same_claims xs ys

get-same_claims :
    (xs ys : Assoc String String) (k v : String)
    → same_claims xs ys ≡ true
    → get xs k ≡ some v
    → get ys k ≡ some v
unfolding same_claims get
get-same_claims [] [] k v h g = g
get-same_claims [] (x ∷ ys) k v h g = ground arith
get-same_claims (x ∷ xs) [] k v h g = ground arith
get-same_claims ((a, b) ∷ xs) ((c, d) ∷ ys) k v h g =
    ground (arith, get-same_claims xs ys k v, string_eq.beq_iff a c, string_eq.beq_iff b d)

unfoldable pub vault_sign : Vault → String → Assoc String String → Option ℕ → Result String String
unfolding same_claims
vault_sign s name claims clock = if same_claims claims s.claims then ok s.token else err "unknown"

unfoldable pub vault_validate :
    Vault → String → String → Option ℕ → Result String (Assoc String String)
vault_validate s name token clock = if token == s.token then ok s.claims else err "unknown"

abbrev pub vault : JwtRegistry
vault = record {
  State = Vault;
  Keyset = Unit;
  Clock = ℕ;
  register = λ s name iss keys key period. ok s;
  remove = λ s name. s;
  sign = vault_sign;
  validate = vault_validate;
}

abbrev pub IsFresh : Vault → String → Option ℕ → Option ℕ → Type 0
IsFresh s name signed read = Unit

vault-validate-sign :
    (s : Vault) (name : String) (claims : Assoc String String) (signed read : Option ℕ)
    (token : String)
    → vault_sign s name claims signed ≡ ok token
    → IsFresh s name signed read
    → (found : Assoc String String) × (vault_validate s name token read ≡ ok found)
      × ((k v : String) → get claims k ≡ some v → get found k ≡ some v)
unfolding vault_sign vault_validate
vault-validate-sign s name claims signed read token h u =
    elim (Bool-cases (same_claims claims s.claims)) [
      | inl same ↦
          let h' : ok s.token ≡ ok token = rw same at h in
          (
            s.claims,
            ground (arith, string_eq.beq_iff token s.token),
            λ k v g. get-same_claims claims s.claims k v same g,
          )
      | inr other ↦ let h' : err "unknown" ≡ ok token = rw other at h in ground arith
    ]

pub vault-SignsTruly : SignsTruly vault IsFresh
vault-SignsTruly = record { validate-sign = vault-validate-sign }

abbrev pub registered_vault : Assoc String String → JwtState vault
registered_vault claims = record {
  registry = record { token = "t0"; claims = claims };
  mutation_registered = true;
}
