-- ===== src/Endpoint/Secrets.antt =====
-- Where the credentials of an endpoint come from: `loadSecrets` of
-- internal/serviceconfig/generic_endpoint.go.
use grpc_datacon.Common.{
  String, Option, some, true, ◌||◌, not, ok, err, or_fail, or_fail-eq-ok, ensure, OnOk, OnOk-bind,
  OnOk-map, OnOk-ok, ◌==◌, string_eq, if◌then◌else◌, ◌≡◌, ◌≢◌, ◌⊎◌, refl, inl, inr, arith,
  Bool-cases,
}
use grpc_datacon.Common.Assoc.{Assoc}
use grpc_datacon.Endpoint.{
  Codec, Credentials, GenericEndpoint, SecretLoader, bad_base64, missing_credentials,
  missing_in_secret, unknown_type, no_loader, no_secret_wanted, load_failed, load_secrets,
  load_base64_secrets, load_kubernetes_secrets, get_item, is_token_type, basic_from_secret,
  token_from_secret,
}

-- The credentials `c`, found in the configuration itself.
abbrev pub IsConfigured : Codec → Credentials → Type 0
IsConfigured codec c =
    (c.type ≡ "none")
    ⊎ ((c.type ≡ "basic")
        × (codec.decode64 c.username ≡ some c.raw_username)
        × (codec.decode64 c.password ≡ some c.raw_password))
    ⊎ ((is_token_type c.type ≡ true) × (codec.decode64 c.token ≡ some c.raw_token))

-- The credentials `c`, found in a secret.
abbrev pub IsIn : Assoc String String → Credentials → Type 0
IsIn secret c =
    ((c.type ≡ "basic")
      × (get_item secret "username" ≡ some c.raw_username)
      × (get_item secret "password" ≡ some c.raw_password))
    ⊎ ((is_token_type c.type ≡ true) × (get_item secret "token" ≡ some c.raw_token))

-- The credentials `c`, found in the secret that they name.
abbrev pub IsSecret : SecretLoader → Credentials → Type 0
IsSecret loader c =
    (get_secret : String → Option (Assoc String String)) × (secret : Assoc String String) × (loader
      ≡ some get_secret)
    × (get_secret c.secret_name ≡ some secret)
    × IsIn secret c

-- The credentials `c`, by where they had to be looked for.
abbrev pub IsSourced : Codec → SecretLoader → Credentials → Type 0
IsSourced codec loader c =
    ((c.secret_name ≡ "") × IsConfigured codec c) ⊎ ((c.secret_name ≢ "") × IsSecret loader c)

module _ (codec : Codec) (ep : GenericEndpoint) where
  abbrev creds : Credentials
  creds = ep.config.credentials

  KeepsConfigured : GenericEndpoint → Type 0
  KeepsConfigured e =
      (e.config.credentials.secret_name ≡ creds.secret_name)
      × IsConfigured codec e.config.credentials

  load_base64_secrets-OnOk : OnOk KeepsConfigured (load_base64_secrets codec ep)
  unfolding load_base64_secrets KeepsConfigured
  load_base64_secrets-OnOk = elim (Bool-cases (creds.type == "none" || creds.type == "")) [
    | inl e ↦ rw e (refl, inl refl)
    | inr e ↦ elim (Bool-cases (creds.type == "basic")) [
      | inl b ↦ rw e (
          rw b (
            OnOk-bind _
              (ensure (not (creds.username == "" || creds.password == "")) missing_credentials) _
              (λ t m. OnOk-bind _ (or_fail (codec.decode64 creds.username) bad_base64) _ (λ u mu.
                OnOk-bind _ (or_fail (codec.decode64 creds.password) bad_base64) _ (λ p mp. (
                  refl,
                  inr (
                      inl (
                        ground (arith, b, string_eq.beq_iff creds.type "basic"),
                        or_fail-eq-ok (codec.decode64 creds.username) bad_base64 mu,
                        or_fail-eq-ok (codec.decode64 creds.password) bad_base64 mp,
                      )),
                ))))))
      | inr b ↦ elim (Bool-cases (is_token_type creds.type)) [
        | inl k ↦ rw e (
            rw b (
              rw k (
                OnOk-bind _ (ensure (not (creds.token == "")) missing_credentials) _ (λ t m.
                  OnOk-bind _ (or_fail (codec.decode64 creds.token) bad_base64) _ (λ w mw. (
                    refl,
                    inr (inr (k, or_fail-eq-ok (codec.decode64 creds.token) bad_base64 mw)),
                  ))))))
        | inr k ↦ rw e (rw b (rw k tt))
      ]
    ]
  ]

  KeepsSecret : SecretLoader → GenericEndpoint → Type 0
  KeepsSecret loader e =
      (e.config.credentials.secret_name ≡ creds.secret_name) × IsSecret loader e.config.credentials

  KeepsIn : Assoc String String → GenericEndpoint → Type 0
  KeepsIn secret e =
      (e.config.credentials.secret_name ≡ creds.secret_name) × IsIn secret e.config.credentials

  KeepsIn-basic_from_secret :
      (secret : Assoc String String)
      → creds.type ≡ "basic"
      → OnOk (KeepsIn secret) (basic_from_secret ep creds secret)
  unfolding basic_from_secret KeepsIn
  KeepsIn-basic_from_secret secret b =
      OnOk-bind _ (or_fail (get_item secret "username") missing_in_secret) _ (λ u mu.
        OnOk-bind _ (or_fail (get_item secret "password") missing_in_secret) _ (λ p mp. (
          refl,
          inl (
            b,
            or_fail-eq-ok (get_item secret "username") missing_in_secret mu,
            or_fail-eq-ok (get_item secret "password") missing_in_secret mp,
          ),
        )))

  KeepsIn-token_from_secret :
      (secret : Assoc String String)
      → is_token_type creds.type ≡ true
      → OnOk (KeepsIn secret) (token_from_secret ep creds secret)
  unfolding token_from_secret KeepsIn
  KeepsIn-token_from_secret secret k =
      OnOk-bind _ (or_fail (get_item secret "token") missing_in_secret) _
        (λ w mw. (refl, inr (k, or_fail-eq-ok (get_item secret "token") missing_in_secret mw)))

  by_type :
      (secret : Assoc String String)
      → OnOk (KeepsIn secret) (
          if creds.type == "basic"
          then basic_from_secret ep creds secret
          else if is_token_type creds.type
          then token_from_secret ep creds secret
          else err unknown_type)
  by_type secret = elim (Bool-cases (creds.type == "basic")) [
    | inl b ↦
        rw b (
          KeepsIn-basic_from_secret secret
            (ground (arith, b, string_eq.beq_iff creds.type "basic")))
    | inr b ↦ elim (Bool-cases (is_token_type creds.type)) [
      | inl k ↦ rw b (rw k (KeepsIn-token_from_secret secret k))
      | inr k ↦ rw b (rw k tt)
    ]
  ]

  load_kubernetes_secrets-OnOk :
      (loader : SecretLoader) → OnOk (KeepsSecret loader) (load_kubernetes_secrets ep loader)
  unfolding load_kubernetes_secrets KeepsSecret KeepsIn
  load_kubernetes_secrets-OnOk loader = OnOk-bind _ (or_fail loader no_loader) _ (λ get_secret g.
      OnOk-bind _ (ensure (not (creds.type == "none" || creds.type == "")) no_secret_wanted) _
        (λ t w. OnOk-bind _ (or_fail (get_secret creds.secret_name) load_failed) _ (λ secret s.
          OnOk-map (KeepsIn secret) (KeepsSecret loader) _
            (λ e kept. (
              kept.0,
              (
                get_secret,
                secret,
                or_fail-eq-ok loader no_loader g,
                rw (kept.0) (or_fail-eq-ok (get_secret creds.secret_name) load_failed s),
                kept.1,
              ),
            ))
            (by_type secret))))

  -- An endpoint whose secrets load has its credentials from the secret that they name, and only if
  -- they name none from the configuration itself, where they stand in base64: a name and a password
  -- for the type "basic", a token for the types "bearer" and "token". Nothing is taken from a secret
  -- without a loader.
  pub load_secrets-IsSourced :
      (loader : SecretLoader) (loaded : GenericEndpoint)
      → load_secrets codec ep loader ≡ ok loaded
      → IsSourced codec loader loaded.config.credentials
  unfolding load_secrets KeepsConfigured KeepsSecret
  load_secrets-IsSourced loader loaded h = elim (Bool-cases (creds.secret_name == "")) [
    | inl none_named ↦
        let (same, found) =
          OnOk-ok KeepsConfigured (load_base64_secrets codec ep) load_base64_secrets-OnOk
            (rw none_named at h) in
        inl (ground (arith, same, none_named, string_eq.beq_iff creds.secret_name ""), found)
    | inr named ↦
        let (same, found) =
          OnOk-ok (KeepsSecret loader) (load_kubernetes_secrets ep loader)
            (load_kubernetes_secrets-OnOk loader) (rw named at h) in
        inr (λ e. ground (arith, e, same, named, string_eq.beq_iff creds.secret_name ""), found)
  ]
