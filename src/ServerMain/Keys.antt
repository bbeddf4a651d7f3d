-- ===== src/ServerMain/Keys.antt =====
-- The key sets that app/server/main.go loads from a directory.
use grpc_datacon.Common.{
  String, List, [], ◌∷◌, some, Bool, true, false, not, ok, ensure, or_fail, or_fail-eq-ok,
  ensure-eq-ok, >>=-eq-ok, subst, if◌then◌else◌, ◌==◌, string_eq, ◌≡◌,
}
use grpc_datacon.JwtUtil.{JwtRegistry}
use grpc_datacon.ServerMain.{
  KeyOps, WalkEntry, AuthConfig, load_key, load_keys, load_agent_auth_keyset,
  load_service_auth_keyset, walk_failed, no_current_key, no_mutation_key, key_not_loaded,
}

module _ (jwt : JwtRegistry) (keys : KeyOps jwt.Keyset) where
  -- A key that was added is found by its name, and those that were there still are.
  pub record IsLawful : Type 0 where
    pub finds_added :
        (ks more : jwt.Keyset) (key : keys.Key) (name : String)
        → keys.add_key ks key name ≡ some more
        → keys.has_key more name ≡ true
    pub keeps :
        (ks more : jwt.Keyset) (key : keys.Key) (name other : String)
        → keys.add_key ks key name ≡ some more
        → keys.has_key ks other ≡ true
        → keys.has_key more other ≡ true

  -- Each regular file of a walk has its key in the set.
  abbrev pub HasFiles : jwt.Keyset → List WalkEntry → Type 0
  HasFiles ks [] = Unit
  HasFiles ks (entry ∷ rest) =
      (entry.is_regular ≡ true → keys.has_key ks entry.name ≡ true) × HasFiles ks rest

  module _ (lawful : IsLawful) where
    load_key-finds :
        (ks more : jwt.Keyset) (entry : WalkEntry)
        → load_key jwt keys ks entry ≡ ok more
        → (keys.has_key more entry.name ≡ true)
          × ((other : String) → keys.has_key ks other ≡ true → keys.has_key more other ≡ true)
    load_key-finds ks more entry h =
        let (content, read, h1) = >>=-eq-ok (or_fail entry.content walk_failed) _ h in
        let (key, made, h2) = >>=-eq-ok (or_fail (keys.from_raw content) walk_failed) _ h1 in
        let added = or_fail-eq-ok (keys.add_key ks key entry.name) walk_failed h2 in
        (
          lawful.finds_added ks more key entry.name added,
          λ other. lawful.keeps ks more key entry.name other added,
        )

    -- One round of the walk.
    load_entry-finds :
        (ks more : jwt.Keyset) (entry : WalkEntry) (regular : Bool)
        → (if regular then load_key jwt keys ks entry else ok ks) ≡ ok more
        → (regular ≡ true → keys.has_key more entry.name ≡ true)
          × ((other : String) → keys.has_key ks other ≡ true → keys.has_key more other ≡ true)
    load_entry-finds ks more entry true h =
        let (found, kept) = load_key-finds ks more entry h in (λ e. found, kept)
    load_entry-finds ks more entry false h =
        (λ e. cc, λ other there. subst (λ x. keys.has_key x other ≡ true) (cc) there)

    load_keys-finds :
        (entries : List WalkEntry) (ks more : jwt.Keyset)
        → load_keys jwt keys ks entries ≡ ok more
        → HasFiles more entries
          × ((other : String) → keys.has_key ks other ≡ true → keys.has_key more other ≡ true)
    unfolding load_keys
    load_keys-finds [] ks more h =
        (tt, λ other there. subst (λ x. keys.has_key x other ≡ true) (cc) there)
    load_keys-finds (entry ∷ rest) ks more h =
        let (one, fine, h1) = >>=-eq-ok (ensure (not entry.failed) walk_failed) _ h in
        let (mid, loaded, h2) =
          >>=-eq-ok (if entry.is_regular then load_key jwt keys ks entry else ok ks) _ h1 in
        let (found, kept) = load_entry-finds ks mid entry entry.is_regular loaded in
        let (files, kept') = load_keys-finds rest mid more h2 in
        ((λ e. kept' entry.name (found e), files), λ other there. kept' other (kept other there))

    -- The set has the current key, and a key for each file of the directory.
    pub record IsLoaded (auth : AuthConfig) (walk : String → List WalkEntry) (ks : jwt.Keyset)
        : Type 0 where
      pub current : keys.has_key ks auth.current_key_name ≡ true
      pub files : HasFiles ks (walk auth.secrets_path)

    pub load_agent_auth_keyset-IsLoaded :
        (auth : AuthConfig) (walk : String → List WalkEntry) (ks : jwt.Keyset)
        → load_agent_auth_keyset jwt keys auth walk ≡ ok ks
        → IsLoaded auth walk ks
    unfolding load_agent_auth_keyset
    load_agent_auth_keyset-IsLoaded auth walk ks h =
        let (one, named, h1) =
          >>=-eq-ok (ensure (not (auth.current_key_name == "")) no_current_key) _ h in
        let (loaded, walked, h2) =
          >>=-eq-ok (load_keys jwt keys keys.no_keys (walk auth.secrets_path)) _ h1 in
        let (two, there, h3) =
          >>=-eq-ok (ensure (keys.has_key loaded auth.current_key_name) key_not_loaded) _ h2 in
        let same : loaded ≡ ks = cc in
        let (files, kept) = load_keys-finds (walk auth.secrets_path) keys.no_keys loaded walked in
        subst (IsLoaded auth walk) same
          (record { current = ensure-eq-ok _ key_not_loaded there; files = files })

    pub load_service_auth_keyset-IsLoaded :
        (auth : AuthConfig) (walk : String → List WalkEntry) (ks : jwt.Keyset)
        → load_service_auth_keyset jwt keys auth walk ≡ ok ks
        → IsLoaded auth walk ks
    unfolding load_service_auth_keyset
    load_service_auth_keyset-IsLoaded auth walk ks h =
        let (loaded, made, h1) = >>=-eq-ok (load_agent_auth_keyset jwt keys auth walk) _ h in
        let (one, named, h2) =
          >>=-eq-ok (ensure (not (auth.header_mutation_key_name == "")) no_mutation_key) _ h1 in
        let same : loaded ≡ ks = cc in
        subst (IsLoaded auth walk) same (load_agent_auth_keyset-IsLoaded auth walk loaded made)
