-- ===== src/Config/Names.antt =====
-- The server names of a configuration that `LoadConfig` of app/server/config.go returns: they are
-- what the controller's own certificate is made for.
use mathlib.Core.List.{append-nil, append_assoc}
use grpc_datacon.Common.{
  ℕ, String, List, [], ◌∷◌, ◌++◌, Option, none, some, true, ◌||◌, ok, ◌==◌, nat_eq, string_eq, ◌≡◌,
  ◌≢◌, refl, sym, ◌∙◌, inl, inr, arith, Bool-cases, or_fail, or_fail-eq-ok, OnOk-bind, OnOk-ok,
}
use grpc_datacon.Config.{
  ControllerConfig, no_agent_hostname, no_service_hostname, no_control_hostname, has_server_name,
  add_if_missing, add_all_hostnames, load_config, or_port, with_defaults,
}

-- The name stands in the list.
abbrev pub IsNamed : List String → Option String → Type 0
IsNamed names host = (h : String) × (host ≡ some h) × (has_server_name names h ≡ true)

has_server_name-append :
    (xs ys : List String) (h : String)
    → has_server_name (xs ++ ys) h ≡ (has_server_name xs h || has_server_name ys h)
unfolding has_server_name
has_server_name-append [] ys h = refl
has_server_name-append (x ∷ xs) ys h = ground (arith, has_server_name-append xs ys h)

-- A longer list, with the same names first.
abbrev pub Extends : List String → List String → Type 0
Extends old new = (more : List String) × (new ≡ old ++ more)

Extends-add_if_missing :
    (names : List String) (host : Option String) → Extends names (add_if_missing names host)
unfolding add_if_missing
Extends-add_if_missing names none = ([], sym (append-nil names))
Extends-add_if_missing names (some h) = elim (Bool-cases (has_server_name names h)) [
  | inl e ↦ ([], rw e (sym (append-nil names)))
  | inr e ↦ (h ∷ [], rw e refl)
]

Extends-trans : (a b c : List String) → Extends a b → Extends b c → Extends a c
Extends-trans a b c (m, e) (n, f) = (m ++ n, f ∙ rw (e, append_assoc))

IsNamed-Extends :
    (old new : List String) (host : Option String)
    → Extends old new
    → IsNamed old host
    → IsNamed new host
IsNamed-Extends old new host (more, e) (h, is_host, named) =
    (h, is_host, rw e (ground (arith, named, has_server_name-append old more h)))

IsNamed-add_if_missing :
    (names : List String) (host : Option String) (h : String)
    → host ≡ some h
    → IsNamed (add_if_missing names host) host
unfolding add_if_missing has_server_name
IsNamed-add_if_missing names none h e = ground arith
IsNamed-add_if_missing names (some g) h e = elim (Bool-cases (has_server_name names g)) [
  | inl there ↦ (g, refl, rw there there)
  | inr missing ↦ (
    g,
    refl,
    rw missing (ground (arith, has_server_name-append names (g ∷ []) g, string_eq.beq_iff g g)),
  )
]

-- What a configuration that was loaded is fit for.
pub record IsLoaded (c d : ControllerConfig) : Type 0 where
  pub names_kept : Extends c.server_names d.server_names
  pub agent_named : IsNamed d.server_names d.agent_hostname
  pub control_named : IsNamed d.server_names d.control_hostname
  pub service_named : IsNamed d.server_names d.service_hostname
  pub agent_port : d.agent_listen_port ≢ 0
  pub advertise_port : d.agent_advertise_port ≢ 0
  pub service_port : d.service_listen_port ≢ 0
  pub control_port : d.control_listen_port ≢ 0

or_port-ne-zero : (port default : ℕ) → default ≢ 0 → or_port port default ≢ 0
or_port-ne-zero port default h e = elim (Bool-cases (port == 0)) [
  | inl zero ↦ h (rw zero at e)
  | inr set ↦ ground (arith, set, e, nat_eq.beq_iff port 0)
]

add_all_hostnames-IsLoaded :
    (c : ControllerConfig) (agent service control : String)
    → c.agent_hostname ≡ some agent
    → c.service_hostname ≡ some service
    → c.control_hostname ≡ some control
    → IsLoaded c (add_all_hostnames (with_defaults c))
unfolding add_all_hostnames
add_all_hostnames-IsLoaded c agent service control a s t =
    let one = add_if_missing c.server_names c.agent_hostname in
    let two = add_if_missing one c.control_hostname in
    let three = add_if_missing two c.service_hostname in
    let e1 = Extends-add_if_missing c.server_names c.agent_hostname in
    let e2 = Extends-add_if_missing one c.control_hostname in
    let e3 = Extends-add_if_missing two c.service_hostname in
    record {
      names_kept =
          Extends-trans c.server_names two three (Extends-trans c.server_names one two e1 e2) e3;
      agent_named =
          IsNamed-Extends one three c.agent_hostname (Extends-trans one two three e2 e3)
            (IsNamed-add_if_missing c.server_names c.agent_hostname agent a);
      control_named =
          IsNamed-Extends two three c.control_hostname e3
            (IsNamed-add_if_missing one c.control_hostname control t);
      service_named = IsNamed-add_if_missing two c.service_hostname service s;
      agent_port = or_port-ne-zero c.agent_listen_port 9001 (λ e. ground arith);
      advertise_port =
          or_port-ne-zero c.agent_advertise_port (or_port c.agent_listen_port 9001)
            (or_port-ne-zero c.agent_listen_port 9001 (λ e. ground arith));
      service_port = or_port-ne-zero c.service_listen_port 9002 (λ e. ground arith);
      control_port = or_port-ne-zero c.control_listen_port 9003 (λ e. ground arith);
    }

-- A configuration that loads has the three host names that the controller goes by among its server
-- names, after the names that the file gave and without dropping one of these, and none of its four
-- ports is 0.
pub load_config-IsLoaded : (c d : ControllerConfig) → load_config (some c) ≡ ok d → IsLoaded c d
unfolding load_config
load_config-IsLoaded c d h =
    OnOk-ok (IsLoaded c) (load_config (some c))
      (OnOk-bind (IsLoaded c) (or_fail c.agent_hostname no_agent_hostname) _ (λ agent a.
        OnOk-bind (IsLoaded c) (or_fail c.service_hostname no_service_hostname) _ (λ service s.
          OnOk-bind (IsLoaded c) (or_fail c.control_hostname no_control_hostname) _ (λ control t.
            add_all_hostnames-IsLoaded c agent service control
              (or_fail-eq-ok c.agent_hostname no_agent_hostname a)
              (or_fail-eq-ok c.service_hostname no_service_hostname s)
              (or_fail-eq-ok c.control_hostname no_control_hostname t)))))
      h
