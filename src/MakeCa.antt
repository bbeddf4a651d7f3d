-- ===== src/MakeCa.antt =====
-- app/make-ca/main.go: the program that makes an authority and the first control certificate. Its
-- flags are `Flags`; the files that can be written are a parameter, `now` is what each call of
-- `time.Now` returns in turn. Log lines are left out, and that `--version` ends the program.
pub mod Steps
pub mod Written
use Prim.Native.String
use grpc_datacon.Common.{
  String, List, [], ◌∷◌, ◌++◌, Option, none, some, Bool, true, false, not, Result, ok, err, ◌==◌,
  string_eq, if◌then◌else◌,
}
use grpc_datacon.Common.Calendar.{Time}
use grpc_datacon.Ca.{CertificateName, Json, purpose_control, purpose_agent}
use grpc_datacon.Ca.Authority.{
  Crypto, KeyPair, make_certificate_authority, make_ca_from_data, issue_certificate, Issued,
}

pub record Flags : Type 0 where
  pub namespace : String
  pub ca_secret_name : String
  pub with_kubernetes : Bool
  pub control_secret_name : String
  pub also_agent_named : String

-- The times of the authority, of its check, and of the two certificates.
pub record Clock : Type 0 where
  pub made_at : Time
  pub checked_at : Time
  pub control_at : Time
  pub agent_at : Time

-- The files that have been written, the last one first, each with what is in it.
abbrev pub Files : Type 0
Files = List (String × String)

-- A step of the program goes on, panics in `check`, or ends with `log.Fatal`.
pub data IoEnd {ℓ} (A : Type ℓ) : Type ℓ where
  going : A → Files → IoEnd A
  panics : Files → IoEnd A
  fatal : Files → IoEnd A

abbrev pub Io {ℓ} : Type ℓ → Type ℓ
Io A = Files → IoEnd A

abbrev pub bind_end {ℓ κ} : {A : Type ℓ} {B : Type κ} → IoEnd A → (A → Io B) → IoEnd B
bind_end (going a files) next = next a files
bind_end (panics files) next = panics files
bind_end (fatal files) next = fatal files

infixl 5 ◌>>=◌ ◌>>◌
abbrev pub ◌>>=◌ {ℓ κ} : {A : Type ℓ} {B : Type κ} → Io A → (A → Io B) → Io B
◌>>=◌ m next files = bind_end (m files) next

abbrev pub ◌>>◌ {ℓ} : {B : Type ℓ} → Io (Unit {0}) → Io B → Io B
m >> next = m >>= λ done. next

-- `check(err)`
abbrev pub check {ℓ κ} : {E : Type ℓ} {A : Type κ} → Result E A → Io A
check (ok a) files = going a files
check (err e) files = panics files

abbrev pub check_some {ℓ} : {A : Type ℓ} → Option A → Io A
check_some (some a) files = going a files
check_some none files = panics files

abbrev pub when : Bool → Io (Unit {0}) → Io (Unit {0})
when true m = m
when false m = λ files. going tt files

abbrev pub insist_equal : String → String → Io (Unit {0})
insist_equal a b files = if a == b then going tt files else fatal files

abbrev pub lines : List String → String
lines [] = ""
lines (l ∷ ls) = String.◌++◌ l (String.◌++◌ "\n" (lines ls))

-- `maybePrintNamespace`
unfoldable pub namespace_lines : String → List String
namespace_lines namespace =
    if namespace == "" then [] else String.◌++◌ "  namespace: " namespace ∷ []

-- One secret of controller-secrets.yaml.
unfoldable pub secret_lines : String → String → String → String → List String
unfolding namespace_lines
secret_lines namespace name crt key =
    ("apiVersion: v1" ∷ "kind: Secret" ∷ "type: kubernetes.io/tls" ∷ "metadata:" ∷ [])
    ++ namespace_lines namespace
    ++ String.◌++◌ "  name: " name
      ∷ "data:"
      ∷ String.◌++◌ "  tls.crt: " crt
      ∷ String.◌++◌ "  tls.key: " key
      ∷ []

abbrev pub control_name : CertificateName
control_name = record { name = "oes"; type = ""; agent = ""; purpose = purpose_control }

abbrev pub agent_name : String → CertificateName
agent_name agent = record { name = ""; type = ""; agent = agent; purpose = purpose_agent }

module _ (crypto : Crypto) (decode64 : String → Option String) (json : Json)
    (can_write : String → Bool) where
  open crypto use {Key, encode64}

  abbrev pub write_file : String → String → Io (Unit {0})
  write_file name text files =
      if can_write name then going tt ((name, text) ∷ files) else panics files

  -- A certificate and its key, decoded and written to two files.
  abbrev pub write_pair : String → String → Issued crypto → Io (Unit {0})
  write_pair cert_file key_file issued = do
    cert ← check_some (decode64 issued.cert64)
    write_file cert_file cert
    key ← check_some (decode64 issued.key64)
    write_file key_file key

  unfoldable pub write_manifest : Flags → String → String → Issued crypto → Io (Unit {0})
  unfolding secret_lines
  write_manifest flags ca64 ca_key64 issued = write_file "controller-secrets.yaml" (
      lines (
        secret_lines flags.namespace flags.ca_secret_name ca64 ca_key64
        ++ "---"
          ∷ secret_lines flags.namespace flags.control_secret_name issued.cert64 issued.key64))

  -- The agent's certificate, if one is asked for.
  unfoldable pub make_agent : Flags → Time → KeyPair Key → Io (Unit {0})
  make_agent flags now authority = when (not (flags.also_agent_named == "")) (do
    issued ← check (issue_certificate crypto json authority now (agent_name flags.also_agent_named))
    write_pair "agent-cert.pem" "agent-key.pem" issued)

  unfoldable pub make_ca : Flags → Clock → Io (Unit {0})
  unfolding write_manifest make_agent
  make_ca flags clock = do
    pair ← check (make_certificate_authority crypto clock.made_at)
    let ca64 = encode64 pair.0
    let ca_key64 = encode64 pair.1
    authority ← check (make_ca_from_data crypto clock.checked_at pair.0 pair.1)
    issued ← check (issue_certificate crypto json authority clock.control_at control_name)
    insist_equal issued.ca64 ca64
    when flags.with_kubernetes (write_manifest flags ca64 ca_key64 issued)
    write_pair "control-cert.pem" "control-key.pem" issued
    write_file "ca-cert.pem" pair.0
    ca_key ← check_some (decode64 ca_key64)
    write_file "ca-key.pem" ca_key
    make_agent flags clock.agent_at authority
