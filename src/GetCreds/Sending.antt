-- ===== src/GetCreds/Sending.antt =====
-- Which request the flags of app/get-creds/main.go lead to, if to any.
use grpc_datacon.Common.{
  ℕ, String, Bool, true, false, not, ◌==◌, nat_eq, string_eq, if◌then◌else◌, ◌≡◌, refl, inl, inr,
  Bool-cases,
}
use grpc_datacon.GetCreds.{
  Sent, CredsEnd, usage, panicked, request_failed, printed, insist, exchange,
}

-- A request was sent that the predicate holds of, or none.
abbrev pub OnSent : (Sent → Type 0) → CredsEnd → Type 0
OnSent P usage = Unit
OnSent P panicked = Unit
OnSent P (request_failed sent status) = P sent
OnSent P (printed sent text) = P sent

module _ (P : Sent → Type 0) where
  pub insist-OnSent :
      (text : String) (expected : Bool) (next : CredsEnd)
      → ((text == "") ≡ not expected → OnSent P next)
      → OnSent P (insist text expected next)
  unfolding insist
  insist-OnSent text true next h = elim (Bool-cases (text == "")) [
    | inl e ↦ rw e tt
    | inr e ↦ rw e (h e)
  ]
  insist-OnSent text false next h = elim (Bool-cases (text == "")) [
    | inl e ↦ rw e (h e)
    | inr e ↦ rw e tt
  ]

  pub if-OnSent :
      (b : Bool) (x y : CredsEnd)
      → (b ≡ true → OnSent P x)
      → (b ≡ false → OnSent P y)
      → OnSent P (if b then x else y)
  if-OnSent true x y h k = h refl
  if-OnSent false x y h k = k refl

  pub exchange-OnSent :
      (has_client : Bool) (answer : Sent → ℕ × String) (sent : Sent)
      → P sent
      → OnSent P (exchange has_client answer sent)
  unfolding exchange
  exchange-OnSent true answer sent h = if-OnSent ((answer sent).0 == 200) _ _ (λ good. h) (λ bad. h)
  exchange-OnSent false answer sent h = tt

  -- The three options of an action, in the order in which the code insists on them.
  pub insists-OnSent :
      (agent name type : String) (needs_agent needs_name needs_type : Bool) (next : CredsEnd)
      → ((agent == "") ≡ not needs_agent
          → (name == "") ≡ not needs_name
          → (type == "") ≡ not needs_type
          → OnSent P next)
      → OnSent P (insist agent needs_agent (insist name needs_name (insist type needs_type next)))
  insists-OnSent agent name type needs_agent needs_name needs_type next h =
      insist-OnSent agent needs_agent _
        (λ a. insist-OnSent name needs_name _ (λ n. insist-OnSent type needs_type next (h a n)))
