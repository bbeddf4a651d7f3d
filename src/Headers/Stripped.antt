-- ===== src/Headers/Stripped.antt =====
-- What `HTTPHeadersToPB` of internal/serviceconfig/headers.go lets through.
use mathlib.Core.List.{Memᴰ}
use grpc_datacon.Common.{
  ◌⊎◌, >>=-eq-ok, subst, refl, sym, String, List, [], ◌∷◌, ◌++◌, true, false, ok, OnOk, OnOk-bind,
  OnOk-ok, map_err, none, ◌≡◌, inl, inr, arith, Bool-cases,
}
use grpc_datacon.Common.Text.{equal_fold}
use grpc_datacon.Tunnel.{HttpHeader}
use grpc_datacon.HttpWriter.{Header}
use grpc_datacon.JwtUtil.{JwtRegistry, JwtState, mutate_header}
use grpc_datacon.Headers.{
  bad_header, contains_folded, stripped_outgoing_headers, is_mutated, mutated_first,
  http_header_to_pb, http_headers_to_pb,
}

abbrev pub All {ℓ κ} : {A : Type ℓ} → (A → Type κ) → List A → Type κ
All P [] = Unit
All P (x ∷ xs) = P x × All P xs

pub All-append {ℓ κ} :
    {A : Type ℓ} (P : A → Type κ) (xs ys : List A) → All P xs → All P ys → All P (xs ++ ys)
All-append P [] ys hx hy = hy
All-append P (x ∷ xs) ys (h, hx) hy = (h, All-append P xs ys hx hy)

Memᴰ-cons {ℓ} : {A : Type ℓ} {a x : A} {xs : List A} → Memᴰ a (x ∷ xs) → (a ≡ x) ⊎ Memᴰ a xs
Memᴰ-cons (Memᴰ.head e) = inl e
Memᴰ-cons (Memᴰ.tail m) = inr m

Memᴰ-after {ℓ} : {A : Type ℓ} (xs ys : List A) (a : A) → Memᴰ a ys → Memᴰ a (xs ++ ys)
Memᴰ-after [] ys a m = m
Memᴰ-after (x ∷ xs) ys a m = Memᴰ.tail (Memᴰ-after xs ys a m)

-- Not the name of a header with credentials, in any mix of cases.
abbrev pub IsUnauthorized : HttpHeader → Type 0
IsUnauthorized h = equal_fold "Authorization" h.name ≡ false

user_ne_authorization :
    (name : String)
    → equal_fold "X-Spinnaker-User" name ≡ true
    → equal_fold "Authorization" name ≡ false
unfolding equal_fold
user_ne_authorization String.[] h = cc
user_ne_authorization (String.◌∷◌ c s) h = ground arith

module _ (r : JwtRegistry) (s : JwtState r) where
  is_mutated-IsUnauthorized :
      (name : String) → is_mutated r s name ≡ true → equal_fold "Authorization" name ≡ false
  unfolding is_mutated
  is_mutated-IsUnauthorized name h = user_ne_authorization name (ground arith)

  mutated_first-OnOk :
      (name : String) (values : List String)
      → equal_fold "Authorization" name ≡ false
      → OnOk (All IsUnauthorized) (mutated_first r s name values)
  mutated_first-OnOk name [] h = tt
  mutated_first-OnOk name (v ∷ vs) h =
      OnOk-bind (All IsUnauthorized) (map_err bad_header (mutate_header r s v none)) _
        (λ token e. (h, tt))

  http_header_to_pb-OnOk :
      (name : String) (values : List String)
      → OnOk (All IsUnauthorized) (http_header_to_pb r s name values)
  unfolding http_header_to_pb
  http_header_to_pb-OnOk name values = elim (Bool-cases (is_mutated r s name)) [
    | inl user ↦
        rw (user, http_header_to_pb)
          (mutated_first-OnOk name values (is_mutated-IsUnauthorized name user))
    | inr other ↦ elim (Bool-cases (equal_fold "Authorization" name)) [
      | inl secret ↦ rw (other, http_header_to_pb) (rw (secret, http_header_to_pb) tt)
      | inr plain ↦ rw (other, http_header_to_pb) (rw (plain, http_header_to_pb) (plain, tt))
    ]
  ]

  http_headers_to_pb-OnOk :
      (headers : Header) → OnOk (All IsUnauthorized) (http_headers_to_pb r s headers)
  unfolding http_headers_to_pb
  http_headers_to_pb-OnOk [] = tt
  http_headers_to_pb-OnOk ((name, values) ∷ headers) =
      OnOk-bind (All IsUnauthorized) (http_header_to_pb r s name values) _ (λ first e.
        OnOk-bind (All IsUnauthorized) (http_headers_to_pb r s headers) _ (λ rest f.
          All-append IsUnauthorized first rest
            (OnOk-ok (All IsUnauthorized) _ (http_header_to_pb-OnOk name values) e)
            (OnOk-ok (All IsUnauthorized) _ (http_headers_to_pb-OnOk headers) f)))

  pub http_headers_to_pb-IsUnauthorized :
      (headers : Header) {out : List HttpHeader}
      → http_headers_to_pb r s headers ≡ ok out
      → All IsUnauthorized out
  http_headers_to_pb-IsUnauthorized headers e =
      OnOk-ok (All IsUnauthorized) (http_headers_to_pb r s headers)
        (http_headers_to_pb-OnOk headers) e

  first-kept :
      (name : String) (values : List String)
      → is_mutated r s name ≡ false
      → contains_folded stripped_outgoing_headers name ≡ false
      → http_header_to_pb r s name values ≡ ok (record { name = name; values = values } ∷ [])
  unfolding http_header_to_pb
  first-kept name values plain passed = rw (plain, http_header_to_pb) (rw passed refl)

  -- A header that does not name the user and is not named Authorization passes as it is.
  pub http_headers_to_pb-kept :
      (headers : Header) {out : List HttpHeader}
      → http_headers_to_pb r s headers ≡ ok out
      → (name : String) (values : List String) → Memᴰ (name, values) headers
      → is_mutated r s name ≡ false
      → contains_folded stripped_outgoing_headers name ≡ false
      → Memᴰ (record { name = name; values = values }) out
  unfolding http_headers_to_pb
  http_headers_to_pb-kept [] e name values m plain passed = elim m [ ]
  http_headers_to_pb-kept ((n, vs) ∷ headers) {out} e name values m plain passed =
      let kept : HttpHeader = record { name = name; values = values } in
      let (first, one, more) = >>=-eq-ok (http_header_to_pb r s n vs) _ e in
      let (rest, two, last) = >>=-eq-ok (http_headers_to_pb r s headers) _ more in
      let same : first ++ rest ≡ out = ground (arith, last) in
      subst (λ l. Memᴰ kept l) same
        (elim (Memᴰ-cons m) [
          | inl here ↦
              let alone = first-kept name values plain passed in
              let one' : http_header_to_pb r s name values ≡ ok first =
                subst (λ x. http_header_to_pb r s x.0 x.1 ≡ ok first) (sym here) one in
              let first_is : kept ∷ [] ≡ first = ground (arith, alone, one') in
              subst (λ l. Memᴰ kept (l ++ rest)) first_is (Memᴰ.head refl)
          | inr there ↦
              Memᴰ-after first rest kept
                (http_headers_to_pb-kept headers two name values there plain passed)
        ])

  -- What the tunnel carries of a request's headers.
  pub record IsFiltered (headers : Header) (out : List HttpHeader) : Type 0 where
    pub unauthorized : All IsUnauthorized out
    pub kept :
        (name : String) (values : List String)
        → Memᴰ (name, values) headers
        → is_mutated r s name ≡ false
        → equal_fold "Authorization" name ≡ false
        → Memᴰ (record { name = name; values = values }) out

  -- No header that the tunnel carries is named Authorization, whatever the capitals of its name and
  -- whatever headers come in, and a header that does not name the user and is not named Authorization
  -- passes with all its values.
  pub http_headers_to_pb-IsFiltered :
      (headers : Header) {out : List HttpHeader}
      → http_headers_to_pb r s headers ≡ ok out
      → IsFiltered headers out
  unfolding contains_folded
  http_headers_to_pb-IsFiltered headers e = record {
    unauthorized = http_headers_to_pb-IsUnauthorized headers e;
    kept = λ name values m plain passed.
        http_headers_to_pb-kept headers e name values m plain (rw (passed, contains_folded) refl);
  }
