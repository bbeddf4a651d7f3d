-- ===== src/Common/Assoc.antt =====
-- Go's `map[K]V` as an association list. A `range` over the map visits the entries in the order of
-- the list, which stands for whatever order the runtime picks.
use mathlib.Core.Path.{◌≡◌}
use mathlib.Core.Logic.{inl, inr}
use mathlib.Core.Option.{Option, none, some}
use mathlib.Core.List.{List, [], ◌∷◌}
use native.Mathlib.Omega.{arith}
use grpc_datacon.Common.Tests.{Eq, ◌==◌, if◌then◌else◌, Bool-cases}

abbrev pub Assoc {ℓ κ} : Type ℓ → Type κ → Type (ℓ ⊔ κ)
Assoc K V = List (K × V)

module _ {ℓ κ} {K : Type ℓ} {V : Type κ} ⦃e : Eq K⦄ where
  -- `v, found := m[k]`
  unfoldable pub get : Assoc K V → K → Option V
  get [] k = none
  get ((j, v) ∷ m) k = if j == k then some v else get m k

  -- `delete(m, k)`
  unfoldable pub delete : Assoc K V → K → Assoc K V
  delete [] k = []
  delete ((j, v) ∷ m) k = let rest = delete m k in if j == k then rest else (j, v) ∷ rest

  -- `m[k] = v`
  unfoldable pub put : Assoc K V → K → V → Assoc K V
  unfolding delete
  put m k v = (k, v) ∷ delete m k

  pub get-delete :
      (m : Assoc K V) (k j : K) → get (delete m k) j ≡ (if k == j then none else get m j)
  unfolding get delete
  get-delete [] k j = ground arith
  get-delete ((i, v) ∷ m) k j =
      ground (arith, get-delete m k j, e.beq_iff i k, e.beq_iff i j, e.beq_iff k j)

  pub get-put :
      (m : Assoc K V) (k j : K) (v : V) → get (put m k v) j ≡ (if k == j then some v else get m j)
  unfolding get put
  get-put m k j v = ground (arith, get-delete m k j)

  pub get-put_self : (m : Assoc K V) (k : K) (v : V) → get (put m k v) k ≡ some v
  get-put_self m k v = ground (arith, get-put m k k v, e.beq_iff k k)

  pub get-delete_self : (m : Assoc K V) (k : K) → get (delete m k) k ≡ none
  get-delete_self m k = ground (arith, get-delete m k k, e.beq_iff k k)

  -- A map holds each key once.
  abbrev pub IsMap : Assoc K V → Type κ
  IsMap [] = Unit
  IsMap ((k, v) ∷ m) = (get m k ≡ none) × IsMap m

  pub delete-IsMap : (m : Assoc K V) (k : K) → IsMap m → IsMap (delete m k)
  unfolding delete
  delete-IsMap [] k h = h
  delete-IsMap ((j, v) ∷ m) k (fresh, h) = elim (Bool-cases (j == k)) [
    | inl same ↦ rw same (delete-IsMap m k h)
    | inr other ↦ rw other (ground (arith, get-delete m k j), delete-IsMap m k h)
  ]

  pub put-IsMap : (m : Assoc K V) (k : K) (v : V) → IsMap m → IsMap (put m k v)
  unfolding put
  put-IsMap m k v h = (get-delete_self m k, delete-IsMap m k h)
