-- ===== src/System/Members.antt =====
-- The members of a list of goroutines when one of them moves on.
use mathlib.Core.List.{Memᴰ}
use grpc_datacon.Common.{List, [], ◌∷◌, ◌++◌, ◌≡◌, ◌⊎◌, inl, inr}

pub Memᴰ-remove {ℓ} :
    {A : Type ℓ} (before after : List A) (h a : A)
    → Memᴰ a (before ++ h ∷ after)
    → (a ≡ h) ⊎ Memᴰ a (before ++ after)
Memᴰ-remove [] after h a (Memᴰ.head e) = inl e
Memᴰ-remove [] after h a (Memᴰ.tail m) = inr m
Memᴰ-remove (x ∷ before) after h a (Memᴰ.head e) = inr (Memᴰ.head e)
Memᴰ-remove (x ∷ before) after h a (Memᴰ.tail m) = elim (Memᴰ-remove before after h a m) [
  | inl e ↦ inl e
  | inr n ↦ inr (Memᴰ.tail n)
]

pub Memᴰ-restore {ℓ} :
    {A : Type ℓ} (before after : List A) (h a : A)
    → Memᴰ a (before ++ after)
    → Memᴰ a (before ++ h ∷ after)
Memᴰ-restore [] after h a m = Memᴰ.tail m
Memᴰ-restore (x ∷ before) after h a (Memᴰ.head e) = Memᴰ.head e
Memᴰ-restore (x ∷ before) after h a (Memᴰ.tail m) = Memᴰ.tail (Memᴰ-restore before after h a m)
