-- ===== src/Common/Slash.antt =====
-- `strings.Split(s, "/")` and `strings.Join(parts, "/")`.
use Prim.Native.Char.{Char, code}
use Prim.Native.String
use Prim.Native.String.append
use Prim.Native.String.{String}
use mathlib.Core.Path.{◌≡◌, refl, sym, ◌∙◌, ap}
use mathlib.Core.Logic.{inl, inr, ◌≢◌}
use mathlib.Core.List.{List, [], ◌∷◌}
use native.Mathlib.Omega.{arith}
use text.Mathlib.TextEquality.{Char-path}
use grpc_datacon.Common.Tests.{◌==◌, nat_eq, if◌then◌else◌, Bool-cases}

abbrev in_first : Char → List String → List String
in_first c [] = (String.◌∷◌ c String.[]) ∷ []
in_first c (p ∷ ps) = (String.◌∷◌ c p) ∷ ps

unfoldable pub split_slash : String → List String
split_slash String.[] = "" ∷ []
split_slash (String.◌∷◌ c s) =
    let rest = split_slash s in if code c == b'/' then "" ∷ rest else in_first c rest

unfoldable pub join_slash : List String → String
join_slash [] = ""
join_slash (p ∷ []) = p
join_slash (p ∷ q ∷ ps) = String.◌++◌ p (String.◌++◌ "/" (join_slash (q ∷ ps)))

join_slash-in_first :
    (c : Char) (ps : List String) → join_slash (in_first c ps) ≡ String.◌∷◌ c (join_slash ps)
unfolding join_slash
join_slash-in_first c [] = refl
join_slash-in_first c (p ∷ []) = refl
join_slash-in_first c (p ∷ q ∷ ps) = append.cons c p _

in_first-ne-nil : (c : Char) (ps : List String) → in_first c ps ≢ []
in_first-ne-nil c [] = cc
in_first-ne-nil c (p ∷ ps) = cc

split_slash-ne-nil : (s : String) → split_slash s ≢ []
unfolding split_slash
split_slash-ne-nil String.[] = cc
split_slash-ne-nil (String.◌∷◌ c s) = ground (arith, in_first-ne-nil c (split_slash s))

join_slash-slash :
    (c : Char) (ps : List String)
    → code c ≡ b'/'
    → ps ≢ []
    → join_slash ("" ∷ ps) ≡ String.◌∷◌ c (join_slash ps)
unfolding join_slash
join_slash-slash c [] e h = absurd (h refl)
join_slash-slash c (p ∷ ps) e h =
    append.nil _
    ∙ append.cons "/" "" _
    ∙ ap (λ d. String.◌∷◌ d (String.◌++◌ "" (join_slash (p ∷ ps)))) (Char-path "/" c (sym e))
    ∙ ap (String.◌∷◌ c) (append.nil _)

-- Joining what was split gives the text back.
pub join_slash-split_slash : (s : String) → join_slash (split_slash s) ≡ s
unfolding split_slash
join_slash-split_slash String.[] = unfold join_slash in refl
join_slash-split_slash (String.◌∷◌ c s) = elim (Bool-cases (code c == b'/')) [
  | inl slash ↦
      rw (slash, split_slash)
        (join_slash-slash c (split_slash s) (ground arith) (split_slash-ne-nil s)
          ∙ ap (String.◌∷◌ c) (join_slash-split_slash s))
  | inr other ↦
      rw (other, split_slash)
        (join_slash-in_first c (split_slash s) ∙ ap (String.◌∷◌ c) (join_slash-split_slash s))
]
