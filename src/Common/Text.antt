-- ===== src/Common/Text.antt =====
-- What the code uses of Go's packages strings and net/textproto, over native strings.
use Prim.Native.Nat.{ℕ, ◌+◌, ◌-◌, ◌<◌, compare, Ordering}
use Prim.Native.Char.{Char, char, code, IsScalar}
use Prim.Native.String.{String, [], ◌∷◌}
use mathlib.Core.Path.{◌≡◌}
use mathlib.Core.Bool.{Bool, true, false, ◌&&◌, ◌||◌}
use mathlib.Core.Logic.{dite}
use mathlib.Core.Option.{Option, none, some}
use native.Mathlib.Decide.{dec_lt}
use native.Mathlib.Omega.{arith}
use grpc_datacon.Common.Tests.{leb, ◌==◌, nat_eq, string_eq, if◌then◌else◌}

below_128_IsScalar : (n : ℕ) → n < 128 → IsScalar n
below_128_IsScalar n h = let e : compare n 55296 ≡ Ordering.lt = ground arith in rw e tt

ascii : (n : ℕ) → Char → Char
unfolding below_128_IsScalar
ascii n c = dite (dec_lt n 128) (λ h. char n (below_128_IsScalar n h)) (λ _. c)

is_upper : ℕ → Bool
is_upper n = leb b'A' n && leb n b'Z'

is_lower : ℕ → Bool
is_lower n = leb b'a' n && leb n b'z'

is_digit : ℕ → Bool
is_digit n = leb b'0' n && leb n b'9'

-- `validHeaderFieldByte` of net/textproto: the characters of an HTTP token.
is_token_char : ℕ → Bool
unfolding is_upper is_lower is_digit
is_token_char n =
    is_upper n
    || is_lower n
    || is_digit n
    || n == b'!'
    || n == b'#'
    || n == b'$'
    || n == b'%'
    || n == b'&'
    || n == 39
    || n == b'*'
    || n == b'+'
    || n == b'-'
    || n == b'.'
    || n == b'^'
    || n == b'_'
    || n == 96
    || n == b'|'
    || n == b'~'

is_token : String → Bool
unfolding is_token_char
is_token [] = true
is_token (c ∷ s) = is_token_char (code c) && is_token s

-- One round of the loop: the first letter of a word is made upper case, the others lower.
recase : Bool → Char → Char
unfolding ascii is_upper is_lower dec_lt
recase first c =
    if first
    then (if is_lower (code c) then ascii (code c - 32) c else c)
    else (if is_upper (code c) then ascii (code c + 32) c else c)

recase_words : Bool → String → String
unfolding recase
recase_words first [] = []
recase_words first (c ∷ s) = recase first c ∷ recase_words (code c == b'-') s

-- `textproto.CanonicalMIMEHeaderKey`.
unfoldable pub canonical_header_key : String → String
unfolding is_token recase_words
canonical_header_key s = if is_token s then recase_words true s else s

-- The letters of ASCII without their case. Two other characters fold with a letter: the long s and
-- the Kelvin sign.
fold_case : ℕ → ℕ
unfolding is_upper
fold_case n =
    if is_upper n then n + 32 else if n == 0x17f then b's' else if n == 0x212a then b'k' else n

-- `strings.EqualFold`, exact where one of the two texts is ASCII.
unfoldable pub equal_fold : String → String → Bool
unfolding fold_case
equal_fold [] [] = true
equal_fold [] (d ∷ t) = false
equal_fold (c ∷ s) [] = false
equal_fold (c ∷ s) (d ∷ t) = fold_case (code c) == fold_case (code d) && equal_fold s t

-- `unicode.IsSpace`.
is_space : ℕ → Bool
is_space n =
    leb 9 n && leb n 13
    || n == 32
    || n == 0x85
    || n == 0xa0
    || n == 0x1680
    || leb 0x2000 n && leb n 0x200a
    || n == 0x2028
    || n == 0x2029
    || n == 0x202f
    || n == 0x205f
    || n == 0x3000

unfoldable pub trim_left : String → String
unfolding is_space
trim_left [] = []
trim_left (c ∷ s) = let rest = trim_left s in if is_space (code c) then rest else c ∷ s

unfoldable pub trim_right : String → String
unfolding is_space
trim_right [] = []
trim_right (c ∷ s) =
    let rest = trim_right s in if is_space (code c) && rest == "" then [] else c ∷ rest

-- `strings.TrimSpace`.
unfoldable pub trim_space : String → String
unfolding trim_left trim_right
trim_space s = trim_right (trim_left s)

-- `strings.TrimSuffix(s, "/")`.
unfoldable pub trim_suffix_slash : String → String
trim_suffix_slash [] = []
trim_suffix_slash (c ∷ s) =
    let rest = trim_suffix_slash s in if code c == b'/' && s == "" then [] else c ∷ rest

-- Before and after the first character of this code: `strings.Cut`, and `strings.SplitN(s, sep, 2)`
-- where it finds two parts.
unfoldable pub cut : ℕ → String → Option (String × String)
cut n [] = none
cut n (c ∷ s) =
    let rest = cut n s in
    if code c == n then some ("", s) else elim rest [ none ↦ none | some p ↦ some (c ∷ p.0, p.1) ]

-- ASCII letters in lower case.
unfoldable pub ascii_lower : String → String
unfolding recase
ascii_lower [] = []
ascii_lower (c ∷ s) = recase false c ∷ ascii_lower s

-- `strings.ReplaceAll(s, "\n\r", "")`.
unfoldable pub drop_lf_cr : String → String
drop_lf_cr [] = []
drop_lf_cr (c ∷ []) = c ∷ []
drop_lf_cr (c ∷ d ∷ s) =
    let skipped = drop_lf_cr s in
    let kept = drop_lf_cr (d ∷ s) in if code c == 10 && code d == 13 then skipped else c ∷ kept
