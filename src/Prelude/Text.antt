-- ===== src/Prelude/Text.antt =====
-- Texts as lists of code points: Python's `in`, the order of `str`, and a `lower` for comparison
-- with ASCII texts.
use Prim.Native.Nat.{ℕ, ◌+◌}
use Prim.Native.Char.{code}
use Prim.Native.String.{String}
use mathlib.Core.Path.{◌≡◌, refl}
use mathlib.Core.Bool.{Bool, true, false, ◌&&◌, ◌||◌}
use mathlib.Core.List.{List, [], ◌∷◌, ◌++◌}
use native.Mathlib.Omega.{arith}
use vela_flow_public.Prelude.Tests.{ltb, leb, ◌==◌, if◌then◌else◌}

abbrev pub codes : String → List ℕ
codes String.[] = []
codes (String.◌∷◌ c s) = code c ∷ codes s

-- `str.lower` of a character, as far as an ASCII text can tell: A to Z, and the two other characters,
-- İ and the sign for kelvin, whose lower case has a letter of ASCII; the rest is left alone.
unfoldable pub lower_code : ℕ → List ℕ
lower_code c =
    if leb 65 c && leb c 90
    then ((c + 32) ∷ [])
    else if c == 304
    then (105 ∷ 775 ∷ [])
    else if c == 8490
    then (107 ∷ [])
    else (c ∷ [])

unfoldable pub lower : List ℕ → List ℕ
unfolding lower_code
lower [] = []
lower (c ∷ s) = lower_code c ++ lower s

unfoldable pub is_prefix : List ℕ → List ℕ → Bool
is_prefix [] s = true
is_prefix (c ∷ p) [] = false
is_prefix (c ∷ p) (d ∷ s) = if c == d then is_prefix p s else false

-- `s == t`
abbrev pub same_text : List ℕ → List ℕ → Bool
same_text [] [] = true
same_text [] (d ∷ t) = false
same_text (c ∷ s) [] = false
same_text (c ∷ s) (d ∷ t) = if c == d then same_text s t else false

-- `s.endswith(p)`
unfoldable pub is_suffix : List ℕ → List ℕ → Bool
is_suffix p [] = same_text p []
is_suffix p (d ∷ s) = let rest = is_suffix p s in if same_text p (d ∷ s) then true else rest

-- `str.isspace` and `\s`
unfoldable pub is_space : ℕ → Bool
is_space c =
    (leb 9 c && leb c 13)
    || (leb 28 c && leb c 32)
    || c == 133
    || c == 160
    || c == 5760
    || (leb 8192 c && leb c 8202)
    || c == 8232
    || c == 8233
    || c == 8239
    || c == 8287
    || c == 12288

unfoldable pub strip_left : List ℕ → List ℕ
unfolding is_space
strip_left [] = []
strip_left (c ∷ s) = if is_space c then strip_left s else c ∷ s

unfoldable pub strip_right : List ℕ → List ℕ
unfolding is_space
strip_right [] = []
strip_right (c ∷ s) = elim (strip_right s) [
  | [] ↦ if is_space c then [] else c ∷ []
  | d ∷ rest ↦ c ∷ d ∷ rest
]

-- `str.strip`
unfoldable pub strip : List ℕ → List ℕ
unfolding strip_left strip_right
strip s = strip_left (strip_right s)

-- `p in s`
unfoldable pub is_infix : List ℕ → List ℕ → Bool
unfolding is_prefix
is_infix p [] = is_prefix p []
is_infix p (d ∷ s) = if is_prefix p (d ∷ s) then true else is_infix p s

-- `s <= t`
unfoldable pub lex_le : List ℕ → List ℕ → Bool
lex_le [] t = true
lex_le (c ∷ s) [] = false
lex_le (c ∷ s) (d ∷ t) = if ltb c d then true else if c == d then lex_le s t else false

pub lex_le-total : (s t : List ℕ) → lex_le s t ≡ false → lex_le t s ≡ true
unfolding lex_le
lex_le-total [] t h = cc
lex_le-total (c ∷ s) [] h = refl
lex_le-total (c ∷ s) (d ∷ t) h = ground (arith, lex_le-total s t)

pub lex_le_trans : (s t u : List ℕ) → lex_le s t ≡ true → lex_le t u ≡ true → lex_le s u ≡ true
unfolding lex_le
lex_le_trans [] t u h k = refl
lex_le_trans (c ∷ s) [] u h k = cc
lex_le_trans (c ∷ s) (d ∷ t) [] h k = cc
lex_le_trans (c ∷ s) (d ∷ t) (e ∷ u) h k = ground (arith, lex_le_trans s t u)
