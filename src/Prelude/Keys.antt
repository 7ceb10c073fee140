-- ===== src/Prelude/Keys.antt =====
-- Membership of texts in lists: Python's `in` on a list or a set of `str`.
use Prim.Native.String.{String}
use mathlib.Core.Path.{◌≡◌, refl}
use mathlib.Core.Bool.{Bool, false, ◌||◌}
use mathlib.Core.List.{List, [], ◌∷◌, ◌++◌}
use native.Mathlib.Omega.{arith}
use text.Mathlib.Text.{◌==◌ as str_eq}
use text.Mathlib.TextEquality.{eq_iff}
use vela_flow_public.Prelude.Lists.{any}

-- k in ks
abbrev pub has : String → List String → Bool
has k ks = any (λ j. str_eq j k) ks

abbrev pub IsDistinct : List String → Type 0
IsDistinct [] = Unit
IsDistinct (k ∷ ks) = (has k ks ≡ false) × IsDistinct ks

pub has-append : (k j : String) (ks : List String) → has k (ks ++ j ∷ []) ≡ (has k ks || str_eq j k)
has-append k j [] = ground arith
has-append k j (i ∷ ks) = ground (arith, has-append k j ks)

pub append-IsDistinct :
    (j : String) (ks : List String) → has j ks ≡ false → IsDistinct ks → IsDistinct (ks ++ j ∷ [])
append-IsDistinct j [] h d = (refl, tt)
append-IsDistinct j (k ∷ ks) h d =
    ground (arith, append-IsDistinct j ks, has-append k j ks, eq_iff k j, eq_iff j k, d.1)
