-- ===== src/Paths.antt =====
-- security/safe_path.py on POSIX, and `LocalStorageBackend._resolve` of storage/local.py on a tree
-- without symbolic links. A path from outside is its code points; a working directory is an absolute
-- path. An absolute path has its parts and, where it begins with exactly two slashes, the mark that
-- POSIX keeps.
pub mod Normal
pub mod Resolved
pub mod Storage
mod Tests
use vela_flow_public.Prelude.{
  ℕ, Bool, true, false, not, ◌&&◌, ◌||◌, Option, none, some, List, [], ◌∷◌, ◌++◌, map, keep, any,
  ◌==◌, if◌then◌else◌,
}
use vela_flow_public.Prelude.Text.{same_text, is_prefix, strip}

abbrev pub Part : Type 0
Part = List ℕ

pub record AbsolutePath : Type 0 where
  pub is_double : Bool
  pub parts : List Part

-- `text.split("/")`
abbrev pub push : ℕ → List Part → List Part
push c [] = (c ∷ []) ∷ []
push c (p ∷ ps) = (c ∷ p) ∷ ps

unfoldable pub split_slash : List ℕ → List Part
split_slash [] = [] ∷ []
split_slash (c ∷ cs) = let rest = split_slash cs in if c == 47 then [] ∷ rest else push c rest

-- not `""` and not `"."`
abbrev pub is_named : Part → Bool
is_named p = not (same_text p []) && not (same_text p (46 ∷ []))

abbrev pub is_up : Part → Bool
is_up p = same_text p (46 ∷ 46 ∷ [])

unfoldable pub components : List ℕ → List Part
components text = keep is_named (split_slash text)

unfoldable pub drop_last : List Part → List Part
drop_last [] = []
drop_last (p ∷ []) = []
drop_last (p ∷ q ∷ ps) = p ∷ drop_last (q ∷ ps)

-- the loop of `os.path.normpath` for an absolute path
unfoldable pub collapse : List Part → List Part → List Part
collapse done [] = done
collapse done (p ∷ ps) =
    let above = collapse (drop_last done) ps in
    let below = collapse (done ++ p ∷ []) ps in if is_up p then above else below

abbrev pub is_absolute : List ℕ → Bool
is_absolute [] = false
is_absolute (c ∷ cs) = c == 47

-- exactly two slashes
abbrev pub has_two_slashes : List ℕ → Bool
has_two_slashes (c ∷ d ∷ cs) = c == 47 && d == 47 && not (is_absolute cs)
has_two_slashes text = false

-- `_normalize(Path(text))`
unfoldable pub normalize : AbsolutePath → List ℕ → AbsolutePath
normalize cwd text = record {
  is_double = if is_absolute text then has_two_slashes text else cwd.is_double;
  parts = collapse [] (if is_absolute text then components text else cwd.parts ++ components text);
}

unfoldable pub is_below : List Part → List Part → Bool
is_below [] ps = true
is_below (b ∷ bs) [] = false
is_below (b ∷ bs) (p ∷ ps) = let rest = is_below bs ps in if same_text b p then rest else false

abbrev pub same_root : AbsolutePath → AbsolutePath → Bool
same_root p q = if p.is_double then q.is_double else not q.is_double

-- `_assert_within`
abbrev pub assert_within : AbsolutePath → AbsolutePath → Bool
assert_within candidate base = same_root base candidate && is_below base.parts candidate.parts

abbrev pub is_empty {ℓ} : {A : Type ℓ} → List A → Bool
is_empty [] = true
is_empty (a ∷ rest) = false

-- `UnsafePathError` with its reason, or the path
pub data Resolution : Type 0 where
  empty_path no_bases escapes missing : Resolution
  resolved : AbsolutePath → Resolution

-- what exists is a parameter; the creation of parents, after the checks, is left out
unfoldable pub safe_resolve :
    (AbsolutePath → Bool) → AbsolutePath → Option (List ℕ) → List (List ℕ) → Bool → Resolution
safe_resolve exists cwd none bases must_exist = empty_path
safe_resolve exists cwd (some text) bases must_exist =
    let candidate = normalize cwd text in
    if is_empty (strip text)
    then empty_path
    else if is_empty bases
    then no_bases
    else if not (any (assert_within candidate) (map (normalize cwd) bases))
    then escapes
    else if must_exist && not (exists candidate)
    then missing
    else resolved candidate

-- `str(path)`
unfoldable pub print_parts : List Part → List ℕ
print_parts [] = []
print_parts (p ∷ []) = p
print_parts (p ∷ q ∷ ps) = p ++ 47 ∷ print_parts (q ∷ ps)

unfoldable pub print : AbsolutePath → List ℕ
print p = 47 ∷ ((if p.is_double then 47 ∷ [] else []) ++ print_parts p.parts)

-- `key.replace("\\", "/")`
abbrev pub with_slashes : List ℕ → List ℕ
with_slashes key = map (λ c. if c == 92 then 47 else c) key

-- a path with one slash at its front
abbrev pub at : List Part → AbsolutePath
at parts = record { is_double = false; parts = parts }

-- `LocalStorageBackend._resolve` under the parts of its base directory; `resolve` leaves one slash at
-- the front; `none` is the `ValueError`
unfoldable pub resolve_key : List Part → List ℕ → Option (List Part)
resolve_key base key =
    let clean = with_slashes key in
    let found = (normalize (at base) clean).parts in
    if any is_up (components clean)
    then none
    else if not (is_prefix (print (at base)) (print (at found)))
    then none
    else some found
