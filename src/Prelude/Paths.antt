-- ===== src/Prelude/Paths.antt =====
-- Go's filepath.Clean, Join, Dir, Base and Rel, on the components between the slashes.
use Prim.Native.String.{String}
use Prim.Native.Char.{code}
use mathlib.Core.Path.{◌≡◌, refl, ap, ◌∙◌}
use mathlib.Core.Logic.{inl, inr}
use text.Mathlib.TextLemmas.{cons-append}
use mathlib.Core.Bool.{Bool, true, false, ◌||◌, not}
use mathlib.Core.Option.{Option, none, some}
use mathlib.Core.List.{List, [], ◌∷◌}
use text.Mathlib.Text.{◌==◌ as str_eq, starts_with}
use opencode_advance.Prelude.Tests.{◌==◌, if◌then◌else◌, Bool-cases}
use opencode_advance.Prelude.Lists.{is_empty}
use opencode_advance.Prelude.Text.{◌<>◌, is_blank, is_blank-cons}
use opencode_advance.Prelude.Split.{put_first}

-- The components of a path, between slashes.
unfoldable pub split_path : String → List String
split_path String.[] = String.[] ∷ []
split_path (String.◌∷◌ c s) =
    let pieces = split_path s in if code c == 47 then String.[] ∷ pieces else put_first c pieces

abbrev is_rooted : String → Bool
is_rooted path = starts_with path "/"

-- The components kept, last first.
clean_parts : Bool → List String → List String → List String
clean_parts rooted kept [] = kept
clean_parts rooted kept (part ∷ parts) =
    clean_parts rooted
      (if is_blank part || str_eq part "."
        then kept
        else if str_eq part ".."
        then up kept
        else part ∷ kept)
      parts
  where
    up : List String → List String
    up [] = if rooted then [] else ".." ∷ []
    up (last ∷ before) = if str_eq last ".." then ".." ∷ last ∷ before else before

join_back : List String → String → String
join_back [] path = path
join_back (part ∷ before) path = join_back before (part <> ("/" <> path))

abbrev join_parts : List String → String
join_parts [] = ""
join_parts (last ∷ before) = join_back before last

-- filepath.Clean
unfoldable pub clean_path : String → String
unfolding split_path clean_parts join_back
clean_path path =
    let rooted = is_rooted path in
    let cleaned = join_parts (clean_parts rooted [] (split_path path)) in
    if rooted then "/" <> cleaned else if is_blank cleaned then "." else cleaned

is_blank-cleaned :
    (b : Bool) (x : String)
    → is_blank (if b then "/" <> x else if is_blank x then "." else x) ≡ false
is_blank-cleaned true x = ap is_blank (cons-append "/" "" x) ∙ is_blank-cons "/" ("" <> x)
is_blank-cleaned false x = elim (Bool-cases (is_blank x)) [ inl e ↦ rw e | inr e ↦ rw e e ]

pub is_blank-clean_path : (p : String) → is_blank (clean_path p) ≡ false
unfolding clean_path
is_blank-clean_path p =
    is_blank-cleaned (is_rooted p) (join_parts (clean_parts (is_rooted p) [] (split_path p)))

slashed : List String → String
slashed [] = ""
slashed (part ∷ parts) =
    let rest = slashed parts in if is_empty parts then part else part <> ("/" <> rest)

-- filepath.Join
unfoldable pub join_path : List String → String
unfolding slashed
join_path [] = ""
join_path (part ∷ parts) =
    let rest = join_path parts in
    if is_blank part then rest else clean_path (slashed (part ∷ parts))

-- All components but the last.
but_last : List String → List String
but_last [] = []
but_last (part ∷ parts) = let rest = but_last parts in if is_empty parts then [] else part ∷ rest

-- filepath.Dir
unfoldable pub dir_path : String → String
unfolding split_path but_last slashed
dir_path path =
    let parts = but_last (split_path path) in
    if is_empty parts then "." else clean_path (slashed parts <> "/")

last_filled : String → List String → String
last_filled found [] = found
last_filled found (part ∷ parts) = last_filled (if is_blank part then found else part) parts

-- filepath.Base
unfoldable pub base_path : String → String
unfolding split_path last_filled
base_path path = if is_blank path then "." else last_filled "/" (split_path path)

-- The components that Rel compares, of a cleaned path.
rel_parts : String → List String
rel_parts path = if str_eq path "/" then "" ∷ [] else split_path path

climb : List String → List String → List String
climb [] targ = targ
climb (part ∷ base) targ = ".." ∷ climb base targ

rel_from : List String → List String → Option (List String)
rel_from [] targ = some targ
rel_from (part ∷ base) [] = some (".." ∷ climb base [])
rel_from (part ∷ base) (step ∷ targ) =
    let rest = rel_from base targ in
    if str_eq part step
    then rest
    else if str_eq part ".."
    then none
    else some (".." ∷ climb base (step ∷ targ))

-- filepath.Rel: `none` is the error.
unfoldable pub rel_path : String → String → Option String
unfolding split_path rel_parts rel_from climb slashed
rel_path base_name targ_name =
    let base = clean_path base_name in
    let targ = clean_path targ_name in
    let base' = if str_eq base "." then "" else base in
    if str_eq targ base
    then some "."
    else if not (same (is_rooted base') (is_rooted targ))
    then none
    else shown (rel_from (if is_blank base' then [] else rel_parts base') (rel_parts targ))
  where
    same : Bool → Bool → Bool
    same true b = b
    same false b = not b

    shown : Option (List String) → Option String
    shown none = none
    shown (some parts) = some (slashed parts)

path_runs :
    (clean_path "/a//b/../c/." ≡ "/a/c")
    × (clean_path "../../x" ≡ "../../x")
    × (clean_path "a/.." ≡ ".")
    × (join_path ("" ∷ "a" ∷ "../b" ∷ []) ≡ "b")
unfolding clean_path join_path
path_runs = (refl, refl, refl, refl)

rel_runs :
    (rel_path "/a/b" "/a/b/dist/index.js" ≡ some "dist/index.js")
    × (rel_path "/a/b/c" "/a/d" ≡ some "../../d")
    × (rel_path "/a" "a" ≡ none)
    × (dir_path "/a/dist/index.js" ≡ "/a/dist")
    × (base_path "/a/dist/" ≡ "dist")
unfolding rel_path dir_path base_path clean_path
rel_runs = (refl, refl, refl, refl, refl)
