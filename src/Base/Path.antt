-- ===== src/Base/Path.antt =====
-- What the program uses of Go's `path`: `IsAbs`, `Clean` and `Join` of two elements.
use Prim.Native.Char.{code}
use Prim.Native.String.{String, ◌++◌ as ◌<>◌}
use mathlib.Core.Path.{◌≡◌, refl}
use mathlib.Core.Bool.{Bool, true, false}
use mathlib.Core.List.{List, [], ◌∷◌, reverse}
use text.Mathlib.Text.{◌==◌, starts_with}
use portal_conductor.Base.Tests.{nat_eq, if◌then◌else◌}
use portal_conductor.Base.Lists.{join}

abbrev pub is_abs : String → Bool
is_abs p = starts_with p "/"

-- The elements between the slashes, from the one that is being read.
elements : String → String → List String
elements current String.[] = current ∷ []
elements current (String.◌∷◌ c s) =
    let next = elements "" s in
    let longer = elements (current <> String.◌∷◌ c String.[]) s in
    if nat_eq (code c) b'/' then current ∷ next else longer

-- `..` takes the last kept element off. In a rooted path it stops at the root; in another it
-- stays where nothing can be taken off. The kept elements are last first.
parent : Bool → List String → List String
parent true [] = []
parent false [] = ".." ∷ []
parent rooted (e ∷ kept) = if e == ".." then ".." ∷ e ∷ kept else kept

simplify : Bool → List String → List String → List String
simplify rooted kept [] = reverse kept
simplify rooted kept (e ∷ es) =
    simplify rooted
      (if e == ""
        then kept
        else if e == "."
        then kept
        else if e == ".."
        then parent rooted kept
        else e ∷ kept)
      es

abbrev rooted_text : Bool → List String → String
rooted_text true es = "/" <> join "/" es
rooted_text false [] = "."
rooted_text false (e ∷ es) = join "/" (e ∷ es)

-- `path.Clean`.
unfoldable pub clean : String → String
unfolding elements parent simplify
clean p = rooted_text (is_abs p) (simplify (is_abs p) [] (elements "" p))

-- `path.Join(a, b)`: empty elements are left out.
unfoldable pub join_path : String → String → String
unfolding clean
join_path a b =
    if a == ""
    then (if b == "" then "" else clean b)
    else if b == ""
    then clean a
    else clean (a <> "/" <> b)

join_path_tests :
    (join_path "/zone/home/ann" "svc/data" ≡ "/zone/home/ann/svc/data")
    × (join_path "/zone/home/ann" "./a//b/" ≡ "/zone/home/ann/a/b")
    × (join_path "/zone/home/ann" "../bob" ≡ "/zone/home/bob")
    × (join_path "/z" "../../.." ≡ "/")
    × (clean "a/../../b" ≡ "../b")
    × (clean "" ≡ ".")
unfolding join_path
join_path_tests = (refl, refl, refl, refl, refl, refl)
