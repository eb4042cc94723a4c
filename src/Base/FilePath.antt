-- ===== src/Base/FilePath.antt =====
-- Package path, and package filepath where the separator is `/`: Clean, Join and Base.
pub mod Laws
use mathlib.Core.List.{List, [], ◌∷◌, ◌++◌, reverse}
use mathlib.Core.Bool.{Bool, true, false, ◌||◌}
use ssheasy.Base.Tests.{◌==◌, if◌then◌else◌}
use ssheasy.Base.Text.{Bytes, codes, bytes_eq, split}

abbrev pub dot : Bytes
dot = b'.' ∷ []

abbrev pub dot_dot : Bytes
dot_dot = b'.' ∷ b'.' ∷ []

-- The elements of a cleaned path, the last one first; `..` above a root is dropped.
unfoldable pub pop_or_push : Bool → List Bytes → List Bytes
pop_or_push true [] = []
pop_or_push false [] = dot_dot ∷ []
pop_or_push rooted (e ∷ es) = if bytes_eq e dot_dot then dot_dot ∷ e ∷ es else es

unfoldable pub step : Bool → List Bytes → Bytes → List Bytes
step rooted stack e =
    if bytes_eq e [] || bytes_eq e dot
    then stack
    else if bytes_eq e dot_dot
    then pop_or_push rooted stack
    else e ∷ stack

unfoldable pub steps : Bool → List Bytes → List Bytes → List Bytes
steps rooted stack [] = stack
steps rooted stack (e ∷ es) = steps rooted (step rooted stack e) es

unfoldable pub join_elements : List Bytes → Bytes
join_elements [] = []
join_elements (e ∷ []) = e
join_elements (e ∷ f ∷ es) = e ++ b'/' ∷ join_elements (f ∷ es)

abbrev pub is_rooted : Bytes → Bool
is_rooted [] = false
is_rooted (c ∷ s) = c == b'/'

-- The elements of Clean(p), in order.
unfoldable pub elements : Bytes → List Bytes
elements p = reverse (steps (is_rooted p) [] (split b'/' p))

abbrev or_dot : Bytes → Bytes
or_dot [] = dot
or_dot (c ∷ s) = c ∷ s

-- path.Clean
unfoldable pub clean : Bytes → Bytes
clean p =
    if is_rooted p then b'/' ∷ join_elements (elements p) else or_dot (join_elements (elements p))

-- filepath.Join of two elements; empty ones are ignored.
unfoldable pub join_path : Bytes → Bytes → Bytes
join_path a b =
    if bytes_eq a []
    then (if bytes_eq b [] then [] else clean b)
    else if bytes_eq b []
    then clean a
    else clean (a ++ b'/' ∷ b)

-- Base: the last element, without trailing slashes.
drop_slashes : Bytes → Bytes
drop_slashes [] = []
drop_slashes (c ∷ s) = if c == b'/' then drop_slashes s else c ∷ s

until_slash : Bytes → Bytes
until_slash [] = []
until_slash (c ∷ s) = if c == b'/' then [] else c ∷ until_slash s

unfoldable pub base : Bytes → Bytes
unfolding drop_slashes until_slash
base p =
    let tail = until_slash (drop_slashes (reverse p)) in
    if bytes_eq p [] then dot else if bytes_eq tail [] then b'/' ∷ [] else reverse tail
