-- ===== src/Go/Path.antt =====
-- `path/filepath` on Unix: `Clean`, `Join` and `Base`, over byte lists.
use podman_bootc.Base.{
  Bool, false, ◌&&◌, ◌≡◌, refl, List, [], ◌∷◌, ◌++◌, Text, lit, text_eq, is_empty, ◌==◌,
  if◌then◌else◌,
}
use mathlib.Core.List.{reverse}

-- The parts of a text between its slashes.
pub split_slash : Text → List Text
split_slash [] = [] ∷ []
split_slash (c ∷ s) = elim (split_slash s) [
  | [] ↦ [] ∷ []
  | part ∷ parts ↦ if c == b'/' then [] ∷ part ∷ parts else (c ∷ part) ∷ parts
]

-- `strings.Join(parts, "/")`.
pub join_slash : List Text → Text
join_slash [] = []
join_slash (part ∷ []) = part
join_slash (part ∷ next ∷ rest) = part ++ (b'/' ∷ join_slash (next ∷ rest))

abbrev dot : Text
dot = b'.' ∷ []

abbrev dots : Text
dots = b'.' ∷ b'.' ∷ []

-- One part of a path, onto the parts before it, last one first. `..` takes a part away, stays at the
-- front of a relative path, and is dropped at the root.
abbrev push_part : Bool → List Text → Text → List Text
push_part rooted [] part =
    if is_empty part
    then []
    else if text_eq part dot
    then []
    else if text_eq part dots && rooted
    then []
    else part ∷ []
push_part rooted (top ∷ out) part =
    if is_empty part
    then top ∷ out
    else if text_eq part dot
    then top ∷ out
    else if text_eq part dots
    then (if text_eq top dots then dots ∷ top ∷ out else out)
    else part ∷ top ∷ out

pub clean_parts : Bool → List Text → List Text → List Text
clean_parts rooted out [] = reverse out
clean_parts rooted out (part ∷ parts) = clean_parts rooted (push_part rooted out part) parts

abbrev is_rooted : Text → Bool
is_rooted [] = false
is_rooted (c ∷ s) = c == b'/'

abbrev or_dot : Text → Text
or_dot [] = dot
or_dot (c ∷ s) = c ∷ s

-- `filepath.Clean`.
pub clean : Text → Text
clean s =
    let body = join_slash (clean_parts (is_rooted s) [] (split_slash s)) in
    if is_rooted s then b'/' ∷ body else or_dot body

-- `filepath.Join`: empty elements are skipped, and nothing but those gives the empty text.
pub drop_empty : List Text → List Text
drop_empty [] = []
drop_empty (e ∷ es) = if is_empty e then drop_empty es else e ∷ drop_empty es

abbrev join_elements : List Text → Text
join_elements [] = []
join_elements (e ∷ es) = clean (join_slash (e ∷ es))

unfoldable pub join : List Text → Text
unfolding split_slash join_slash text_eq clean_parts clean drop_empty
join elements = join_elements (drop_empty elements)

-- `filepath.Base`: trailing slashes go, then all up to the last slash.
abbrev strip_front : Text → Text
strip_front [] = []
strip_front (c ∷ s) = if c == b'/' then strip_front s else c ∷ s

abbrev up_to_slash : Text → Text
up_to_slash [] = []
up_to_slash (c ∷ s) = if c == b'/' then [] else c ∷ up_to_slash s

abbrev or_slash : Text → Text
or_slash [] = b'/' ∷ []
or_slash (c ∷ s) = c ∷ s

unfoldable pub base : Text → Text
base [] = dot
base (c ∷ s) = or_slash (reverse (up_to_slash (strip_front (reverse (c ∷ s)))))

join_test :
    join (lit "/home/u" ∷ lit ".cache" ∷ [] ∷ lit "podman-bootc" ∷ [])
    ≡ lit "/home/u/.cache/podman-bootc"
unfolding join lit
join_test = refl

clean_test : join (lit "/a/../../b/./c//" ∷ []) ≡ lit "/b/c"
unfolding join lit
clean_test = refl

base_test : base (lit "/home/u/abc/") ≡ lit "abc"
unfolding base lit
base_test = refl
