-- ===== src/Storage/Paths.antt =====
-- strings.Split, and Clean, Join and Dir of path/filepath on Unix: what getFullPath of
-- storage/filesystem.go uses, and getFullPath itself.
use go_certs_manager.Base.{
  Bool, List, Option, Text, [], any, codes, false, has_prefix, if◌then◌else◌, none, not, some,
  text_eq, trim_prefix, ℕ, ◌++◌, ◌==◌, ◌||◌, ◌∷◌,
}
use go_certs_manager.Dane.Soak.{kept}

abbrev pub slash : ℕ
slash = b'/'

abbrev pub dot : Text
dot = codes "."

abbrev pub dot_dot : Text
dot_dot = codes ".."

abbrev pub add_to_first : ℕ → List Text → List Text
add_to_first c [] = (c ∷ []) ∷ []
add_to_first c (s ∷ ss) = (c ∷ s) ∷ ss

-- strings.Split(s, "/")
unfoldable pub split : Text → List Text
split [] = [] ∷ []
split (c ∷ s) = if c == slash then [] ∷ split s else add_to_first c (split s)

-- strings.Join(parts, "/")
unfoldable pub join : List Text → Text
join [] = []
join (p ∷ []) = p
join (p ∷ q ∷ ps) = p ++ (slash ∷ join (q ∷ ps))

unfoldable pub is_rooted : Text → Bool
is_rooted [] = false
is_rooted (c ∷ s) = c == slash

-- One path element, over the elements kept so far, the last one first: an empty one and "." go,
-- ".." takes the last one back, or stays at the start of a relative path.
unfoldable pub back_up : Bool → List Text → List Text
back_up rooted [] = if rooted then [] else dot_dot ∷ []
back_up rooted (p ∷ ps) = if text_eq p dot_dot then dot_dot ∷ p ∷ ps else ps

-- An element that Clean keeps as it is.
unfoldable pub is_proper : Text → Bool
is_proper p = not (text_eq p [] || text_eq p dot)

unfoldable pub clean_from : Bool → List Text → List Text → List Text
unfolding back_up is_proper
clean_from rooted kept [] = kept
clean_from rooted kept (p ∷ ps) =
    clean_from rooted
      (if is_proper p then (if text_eq p dot_dot then back_up rooted kept else p ∷ kept) else kept)
      ps

unfoldable pub reversed : List Text → List Text → List Text
reversed [] out = out
reversed (p ∷ ps) out = reversed ps (p ∷ out)

unfoldable pub or_dot : Text → Text
or_dot [] = dot
or_dot (c ∷ s) = c ∷ s

-- filepath.Clean
unfoldable pub clean : Text → Text
unfolding is_rooted split clean_from reversed join or_dot
clean path =
    let body = join (reversed (clean_from (is_rooted path) [] (split path)) []) in
    or_dot (if is_rooted path then slash ∷ body else body)

-- filepath.Join of two elements, which ignores an empty one.
unfoldable pub join_two : Text → Text → Text
unfolding clean
join_two [] [] = []
join_two [] (c ∷ s) = clean (c ∷ s)
join_two (c ∷ s) t = clean ((c ∷ s) ++ (slash ∷ t))

-- getFullPath
unfoldable pub get_full_path : Text → Text → Option Text
unfolding split clean join_two has_prefix trim_prefix
get_full_path base_path key =
    let full_path = join_two base_path (trim_prefix (clean key) (slash ∷ [])) in
    if any (λ seg. text_eq seg dot_dot) (split key)
    then none
    else (if has_prefix full_path (base_path ++ slash ∷ []) || text_eq full_path base_path
        then some full_path
        else none)
