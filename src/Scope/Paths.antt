-- ===== src/Scope/Paths.antt =====
-- `containingDirectory` and `collapsePaths` of apps/server/src/codify/scope.ts.
use army_of_god.Prelude.{
  Bool, ◌&&◌, ◌||◌, not, Option, none, some, List, [], ◌∷◌, ◌++◌, map, any, filter, elem, dedupe,
  ◌≡◌, refl, arith, nat_beq, ◌==◌, if◌then◌else◌,
}
use army_of_god.Text.{
  Text, codes, text_eq, slash, starts_with, trim, split_slash, join_slash, text_le,
}

abbrev pub dot : Text
dot = codes "."

abbrev pub excluded_path_segments : List Text
excluded_path_segments =
    codes ".ssh" ∷ codes ".aws" ∷ codes ".config" ∷ codes ".git" ∷ codes "node_modules" ∷ []

-- `.replace(/\\/g, "/")`
abbrev forward_slashes : Text → Text
forward_slashes s = map (λ c. if nat_beq c b'\\' then slash else c) s

-- `.replace(/^\.\//, "")`: one leading "./".
strip_dot_slash : Text → Text
strip_dot_slash (c ∷ d ∷ s) = if nat_beq c b'.' && nat_beq d slash then s else c ∷ d ∷ s
strip_dot_slash s = s

-- `.replace(/^\/+/, "")`
strip_slashes : Text → Text
strip_slashes [] = []
strip_slashes (c ∷ s) = let rest = strip_slashes s in if nat_beq c slash then rest else c ∷ s

normalised : Text → Text
unfolding strip_dot_slash strip_slashes
normalised s = trim (strip_slashes (strip_dot_slash (forward_slashes s)))

-- `.split("/").filter((segment) => segment && segment !== ".")`
unfoldable pub path_segments : Text → List Text
path_segments s = filter (λ seg. not (seg == [] || seg == dot)) (split_slash s)

-- `segments.pop()`
pub without_last : List Text → List Text
without_last [] = []
without_last (s ∷ []) = []
without_last (s ∷ t ∷ ss) = s ∷ without_last (t ∷ ss)

abbrev directory_of : List Text → Text
directory_of segments = elim segments [ [] ↦ dot | s ∷ ss ↦ join_slash (s ∷ ss) ]

-- `containingDirectory`; `none` is the code's `null`.
unfoldable pub containing_directory : Text → Option Text
unfolding normalised without_last
containing_directory relative =
    let s = normalised relative in
    let segments = path_segments s in
    if s == [] || starts_with (codes "../") s
    then none
    else if any (λ seg. elem seg excluded_path_segments) segments
    then none
    else some (directory_of (without_last segments))

-- `sort()` on strings.
pub insert_path : Text → List Text → List Text
insert_path p [] = p ∷ []
insert_path p (q ∷ qs) =
    let later = q ∷ insert_path p qs in if text_le p q then p ∷ q ∷ qs else later

unfoldable pub sort_paths : List Text → List Text
unfolding insert_path
sort_paths [] = []
sort_paths (p ∷ ps) = insert_path p (sort_paths ps)

elem-insert_path : (p q : Text) (qs : List Text) → elem p (insert_path q qs) ≡ (p == q || elem p qs)
unfolding insert_path
elem-insert_path p q [] = refl
elem-insert_path p q (r ∷ qs) = ground (arith, elem-insert_path p q qs)

-- Sorting keeps the elements.
pub elem-sort_paths : (p : Text) (qs : List Text) → elem p (sort_paths qs) ≡ elem p qs
unfolding sort_paths
elem-sort_paths p [] = refl
elem-sort_paths p (q ∷ qs) =
    rw (elem-insert_path p q (sort_paths qs)) (rw (elem-sort_paths p qs) refl)

-- `candidate.startsWith(other + "/")`
abbrev pub below : Text → Text → Bool
below other candidate = starts_with (other ++ slash ∷ []) candidate

abbrev pub covered_in : List Text → Text → Bool
covered_in paths candidate = any (λ other. not (other == candidate) && below other candidate) paths

collapse_sorted : List Text → List Text
collapse_sorted unique =
    if elem dot unique then dot ∷ [] else filter (λ p. not (covered_in unique p)) unique

unfoldable pub collapse_paths : List Text → List Text
unfolding collapse_sorted
collapse_paths paths = collapse_sorted (sort_paths (dedupe paths))
