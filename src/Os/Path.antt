-- ===== src/Os/Path.antt =====
-- path/filepath on Unix: lexical operations on texts.
pub mod Elements
use mathlib.Core.List.{reverse}
use lan_commander.Base.{
  ℕ, Bool, true, false, ◌&&◌, ◌||◌, List, [], ◌∷◌, ◌++◌, if◌then◌else◌, ◌==◌, nat_eq, list_eq,
}
use lan_commander.Base.Text.{Text, codes, is_empty, split}

abbrev pub slash : ℕ
slash = b'/'

abbrev pub is_slash : ℕ → Bool
is_slash c = c == slash

abbrev pub dot : Text
dot = b'.' ∷ []

abbrev pub dotdot : Text
dotdot = b'.' ∷ b'.' ∷ []

-- filepath.IsAbs
abbrev pub is_abs : Text → Bool
is_abs [] = false
is_abs (c ∷ s) = is_slash c

-- The elements with a slash between each two.
abbrev pub join_slash : List Text → Text
join_slash [] = []
join_slash (x ∷ []) = x
join_slash (x ∷ y ∷ r) = x ++ slash ∷ join_slash (y ∷ r)

-- ".." takes the last element away; at the root there is none.
unfoldable pub back : Bool → List Text → List Text
back true [] = []
back false [] = dotdot ∷ []
back rooted (e ∷ stack) = if e == dotdot then dotdot ∷ e ∷ stack else stack

-- One element of the path; the result so far has its last element first.
unfoldable pub clean_step : Bool → List Text → Text → List Text
unfolding back
clean_step rooted stack e =
    if is_empty e || e == dot then stack else if e == dotdot then back rooted stack else e ∷ stack

unfoldable pub clean_elements : Bool → List Text → List Text → List Text
unfolding clean_step
clean_elements rooted stack [] = stack
clean_elements rooted stack (e ∷ es) = clean_elements rooted (clean_step rooted stack e) es

abbrev pub or_dot : Text → Text
or_dot [] = dot
or_dot (c ∷ s) = c ∷ s

-- filepath.Clean
unfoldable pub clean : Text → Text
unfolding clean_elements split
clean s =
    let body = join_slash (reverse (clean_elements (is_abs s) [] (split is_slash s))) in
    if is_abs s then slash ∷ body else or_dot body

-- filepath.Join of two elements.
unfoldable pub join : Text → Text → Text
unfolding clean
join [] [] = []
join [] (d ∷ t) = clean (d ∷ t)
join (c ∷ s) [] = clean (c ∷ s)
join (c ∷ s) (d ∷ t) = clean ((c ∷ s) ++ slash ∷ d ∷ t)

-- What stands up to the last slash, that included.
unfoldable pub up_to_slash : Text → Text
up_to_slash [] = []
up_to_slash (c ∷ s) =
    let rest = up_to_slash s in
    if is_empty rest then (if is_slash c then c ∷ [] else []) else c ∷ rest

-- filepath.Dir
unfoldable pub dir : Text → Text
unfolding up_to_slash clean
dir s = clean (up_to_slash s)

abbrev last_piece : Text → List Text → Text
last_piece x [] = x
last_piece x (y ∷ r) = last_piece y r

abbrev after_slash : List Text → Text
after_slash [] = []
after_slash (x ∷ r) = last_piece x r

unfoldable pub strip_slashes : Text → Text
strip_slashes [] = []
strip_slashes (c ∷ s) =
    let rest = strip_slashes s in if is_slash c && is_empty rest then [] else c ∷ rest

abbrev or_slash : Text → Text
or_slash [] = slash ∷ []
or_slash (c ∷ s) = c ∷ s

-- filepath.Base
unfoldable pub base : Text → Text
unfolding split strip_slashes
base [] = dot
base (c ∷ s) = or_slash (after_slash (split is_slash (strip_slashes (c ∷ s))))
